-- ===== src/Engine/Tables/Counted.antt =====
-- engine/sqliteStore.ts: the count by which `#assertPresent` tells that every chunk has its row.
use edgeproc_browser.Base.{
  text_eq_refl, ◌∙◌, sym, subst, suc, ◌≤◌, ◌≡◌, ◌↔◌, refl, Bool, true, false, List, [], ◌∷◌,
  if◌then◌else◌, Text, text_eq, text_eq_iff, length, arith, All, length-select-le, ok, Bool-cases,
  inl, inr,
}
use edgeproc_browser.Base.Table.{put, remove, Table, contains, add, contains-add, has, get}
use edgeproc_browser.Engine.Tables.{keep_only, Tables, distinct, count_in, assert_present, column}

-- A primary key: no value stands twice.
abbrev pub IsDistinct : List Text → Type 0
IsDistinct [] = Unit
IsDistinct (k ∷ ks) = (contains ks k ≡ false) × IsDistinct ks

pub add-IsDistinct : (s : List Text) (k : Text) → IsDistinct s → IsDistinct (add s k)
unfolding contains add
add-IsDistinct [] k h = (refl, tt)
add-IsDistinct (j ∷ s) k h =
    ground (arith, text_eq_iff j k, contains-add s k j, text_eq_iff k j, add-IsDistinct s k)

pub distinct-IsDistinct : (hs : List Text) → IsDistinct (distinct hs)
unfolding distinct
distinct-IsDistinct [] = tt
distinct-IsDistinct (h ∷ hs) = add-IsDistinct (distinct hs) h (distinct-IsDistinct hs)

pub contains-distinct : (hs : List Text) (k : Text) → contains (distinct hs) k ≡ contains hs k
unfolding distinct contains
contains-distinct [] k = refl
contains-distinct (h ∷ hs) k =
    ground (arith, contains-add (distinct hs) h k, contains-distinct hs k)

-- One more value to look for: one more is found where it stands, and it was not counted before.
count_in_more :
    (ys xs : List Text) (x : Text)
    → contains xs x ≡ false
    → (if contains ys x then suc (count_in ys xs) else count_in ys xs) ≤ count_in ys (x ∷ xs)
unfolding count_in contains
count_in_more [] xs x h = omega arith
count_in_more (y ∷ ys) xs x h =
    ground (arith, text_eq_iff y x, text_eq_iff x y, count_in_more ys xs x h)

count_in-le : (xs ys : List Text) → IsDistinct xs → count_in xs ys ≤ count_in ys xs
unfolding count_in
count_in-le [] ys h = omega arith
count_in-le (x ∷ xs) ys h = ground (arith, count_in-le xs ys h.1, count_in_more ys xs x h.0)

-- Two columns without repetition count each other alike.
count_in_comm :
    (xs ys : List Text) → IsDistinct xs → IsDistinct ys → count_in xs ys ≡ count_in ys xs
count_in_comm xs ys h k = omega (arith, count_in-le xs ys h, count_in-le ys xs k)

-- All are counted exactly if all are listed.
count_in_all :
    (wanted keys : List Text)
    → (count_in wanted keys ≡ length wanted) ↔ All (λ w. contains keys w ≡ true) wanted
unfolding count_in
count_in_all [] keys = ((λ h. tt), (λ h. refl))
count_in_all (w ∷ wanted) keys = (
  λ h. ground (arith, count_in_all wanted keys, length-select-le (contains keys) wanted),
  λ h. ground (arith, count_in_all wanted keys),
)

-- Every chunk has its row.
abbrev pub IsComplete : List Text → Tables → Type 0
IsComplete chunks t = (h : Text) → contains chunks h ≡ true → has t.chunk h ≡ true

contains-column : {V : Type 0} (t : Table V) (h : Text) → contains (column t) h ≡ has t h
unfolding contains get
contains-column [] h = refl
contains-column ((k, v) ∷ t) h = ground (arith, contains-column t h)

All_iff :
    (ws : List Text) (test : Text → Bool)
    → All (λ w. test w ≡ true) ws ↔ ((w : Text) → contains ws w ≡ true → test w ≡ true)
unfolding contains
All_iff [] test = ((λ _ w h. cc), (λ _. tt))
All_iff (v ∷ ws) test = (
  λ (here, rest) w h. elim (Bool-cases (text_eq v w)) [
    | inl e ↦ subst (λ (u : Text). test u ≡ true) ((text_eq_iff v w).0 e) here
    | inr e ↦ (All_iff ws test).0 rest w (rw e at h)
  ],
  λ f. (
    f v (rw text_eq_refl refl),
    (All_iff ws test).1
        (λ w h. f w (elim (Bool-cases (text_eq v w)) [ inl e ↦ rw e refl | inr e ↦ rw e h ])),
  ),
)

-- `#assertPresent` passes exactly if every chunk has its row: hashes that are asked for twice, and
-- rows that are not asked for, make no difference to the count.
pub assert_present_iff :
    (chunks : List Text) (t : Tables)
    → IsDistinct (column t.chunk)
    → (assert_present chunks t ≡ ok tt) ↔ IsComplete chunks t
unfolding assert_present
assert_present_iff chunks t keys =
    let wanted = distinct chunks in
    let same = count_in_comm (column t.chunk) wanted keys (distinct-IsDistinct chunks) in
    let all = count_in_all wanted (column t.chunk) in
    let each = All_iff wanted (contains (column t.chunk)) in
    (
      λ h w listed.
          sym (contains-column t.chunk w)
          ∙ each.0 (all.0 (ground arith)) w (contains-distinct chunks w ∙ listed),
      λ complete.
          let counted = all.1 (
            each.1 λ w listed.
              contains-column t.chunk w ∙ complete w (sym (contains-distinct chunks w) ∙ listed)) in
          ground arith,
    )

put-IsDistinct :
    {V : Type 0} (t : Table V) (h : Text) (v : V)
    → IsDistinct (column t)
    → IsDistinct (column (put t h v))
      × ((k : Text)
          → contains (column (put t h v)) k ≡ (if text_eq h k then true else contains (column t) k))
unfolding put contains
put-IsDistinct [] h v d = ((refl, tt), λ k. refl)
put-IsDistinct ((j, w) ∷ t) h v d =
    let (rest, found) = put-IsDistinct t h v d.1 in
    (
      ground (arith, text_eq_iff j h, text_eq_iff h j, found j),
      λ k. ground (arith, text_eq_iff j h, text_eq_iff j k, text_eq_iff h k, found k),
    )

keep_only-IsDistinct :
    {V : Type 0} (kept : Text → Bool) (t : Table V)
    → IsDistinct (column t)
    → IsDistinct (column (keep_only kept t))
      × ((k : Text)
          → contains (column t) k ≡ false
          → contains (column (keep_only kept t)) k ≡ false)
unfolding keep_only contains
keep_only-IsDistinct kept [] d = (tt, λ k h. refl)
keep_only-IsDistinct kept ((j, w) ∷ t) d =
    let (rest, found) = keep_only-IsDistinct kept t d.1 in
    (ground (arith, found j), λ k h. ground (arith, found k))

remove-IsDistinct :
    {V : Type 0} (t : Table V) (h : Text)
    → IsDistinct (column t)
    → IsDistinct (column (remove t h))
      × ((k : Text) → contains (column t) k ≡ false → contains (column (remove t h)) k ≡ false)
unfolding remove contains
remove-IsDistinct [] h d = (tt, λ k e. refl)
remove-IsDistinct ((j, w) ∷ t) h d =
    let (rest, found) = remove-IsDistinct t h d.1 in
    (ground (arith, found j), λ k e. ground (arith, found k))
