-- ===== src/Engine/ActivePointer/Choice.antt =====
-- engine/activePointer.ts: the choice among durable pointers, and the promotion test.
use edgeproc_browser.Base.{
  ℕ, ◌≤◌, ◌≡◌, ◌↔◌, refl, true, Option, none, some, List, [], ◌∷◌, arith, ok, All, ◌⊎◌, inl, inr,
  ◌∙◌, sym, subst, >>=-eq-ok,
}
use edgeproc_browser.Engine.ActivePointer.{
  Counter, undefined, null, count, VersionPointer, same_counter, above, select_step, select_from,
  select_highest_pointer, can_promote_pointer,
}
use edgeproc_browser.Engine.ActivePointer.Same.{
  IsSame, IsSame-refl, IsSame-trans, same_fields-IsSame, IsSame-same_fields,
}

-- `h` is at least as new as `c`: a candidate with a counter is not above h's counter and is the same
-- pointer at an equal one; a candidate with none is below any counter, or is the same pointer.
abbrev pub Ranks : VersionPointer → VersionPointer → Counter → Counter → Type 0
Ranks h c (count n) (count m) = (m ≤ n) × (m ≡ n → IsSame c h)
Ranks h c (count n) _ = Unit
Ranks h c _ (count m) = ⊥
Ranks h c _ _ = IsSame c h

abbrev pub Dominates : VersionPointer → VersionPointer → Type 0
Dominates h c = Ranks h c h.sequence c.sequence

Dominates-refl : (h : VersionPointer) → Dominates h h
Dominates-refl h = go h.sequence
  where
    go : (k : Counter) → Ranks h h k k
    go (count n) = (omega arith, λ _. IsSame-refl h)
    go undefined = IsSame-refl h
    go null = IsSame-refl h

Ranks-trans :
    (a b c : VersionPointer) (x y z : Counter) → Ranks a b x y → Ranks b c y z → Ranks a c x z
Ranks-trans a b c (count l) (count m) (count n) h k =
    (omega arith, λ e. IsSame-trans (k.1 (omega arith)) (h.1 (omega arith)))
Ranks-trans a b c (count l) (count m) _ h k = tt
Ranks-trans a b c (count l) undefined (count n) h k = elim k [ ]
Ranks-trans a b c (count l) null (count n) h k = elim k [ ]
Ranks-trans a b c (count l) _ _ h k = tt
Ranks-trans a b c undefined (count m) z h k = elim h [ ]
Ranks-trans a b c null (count m) z h k = elim h [ ]
Ranks-trans a b c undefined undefined (count n) h k = elim k [ ]
Ranks-trans a b c undefined null (count n) h k = elim k [ ]
Ranks-trans a b c null undefined (count n) h k = elim k [ ]
Ranks-trans a b c null null (count n) h k = elim k [ ]
Ranks-trans a b c _ _ _ h k = IsSame-trans k h

pub Dominates-trans : (a b c : VersionPointer) → Dominates a b → Dominates b c → Dominates a c
Dominates-trans a b c = Ranks-trans a b c a.sequence b.sequence c.sequence

-- What a round of the loop has established: the next pointer is one of the two, and dominates both.
pub record Chosen (h c n : VersionPointer) : Type 0 where
  pub over_old : Dominates n h
  pub over_candidate : Dominates n c
  pub one_of : (n ≡ h) ⊎ (n ≡ c)

-- The winner of a round, at the two counters.
abbrev Wins : VersionPointer → VersionPointer → VersionPointer → Counter → Counter → Type 0
Wins h c n x y = ((n ≡ h) × Ranks h c x y) ⊎ ((n ≡ c) × Ranks c h y x)

select_step-Wins :
    (h c n : VersionPointer) (x y : Counter)
    → h.sequence ≡ x
    → c.sequence ≡ y
    → select_step (some h) c ≡ ok (some n)
    → Wins h c n x y
unfolding select_step same_counter above
select_step-Wins h c n (count i) (count j) p q e = ground (arith, same_fields-IsSame c h)
select_step-Wins h c n (count i) _ p q e = ground arith
select_step-Wins h c n undefined (count j) p q e = ground arith
select_step-Wins h c n null (count j) p q e = ground arith
select_step-Wins h c n _ _ p q e = ground (arith, same_fields-IsSame c h)

select_step-Chosen : (h c n : VersionPointer) → select_step (some h) c ≡ ok (some n) → Chosen h c n
select_step-Chosen h c n e = elim (select_step-Wins h c n h.sequence c.sequence refl refl e) [
  | inl (same, r) ↦ record {
    over_old = rw same (Dominates-refl h);
    over_candidate = rw same r;
    one_of = inl same;
  }
  | inr (same, r) ↦ record {
    over_old = rw same r;
    over_candidate = rw same (Dominates-refl c);
    one_of = inr same;
  }
]

-- A property of every pointer that is there.
abbrev pub EachPresent : (VersionPointer → Type 0) → List (Option VersionPointer) → Type 0
EachPresent P cs = All (λ o. elim o [ none ↦ Unit | some c ↦ P c ]) cs

-- The pointer is one of the candidates.
abbrev pub IsCandidate : VersionPointer → List (Option VersionPointer) → Type 0
IsCandidate p [] = ⊥
IsCandidate p (none ∷ cs) = IsCandidate p cs
IsCandidate p (some c ∷ cs) = (p ≡ c) ⊎ IsCandidate p cs

-- What the loop has established when it started from `h`.
record Selected (h n : VersionPointer) (cs : List (Option VersionPointer)) : Type 0 where
  pub over_start : Dominates n h
  pub over_all : EachPresent (Dominates n) cs
  pub origin : (n ≡ h) ⊎ IsCandidate n cs

Selected-cons :
    (h c m n : VersionPointer) (cs : List (Option VersionPointer))
    → Chosen h c m
    → Selected m n cs
    → Selected h n (some c ∷ cs)
Selected-cons h c m n cs k s = record {
  over_start = Dominates-trans n m h s.over_start k.over_old;
  over_all = (Dominates-trans n m c s.over_start k.over_candidate, s.over_all);
  origin = elim s.origin [
    | inr listed ↦ inr (inr listed)
    | inl same ↦ elim k.one_of [ inl old ↦ inl (same ∙ old) | inr new ↦ inr (inl (same ∙ new)) ]
  ];
}

pub select_step-ne-none :
    (h c : VersionPointer) (o : Option VersionPointer)
    → select_step (some h) c ≡ ok o
    → (n : VersionPointer) × (o ≡ some n)
unfolding select_step
select_step-ne-none h c none e = ground arith
select_step-ne-none h c (some n) e = (n, refl)

select_from-Selected :
    (h n : VersionPointer) (cs : List (Option VersionPointer))
    → select_from (some h) cs ≡ ok (some n)
    → Selected h n cs
unfolding select_from
select_from-Selected h n [] e =
    let same : h ≡ n = ground arith in
    record {
      over_start = subst (λ m. Dominates m h) same (Dominates-refl h);
      over_all = tt;
      origin = inl (sym same);
    }
select_from-Selected h n (none ∷ cs) e =
    let s = select_from-Selected h n cs e in
    record { over_start = s.over_start; over_all = (tt, s.over_all); origin = s.origin }
select_from-Selected h n (some c ∷ cs) e =
    let (o, stepped, rest) = >>=-eq-ok (select_step (some h) c) (λ next. select_from next cs) e in
    let (m, is_m) = select_step-ne-none h c o stepped in
    Selected-cons h c m n cs (select_step-Chosen h c m (rw is_m at stepped))
      (select_from-Selected m n cs (rw is_m at rest))

-- The pointer that `selectHighestPointer` returns is one of the candidates, and it dominates each.
pub select_highest_pointer-Dominates :
    (cs : List (Option VersionPointer)) (n : VersionPointer)
    → select_highest_pointer cs ≡ ok (some n)
    → IsCandidate n cs × EachPresent (Dominates n) cs
unfolding select_highest_pointer select_from select_step
select_highest_pointer-Dominates [] n e = ground arith
select_highest_pointer-Dominates (none ∷ cs) n e =
    let (listed, all) = select_highest_pointer-Dominates cs n e in (listed, (tt, all))
select_highest_pointer-Dominates (some c ∷ cs) n e =
    let s = select_from-Selected c n cs e in (s.origin, (s.over_start, s.over_all))

-- Between two pointers with counters `canPromotePointer` allows the promotion exactly if the incoming
-- pointer dominates the current one.
pub can_promote_pointer_iff :
    (current incoming : VersionPointer) (n m : ℕ)
    → current.sequence ≡ count n
    → incoming.sequence ≡ count m
    → (can_promote_pointer (some current) incoming ≡ true)
      ↔ Ranks incoming current (count m) (count n)
unfolding can_promote_pointer above
can_promote_pointer_iff current incoming n m p q = (
  λ h. ground (arith, same_fields-IsSame current incoming),
  λ r. ground (arith, IsSame-same_fields current incoming, r.1),
)
