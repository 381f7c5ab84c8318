-- ===== src/Engine/LegacyStores/Slots.antt =====
-- engine/legacyStores.ts: when the pointer files of OPFS are a floor, and when they are refused.
use edgeproc_browser.Base.{
  ◌≡◌, ◌≤◌, Bytes, subst, ◌↔◌, refl, sym, ap, not, ◌>>=◌, ◌&&◌, ◌||◌, if◌then◌else◌, Bool, true,
  false, Option, none, some, List, [], ◌∷◌, ok, err, arith, ok-injective, length, ltb, inl, inr,
  Bool-cases,
}
use edgeproc_browser.Engine.Fault.{Fault, Result}
use edgeproc_browser.Engine.Platform.{Platform}
use edgeproc_browser.Engine.ActivePointer.{VersionPointer}
use edgeproc_browser.Engine.LegacyStores.{
  PointerFile, not_found, failed, file, PointerSlot, absent, unreadable, readable, is_readable,
  is_unreadable, pointer_in, opfs_pointers, parse_bytes, slot_of, read_pointer_slot,
  read_opfs_pointers,
}

clash : ◌≡◌ {A = Bool} false true → ⊥
clash h = cc

accepted_iff :
    {A : Type 0} (u1 u2 r3 u3 r2 : Bool) (e : Fault) (l found : A)
    → ((if u1 || (u2 && not r3) || (u3 && not r2) then err e else ok l) ≡ ok found)
      ↔ ((u1 ≡ false) × (u2 ≡ true → r3 ≡ true) × (u3 ≡ true → r2 ≡ true) × (l ≡ found))
accepted_iff true u2 r3 u3 r2 e l found = ((λ h. absurd (cc)), (λ h. absurd (cc)))
accepted_iff false true false u3 r2 e l found =
    ((λ h. absurd (cc)), (λ (a, b, c, d). absurd (clash (b refl))))
accepted_iff false u2 true true false e l found =
    ((λ h. absurd (ground arith)), (λ (a, b, c, d). absurd (clash (c refl))))
accepted_iff false false r3 true false e l found =
    ((λ h. absurd (cc)), (λ (a, b, c, d). absurd (clash (c refl))))
accepted_iff false true true u3 true e l found =
    ((λ h. (refl, (λ k. refl), (λ k. refl), ground arith)), (λ (a, b, c, d). ground arith))
accepted_iff false true true false r2 e l found =
    ((λ h. (refl, (λ k. refl), (λ k. cc), ok-injective h)), (λ (a, b, c, d). ap ok d))
accepted_iff false false r3 u3 true e l found =
    ((λ h. (refl, (λ k. cc), (λ k. refl), ground arith)), (λ (a, b, c, d). ground arith))
accepted_iff false false r3 false r2 e l found =
    ((λ h. (refl, (λ k. cc), (λ k. cc), ok-injective h)), (λ (a, b, c, d). ap ok d))

-- The slot of a file that says this.
abbrev slot_for : Option VersionPointer → PointerSlot
slot_for none = absent
slot_for (some pointer) = readable pointer

slot_for-sees :
    (o : Option VersionPointer)
    → (pointer_in (slot_for o) ≡ o) × (is_unreadable (slot_for o) ≡ false)
unfolding is_unreadable
slot_for-sees none = (refl, refl)
slot_for-sees (some pointer) = (refl, refl)

module _ (p : Platform) where
  -- What a file of at most 16 KiB says, a missing one nothing.
  abbrev pub Says : PointerFile → Option VersionPointer → Type 0
  Says not_found o = o ≡ none
  Says failed o = ⊥
  Says (file bytes) none = ⊥
  Says (file bytes) (some pointer) =
      (length bytes ≤ 16384) × (parse_bytes p (p.parse_json bytes) ≡ some pointer)

  -- A file that is there and that holds no pointer, or too much.
  abbrev pub IsTorn : PointerFile → Type 0
  IsTorn not_found = ⊥
  IsTorn failed = ⊥
  IsTorn (file bytes) = length bytes ≤ 16384 → parse_bytes p (p.parse_json bytes) ≡ none

  -- The two slots that are written in turn: each can be read or is missing, or one is torn and the
  -- other one holds a pointer.
  pub data IsPair (a b : PointerFile) (x y : Option VersionPointer) : Type 0 where
    whole : Says a x → Says b y → IsPair a b x y
    first_torn :
        IsTorn a
        → x ≡ none
        → (pointer : VersionPointer) → y ≡ some pointer
        → Says b (some pointer)
        → IsPair a b x y
    second_torn :
        IsTorn b
        → y ≡ none
        → (pointer : VersionPointer) → x ≡ some pointer
        → Says a (some pointer)
        → IsPair a b x y

  -- What the slot that was read tells of the file.
  abbrev Tells : PointerFile → PointerSlot → Type 0
  Tells f absent = f ≡ not_found
  Tells f unreadable = IsTorn f
  Tells f (readable pointer) = Says f (some pointer)

  slot_of-Tells :
      (bytes : Bytes) (o : Option VersionPointer)
      → parse_bytes p (p.parse_json bytes) ≡ o
      → length bytes ≤ 16384
      → Tells (file bytes) (slot_of p o)
  slot_of-Tells bytes none e small = λ _. e
  slot_of-Tells bytes (some pointer) e small = (small, e)

  read_pointer_slot-Tells :
      (f : PointerFile) (s : PointerSlot) → read_pointer_slot p f ≡ ok s → Tells f s
  unfolding read_pointer_slot
  read_pointer_slot-Tells not_found s h = subst (Tells not_found) (ok-injective h) refl
  read_pointer_slot-Tells failed s h = absurd (cc)
  read_pointer_slot-Tells (file bytes) s h = elim (Bool-cases (ltb 16384 (length bytes))) [
    | inl big ↦
        subst (Tells (file bytes)) (ok-injective (rw big at h))
          (λ small. absurd (ground (arith, big, small)))
    | inr fits ↦
        subst (Tells (file bytes)) (ok-injective (rw fits at h))
          (slot_of-Tells bytes _ refl (ground (arith, fits)))
  ]

  Says-slot :
      (f : PointerFile) (o : Option VersionPointer)
      → Says f o
      → read_pointer_slot p f ≡ ok (slot_for o)
  unfolding read_pointer_slot
  Says-slot not_found none h = refl
  Says-slot not_found (some pointer) h = absurd (cc)
  Says-slot failed o h = absurd h
  Says-slot (file bytes) none h = absurd h
  Says-slot (file bytes) (some pointer) (small, e) =
      let fits : ltb 16384 (length bytes) ≡ false = ground (arith, small) in rw (fits, e) refl

  IsTorn-slot : (f : PointerFile) → IsTorn f → read_pointer_slot p f ≡ ok unreadable
  unfolding read_pointer_slot
  IsTorn-slot not_found h = absurd h
  IsTorn-slot failed h = absurd h
  IsTorn-slot (file bytes) h = elim (Bool-cases (ltb 16384 (length bytes))) [
    | inl big ↦ rw big refl
    | inr fits ↦ let e = h (ground (arith, fits)) in rw (fits, e) refl
  ]

  Tells-Says :
      (f : PointerFile) (s : PointerSlot)
      → Tells f s
      → is_unreadable s ≡ false
      → Says f (pointer_in s)
  unfolding is_unreadable
  Tells-Says f absent h e = subst (λ g. Says g none) (sym h) refl
  Tells-Says f unreadable h e = absurd (cc)
  Tells-Says f (readable pointer) h e = h

  Tells-IsPair :
      (a b : PointerFile) (s t : PointerSlot)
      → Tells a s
      → Tells b t
      → (is_unreadable s ≡ true → is_readable t ≡ true)
      → (is_unreadable t ≡ true → is_readable s ≡ true)
      → IsPair a b (pointer_in s) (pointer_in t)
  unfolding is_unreadable is_readable
  Tells-IsPair a b unreadable (readable v) torn says h k = first_torn torn refl v refl says
  Tells-IsPair a b (readable v) unreadable says torn h k = second_torn torn refl v refl says
  Tells-IsPair a b unreadable absent torn says h k = absurd (clash (h refl))
  Tells-IsPair a b unreadable unreadable torn says h k = absurd (clash (h refl))
  Tells-IsPair a b absent unreadable says torn h k = absurd (clash (k refl))
  Tells-IsPair a b absent absent x y h k =
      whole (Tells-Says a absent x refl) (Tells-Says b absent y refl)
  Tells-IsPair a b absent (readable v) x y h k = whole (Tells-Says a absent x refl) y
  Tells-IsPair a b (readable v) absent x y h k = whole x (Tells-Says b absent y refl)
  Tells-IsPair a b (readable v) (readable w) x y h k = whole x y

  -- What the three files say when they are a floor.
  abbrev pub IsFloorOf :
      PointerFile → PointerFile → PointerFile → List (Option VersionPointer) → Type 0
  IsFloorOf active a b found =
      (x y z : Option VersionPointer) × (found ≡ x ∷ y ∷ z ∷ []) × Says active x × IsPair a b y z

  read-IsFloorOf :
      (active a b : PointerFile) (found : List (Option VersionPointer)) (q r s : PointerSlot)
      → Tells active q
      → Tells a r
      → Tells b s
      → opfs_pointers q r s ≡ ok found
      → IsFloorOf active a b found
  unfolding opfs_pointers
  read-IsFloorOf active a b found q r s said first second h =
      let (fine, one, other, same) =
        (accepted_iff (is_unreadable q) (is_unreadable r) (is_readable s) (is_unreadable s)
            (is_readable r) _ _ found).0
          h in
      (
        pointer_in q,
        pointer_in r,
        pointer_in s,
        sym same,
        Tells-Says active q said fine,
        Tells-IsPair a b r s first second one other,
      )

  floor_read :
      (active a b : PointerFile) (found : List (Option VersionPointer)) (u v w : Result PointerSlot)
      → ((q : PointerSlot) → u ≡ ok q → Tells active q)
      → ((r : PointerSlot) → v ≡ ok r → Tells a r)
      → ((s : PointerSlot) → w ≡ ok s → Tells b s)
      → (u >>= λ q. v >>= λ r. w >>= λ s. opfs_pointers q r s) ≡ ok found
      → IsFloorOf active a b found
  floor_read active a b found (ok q) (ok r) (ok s) x y z h =
      read-IsFloorOf active a b found q r s (x q refl) (y r refl) (z s refl) h
  floor_read active a b found (ok q) (ok r) (err e) x y z h = absurd (cc)
  floor_read active a b found (ok q) (err e) w x y z h = absurd (cc)
  floor_read active a b found (err e) v w x y z h = absurd (cc)

  pair_read :
      (a b : PointerFile) (y z : Option VersionPointer)
      → IsPair a b y z
      → (r s : PointerSlot) × (read_pointer_slot p a ≡ ok r)
        × (read_pointer_slot p b ≡ ok s)
        × (pointer_in r ≡ y)
        × (pointer_in s ≡ z)
        × (is_unreadable r ≡ true → is_readable s ≡ true)
        × (is_unreadable s ≡ true → is_readable r ≡ true)
  unfolding is_readable is_unreadable
  pair_read a b y z (whole first second) =
      let (seen, fine) = slot_for-sees y in
      let (shown, good) = slot_for-sees z in
      (
        slot_for y,
        slot_for z,
        Says-slot a y first,
        Says-slot b z second,
        seen,
        shown,
        (λ k. ground (arith, fine, k)),
        (λ k. ground (arith, good, k)),
      )
  pair_read a b y z (first_torn torn e v g says) = (
    unreadable,
    readable v,
    IsTorn-slot a torn,
    Says-slot b (some v) says,
    sym e,
    sym g,
    (λ k. refl),
    (λ k. absurd (cc)),
  )
  pair_read a b y z (second_torn torn e v g says) = (
    readable v,
    unreadable,
    Says-slot a (some v) says,
    IsTorn-slot b torn,
    sym g,
    sym e,
    (λ k. absurd (cc)),
    (λ k. refl),
  )

  -- The three files are a floor exactly if the unpaired one is missing or holds a pointer in at most
  -- 16 KiB, and so each of the pair, of which one may be there and hold none if the other one does
  -- hold one: the pointers are then those in the files, in their order, with nothing for a file that
  -- is missing or torn.
  pub read_opfs_pointers_iff :
      (active a b : PointerFile) (found : List (Option VersionPointer))
      → (read_opfs_pointers p active a b ≡ ok found) ↔ IsFloorOf active a b found
  unfolding read_opfs_pointers opfs_pointers
  read_opfs_pointers_iff active a b found = (
    λ h.
        floor_read active a b found _ _ _ (read_pointer_slot-Tells active)
          (read_pointer_slot-Tells a) (read_pointer_slot-Tells b) h,
    λ (x, y, z, same, said, pair).
        let (r, s, first, second, seen, shown, one, other) = pair_read a b y z pair in
        let (told, fine) = slot_for-sees x in
        rw (Says-slot active x said, first, second)
          ((accepted_iff (is_unreadable (slot_for x)) (is_unreadable r) (is_readable s)
              (is_unreadable s) (is_readable r) _ _ found).1
            (fine, one, other, rw (told, seen, shown) (sym same))),
  )
