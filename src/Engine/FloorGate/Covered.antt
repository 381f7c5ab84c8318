-- ===== src/Engine/FloorGate/Covered.antt =====
-- engine/sqliteStore.ts: the merged floor covers every legacy pointer.
use edgeproc_browser.Engine.FloorGate.Merged.{conflicting-AtMost, not_admitted-AtMost}
use edgeproc_browser.Base.{
  >>=-eq-ok, subst, ℕ, ◌≡◌, Bool, true, false, Option, none, some, List, [], ◌∷◌, refl, Outcome, ok,
  err, Bool-cases, inl, inr, ◌&&◌, not,
}
use edgeproc_browser.Engine.Fault.{Fault}
use edgeproc_browser.Engine.ActivePointer.{
  select_step, select_from, Counter, VersionPointer, count, undefined, null, same_number,
  can_promote_pointer, select_highest_pointer,
}
use edgeproc_browser.Engine.ActivePointer.Choice.{
  select_step-ne-none, Ranks, Dominates, EachPresent, select_highest_pointer-Dominates,
}
use edgeproc_browser.Engine.FloorGate.{
  FloorRow, sequence_of, sequence_of_counter, admits, install_pointer, highest_sequence, is_none,
  merge_highest, merge_outcome, merge_legacy_floor,
}
use edgeproc_browser.Engine.FloorGate.Admitted.{
  AtMost, AtMost-trans, AtMost-max_left, AtMost-max_right,
}

-- The pointer of the row is not above its floor.
abbrev pub IsFloored : FloorRow → Type 0
IsFloored row =
    (q : VersionPointer) → row.pointer ≡ some q → AtMost (sequence_of q) row.floor_sequence

blocked_lem :
    (row : FloorRow) (p : VersionPointer)
    → IsFloored row
    → row.floor_sequence ≡ none
    → can_promote_pointer row.pointer p ≡ true
unfolding sequence_of can_promote_pointer
blocked_lem row p floored e = go row.pointer refl
  where
    counted :
        (q : VersionPointer) (c : Counter)
        → q.sequence ≡ c
        → row.pointer ≡ some q
        → can_promote_pointer (some q) p ≡ true
    counted q (count n) k h = absurd (
        subst (λ (o : Option ℕ). AtMost (some n) o) e
          (subst (λ (c : Counter). AtMost (sequence_of_counter c) row.floor_sequence) k
            (floored q h)))
    counted q undefined k h = rw k refl
    counted q null k h = rw k refl

    go : (o : Option VersionPointer) → row.pointer ≡ o → can_promote_pointer o p ≡ true
    go none h = refl
    go (some q) h = counted q q.sequence refl h

not_admitted-covered :
    (row : FloorRow) (p : VersionPointer)
    → IsFloored row
    → admits row p ≡ false
    → AtMost (sequence_of p) row.floor_sequence
unfolding admits
not_admitted-covered row p floored h = elim (not_admitted-AtMost row p h) [
  | inl k ↦ k
  | inr e ↦ let open_gate = blocked_lem row p floored e in let closed = rw e at h in absurd (cc)
]

merge_highest-covered :
    (row : FloorRow) (legacy : VersionPointer)
    → IsFloored row
    → AtMost (sequence_of legacy) (merge_highest row legacy).floor_sequence
unfolding merge_highest install_pointer
merge_highest-covered row legacy floored = elim (Bool-cases (admits row legacy)) [
  | inl e ↦ elim (Bool-cases (is_none (sequence_of legacy) && not (is_none row.pointer))) [
    | inl k ↦ rw (e, k) (absent (sequence_of legacy) row.floor_sequence _ k)
    | inr k ↦ rw (e, k) (AtMost-max_right row.floor_sequence (sequence_of legacy))
  ]
  | inr e ↦ elim (Bool-cases (same_number (sequence_of legacy) row.floor_sequence)) [
    | inl k ↦ rw (e, k) (not_admitted-covered row legacy floored e)
    | inr k ↦ rw (e, k) (not_admitted-covered row legacy floored e)
  ]
]
  where
    absent : (a b : Option ℕ) (c : Bool) → (is_none a && c) ≡ true → AtMost a b
    absent none b c h = tt
    absent (some n) b c h = cc

pub EachPresent-map :
    (P Q : VersionPointer → Type 0) (cs : List (Option VersionPointer))
    → ((c : VersionPointer) → P c → Q c)
    → EachPresent P cs
    → EachPresent Q cs
EachPresent-map P Q [] f h = tt
EachPresent-map P Q (none ∷ cs) f h = (tt, EachPresent-map P Q cs f h.1)
EachPresent-map P Q (some c ∷ cs) f h = (f c h.0, EachPresent-map P Q cs f h.1)

highest_sequence-covers :
    (cs : List (Option VersionPointer))
    → EachPresent (λ c. AtMost (sequence_of c) (highest_sequence cs)) cs
unfolding highest_sequence
highest_sequence-covers [] = tt
highest_sequence-covers (none ∷ cs) = (tt, highest_sequence-covers cs)
highest_sequence-covers (some c ∷ cs) = (
  AtMost-max_left (sequence_of c) (highest_sequence cs),
  EachPresent-map _ _ cs
      (λ d h. AtMost-trans _ _ _ h (AtMost-max_right (sequence_of c) (highest_sequence cs)))
      (highest_sequence-covers cs),
)

Dominates-AtMost : (h c : VersionPointer) → Dominates h c → AtMost (sequence_of c) (sequence_of h)
unfolding sequence_of
Dominates-AtMost h c k = go h.sequence c.sequence k
  where
    go : (x y : Counter) → Ranks h c x y → AtMost (sequence_of_counter y) (sequence_of_counter x)
    go (count n) (count m) k = k.0
    go (count n) undefined k = tt
    go (count n) null k = tt
    go undefined (count m) k = absurd k
    go null (count m) k = absurd k
    go undefined undefined k = tt
    go undefined null k = tt
    go null undefined k = tt
    go null null k = tt

select_from-ne-none :
    (h : VersionPointer) (cs : List (Option VersionPointer)) → select_from (some h) cs ≡ ok none → ⊥
unfolding select_from
select_from-ne-none h [] e = cc
select_from-ne-none h (none ∷ cs) e = select_from-ne-none h cs e
select_from-ne-none h (some c ∷ cs) e =
    let (o, stepped, rest) = >>=-eq-ok (select_step (some h) c) (λ next. select_from next cs) e in
    let (m, is_m) = select_step-ne-none h c o stepped in select_from-ne-none m cs (rw is_m at rest)

no_candidate :
    (P : VersionPointer → Type 0) (cs : List (Option VersionPointer))
    → select_highest_pointer cs ≡ ok none
    → EachPresent P cs
unfolding select_highest_pointer select_from select_step
no_candidate P [] e = tt
no_candidate P (none ∷ cs) e = (tt, no_candidate P cs e)
no_candidate P (some c ∷ cs) e = absurd (select_from-ne-none c cs e)

-- Merging puts the floor at or above the sequence of every legacy pointer, also where these disagree,
-- if the pointer of the row is not above its floor.
pub merge_legacy_floor-covers :
    (row : FloorRow) (pointers : List (Option VersionPointer))
    → IsFloored row
    → EachPresent
        (λ c. AtMost (sequence_of c) (merge_legacy_floor row pointers).floor_sequence)
        pointers
unfolding merge_legacy_floor
merge_legacy_floor-covers row pointers floored = go (select_highest_pointer pointers) refl
  where
    go :
        (r : Outcome Fault (Option VersionPointer))
        → select_highest_pointer pointers ≡ r
        → EachPresent
            (λ c. AtMost (sequence_of c) (merge_outcome row pointers r).floor_sequence)
            pointers
    go (err e) h =
        EachPresent-map _ _ pointers
          (λ c k. AtMost-trans _ _ _ k (conflicting-AtMost row (highest_sequence pointers)).1)
          (highest_sequence-covers pointers)
    go (ok none) h = no_candidate _ pointers h
    go (ok (some legacy)) h =
        EachPresent-map _ _ pointers
          (λ c k.
            AtMost-trans _ _ _ (Dominates-AtMost legacy c k)
              (merge_highest-covered row legacy floored))
          (select_highest_pointer-Dominates pointers legacy h).1
