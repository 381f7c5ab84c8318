-- ===== src/Engine/ChunkStore/Promoted.antt =====
-- engine/sqliteStore.ts: what `promote` does, on every branch.
use edgeproc_browser.Base.{
  ℕ, suc, ◌≡◌, ◌↔◌, refl, ap, true, false, Option, none, some, List, [], ok, err, Outcome-cases,
  Bool-cases, inl, inr, Text, arith,
}
use edgeproc_browser.Base.Table.{values}
use edgeproc_browser.Base.Effects.{◌>>=◌, after}
use edgeproc_browser.Engine.Fault.{Fault}
use edgeproc_browser.Engine.ActivePointer.{VersionPointer}
use edgeproc_browser.Engine.FloorGate.{admits, install_pointer, sequence_of}
use edgeproc_browser.Engine.FloorGate.Admitted.{AtMost-not_higher, AtMost-max_left}
use edgeproc_browser.Engine.Tables.{
  Tables, PointerRow, VerifiedChunk, insert_rows, read_row, write_row, lowers, pointer_row,
  floor_row, column,
}
use edgeproc_browser.Engine.Tables.Counted.{IsDistinct, IsComplete, assert_present_iff}
use edgeproc_browser.Engine.ChunkStore.Steady.{transaction-cases}
use edgeproc_browser.Engine.ChunkStore.{
  Store, transaction, clear_pending, promote, promote_work, assert_listed,
}

-- The trigger has nothing to say of a row that the gate has let through.
lowers-install_pointer :
    (o : Option PointerRow) (p : VersionPointer)
    → lowers o (install_pointer (floor_row o) p) ≡ false
unfolding install_pointer
lowers-install_pointer none p = refl
lowers-install_pointer (some row) p =
    AtMost-not_higher _ _ (AtMost-max_left row.floor_sequence (sequence_of p))

-- The tables with the pending chunks in, and then with the new pointer.
abbrev pub inserted : Store → Tables
inserted s = insert_rows (values s.pending) s.tables

abbrev pub installed : VersionPointer → Tables → Tables
installed p t = record t { active_pointer = some (pointer_row (install_pointer (read_row t) p)) }

write_row-install_pointer :
    (t : Tables) (p : VersionPointer)
    → write_row (install_pointer (read_row t) p) t ≡ (ok tt, installed p t)
unfolding write_row read_row
write_row-install_pointer t p = rw (lowers-install_pointer t.active_pointer p) refl

-- What `promote` asks for.
abbrev pub IsListed : Option (List Text) → Tables → Type 0
IsListed none t = Unit
IsListed (some chunks) t = IsComplete chunks t

assert_listed_iff :
    (o : Option (List Text)) (t : Tables)
    → IsDistinct (column t.chunk)
    → (assert_listed o t ≡ ok tt) ↔ IsListed o t
assert_listed_iff none t k = ((λ h. tt), (λ h. refl))
assert_listed_iff (some chunks) t k = assert_present_iff chunks t k

module _ (pending : List VerifiedChunk) (p : VersionPointer) (chunks : Option (List Text))
    (t : Tables) where
  promote_work-ok :
      assert_listed chunks (insert_rows pending t) ≡ ok tt
      → admits (read_row (insert_rows pending t)) p ≡ true
      → promote_work pending p chunks t ≡ (ok tt, installed p (insert_rows pending t))
  unfolding promote_work ◌>>=◌
  promote_work-ok h k = rw (h, k, write_row-install_pointer (insert_rows pending t) p) refl

  promote_work-inverts :
      (promote_work pending p chunks t).0 ≡ ok tt
      → (assert_listed chunks (insert_rows pending t) ≡ ok tt)
        × (admits (read_row (insert_rows pending t)) p ≡ true)
  unfolding promote_work ◌>>=◌
  promote_work-inverts h = elim (Outcome-cases (assert_listed chunks (insert_rows pending t))) [
    | inr (x, e) ↦ absurd (ground arith)
    | inl (tt, e) ↦ elim (Bool-cases (admits (read_row (insert_rows pending t)) p)) [
      | inl k ↦ (e, k)
      | inr k ↦ absurd (ground arith)
    ]
  ]

module _ (disk : ℕ → Option Fault) (s : Store) (p : VersionPointer)
    (chunks : Option (List Text)) where
  -- The store after a promotion: one commit more, nothing pending.
  abbrev pub promoted_store : Store
  promoted_store = record {
    tables = installed p (inserted s);
    commits = suc s.commits;
    pending = [];
    pending_bytes = 0;
  }

  promote_ok :
      assert_listed chunks (inserted s) ≡ ok tt
      → admits (read_row (inserted s)) p ≡ true
      → disk s.commits ≡ none
      → promote disk p chunks s ≡ (ok tt, promoted_store)
  unfolding promote transaction ◌>>=◌ clear_pending
  promote_ok h k l = rw (promote_work-ok (values s.pending) p chunks s.tables h k, l) refl

  pub promote_inverts :
      (promote disk p chunks s).0 ≡ ok tt
      → (assert_listed chunks (inserted s) ≡ ok tt)
        × (admits (read_row (inserted s)) p ≡ true)
        × (disk s.commits ≡ none)
  unfolding promote transaction ◌>>=◌ clear_pending
  promote_inverts =
      transaction-cases disk
        (λ r.
          (after (λ _. clear_pending) r).0 ≡ ok tt
          → (assert_listed chunks (inserted s) ≡ ok tt)
            × (admits (read_row (inserted s)) p ≡ true)
            × (disk s.commits ≡ none))
        (promote_work (values s.pending) p chunks) s (λ e n h. absurd (cc))
        λ u t e k h.
          let (listed, admitted) =
            promote_work-inverts (values s.pending) p chunks s.tables (ap (λ r. r.0) e) in
          (listed, admitted, k)

  -- `promote` returns exactly if every chunk that the release needs has its row once the pending ones
  -- are in, the gate admits the pointer, and the transaction is committed; the trigger never stops it.
  pub promote_iff :
      IsDistinct (column (inserted s).chunk)
      → ((promote disk p chunks s).0 ≡ ok tt) ↔ (
          IsListed chunks (inserted s)
          × (admits (read_row (inserted s)) p ≡ true)
          × (disk s.commits ≡ none))
  promote_iff keys = (
    λ h.
        let (listed, admitted, k) = promote_inverts h in
        ((assert_listed_iff chunks (inserted s) keys).0 listed, admitted, k),
    λ (listed, admitted, k).
        ap (λ r. r.0)
          (promote_ok ((assert_listed_iff chunks (inserted s) keys).1 listed) admitted k),
  )

  -- A `promote` that returns leaves the pointer, its floor and its identity in one row beside the
  -- chunks that were pending, and nothing pending; one that throws leaves the tables and what is
  -- pending as they were.
  pub promote_atomic :
      ((promote disk p chunks s).0 ≡ ok tt → (promote disk p chunks s).1 ≡ promoted_store)
      × ((e : Fault)
          → (promote disk p chunks s).0 ≡ err e
          → ((promote disk p chunks s).1.tables ≡ s.tables)
            × ((promote disk p chunks s).1.pending ≡ s.pending))
  unfolding promote transaction ◌>>=◌ clear_pending
  promote_atomic = (
    λ h.
        let (listed, admitted, k) = promote_inverts h in
        ap (λ r. r.1) (promote_ok listed admitted k),
    λ x.
        transaction-cases disk
          (λ r.
            (after (λ _. clear_pending) r).0 ≡ err x
            → ((after (λ _. clear_pending) r).1.tables ≡ s.tables)
              × ((after (λ _. clear_pending) r).1.pending ≡ s.pending))
          (promote_work (values s.pending) p chunks) s (λ e n h. (refl, refl))
          λ u t e k h. absurd (cc),
  )
