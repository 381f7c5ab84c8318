-- ===== src/Engine/Migration/Copied.antt =====
-- engine/migration.ts: what is in force once the copy of the older stores has returned.
use edgeproc_browser.Base.{
  ℕ, ◌≡◌, refl, sym, ◌∙◌, ap, subst, Bool, true, false, Option, List, [], ◌∷◌, ok, err, Outcome,
  All, ◌||◌, if◌then◌else◌,
}
use edgeproc_browser.Base.Table.{Table, has}
use edgeproc_browser.Base.Effects.{
  Exec, Fixes, Fixes-bind, Fixes-pure, Fixes-each, ◌>>=◌, after, raise, pure, each,
}
use edgeproc_browser.Base.Returns.{Returns, returned, threw, bind_Returns, Returns-at}
use edgeproc_browser.Engine.Fault.{Fault, plain}
use edgeproc_browser.Engine.Platform.{Platform}
use edgeproc_browser.Engine.ActivePointer.{VersionPointer}
use edgeproc_browser.Engine.FloorGate.Admitted.{AtMost, AtMost-trans}
use edgeproc_browser.Engine.FloorGate.Covered.{IsFloored, EachPresent-map}
use edgeproc_browser.Engine.Tables.{PointerRow, ChunkRow, VerifiedChunk, read_row}
use edgeproc_browser.Engine.ChunkStore.{
  LegacyImport, Store, has_chunk, import_legacy, mark_migration_done, read_floor,
}
use edgeproc_browser.Engine.ChunkStore.Steady.{transaction-cases}
use edgeproc_browser.Engine.ChunkStore.Floor.{
  row_floor, floor_of, transaction-Rises, import_work-Rises,
}
use edgeproc_browser.Engine.Migration.{
  LegacySource, LegacySnapshot, on_store, on_legacy, read_legacy_pointers, import_legacy_floor,
  assert_copied, copy_legacy, copy_snapshots, finish_migration, verified_chunks,
}
use edgeproc_browser.Engine.Migration.Covers.{
  IsCovered, Imported, in_force, refused, import_legacy_floor-Imported, on_legacy-Fixes,
}

-- The chunk is one that `hasChunk` finds.
abbrev pub IsHeld : Store → VerifiedChunk → Type 0
IsHeld s c = (has s.pending c.hash || has s.tables.chunk c.hash) ≡ true

-- What is in force once the copy has returned: the floor covers each pointer that was read, and each
-- chunk that verified is held.
pub record IsCopied (p : Platform) (found : Outcome Fault (List (Option VersionPointer)))
    (taken : Outcome Fault (List LegacySnapshot)) (s : Store) : Type 0 where
  pub pointers : List (Option VersionPointer)
  pub read : found ≡ ok pointers
  pub covered : IsCovered pointers (floor_of s)
  pub snapshots : List LegacySnapshot
  pub snapshots_read : taken ≡ ok snapshots
  pub held : All (IsHeld s) (verified_chunks p snapshots).0

pub IsCovered-raise :
    (pointers : List (Option VersionPointer)) (a b : Option ℕ)
    → AtMost a b
    → IsCovered pointers a
    → IsCovered pointers b
IsCovered-raise pointers a b h = EachPresent-map _ _ pointers (λ c k. AtMost-trans _ _ _ k h)

Returns-eq :
    {S A : Type 0} {Q : A → S → Type 0} (r : Outcome Fault A × S) (a : A) (t : S)
    → Returns Q r
    → r ≡ (ok a, t)
    → Q a t
Returns-eq {Q = Q} r a t h e = subst (Q a) (ap (λ z. z.1) e) (Returns-at r a h (ap (λ z. z.0) e))

-- A run that changed nothing, and found `P` if it returned.
data Checked {S A : Type 0} (x : S) (P : Type 0) : Outcome Fault A × S → Type 0 where
  passed : {a : A} → P → Checked x P (ok a, x)
  stopped : {e : Fault} → Checked x P (err e, x)

Checked-bind :
    {S A B : Type 0} {x : S} {P Q : Type 0} (m : Exec Fault S A) (f : A → Exec Fault S B)
    → Checked x P (m x)
    → ((a : A) → P → Checked x Q (f a x))
    → Checked x Q ((m >>= f) x)
unfolding ◌>>=◌
Checked-bind {S} {A} {x = x} {P = P} {Q = Q} m f c k = go (m x) c
  where
    go : (r : Outcome Fault A × S) → Checked x P r → Checked x Q (after f r)
    go (ok a, y) (passed h) = k a h
    go (err e, y) stopped = stopped

module _ {W : Type 0} where
  assert_copied-Checked :
      (c : VerifiedChunk) (x : Store × W) → Checked x (IsHeld x.0 c) (assert_copied c x)
  unfolding assert_copied ◌>>=◌ on_store has_chunk
  assert_copied-Checked c (s, w) = go (has s.pending c.hash || has s.tables.chunk c.hash) refl
    where
      go :
          (b : Bool)
          → (has s.pending c.hash || has s.tables.chunk c.hash) ≡ b
          → Checked {S = Store × W}
              (s, w)
              (IsHeld s c)
              ((if b then pure tt else raise (plain "migrated chunk is missing after commit"))
                (s, w))
      go true e = passed e
      go false e = stopped

  all_copied-Checked :
      (cs : List VerifiedChunk) (x : Store × W)
      → Checked x (All (IsHeld x.0) cs) (each assert_copied cs x)
  unfolding each
  all_copied-Checked [] x = passed tt
  all_copied-Checked (c ∷ cs) x =
      Checked-bind _ _ (assert_copied-Checked c x)
        λ u here. Checked-bind _ _ (all_copied-Checked cs x) λ us rest. passed (here, rest)

  Checked-Returns :
      {A : Type 0} {P : Type 0} (x : Store × W) (r : Outcome Fault A × (Store × W))
      → Checked x P r
      → Returns (λ _ y. (y.0 ≡ x.0) × P) r
  Checked-Returns x (ok a, y) (passed h) = returned (refl, h)
  Checked-Returns x (err e, y) stopped = threw

  imported-covers :
      (disk : ℕ → Option Fault) (s : Store) (found : Outcome Fault (List (Option VersionPointer)))
      (r : Outcome Fault (Unit {0}) × (Store × W))
      → Imported {W = W} disk s found r
      → Returns
          (λ _ y.
            (pointers : List (Option VersionPointer)) × (found ≡ ok pointers)
            × IsCovered pointers (floor_of y.0))
          r
  imported-covers disk s found (ok tt, y) (in_force pointers t w e covered) =
      returned (pointers, e, covered)
  imported-covers disk s found (err e, y) (refused t w k) = threw

imported-AtMost :
    {W : Type 0} (disk : ℕ → Option Fault) (x : Store × W) (input : LegacyImport) (y : Store × W)
    (u : Unit {0})
    → on_store (import_legacy disk input) x ≡ (ok u, y)
    → AtMost (floor_of x.0) (floor_of y.0)
unfolding on_store import_legacy
imported-AtMost disk x input y u e =
    subst (λ r. AtMost (floor_of x.0) (floor_of r.1.0)) e
      ((transaction-Rises disk _ (import_work-Rises input)).at x.0)

-- All that tells which chunks a store has, and where its floor is.
abbrev holdings : Store → Table VerifiedChunk × Table ChunkRow × Option PointerRow
holdings s = (s.pending, s.tables.chunk, s.tables.active_pointer)

pub IsCopied-kept :
    (p : Platform) (found : Outcome Fault (List (Option VersionPointer)))
    (taken : Outcome Fault (List LegacySnapshot)) (s t : Store)
    → holdings t ≡ holdings s
    → IsCopied p found taken s
    → IsCopied p found taken t
unfolding read_row
IsCopied-kept p found taken s t e c =
    let both =
      subst
        (λ v.
          IsCovered c.pointers (row_floor v.2)
          × All (λ (k : VerifiedChunk). (has v.0 k.hash || has v.1 k.hash) ≡ true)
              (verified_chunks p c.snapshots).0)
        (sym e) (c.covered, c.held) in
    record {
      pointers = c.pointers;
      read = c.read;
      covered = both.0;
      snapshots = c.snapshots;
      snapshots_read = c.snapshots_read;
      held = both.1;
    }

module _ {W : Type 0} (disk : ℕ → Option Fault) (p : Platform)
    (sources : List (LegacySource W)) where
  -- What the sources answer when they are read whole, once the floor is in force.
  abbrev pub taken_from : Store × W → Outcome Fault (List LegacySnapshot)
  taken_from x =
      (each (λ (source : LegacySource W). on_legacy source.read) sources
        (import_legacy_floor disk sources x).1).0

  -- From a row whose pointer is not above its floor: when the copy returns, all that it found is in force.
  pub copy_legacy-IsCopied :
      (s : Store) (w : W)
      → IsFloored (read_row s.tables)
      → Returns
          (λ _ y. IsCopied p (read_legacy_pointers sources (s, w)).0 (taken_from (s, w)) y.0)
          (copy_legacy disk p sources (s, w))
  unfolding copy_legacy copy_snapshots
  copy_legacy-IsCopied s w floored =
      bind_Returns _ _ (s, w)
        λ _ x1 e1.
          let (pointers, read, covered) =
            Returns-eq _ tt x1
              (imported-covers disk s _ _ (import_legacy_floor-Imported disk sources s w floored))
              e1 in
          bind_Returns _ _ x1 λ snapshots x2 e2.
            let same =
              ap (λ r. r.1.0) (sym e2)
              ∙ (Fixes-each _ sources (λ source. on_legacy-Fixes disk source.read)).at x1 in
            bind_Returns _ _ x2 λ u x3 e3.
              let raised = imported-AtMost disk x2 _ x3 u e3 in
              bind_Returns _ _ x3 λ us x4 e4.
                let (still, held) =
                  Returns-eq _ us x4 (Checked-Returns x3 _ (all_copied-Checked _ x3)) e4 in
                returned (record {
                  pointers = pointers;
                  read = read;
                  covered =
                      subst (λ (t : Store). IsCovered pointers (floor_of t)) (sym still)
                        (IsCovered-raise pointers _ _
                          (subst (λ (t : Store). AtMost (floor_of t) (floor_of x3.0)) same raised)
                          covered);
                  snapshots = snapshots;
                  snapshots_read =
                      ap
                        (λ r.
                          (each (λ (source : LegacySource W). on_legacy source.read) sources r.1).0)
                        e1
                      ∙ ap (λ r. r.0) e2;
                  held =
                      subst (λ (t : Store). All (IsHeld t) (verified_chunks p snapshots).0)
                        (sym still) held;
                })

  mark_done-kept : (s : Store) → holdings (mark_migration_done disk s).1 ≡ holdings s
  unfolding mark_migration_done
  mark_done-kept s =
      transaction-cases disk (λ r. holdings r.1 ≡ holdings s) _ s (λ e n. refl)
        λ u t e _. ap (λ r. (s.pending, r.1.chunk, r.1.active_pointer)) (sym e)

  pub finish-kept :
      (found : List VerifiedChunk × ℕ)
      → Fixes (λ (x : Store × W). holdings x.0) (finish_migration disk p sources found)
  unfolding finish_migration on_store read_floor
  finish-kept (chunks, skipped) =
      Fixes-bind _ _
        (Fixes-each _ sources
          λ source. record { at = λ x. ap holdings ((on_legacy-Fixes disk source.remove).at x) })
        λ _.
          Fixes-bind _ _ (record { at = λ x. mark_done-kept x.0 })
            λ _. Fixes-bind _ _ (record { at = λ x. refl }) λ floor. Fixes-pure _
