-- ===== src/Engine/ChunkStore/History.antt =====
-- engine/sqliteStore.ts: the rollback floor over any history of calls.
use edgeproc_browser.Engine.ChunkStore.Floor.{
  row_floor, same-AtMost, floor_in, floor_of, Fixes-Rises, Rises-bind, transaction-Rises,
  promote_work-Rises, clear_active_if_work-Rises, import_work-Rises, raise_work-Rises,
}
use edgeproc_browser.Engine.ChunkStore.Steady.{
  clear_pending-Fixes, open_store-Fixes, put_chunk_compressed-Fixes, flush-Fixes, get_chunk-Fixes,
  put_manifest-Fixes, get_manifest-Fixes, prune_inactive-Fixes, mark_migration_done-Fixes,
}
use mathlib.Core.Option.{some-injective}
use edgeproc_browser.Engine.Json.{Json}
use edgeproc_browser.Base.{
  ok-injective, ℕ, ◌≡◌, sym, ap, subst, true, Option, none, some, List, ok, Bool-cases, inl, inr,
  Text, Bytes, arith,
}
use edgeproc_browser.Engine.Fault.{Fault}
use edgeproc_browser.Engine.Platform.{Platform}
use edgeproc_browser.Engine.ActivePointer.{VersionPointer}
use edgeproc_browser.Engine.FloorGate.{FloorRow, admits, install_pointer, sequence_of}
use edgeproc_browser.Engine.FloorGate.Admitted.{
  AtMost, AtMost-refl, AtMost-trans, AtMost-max_right, admits-AtMost,
}
use edgeproc_browser.Engine.Tables.{PointerRow, read_row}
use edgeproc_browser.Engine.ChunkStore.{
  Store, LegacyImport, promote, clear_active_if, import_legacy, raise_legacy_floor, flush,
  open_store, put_chunk_compressed, get_chunk, put_manifest, get_manifest, prune_inactive,
  mark_migration_done, read_active, gated,
}
use edgeproc_browser.Engine.ChunkStore.Steady.{
  get_manifest-Fixes, put_manifest-Fixes, get_chunk-Fixes, flush-Fixes, put_chunk_compressed-Fixes,
  open_store-Fixes, insert_rows-row,
}
use edgeproc_browser.Engine.ChunkStore.Promoted.{inserted, promote_atomic, promote_inverts}

-- A call on the store, of any outcome, or an edit of the pointer's column in the file at rest; `clear`
-- is not among them.
pub data Call (disk : ℕ → Option Fault) (p : Platform) : Store → Store → Type 0 where
  opening : (s : Store) → Call disk p s (open_store disk s).1
  putting :
      (s : Store) (hash : Text) (compressed : Bytes) (size : ℕ)
      → Call disk p s (put_chunk_compressed disk p hash compressed size s).1
  flushing : (s : Store) → Call disk p s (flush disk s).1
  getting : (s : Store) (hash : Text) (size : ℕ) → Call disk p s (get_chunk disk p hash size s).1
  putting_manifest : (s : Store) (bytes : Bytes) → Call disk p s (put_manifest disk p bytes s).1
  getting_manifest : (s : Store) (hash : Text) → Call disk p s (get_manifest disk p hash s).1
  promoting :
      (s : Store) (pointer : VersionPointer) (chunks : Option (List Text))
      → Call disk p s (promote disk pointer chunks s).1
  clearing_if :
      (s : Store) (expected : VersionPointer) → Call disk p s (clear_active_if disk expected s).1
  pruning : (s : Store) → Call disk p s (prune_inactive disk p s).1
  importing : (s : Store) (input : LegacyImport) → Call disk p s (import_legacy disk input s).1
  raising :
      (s : Store) (pointers : List (Option VersionPointer))
      → Call disk p s (raise_legacy_floor disk pointers s).1
  editing :
      (s : Store) (row : PointerRow) (value : Option Json)
      → s.tables.active_pointer ≡ some row
      → Call disk p s (record s {
        tables = record s.tables { active_pointer = some (record row { pointer = value }) };
      })
  marking_done : (s : Store) → Call disk p s (mark_migration_done disk s).1

-- Calls one after the other.
pub data History (disk : ℕ → Option Fault) (p : Platform) (s : Store) : Store → Type 0 where
  start : History disk p s s
  then_call : (t u : Store) → History disk p s t → Call disk p t u → History disk p s u

module _ (disk : ℕ → Option Fault) (p : Platform) where
  Call-AtMost : (s t : Store) → Call disk p s t → AtMost (floor_of s) (floor_of t)
  unfolding promote clear_active_if import_legacy raise_legacy_floor read_row
  Call-AtMost s _ (opening _) = (Fixes-Rises _ (open_store-Fixes disk)).at s
  Call-AtMost s _ (putting _ hash compressed size) =
      (Fixes-Rises _ (put_chunk_compressed-Fixes disk p hash compressed size)).at s
  Call-AtMost s _ (flushing _) = (Fixes-Rises _ (flush-Fixes disk)).at s
  Call-AtMost s _ (getting _ hash size) = (Fixes-Rises _ (get_chunk-Fixes disk p hash size)).at s
  Call-AtMost s _ (putting_manifest _ bytes) =
      (Fixes-Rises _ (put_manifest-Fixes disk p bytes)).at s
  Call-AtMost s _ (getting_manifest _ hash) = (Fixes-Rises _ (get_manifest-Fixes disk p hash)).at s
  Call-AtMost s _ (promoting _ pointer chunks) =
      (Rises-bind _ _ (transaction-Rises disk _ (promote_work-Rises _ pointer chunks))
          λ _. Fixes-Rises _ (clear_pending-Fixes disk)).at
        s
  Call-AtMost s _ (clearing_if _ expected) =
      (transaction-Rises disk _ (clear_active_if_work-Rises expected)).at s
  Call-AtMost s _ (pruning _) = (Fixes-Rises _ (prune_inactive-Fixes disk p)).at s
  Call-AtMost s _ (importing _ input) = (transaction-Rises disk _ (import_work-Rises input)).at s
  Call-AtMost s _ (raising _ pointers) = (transaction-Rises disk _ (raise_work-Rises pointers)).at s
  Call-AtMost s _ (editing _ row value e) = same-AtMost _ _ (ap row_floor (sym e))
  Call-AtMost s _ (marking_done _) = (Fixes-Rises _ (mark_migration_done-Fixes disk)).at s

  -- No call but `clear` lowers the floor, whether it returns or throws, nor does any run of them.
  pub History-AtMost : (s t : Store) → History disk p s t → AtMost (floor_of s) (floor_of t)
  History-AtMost s _ start = AtMost-refl _
  History-AtMost s u (then_call t _ before call) =
      AtMost-trans _ _ _ (History-AtMost s t before) (Call-AtMost t u call)

  gated-admitted :
      (row : FloorRow) (o : Option VersionPointer) (q : VersionPointer)
      → gated row o ≡ some q
      → admits row q ≡ true
  gated-admitted row none q h = cc
  gated-admitted row (some r) q h = elim (Bool-cases (admits row r)) [
    | inl e ↦ subst (λ x. admits row x ≡ true) (some-injective r q (rw e at h)) e
    | inr e ↦ absurd (ground arith)
  ]

  inserted_floor : (t : Store) → floor_in (inserted t) ≡ floor_of t
  unfolding read_row
  inserted_floor t = ap row_floor (insert_rows-row _ t.tables)

  promoted-floor :
      (s : Store) (pointer : VersionPointer) (chunks : Option (List Text))
      → (promote disk pointer chunks s).0 ≡ ok tt
      → AtMost (sequence_of pointer) (floor_of (promote disk pointer chunks s).1)
  unfolding read_row install_pointer
  promoted-floor s pointer chunks h =
      subst (λ t. AtMost (sequence_of pointer) (floor_of t))
        (sym ((promote_atomic disk s pointer chunks).0 h))
        (AtMost-max_right _ (sequence_of pointer))

  -- Once a pointer has been promoted, and whatever calls follow short of a reset, failed ones among
  -- them, and whatever the pointer's column is edited to: no pointer with a lower sequence is promoted
  -- again, and `readActive` serves none.
  pub no_rollback :
      (s t : Store) (pointer q : VersionPointer) (chunks wanted : Option (List Text))
      → (promote disk pointer chunks s).0 ≡ ok tt
      → History disk p (promote disk pointer chunks s).1 t
      → ((promote disk q wanted t).0 ≡ ok tt → AtMost (sequence_of pointer) (sequence_of q))
        × ((read_active t).0 ≡ ok (some q) → AtMost (sequence_of pointer) (sequence_of q))
  unfolding read_active read_row
  no_rollback s t pointer q chunks wanted h history =
      let floor =
        AtMost-trans _ _ _ (promoted-floor s pointer chunks h) (History-AtMost _ t history) in
      (
        λ k.
            let (_, admitted, _) = promote_inverts disk t q wanted k in
            AtMost-trans _ _ _ floor (
              AtMost-trans _ _ _ (same-AtMost _ _ (inserted_floor t)) (admits-AtMost _ q admitted)),
        λ k. AtMost-trans _ _ _ floor (admits-AtMost _ q (gated-admitted _ _ q (ok-injective k))),
      )
