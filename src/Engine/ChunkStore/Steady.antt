-- ===== src/Engine/ChunkStore/Steady.antt =====
-- engine/sqliteStore.ts: the operations that leave the row of the active pointer as it was.
use edgeproc_browser.Base.{
  suc, ap, ℕ, ◌≡◌, refl, sym, ◌∙◌, Option, none, some, List, [], ◌∷◌, ltb, ◌==◌, Text, Bytes,
  length, ok, err, Outcome, Bool-cases, inl, inr,
}
use edgeproc_browser.Base.Table.{values}
use edgeproc_browser.Base.Effects.{
  Exec, Fixes, Fixes-bind, Fixes-if, Fixes-pure, Fixes-raise, Fixes-lift, Fixes-attempt, pure,
}
use edgeproc_browser.Engine.Fault.{Fault, Result, integrity}
use edgeproc_browser.Engine.Platform.{Platform}
use edgeproc_browser.Engine.Tables.{
  Tables, PointerRow, VerifiedChunk, NamedBytes, ChunkRow, Cell, insert_rows, insert_manifests,
  upsert_manifest, fits_key,
}
use edgeproc_browser.Engine.ChunkStore.{
  decompress_and_verify, max_compressed_chunk_bytes, hold, flush_if_full, found_chunk,
  checked_manifest, settled, found_manifest, prune_to, VersionPointer, Store, clear_pending,
  transaction, committed, flush, evict_chunk, evict_manifest, buffer_chunk, put_chunk_compressed,
  healed, read_chunk, get_chunk, put_manifest, get_manifest, prune_work, prune_beside,
  prune_inactive, incremental_vacuum, read_active, open_store, mark_migration_done, has_chunk,
  listed_chunks,
}

abbrev pub row_of : Store → Option PointerRow
row_of s = s.tables.active_pointer

pub insert_rows-row :
    (cs : List VerifiedChunk) (t : Tables) → (insert_rows cs t).active_pointer ≡ t.active_pointer
unfolding insert_rows
insert_rows-row [] t = refl
insert_rows-row (c ∷ cs) t = insert_rows-row cs _

pub insert_manifests-row :
    (ms : List NamedBytes) (t : Tables) → (insert_manifests ms t).active_pointer ≡ t.active_pointer
unfolding insert_manifests
insert_manifests-row [] t = refl
insert_manifests-row (m ∷ ms) t = insert_manifests-row ms _

module _ (disk : ℕ → Option Fault) where
  -- A transaction has done its work, or left the tables as they were.
  pub transaction-cases :
      {A : Type 0} (P : Outcome Fault A × Store → Type 0) (work : Exec Fault Tables A) (s : Store)
      → ((e : Fault) (n : ℕ) → P (err e, record s { commits = n }))
      → ((a : A) (t : Tables)
          → work s.tables ≡ (ok a, t)
          → disk s.commits ≡ none
          → P (ok a, record s { tables = t; commits = suc s.commits }))
      → P (transaction disk work s)
  unfolding transaction
  transaction-cases {A} P work s failed won = go (work s.tables) refl
    where
      ended :
          (a : A) (t : Tables) (o : Option Fault)
          → work s.tables ≡ (ok a, t)
          → disk s.commits ≡ o
          → P (settled disk s a t o)
      ended a t none e k = won a t e k
      ended a t (some x) e k = failed x _

      go : (r : Outcome Fault A × Tables) → work s.tables ≡ r → P (committed disk s r)
      go (err x, t) e = failed x s.commits
      go (ok a, t) e = ended a t (disk s.commits) e refl

  transaction-Fixes :
      {A : Type 0} (work : Exec Fault Tables A)
      → ((t : Tables) → (work t).1.active_pointer ≡ t.active_pointer)
      → Fixes row_of (transaction disk work)
  transaction-Fixes work k = record {
    at = λ s.
        transaction-cases (λ r. row_of r.1 ≡ row_of s) work s (λ e n. refl)
          λ a t e _. ap (λ r. r.1.active_pointer) (sym e) ∙ k s.tables;
  }

  pub clear_pending-Fixes : Fixes row_of clear_pending
  unfolding clear_pending
  clear_pending-Fixes = record { at = λ s. refl }

  pub flush-Fixes : Fixes row_of (flush disk)
  unfolding flush
  flush-Fixes = record {
    at = λ s.
        (Fixes-if (length s.pending == 0) (pure tt) _ (Fixes-pure tt) (
            Fixes-bind _ _ (transaction-Fixes _ (insert_rows-row (values s.pending)))
              λ _. clear_pending-Fixes)).at
          s;
  }

  evict_chunk-Fixes : (hash : Text) → Fixes row_of (evict_chunk disk hash)
  unfolding evict_chunk
  evict_chunk-Fixes hash = transaction-Fixes _ λ t. refl

  evict_manifest-Fixes : (hash : Text) → Fixes row_of (evict_manifest disk hash)
  unfolding evict_manifest
  evict_manifest-Fixes hash = transaction-Fixes _ λ t. refl

  incremental_vacuum-Fixes : Fixes row_of (incremental_vacuum disk)
  unfolding incremental_vacuum
  incremental_vacuum-Fixes = transaction-Fixes _ λ t. refl

  pub open_store-Fixes : Fixes row_of (open_store disk)
  unfolding open_store
  open_store-Fixes = record {
    at = λ s.
        (Fixes-if _ _ _ (Fixes-raise _) (
            Fixes-if _ _ _ (Fixes-bind _ _ (transaction-Fixes _ λ t. refl) λ _. clear_pending-Fixes)
              clear_pending-Fixes)).at
          s;
  }

  pub mark_migration_done-Fixes : Fixes row_of (mark_migration_done disk)
  unfolding mark_migration_done
  mark_migration_done-Fixes = transaction-Fixes _ λ t. refl

  pub has_chunk-Fixes : (hash : Text) → Fixes row_of (has_chunk hash)
  unfolding has_chunk
  has_chunk-Fixes hash = record { at = λ s. refl }

  pub read_active-Fixes : Fixes row_of read_active
  unfolding read_active
  read_active-Fixes = record { at = λ s. refl }

  module _ (p : Platform) where
    flush_if_full-Fixes : Fixes row_of (flush_if_full disk p)
    unfolding flush_if_full
    flush_if_full-Fixes = record { at = λ s. (Fixes-if _ _ _ flush-Fixes (Fixes-pure tt)).at s }

    hold-Fixes : (c : VerifiedChunk) → Fixes row_of (hold disk p c)
    unfolding hold
    hold-Fixes c = record { at = λ s. refl }

    buffer_chunk-Fixes : (c : VerifiedChunk) → Fixes row_of (buffer_chunk disk p c)
    unfolding buffer_chunk
    buffer_chunk-Fixes c = record {
      at = λ s.
          (Fixes-if _ _ _ (Fixes-pure tt)
              (Fixes-bind _ _ (hold-Fixes c) λ _. flush_if_full-Fixes)).at
            s;
    }

    pub put_chunk_compressed-Fixes :
        (hash : Text) (compressed : Bytes) (size : ℕ)
        → Fixes row_of (put_chunk_compressed disk p hash compressed size)
    unfolding put_chunk_compressed
    put_chunk_compressed-Fixes hash compressed size =
        Fixes-if (length compressed == 0) _ _
          (Fixes-raise (integrity "compressed chunk must not be empty"))
          (Fixes-if (ltb max_compressed_chunk_bytes (length compressed)) _ _
            (Fixes-raise (integrity "compressed chunk exceeds the store read cap"))
            (Fixes-bind _ _ (Fixes-lift (decompress_and_verify p hash compressed size))
              λ _. buffer_chunk-Fixes (record { hash = hash; size = size; body = compressed })))

    healed-Fixes : (hash : Text) (r : Result Bytes) → Fixes row_of (healed disk p hash r)
    unfolding healed
    healed-Fixes hash (ok bytes) = Fixes-pure bytes
    healed-Fixes hash (err e) =
        Fixes-if _ _ _ (Fixes-bind _ _ (evict_chunk-Fixes hash) λ _. Fixes-raise e) (Fixes-raise e)

    found_chunk-Fixes :
        (hash : Text) (size : ℕ) (o : Option ChunkRow)
        → Fixes row_of (found_chunk disk p hash size o)
    found_chunk-Fixes hash size none = Fixes-raise _
    found_chunk-Fixes hash size (some row) = healed-Fixes hash _

    pub get_chunk-Fixes : (hash : Text) (size : ℕ) → Fixes row_of (get_chunk disk p hash size)
    unfolding get_chunk read_chunk
    get_chunk-Fixes hash size =
        Fixes-bind _ _ flush-Fixes λ _. record { at = λ s. (found_chunk-Fixes hash size _).at s }

    upsert_manifest-row :
        (hash : Text) (body : Bytes) (t : Tables)
        → (upsert_manifest hash body t).1.active_pointer ≡ t.active_pointer
    unfolding upsert_manifest
    upsert_manifest-row hash body t = elim (Bool-cases (fits_key hash)) [
      | inl e ↦ rw e refl
      | inr e ↦ rw e refl
    ]

    pub put_manifest-Fixes : (bytes : Bytes) → Fixes row_of (put_manifest disk p bytes)
    unfolding put_manifest
    put_manifest-Fixes bytes =
        Fixes-if _ _ _ (Fixes-raise _)
          (Fixes-bind _ _ (transaction-Fixes _ (upsert_manifest-row _ bytes)) λ _. Fixes-pure _)

    checked_manifest-Fixes :
        (hash : Text) (o : Option Bytes) → Fixes row_of (checked_manifest disk p hash o)
    checked_manifest-Fixes hash (some body) = Fixes-pure body
    checked_manifest-Fixes hash none = Fixes-bind _ _ (evict_manifest-Fixes hash) λ _. Fixes-raise _

    found_manifest-Fixes :
        (hash : Text) (o : Option Cell) → Fixes row_of (found_manifest disk p hash o)
    found_manifest-Fixes hash none = Fixes-raise _
    found_manifest-Fixes hash (some cell) = checked_manifest-Fixes hash _

    pub get_manifest-Fixes : (hash : Text) → Fixes row_of (get_manifest disk p hash)
    unfolding get_manifest
    get_manifest-Fixes hash = record { at = λ s. (found_manifest-Fixes hash _).at s }

    prune_to-Fixes :
        (active : VersionPointer) (o : Option (List Text)) → Fixes row_of (prune_to disk p active o)
    unfolding prune_work
    prune_to-Fixes active none = Fixes-pure tt
    prune_to-Fixes active (some keep) =
        Fixes-bind _ _ (transaction-Fixes _ λ t. refl) λ _. incremental_vacuum-Fixes

    prune_beside-Fixes : (o : Option VersionPointer) → Fixes row_of (prune_beside disk p o)
    prune_beside-Fixes none = Fixes-pure tt
    prune_beside-Fixes (some active) =
        Fixes-bind _ _ (Fixes-attempt _ (get_manifest-Fixes active.manifest_hash))
          λ read. prune_to-Fixes active (listed_chunks disk p read)

    pub prune_inactive-Fixes : Fixes row_of (prune_inactive disk p)
    unfolding prune_inactive
    prune_inactive-Fixes =
        Fixes-bind _ _ flush-Fixes λ _. Fixes-bind _ _ read_active-Fixes prune_beside-Fixes
