-- ===== src/Engine/ChunkStore/Served.antt =====
-- engine/sqliteStore.ts: what `getChunk` returns, and what becomes of a row that fails its checks.
use edgeproc_browser.Base.{
  [], ◌∷◌, arith, subst, Outcome, ==_iff, ◌||◌, ℕ, ◌≡◌, refl, ◌∙◌, ap, Bool, true, false, Option,
  none, some, Text, Bytes, length, ok, err, Bool-cases, inl, inr, ◌==◌, ltb, if◌then◌else◌,
  text_eq_refl,
}
use edgeproc_browser.Base.Table.{Table, get, has, remove, get-remove}
use edgeproc_browser.Base.Effects.{◌>>=◌}
use edgeproc_browser.Base.Returns.{Returns, returned, threw, bind_Returns, Returns-at}
use edgeproc_browser.Engine.Fault.{Fault, Result, is_integrity, integrity}
use edgeproc_browser.Engine.Platform.{Platform, sha256_hex}
use edgeproc_browser.Engine.Integrity.{decompress_and_verify}
use edgeproc_browser.Engine.Integrity.Laws.{decompress_and_verify_iff}
use edgeproc_browser.Engine.Tables.{VerifiedChunk, Tables, Cell, blob, other_kind, ChunkRow}
use edgeproc_browser.Engine.ChunkStore.{
  Store, flush, clear_pending, has_chunk, transaction, evict_chunk, checked_body, healed,
  found_chunk, read_chunk, get_chunk, max_compressed_chunk_bytes,
}

module _ (disk : ℕ → Option Fault) (p : Platform) (hash : Text) (size : ℕ) where
  -- The bytes have the hash and the size that were asked for.
  abbrev pub IsNamed : Bytes → Type 0
  IsNamed bytes = (sha256_hex p bytes ≡ hash) × (length bytes ≡ size)

  checked_body-IsNamed :
      (body : Cell) (bytes : Bytes) → checked_body disk p hash size body ≡ ok bytes → IsNamed bytes
  unfolding checked_body
  checked_body-IsNamed other_kind bytes h = absurd (cc)
  checked_body-IsNamed (blob body) bytes h =
      let v =
        (decompress_and_verify_iff p hash body size bytes).0
          (passed (length body == 0) (ltb max_compressed_chunk_bytes (length body)) h) in
      (v.named, v.long)
    where
      passed :
          (a b : Bool)
          → (if a
              then err (integrity "chunk is empty or not a BLOB")
              else if b
              then err (integrity "chunk exceeds the read cap")
              else decompress_and_verify p hash body size)
            ≡ ok bytes
          → decompress_and_verify p hash body size ≡ ok bytes
      passed true b k = absurd (cc)
      passed false true k = absurd (cc)
      passed false false k = k

  healed-Returns :
      (r : Result Bytes) (s : Store)
      → ((bytes : Bytes) → r ≡ ok bytes → IsNamed bytes)
      → Returns (λ bytes _. IsNamed bytes) (healed disk p hash r s)
  unfolding healed
  healed-Returns (ok bytes) s h = returned (h bytes refl)
  healed-Returns (err e) s h = elim (Bool-cases (is_integrity e)) [
    | inl k ↦ rw k (bind_Returns _ _ s λ u t _. threw)
    | inr k ↦ rw k threw
  ]

  found_chunk-Returns :
      (o : Option ChunkRow) (s : Store)
      → Returns (λ bytes _. IsNamed bytes) (found_chunk disk p hash size o s)
  found_chunk-Returns none s = threw
  found_chunk-Returns (some row) s = healed-Returns _ s (checked_body-IsNamed row.body)

  -- Whatever the file holds: bytes that `getChunk` returns have the hash and the size that were asked
  -- for.
  pub get_chunk-IsNamed :
      (s : Store) (bytes : Bytes) → (get_chunk disk p hash size s).0 ≡ ok bytes → IsNamed bytes
  unfolding get_chunk read_chunk
  get_chunk-IsNamed s bytes h =
      Returns-at _ bytes
        (bind_Returns _ _ s λ u t _. found_chunk-Returns (get t.tables.chunk hash) t) h

  removed_lem : (t : Tables) → has (remove t.chunk hash) hash ≡ false
  removed_lem t =
      let gone : get (remove t.chunk hash) hash ≡ none =
        get-remove t.chunk hash hash
        ∙ ap (λ (b : Bool). if b then none else get t.chunk hash) (text_eq_refl hash) in
      ap (λ (o : Option ChunkRow). elim o [ none ↦ false | some _ ↦ true ]) gone

  neither :
      (a b : Bool) → a ≡ false → b ≡ false → ◌≡◌ {A = Outcome Fault Bool} (ok (a || b)) (ok false)
  neither a b e k = rw (e, k) refl

  flush-Returns : (s : Store) → Returns (λ (_ : Unit {0}) t. length t.pending ≡ 0) (flush disk s)
  unfolding flush clear_pending
  flush-Returns s = elim (Bool-cases (length s.pending == 0)) [
    | inl e ↦ rw e (returned ((==_iff _ _).0 e))
    | inr e ↦ rw e (bind_Returns _ _ s λ _ t _. returned refl)
  ]

  flush-unpends : (s t : Store) → flush disk s ≡ (ok tt, t) → length t.pending ≡ 0
  flush-unpends s t h =
      subst (λ (r : Outcome Fault (Unit {0}) × Store). length r.1.pending ≡ 0) h
        (Returns-at (flush disk s) tt (flush-Returns s) (ap (λ r. r.0) h))

  has-empty : (pending : Table VerifiedChunk) → length pending ≡ 0 → has pending hash ≡ false
  unfolding get
  has-empty [] e = refl
  has-empty (c ∷ cs) e = absurd (omega (arith, e))

  -- Once the buffered chunks are written: if the row of the chunk then fails the checks of `getChunk`,
  -- and the commit of its delete does not fail, `getChunk` throws the error of the check, and
  -- `hasChunk` is false in the store that it leaves.
  pub get_chunk_heals :
      (s t : Store) (row : ChunkRow) (e : Fault)
      → flush disk s ≡ (ok tt, t)
      → get t.tables.chunk hash ≡ some row
      → checked_body disk p hash size row.body ≡ err e
      → is_integrity e ≡ true
      → disk t.commits ≡ none
      → ((get_chunk disk p hash size s).0 ≡ err e)
        × ((has_chunk hash (get_chunk disk p hash size s).1).0 ≡ ok false)
  unfolding get_chunk read_chunk healed has_chunk ◌>>=◌ evict_chunk transaction
  get_chunk_heals s t row e flushed found failed kind commits =
      let unbuffered = has-empty t.pending (flush-unpends s t flushed) in
      let gone = removed_lem t.tables in
      rw (flushed, found, failed, kind, commits) (refl, neither _ _ unbuffered gone)
