-- ===== src/Engine/ChunkStore/Stored.antt =====
-- engine/sqliteStore.ts: a chunk that was put is there when it is read.
use edgeproc_browser.Base.{
  ℕ, ◌≡◌, refl, sym, ◌∙◌, ap, subst, Bool, true, false, Option, none, some, [], ◌∷◌, Text, Bytes,
  length, ok, err, Outcome, Bool-cases, inl, inr, ◌==◌, ltb, leb, ◌||◌, if◌then◌else◌, text_eq,
  text_eq_iff, All, arith,
}
use edgeproc_browser.Base.Table.{Table, get, has, put, values, get-put, get-put_self}
use edgeproc_browser.Engine.Fault.{Fault}
use edgeproc_browser.Base.Returns.{Returns, returned, threw, bind_Returns, Returns-at}
use edgeproc_browser.Engine.ChunkStore.{
  integrity, flush_bytes, max_compressed_chunk_bytes, flush_chunks, Store, flush, transaction,
  clear_pending, hold, buffer_chunk, flush_if_full, put_chunk_compressed, get_chunk, read_chunk,
  healed, checked_body,
}
use edgeproc_browser.Engine.ChunkStore.Steady.{transaction-cases}
use edgeproc_browser.Base.Effects.{raise, ◌>>=◌, after, lift}
use edgeproc_browser.Engine.Platform.{Platform}
use edgeproc_browser.Engine.Integrity.{decompress_and_verify}
use edgeproc_browser.Engine.Tables.{
  Tables, blob, ChunkRow, VerifiedChunk, insert_rows, insert_or_ignore, fits_key,
}

-- Each pending chunk stands under its own hash.
abbrev pub IsKeyed : Table VerifiedChunk → Type 0
IsKeyed t = All (λ e. e.1.hash ≡ e.0) t

abbrev pub first : {A : Type 0} → Option A → Option A → Option A
first (some a) o = some a
first none o = o

abbrev pub row_for : Option VerifiedChunk → Option ChunkRow
row_for none = none
row_for (some c) = some (record { size = c.size; body = blob c.body })

get-insert_or_ignore :
    {V : Type 0} (t : Table V) (k h : Text) (row : V)
    → get (insert_or_ignore t k row) h
      ≡ (if text_eq k h then first (get t h) (if fits_key h then some row else none) else get t h)
unfolding insert_or_ignore
get-insert_or_ignore t k h row = ground (arith, get-put t k h row, text_eq_iff k h)

first_assoc : {A : Type 0} (a b c : Option A) → first (first a b) c ≡ first a (first b c)
first_assoc none b c = refl
first_assoc (some x) b c = refl

-- What the insertion of the pending chunks makes of a lookup: a row that was there stays, and a hash
-- that had none has the pending chunk's.
insert_rows-get :
    (pending : Table VerifiedChunk) (t : Tables) (h : Text)
    → IsKeyed pending
    → get (insert_rows (values pending) t).chunk h
      ≡ first (get t.chunk h) (if fits_key h then row_for (get pending h) else none)
unfolding insert_rows get
insert_rows-get [] t h keyed = unchanged (get t.chunk h) (fits_key h)
  where
    unchanged : (o : Option ChunkRow) (b : Bool) → o ≡ first o (if b then none else none)
    unchanged none true = refl
    unchanged none false = refl
    unchanged (some r) b = refl
insert_rows-get ((k, c) ∷ rest) t h (same, keyed) =
    let row : ChunkRow = record { size = c.size; body = blob c.body } in
    let after =
      insert_rows-get rest (record t { chunk = insert_or_ignore t.chunk c.hash row }) h keyed in
    after
    ∙ ap (λ (o : Option ChunkRow). first o (if fits_key h then row_for (get rest h) else none))
        (get-insert_or_ignore t.chunk c.hash h row)
    ∙ joined (text_eq c.hash h) (fits_key h) (get t.chunk h) (get rest h)
    ∙ ap
        (λ (j : Text).
          first (get t.chunk h)
            (if fits_key h then row_for (if text_eq j h then some c else get rest h) else none))
        same
  where
    joined :
        (b f : Bool) (o : Option ChunkRow) (g : Option VerifiedChunk)
        → first
            (if b
              then first o (if f then some (record { size = c.size; body = blob c.body }) else none)
              else o)
            (if f then row_for g else none)
          ≡ first o (if f then row_for (if b then some c else g) else none)
    joined true true none g = refl
    joined true false none g = refl
    joined true f (some r) g = refl
    joined false f o g = refl

IsKeyed-put : (t : Table VerifiedChunk) (c : VerifiedChunk) → IsKeyed t → IsKeyed (put t c.hash c)
unfolding put
IsKeyed-put [] c keyed = (refl, tt)
IsKeyed-put ((j, d) ∷ t) c (same, keyed) = elim (Bool-cases (text_eq j c.hash)) [
  | inl e ↦ rw e (sym ((text_eq_iff j c.hash).0 e), keyed)
  | inr e ↦ rw e (same, IsKeyed-put t c keyed)
]

first-none :
    {A : Type 0} (o : Option A) (b : Bool) (a : A)
    → first o (if b then none else none) ≡ some a
    → o ≡ some a
first-none none true a h = cc
first-none none false a h = cc
first-none (some x) b a h = h

no_entry : {V : Type 0} (t : Table V) (h : Text) → (length t == 0) ≡ true → get t h ≡ none
unfolding get
no_entry [] h e = refl
no_entry (x ∷ t) h e = absurd (ground arith)

-- The chunk will be found: it is pending, or has its row.
abbrev IsPut : Text → ChunkRow → Store → Type 0
IsPut hash row s =
    IsKeyed s.pending
    × (first (get s.tables.chunk hash)
          (if fits_key hash then row_for (get s.pending hash) else none)
        ≡ some row)

module _ (disk : ℕ → Option Fault) (hash : Text) (row : ChunkRow) where
  abbrev IsFlushed : Unit {0} → Store → Type 0
  IsFlushed u t = IsPut hash row t × (get t.tables.chunk hash ≡ some row)

  committing-IsFlushed :
      (s : Store)
      → IsPut hash row s
      → Returns IsFlushed (
          (transaction disk (λ t. (ok tt, insert_rows (values s.pending) t)) >>= λ (_ : Unit {0}).
          clear_pending)
            s)
  unfolding ◌>>=◌ clear_pending get
  committing-IsFlushed s (keyed, found) =
      transaction-cases disk (λ r. Returns IsFlushed (after (λ _. clear_pending) r)) _ s
        (λ e n. threw)
        λ u t e _.
          let there : get t.chunk hash ≡ some row =
            ap (λ (r : Outcome Fault (Unit {0}) × Tables). get r.1.chunk hash) (sym e)
            ∙ insert_rows-get s.pending s.tables hash keyed
            ∙ found in
          returned (
            (
              tt,
              ap (λ (o : Option ChunkRow). first o (if fits_key hash then none else none)) there,
            ),
            there,
          )

  flush-IsFlushed : (s : Store) → IsPut hash row s → Returns IsFlushed (flush disk s)
  unfolding flush
  flush-IsFlushed s (keyed, found) = elim (Bool-cases (length s.pending == 0)) [
    | inr e ↦ rw e (committing-IsFlushed s (keyed, found))
    | inl e ↦
        let bare =
          ap
            (λ (o : Option VerifiedChunk).
              first (get s.tables.chunk hash) (if fits_key hash then row_for o else none))
            (sym (no_entry s.pending hash e))
          ∙ found in
        rw e
          (returned ((keyed, found), first-none (get s.tables.chunk hash) (fits_key hash) row bare))
  ]

module _ (disk : ℕ → Option Fault) (p : Platform) (hash : Text) (compressed : Bytes)
    (size : ℕ) where
  abbrev row_put : ChunkRow
  row_put = record { size = size; body = blob compressed }

  abbrev chunk_put : VerifiedChunk
  chunk_put = record { hash = hash; size = size; body = compressed }

  hold-IsPut :
      (s : Store)
      → IsKeyed s.pending
      → get s.tables.chunk hash ≡ none
      → fits_key hash ≡ true
      → IsPut hash row_put (hold disk p chunk_put s).1
  unfolding hold
  hold-IsPut s keyed absent fits = (
    IsKeyed-put s.pending chunk_put keyed,
    rw (absent, fits, get-put_self s.pending hash chunk_put) refl,
  )

  full-IsPut :
      (s : Store)
      → IsPut hash row_put s
      → Returns (λ (_ : Unit {0}) t. IsPut hash row_put t) (flush_if_full disk p s)
  unfolding flush_if_full
  full-IsPut s put =
      elim (Bool-cases (leb flush_chunks (length s.pending) || leb flush_bytes s.pending_bytes)) [
        | inr e ↦ rw e (returned put)
        | inl e ↦ rw e (kept (flush disk s) (flush-IsFlushed disk hash row_put s put))
      ]
    where
      kept :
          (r : Outcome Fault (Unit {0}) × Store)
          → Returns (IsFlushed disk hash row_put) r
          → Returns (λ (_ : Unit {0}) t. IsPut hash row_put t) r
      kept (ok u, t) (returned h) = returned h.0
      kept (err e, t) threw = threw

  buffer_chunk-IsPut :
      (s : Store)
      → IsKeyed s.pending
      → has s.pending hash ≡ false
      → get s.tables.chunk hash ≡ none
      → fits_key hash ≡ true
      → Returns (λ (_ : Unit {0}) t. IsPut hash row_put t) (buffer_chunk disk p chunk_put s)
  unfolding buffer_chunk
  buffer_chunk-IsPut s keyed unpending absent fits = rw unpending (
      bind_Returns _ _ s λ u t e. full-IsPut t (
        subst (λ (r : Outcome Fault (Unit {0}) × Store). IsPut hash row_put r.1) e
          (hold-IsPut s keyed absent fits)))

  flush-ok : (s : Store) → disk s.commits ≡ none → (flush disk s).0 ≡ ok tt
  unfolding flush transaction ◌>>=◌ clear_pending
  flush-ok s e = elim (Bool-cases (length s.pending == 0)) [
    | inl k ↦ rw k refl
    | inr k ↦ rw (k, e) refl
  ]

  -- The bounds that `putChunkCompressed` has tested when it returns.
  put-bounds :
      (s : Store)
      → (put_chunk_compressed disk p hash compressed size s).0 ≡ ok tt
      → ((length compressed == 0) ≡ false)
        × (ltb max_compressed_chunk_bytes (length compressed) ≡ false)
  unfolding put_chunk_compressed
  put-bounds s h =
      go (length compressed == 0) (ltb max_compressed_chunk_bytes (length compressed)) h
    where
      go :
          (a b : Bool)
          → ((if a
                then raise (integrity "compressed chunk must not be empty")
                else if b
                then raise (integrity "compressed chunk exceeds the store read cap")
                else (lift (decompress_and_verify p hash compressed size) >>= λ _.
                    buffer_chunk disk p chunk_put))
              s).0
            ≡ ok tt
          → (a ≡ false) × (b ≡ false)
      go true b k = absurd (cc)
      go false true k = absurd (cc)
      go false false k = (refl, refl)

  module _ (plaintext : Bytes)
      (verified : decompress_and_verify p hash compressed size ≡ ok plaintext) where
    put_eq :
        (s : Store)
        → ((length compressed == 0) ≡ false)
          × (ltb max_compressed_chunk_bytes (length compressed) ≡ false)
        → put_chunk_compressed disk p hash compressed size s ≡ buffer_chunk disk p chunk_put s
    unfolding put_chunk_compressed ◌>>=◌
    put_eq s (a, b) = rw (a, b, verified) refl

    read_put :
        (s : Store)
        → ((length compressed == 0) ≡ false)
          × (ltb max_compressed_chunk_bytes (length compressed) ≡ false)
        → get s.tables.chunk hash ≡ some row_put
        → (read_chunk disk p hash size s).0 ≡ ok plaintext
    unfolding read_chunk checked_body healed
    read_put s (a, b) e = rw e (rw (a, b, verified) refl)

    read_flushed :
        (r : Outcome Fault (Unit {0}) × Store)
        → r.0 ≡ ok tt
        → Returns (IsFlushed disk hash row_put) r
        → ((length compressed == 0) ≡ false)
          × (ltb max_compressed_chunk_bytes (length compressed) ≡ false)
        → (after (λ (_ : Unit {0}). read_chunk disk p hash size) r).0 ≡ ok plaintext
    read_flushed (ok u, t) e (returned (put, there)) bounds = read_put t bounds there
    read_flushed (err x, t) e threw bounds = absurd (cc)

    -- A new chunk that `putChunkCompressed` accepts is what `getChunk` returns then at the same size,
    -- whether it is still pending or has been committed, if the commit that `getChunk` may need works.
    pub read_after_put :
        (s : Store)
        → IsKeyed s.pending
        → has s.pending hash ≡ false
        → get s.tables.chunk hash ≡ none
        → fits_key hash ≡ true
        → (put_chunk_compressed disk p hash compressed size s).0 ≡ ok tt
        → disk (put_chunk_compressed disk p hash compressed size s).1.commits ≡ none
        → (get_chunk disk p hash size (put_chunk_compressed disk p hash compressed size s).1).0
          ≡ ok plaintext
    unfolding get_chunk ◌>>=◌
    read_after_put s keyed unpending absent fits done commits =
        let bounds = put-bounds s done in
        let put =
          Returns-at (put_chunk_compressed disk p hash compressed size s) tt
            (subst (λ r. Returns (λ (_ : Unit {0}) t. IsPut hash row_put t) r)
              (sym (put_eq s bounds)) (buffer_chunk-IsPut s keyed unpending absent fits))
            done in
        read_flushed _ (flush-ok _ commits) (flush-IsFlushed disk hash row_put _ put) bounds
