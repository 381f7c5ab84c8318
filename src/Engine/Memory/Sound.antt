-- ===== src/Engine/Memory/Sound.antt =====
-- engine/memoryStore.ts: the names of what is stored, and reading it back.
use edgeproc_browser.Base.{
  ◌∙◌, ok-injective, sym, ◌≢◌, Option, none, some, Text, Bytes, length, ◌≡◌, ◌↔◌, ok, err, refl,
  text_eq_iff, arith, Outcome, ℕ, List, inl, inr, Bool-cases,
}
use edgeproc_browser.Base.Table.{Table, get, put, get-put, get-put_self}
use edgeproc_browser.Base.Effects.{◌>>=◌}
use edgeproc_browser.Engine.Platform.{Platform, sha256_hex}
use edgeproc_browser.Engine.ActivePointer.{VersionPointer, same_pointer}
use edgeproc_browser.Engine.Integrity.{decompress_and_verify, verify_plaintext}
use edgeproc_browser.Engine.Integrity.Laws.{IsVerified, decompress_and_verify_iff}
use edgeproc_browser.Engine.Memory.{
  Fault, Memory, empty, promote, clear_active_if, clear, get_chunk, put_chunk_compressed,
  store_chunk, put_manifest,
}

module _ (p : Platform) where
  -- Every entry of the table is named by its own hash.
  abbrev pub IsNamed : Table Bytes → Type 0
  IsNamed table =
      (hash : Text) (bytes : Bytes) → get table hash ≡ some bytes → sha256_hex p bytes ≡ hash

  pub record IsSound (s : Memory) : Type 0 where
    pub chunks : IsNamed s.chunks
    pub manifests : IsNamed s.manifests

  IsNamed-put :
      (table : Table Bytes) (hash : Text) (bytes : Bytes)
      → IsNamed table
      → sha256_hex p bytes ≡ hash
      → IsNamed (put table hash bytes)
  IsNamed-put table hash bytes named fits other found e =
      ground (arith, get-put table hash other bytes, text_eq_iff hash other, named other found)

  -- A call that writes to the store, of any outcome.
  pub data Call : Memory → Memory → Type 0 where
    put_chunk :
        (s : Memory) (hash : Text) (compressed : Bytes) (size : ℕ)
        → Call s (put_chunk_compressed p hash compressed size s).1
    putting_manifest : (s : Memory) (bytes : Bytes) → Call s (put_manifest p bytes s).1
    promoting :
        (s : Memory) (pointer : VersionPointer) (chunks : List Text)
        → Call s (promote pointer chunks s).1
    clearing_if : (s : Memory) (pointer : VersionPointer) → Call s (clear_active_if pointer s).1
    clearing : (s : Memory) → Call s (clear s).1

  -- The states that a new store can come to.
  pub data IsReachable : Memory → Type 0 where
    new : IsReachable empty
    called : (s t : Memory) → IsReachable s → Call s t → IsReachable t

  store_chunk-IsSound :
      (s : Memory) (hash : Text) (r : Outcome Fault Bytes)
      → IsSound s
      → ((bytes : Bytes) → r ≡ ok bytes → sha256_hex p bytes ≡ hash)
      → IsSound (store_chunk p hash r s).1
  unfolding store_chunk
  store_chunk-IsSound s hash (ok bytes) sound fits = record {
    chunks = IsNamed-put s.chunks hash bytes sound.chunks (fits bytes refl);
    manifests = sound.manifests;
  }
  store_chunk-IsSound s hash (err e) sound fits = sound

  Call-IsSound : (s t : Memory) → Call s t → IsSound s → IsSound t
  unfolding put_chunk_compressed put_manifest promote clear_active_if clear get
  Call-IsSound s _ (put_chunk _ hash compressed size) sound =
      store_chunk-IsSound s hash _ sound
        λ bytes e. ((decompress_and_verify_iff p hash compressed size bytes).0 e).named
  Call-IsSound s _ (putting_manifest _ bytes) sound = record {
    chunks = sound.chunks;
    manifests = IsNamed-put s.manifests _ bytes sound.manifests refl;
  }
  Call-IsSound s _ (promoting _ pointer chunks) sound = record {
    chunks = sound.chunks;
    manifests = sound.manifests;
  }
  Call-IsSound s _ (clearing_if _ pointer) sound =
      elim (Bool-cases (same_pointer s.active pointer)) [
        | inl e ↦ rw e (record { chunks = sound.chunks; manifests = sound.manifests })
        | inr e ↦ rw e sound
      ]
  Call-IsSound s _ (clearing _) sound = record {
    chunks = λ hash bytes e. absurd (cc);
    manifests = λ hash bytes e. absurd (cc);
  }

  -- Whatever calls were made on a new store, each chunk and each manifest in it is stored under the
  -- SHA-256 of its own bytes.
  pub IsReachable-IsSound : (s : Memory) → IsReachable s → IsSound s
  unfolding get
  IsReachable-IsSound _ new = record {
    chunks = λ hash bytes e. absurd (cc);
    manifests = λ hash bytes e. absurd (cc);
  }
  IsReachable-IsSound t (called s _ before call) =
      Call-IsSound s t call (IsReachable-IsSound s before)

  -- In a sound store `getChunk` returns bytes exactly if they are stored under the hash and have the
  -- expected size: the second hash is then no obstacle.
  pub get_chunk_iff :
      (s : Memory) (hash : Text) (size : ℕ) (bytes : Bytes)
      → IsSound s
      → ((get_chunk p hash size s).0 ≡ ok bytes)
        ↔ ((get s.chunks hash ≡ some bytes) × (length bytes ≡ size))
  unfolding get_chunk ◌>>=◌ verify_plaintext
  get_chunk_iff s hash size bytes sound = go (get s.chunks hash) refl
    where
      go :
          (o : Option Bytes)
          → get s.chunks hash ≡ o
          → ((get_chunk p hash size s).0 ≡ ok bytes) ↔ ((o ≡ some bytes) × (length bytes ≡ size))
      go none e = (λ h. ground (arith), λ h. absurd (cc))
      go (some found) e = (
        λ h. ground (arith),
        λ h. ground (arith, sound.chunks hash found e, text_eq_iff (sha256_hex p found) hash),
      )

  -- A chunk that `putChunkCompressed` accepts is what `getChunk` returns then for that hash, at the
  -- size that it was put with; every other hash finds what it found before.
  pub get_chunk-put_chunk_compressed :
      (s : Memory) (hash : Text) (compressed : Bytes) (size : ℕ)
      → IsSound s
      → (put_chunk_compressed p hash compressed size s).0 ≡ ok tt
      → (plaintext : Bytes) × (IsVerified p hash compressed size plaintext)
        × ((get_chunk p hash size (put_chunk_compressed p hash compressed size s).1).0
            ≡ ok plaintext)
        × ((other : Text)
            → other ≢ hash
            → get (put_chunk_compressed p hash compressed size s).1.chunks other
              ≡ get s.chunks other)
  unfolding put_chunk_compressed store_chunk
  get_chunk-put_chunk_compressed s hash compressed size sound h =
      go (decompress_and_verify p hash compressed size) refl h
    where
      go :
          (r : Outcome Fault Bytes)
          → decompress_and_verify p hash compressed size ≡ r
          → (store_chunk p hash r s).0 ≡ ok tt
          → (plaintext : Bytes) × (IsVerified p hash compressed size plaintext)
            × ((get_chunk p hash size (store_chunk p hash r s).1).0 ≡ ok plaintext)
            × ((other : Text)
                → other ≢ hash
                → get (store_chunk p hash r s).1.chunks other ≡ get s.chunks other)
      go (err e) found k = absurd (cc)
      go (ok plaintext) found k =
          let verified = (decompress_and_verify_iff p hash compressed size plaintext).0 found in
          let sound_after =
            store_chunk-IsSound s hash (ok plaintext) sound
              (λ b e. rw (sym (ok-injective e)) verified.named) in
          (
            plaintext,
            verified,
            (get_chunk_iff _ hash size plaintext sound_after).1
                (get-put_self s.chunks hash plaintext, verified.long),
            λ other ne.
                get-put s.chunks hash other plaintext ∙ ground (arith, text_eq_iff hash other),
          )
