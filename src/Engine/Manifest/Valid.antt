-- ===== src/Engine/Manifest/Valid.antt =====
-- engine/sync.ts: what `assertManifest` establishes.
use edgeproc_browser.Base.{
  ℕ, ◌+◌, ◌≤◌, true, false, ◌≡◌, refl, subst, Option, some, List, [], ◌∷◌, arith, Text, text_eq_iff,
  ok, not, length, codes, All, sum_by, ◌==◌, leb, >>=-elim, require-elim, ok-injective,
}
use edgeproc_browser.Base.Table.{Table, get, put, contains, add, get-put, get-put_self}
use edgeproc_browser.Engine.Json.{Json, property, max_safe_integer}
use edgeproc_browser.Engine.ActivePointer.{is_sha256}
use edgeproc_browser.Engine.Integrity.{max_decompressed_chunk_bytes}
use edgeproc_browser.Engine.Pointer.{object_at, assert_hash}
use edgeproc_browser.Engine.Manifest.{
  as_array, ChunkRef, FileEntry, Tally, Scan, max_chunk_refs, max_file_bytes, is_safe_path,
  assert_safe_path, assert_bounded_integer, checked_add, conflicts, check_ref, check_refs,
  check_file,
}

-- A reference within its bounds, of the size that the table has under its hash.
pub record RefIsValid (sizes : Table ℕ) (ref : ChunkRef) : Type 0 where
  pub formed : is_sha256 ref.hash ≡ true
  pub bounded : ref.size ≤ max_decompressed_chunk_bytes
  pub agreed : get sizes ref.hash ≡ some ref.size

-- What one table of sizes has, another has too.
abbrev pub Extends : Table ℕ → Table ℕ → Type 0
Extends t u = (h : Text) (n : ℕ) → get t h ≡ some n → get u h ≡ some n

RefIsValid-Extends :
    {t u : Table ℕ} → Extends t u → {ref : ChunkRef} → RefIsValid t ref → RefIsValid u ref
RefIsValid-Extends f {ref} v = record {
  formed = v.formed;
  bounded = v.bounded;
  agreed = f ref.hash ref.size v.agreed;
}

RefsIsValid-Extends :
    (t u : Table ℕ)
    → Extends t u
    → (refs : List ChunkRef) → All (RefIsValid t) refs
    → All (RefIsValid u) refs
RefsIsValid-Extends t u f [] h = tt
RefsIsValid-Extends t u f (r ∷ refs) (v, h) =
    (RefIsValid-Extends f v, RefsIsValid-Extends t u f refs h)

put-Extends :
    (t : Table ℕ) (hash : Text) (size : ℕ)
    → conflicts (get t hash) size ≡ false
    → Extends t (put t hash size)
put-Extends t hash size agree h n e = ground (arith, get-put t hash h size, text_eq_iff hash h)

assert_hash-formed : (v : Option Json) (s : Text) → assert_hash v ≡ ok s → is_sha256 s ≡ true
unfolding assert_hash
assert_hash-formed v s h = ground arith

assert_bounded_integer-le :
    (v : Option Json) (most n : ℕ) → assert_bounded_integer v most ≡ ok n → n ≤ most
unfolding assert_bounded_integer
assert_bounded_integer-le v most n h = ground arith

pub checked_add-eq : (a b n : ℕ) → checked_add a b ≡ ok n → (n ≡ a + b) × (n ≤ max_safe_integer)
unfolding checked_add
checked_add-eq a b n h = ground arith

-- What a round has established.
record RefStep (t : Tally) (assembled : ℕ) (t' : Tally) (assembled' : ℕ) (ref : ChunkRef)
    : Type 0 where
  pub valid : RefIsValid t'.sizes ref
  pub extends : Extends t.sizes t'.sizes
  pub counted : t'.references ≡ t.references + 1
  pub capped : t'.references ≤ max_chunk_refs
  pub assembles : assembled' ≡ assembled + ref.size

check_ref-RefStep :
    (t t' : Tally) (a a' : ℕ) (raw : Json) (ref : ChunkRef)
    → check_ref t a raw ≡ ok (t', a', ref)
    → RefStep t a t' a' ref
unfolding check_ref
check_ref-RefStep t t' a a' raw ref h = >>=-elim (object_at raw) _ h λ ms _ h1.
    >>=-elim (assert_hash (property ms (codes "hash"))) _ h1 λ hash is_hash h2.
      >>=-elim (assert_bounded_integer (property ms (codes "size")) max_decompressed_chunk_bytes) _
        h2
        λ size is_size h3. require-elim (leb (t.references + 1) max_chunk_refs) _ _ h3 λ capped h4.
          require-elim (not (conflicts (get t.sizes hash) size)) _ _ h4 λ agree h5.
            >>=-elim (checked_add a size) _ h5 λ sum is_sum h6.
              subst (λ x. RefStep t a x.0 x.1 x.2) (ok-injective h6)
                (record {
                  valid = record {
                    formed = assert_hash-formed _ hash is_hash;
                    bounded = assert_bounded_integer-le _ _ size is_size;
                    agreed = get-put_self t.sizes hash size;
                  };
                  extends = put-Extends t.sizes hash size (ground arith);
                  counted = refl;
                  capped = ground arith;
                  assembles = (checked_add-eq a size sum is_sum).0;
                })

-- What the loop over a file's chunks has established.
record RefsStep (t : Tally) (a : ℕ) (t' : Tally) (a' : ℕ) (refs : List ChunkRef) : Type 0 where
  pub valid : All (RefIsValid t'.sizes) refs
  pub extends : Extends t.sizes t'.sizes
  pub counted : t'.references ≡ t.references + length refs
  pub capped : t.references ≤ max_chunk_refs → t'.references ≤ max_chunk_refs
  pub assembles : a' ≡ a + sum_by (λ r. r.size) refs

RefsStep-cons :
    (t u v : Tally) (a b c : ℕ) (r : ChunkRef) (refs : List ChunkRef)
    → RefStep t a u b r
    → RefsStep u b v c refs
    → RefsStep t a v c (r ∷ refs)
RefsStep-cons t u v a b c r refs k s = record {
  valid = (RefIsValid-Extends s.extends k.valid, s.valid);
  extends = λ h n e. s.extends h n (k.extends h n e);
  counted = omega (arith, k.counted, s.counted);
  capped = λ _. s.capped k.capped;
  assembles = omega (arith, k.assembles, s.assembles);
}

check_refs-RefsStep :
    (t t' : Tally) (a a' : ℕ) (raws : List Json) (refs : List ChunkRef)
    → check_refs t a raws ≡ ok (t', a', refs)
    → RefsStep t a t' a' refs
unfolding check_refs
check_refs-RefsStep t t' a a' [] refs h =
    subst (λ x. RefsStep t a x.0 x.1 x.2) (ok-injective h)
      (record {
        valid = tt;
        extends = λ k n e. e;
        counted = omega arith;
        capped = λ k. k;
        assembles = omega arith;
      })
check_refs-RefsStep t t' a a' (raw ∷ raws) refs h = >>=-elim (check_ref t a raw) _ h λ x is_x h1.
    >>=-elim (check_refs x.0 x.1 raws) _ h1 λ y is_y h2.
      subst (λ z. RefsStep t a z.0 z.1 z.2) (ok-injective h2)
        (RefsStep-cons t x.0 y.0 a x.1 y.1 x.2 y.2 (check_ref-RefStep t x.0 a x.1 raw x.2 is_x)
          (check_refs-RefsStep x.0 y.0 x.1 y.1 raws y.2 is_y))

-- A file within its bounds, of the size of its chunks.
pub record FileIsValid (sizes : Table ℕ) (file : FileEntry) : Type 0 where
  pub safe : is_safe_path file.path ≡ true
  pub formed : is_sha256 file.file_sha256 ≡ true
  pub bounded : file.size ≤ max_file_bytes
  pub total : sum_by (λ r. r.size) file.chunks ≡ file.size
  pub refs : All (RefIsValid sizes) file.chunks

pub FileIsValid-Extends :
    {t u : Table ℕ} → Extends t u → {file : FileEntry} → FileIsValid t file → FileIsValid u file
FileIsValid-Extends {t} {u} f {file} v = record {
  safe = v.safe;
  formed = v.formed;
  bounded = v.bounded;
  total = v.total;
  refs = RefsIsValid-Extends t u f file.chunks v.refs;
}

pub record FileStep (s s' : Scan) (file : FileEntry) : Type 0 where
  pub valid : FileIsValid s'.tally.sizes file
  pub fresh : contains s.paths file.path ≡ false
  pub paths : s'.paths ≡ add s.paths file.path
  pub extends : Extends s.tally.sizes s'.tally.sizes
  pub counted : s'.tally.references ≡ s.tally.references + length file.chunks
  pub capped : s.tally.references ≤ max_chunk_refs → s'.tally.references ≤ max_chunk_refs
  pub totals : s'.total_files ≡ s.total_files + file.size

assert_safe_path-safe :
    (v : Option Json) (path : Text) → assert_safe_path v ≡ ok path → is_safe_path path ≡ true
unfolding assert_safe_path
assert_safe_path-safe v path h = ground arith

pub check_file-FileStep :
    (s s' : Scan) (raw : Json) (file : FileEntry)
    → check_file s raw ≡ ok (s', file)
    → FileStep s s' file
unfolding check_file
check_file-FileStep s s' raw file h = >>=-elim (object_at raw) _ h λ ms _ h1.
    >>=-elim (assert_safe_path (property ms (codes "path"))) _ h1 λ path is_path h2.
      require-elim (not (contains s.paths path)) _ _ h2 λ new h3.
        >>=-elim (assert_hash (property ms (codes "file_sha256"))) _ h3 λ sha is_sha h4.
          >>=-elim (assert_bounded_integer (property ms (codes "size")) max_file_bytes) _ h4
            λ size is_size h5. >>=-elim (as_array (property ms (codes "chunks"))) _ h5 λ raws _ h6.
              >>=-elim (check_refs s.tally 0 raws) _ h6 λ x is_x h7.
                require-elim (x.1 == size) _ _ h7 λ whole h8.
                  >>=-elim (checked_add s.total_files size) _ h8 λ total is_total h9.
                    let r = check_refs-RefsStep s.tally x.0 0 x.1 raws x.2 is_x in
                    subst (λ z. FileStep s z.0 z.1) (ok-injective h9)
                      (record {
                        valid = record {
                          safe = assert_safe_path-safe _ path is_path;
                          formed = assert_hash-formed _ sha is_sha;
                          bounded = assert_bounded_integer-le _ _ size is_size;
                          total = ground (arith, r.assembles);
                          refs = r.valid;
                        };
                        fresh = ground arith;
                        paths = refl;
                        extends = r.extends;
                        counted = r.counted;
                        capped = r.capped;
                        totals = (checked_add-eq s.total_files size total is_total).0;
                      })
