-- ===== src/Engine/ChunkStore/Pruned.antt =====
-- engine/sqliteStore.ts: the chunks that pruning keeps are those of the accepted manifest.
use edgeproc_browser.Base.{
  All-map, ℕ, ◌+◌, ◌≡◌, refl, ◌∙◌, ap, subst, Bool, true, Option, none, some, List, [], ◌∷◌, Text,
  ok, All, ok-injective, >>=-elim, require-elim, arith, text_eq_iff, text_eq_refl, if◌then◌else◌,
  text_eq, not, leb, ◌==◌,
}
use edgeproc_browser.Base.Table.{Table, contains, add, contains-add, get}
use edgeproc_browser.Engine.Json.{
  Json, Members, null, boolean, number, string, array, object, property, as_object, as_string,
}
use edgeproc_browser.Base.{codes}
use edgeproc_browser.Engine.ActivePointer.{VersionPointer, is_sha256}
use edgeproc_browser.Engine.Pointer.{object_at, assert_hash}
use edgeproc_browser.Engine.Manifest.{
  ChunkRef, FileEntry, IndexManifest, Tally, Scan, as_array, check_ref, check_refs, check_file,
  check_files, manifest_shape, assert_manifest, assert_bounded_integer, assert_safe_path,
  checked_add, conflicts, check_totals, same_bundle, empty_scan, max_chunk_refs, max_file_bytes,
}
use edgeproc_browser.Engine.Integrity.{max_decompressed_chunk_bytes}
use edgeproc_browser.Engine.Tables.{Tables, keep_only}
use edgeproc_browser.Engine.ChunkStore.{
  prune_work, chunk_hashes, file_hashes, array_of, active_chunk_hashes,
}

object_at-as_object : (raw : Json) (ms : Members) → object_at raw ≡ ok ms → as_object raw ≡ some ms
unfolding object_at
object_at-as_object raw ms h = ground arith

assert_hash-as_string :
    (v : Option Json) (s : Text)
    → assert_hash v ≡ ok s
    → (as_string v ≡ some s) × (is_sha256 s ≡ true)
unfolding assert_hash
assert_hash-as_string v s h = (ground arith, ground arith)

as_array-array_of :
    (v : Option Json) (raws : List Json) → as_array v ≡ ok raws → array_of v ≡ some raws
as_array-array_of (some (array vs)) raws h = ap some (ok-injective h)
as_array-array_of none raws h = cc
as_array-array_of (some null) raws h = cc
as_array-array_of (some (boolean b)) raws h = cc
as_array-array_of (some (number n)) raws h = cc
as_array-array_of (some (string s)) raws h = cc
as_array-array_of (some (object ms)) raws h = cc

manifest_shape-array_of :
    (ms : Members) (bundle version : Text) (raws : List Json)
    → manifest_shape ms ≡ ok (bundle, version, raws)
    → array_of (property ms (codes "files")) ≡ some raws
unfolding manifest_shape
manifest_shape-array_of ms bundle version raws h = ground arith

-- What a loop over listed hashes has collected: all of the references, and what was there before.
record Lists {A : Type 0} (listed : A → List Text → Type 0) (items : List A)
    (before after : List Text) : Type 0 where
  pub covers : All (λ a. listed a after) items
  pub grows : (k : Text) → contains before k ≡ true → contains after k ≡ true

abbrev pub IsListed : ChunkRef → List Text → Type 0
IsListed ref keep = contains keep ref.hash ≡ true

add-grows : (s : List Text) (j k : Text) → contains s k ≡ true → contains (add s j) k ≡ true
add-grows s j k h = ground (arith, contains-add s j k)

add_self : (s : List Text) (j : Text) → contains (add s j) j ≡ true
add_self s j = ground (arith, contains-add s j j, text_eq_refl j)

abbrev Found : List Json → List Text → List ChunkRef → Type 0
Found raws hashes refs =
    (more : List Text) × (chunk_hashes hashes raws ≡ some more) × Lists IsListed refs hashes more

chunk_hashes-cons :
    (raw : Json) (ms : Members) (hash : Text) (hashes : List Text) (rest : List Json)
    → as_object raw ≡ some ms
    → as_string (property ms (codes "hash")) ≡ some hash
    → is_sha256 hash ≡ true
    → chunk_hashes hashes (raw ∷ rest) ≡ chunk_hashes (add hashes hash) rest
unfolding chunk_hashes
chunk_hashes-cons raw ms hash hashes rest a b c = rw (chunk_hashes, a, b, c) refl

file_hashes-cons :
    (raw : Json) (ms : Members) (raws : List Json) (hashes more : List Text) (rest : List Json)
    → as_object raw ≡ some ms
    → array_of (property ms (codes "chunks")) ≡ some raws
    → chunk_hashes hashes raws ≡ some more
    → file_hashes hashes (raw ∷ rest) ≡ file_hashes more rest
unfolding file_hashes
file_hashes-cons raw ms raws hashes more rest a b c = rw (file_hashes, a, b, c) refl

chunk_hashes-step :
    (t t' : Tally) (a a' : ℕ) (raw : Json) (ref : ChunkRef) (hashes : List Text) (rest : List Json)
    → check_ref t a raw ≡ ok (t', a', ref)
    → chunk_hashes hashes (raw ∷ rest) ≡ chunk_hashes (add hashes ref.hash) rest
unfolding check_ref
chunk_hashes-step t t' a a' raw ref hashes rest h = >>=-elim (object_at raw) _ h λ ms is_ms h1.
    >>=-elim (assert_hash (property ms (codes "hash"))) _ h1 λ hash is_hash h2.
      >>=-elim (assert_bounded_integer (property ms (codes "size")) max_decompressed_chunk_bytes) _
        h2
        λ size _ h3. require-elim (leb (t.references + 1) max_chunk_refs) _ _ h3 λ _ h4.
          require-elim (not (conflicts (get t.sizes hash) size)) _ _ h4 λ _ h5.
            >>=-elim (checked_add a size) _ h5 λ sum _ h6.
              let (is_string, formed) = assert_hash-as_string _ hash is_hash in
              let same : hash ≡ ref.hash =
                ap (λ (x : Tally × ℕ × ChunkRef). x.2.hash) (ok-injective h6) in
              chunk_hashes-cons raw ms hash hashes rest (object_at-as_object raw ms is_ms) is_string
                formed
              ∙ ap (λ (j : Text). chunk_hashes (add hashes j) rest) same

chunk_hashes-Lists :
    (t : Tally) (a : ℕ) (raws : List Json) (x : Tally × ℕ × List ChunkRef) (hashes : List Text)
    → check_refs t a raws ≡ ok x
    → Found raws hashes x.2
unfolding check_refs chunk_hashes
chunk_hashes-Lists t a [] x hashes h =
    subst (λ (y : Tally × ℕ × List ChunkRef). Found [] hashes y.2) (ok-injective h)
      (hashes, refl, record { covers = tt; grows = λ k e. e })
chunk_hashes-Lists t a (raw ∷ raws) x hashes h = >>=-elim (check_ref t a raw) _ h λ y is_y h1.
    >>=-elim (check_refs y.0 y.1 raws) _ h1 λ z is_z h2.
      let (more, found, lists) = chunk_hashes-Lists y.0 y.1 raws z (add hashes y.2.hash) is_z in
      subst (λ (v : Tally × ℕ × List ChunkRef). Found (raw ∷ raws) hashes v.2) (ok-injective h2)
        (
          more,
          chunk_hashes-step t y.0 a y.1 raw y.2 hashes raws is_y ∙ found,
          record {
            covers = (lists.grows y.2.hash (add_self hashes y.2.hash), lists.covers);
            grows = λ k e. lists.grows k (add-grows hashes y.2.hash k e);
          },
        )

abbrev pub HoldsFile : FileEntry → List Text → Type 0
HoldsFile file keep = All (λ c. IsListed c keep) file.chunks

abbrev FoundFiles : List Json → List Text → List FileEntry → Type 0
FoundFiles raws hashes files =
    (more : List Text) × (file_hashes hashes raws ≡ some more) × Lists HoldsFile files hashes more

file_hashes-step :
    (s s' : Scan) (raw : Json) (file : FileEntry) (hashes : List Text) (rest : List Json)
    → check_file s raw ≡ ok (s', file)
    → (more : List Text) × (file_hashes hashes (raw ∷ rest) ≡ file_hashes more rest)
      × Lists IsListed file.chunks hashes more
unfolding check_file
file_hashes-step s s' raw file hashes rest h = >>=-elim (object_at raw) _ h λ ms is_ms h1.
    >>=-elim (assert_safe_path (property ms (codes "path"))) _ h1 λ path _ h2.
      require-elim (not (contains s.paths path)) _ _ h2 λ _ h3.
        >>=-elim (assert_hash (property ms (codes "file_sha256"))) _ h3 λ sha _ h4.
          >>=-elim (assert_bounded_integer (property ms (codes "size")) max_file_bytes) _ h4
            λ size _ h5. >>=-elim (as_array (property ms (codes "chunks"))) _ h5 λ raws is_raws h6.
              >>=-elim (check_refs s.tally 0 raws) _ h6 λ x is_x h7.
                require-elim (x.1 == size) _ _ h7 λ _ h8.
                  >>=-elim (checked_add s.total_files size) _ h8 λ total _ h9.
                    let (more, found, lists) = chunk_hashes-Lists s.tally 0 raws x hashes is_x in
                    let same : x.2 ≡ file.chunks =
                      ap (λ (y : Scan × FileEntry). y.1.chunks) (ok-injective h9) in
                    (
                      more,
                      file_hashes-cons raw ms raws hashes more rest
                          (object_at-as_object raw ms is_ms) (as_array-array_of _ raws is_raws)
                          found,
                      subst (λ (refs : List ChunkRef). Lists IsListed refs hashes more) same lists,
                    )

Lists-cons_file :
    (file : FileEntry) (files : List FileEntry) (before middle after : List Text)
    → Lists IsListed file.chunks before middle
    → Lists HoldsFile files middle after
    → Lists HoldsFile (file ∷ files) before after
Lists-cons_file file files before middle after here rest = record {
  covers = (All-map _ _ file.chunks (λ c. rest.grows c.hash) here.covers, rest.covers);
  grows = λ k e. rest.grows k (here.grows k e);
}

file_hashes-Lists :
    (s : Scan) (raws : List Json) (x : Scan × List FileEntry) (hashes : List Text)
    → check_files s raws ≡ ok x
    → FoundFiles raws hashes x.1
unfolding check_files file_hashes
file_hashes-Lists s [] x hashes h =
    subst (λ (y : Scan × List FileEntry). FoundFiles [] hashes y.1) (ok-injective h)
      (hashes, refl, record { covers = tt; grows = λ k e. e })
file_hashes-Lists s (raw ∷ raws) x hashes h = >>=-elim (check_file s raw) _ h λ y is_y h1.
    >>=-elim (check_files y.0 raws) _ h1 λ z is_z h2.
      let (middle, step, here) = file_hashes-step s y.0 raw y.1 hashes raws is_y in
      let (more, found, lists) = file_hashes-Lists y.0 raws z middle is_z in
      subst (λ (v : Scan × List FileEntry). FoundFiles (raw ∷ raws) hashes v.1) (ok-injective h2)
        (more, step ∙ found, Lists-cons_file y.1 z.1 hashes middle more here lists)

active_chunk_hashes_eq :
    (value : Json) (ms : Members) (raws : List Json)
    → as_object value ≡ some ms
    → array_of (property ms (codes "files")) ≡ some raws
    → active_chunk_hashes value ≡ file_hashes [] raws
unfolding active_chunk_hashes
active_chunk_hashes_eq value ms raws a b = rw (active_chunk_hashes, a, b) refl

active_chunk_hashes-assert_manifest :
    (value : Json) (pointer : VersionPointer) (m : IndexManifest)
    → assert_manifest value pointer ≡ ok m
    → (keep : List Text) × (active_chunk_hashes value ≡ some keep)
      × All (λ file. HoldsFile file keep) m.files
unfolding assert_manifest
active_chunk_hashes-assert_manifest value pointer m h =
    >>=-elim (object_at value) _ h λ ms is_ms h1.
      >>=-elim (manifest_shape ms) _ h1 λ (bundle, version, raws) is_shape h2.
        require-elim (text_eq version pointer.version) _ _ h2 λ _ h3.
          require-elim (same_bundle pointer.bundle_id bundle) _ _ h3 λ _ h4.
            >>=-elim (check_files empty_scan raws) _ h4 λ x is_x h5.
              >>=-elim (check_totals x.0) _ h5 λ _ _ h6.
                let (keep, found, lists) = file_hashes-Lists empty_scan raws x [] is_x in
                let same : x.1 ≡ m.files = ap (λ (y : IndexManifest). y.files) (ok-injective h6) in
                (
                  keep,
                  active_chunk_hashes_eq value ms raws (object_at-as_object value ms is_ms)
                        (manifest_shape-array_of ms bundle version raws is_shape)
                      ∙ found,
                  subst (λ (files : List FileEntry). All (λ file. HoldsFile file keep) files) same
                      lists.covers,
                )

get-keep_only :
    {V : Type 0} (kept : Text → Bool) (t : Table V) (h : Text)
    → get (keep_only kept t) h ≡ (if kept h then get t h else none)
unfolding keep_only get
get-keep_only kept [] h = ground arith
get-keep_only kept ((k, v) ∷ t) h = ground (arith, get-keep_only kept t h, text_eq_iff k h)

-- The row of the chunk is what it was before the deletes.
abbrev pub IsSpared : List Text → Text → Tables → ChunkRef → Type 0
IsSpared keep manifest_hash t ref =
    get (prune_work keep manifest_hash t).1.chunk ref.hash ≡ get t.chunk ref.hash

IsListed-IsSpared :
    (keep : List Text) (manifest_hash : Text) (t : Tables) (ref : ChunkRef)
    → IsListed ref keep
    → IsSpared keep manifest_hash t ref
unfolding prune_work
IsListed-IsSpared keep manifest_hash t ref h =
    get-keep_only (contains keep) t.chunk ref.hash
    ∙ ap (λ (b : Bool). if b then get t.chunk ref.hash else none) h

-- Pruning beside a manifest that `assertManifest` accepts deletes no chunk of its release: the set that
-- `activeChunkHashes` makes of it leaves the row of each chunk of each of its files as it was.
pub prune_work-IsSpared :
    (value : Json) (pointer : VersionPointer) (m : IndexManifest)
    → assert_manifest value pointer ≡ ok m
    → (keep : List Text) × (active_chunk_hashes value ≡ some keep)
      × ((t : Tables)
          → All (λ file. All (IsSpared keep pointer.manifest_hash t) file.chunks) m.files)
prune_work-IsSpared value pointer m h =
    let (keep, found, held) = active_chunk_hashes-assert_manifest value pointer m h in
    (
      keep,
      found,
      λ t.
          All-map _ _ m.files
            (λ (file : FileEntry).
              All-map _ _ file.chunks (λ ref. IsListed-IsSpared keep pointer.manifest_hash t ref))
            held,
    )
