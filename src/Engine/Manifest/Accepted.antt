-- ===== src/Engine/Manifest/Accepted.antt =====
-- engine/sync.ts: the manifests that `assertManifest` accepts.
use edgeproc_browser.Base.{
  ℕ, ◌+◌, ◌≤◌, true, false, ◌≡◌, ◌≢◌, sym, subst, ap, Option, some, List, [], ◌∷◌, arith, Text,
  text_eq, text_eq_iff, ok, length, All, sum_by, leb, >>=-elim, require-elim, ok-injective,
}
use edgeproc_browser.Base.Table.{Table, values, contains, add, contains-add}
use edgeproc_browser.Engine.Json.{Members, Json}
use edgeproc_browser.Engine.ActivePointer.{VersionPointer}
use edgeproc_browser.Engine.Pointer.{object_at}
use edgeproc_browser.Engine.Manifest.{
  FileEntry, IndexManifest, Scan, max_sync_files, max_chunk_refs, max_distinct_chunks,
  max_total_uncompressed_bytes, checked_add, check_file, check_files, add_sizes, check_totals,
  empty_scan, assert_manifest, manifest_shape, same_bundle,
}
use edgeproc_browser.Engine.Manifest.Valid.{
  checked_add-eq, FileIsValid, FileStep, check_file-FileStep, Extends, FileIsValid-Extends,
}

-- No path stands twice.
abbrev pub HasDistinctPaths : List FileEntry → Type 0
HasDistinctPaths [] = Unit
HasDistinctPaths (f ∷ files) = All (λ g. f.path ≢ g.path) files × HasDistinctPaths files

abbrev pub total_refs : List FileEntry → ℕ
total_refs files = sum_by (λ f. length f.chunks) files

abbrev pub total_bytes : List FileEntry → ℕ
total_bytes files = sum_by (λ f. f.size) files

record FilesStep (s s' : Scan) (files : List FileEntry) : Type 0 where
  pub valid : All (FileIsValid s'.tally.sizes) files
  pub fresh : All (λ f. contains s.paths f.path ≡ false) files
  pub distinct : HasDistinctPaths files
  pub extends : Extends s.tally.sizes s'.tally.sizes
  pub counted : s'.tally.references ≡ s.tally.references + total_refs files
  pub capped : s.tally.references ≤ max_chunk_refs → s'.tally.references ≤ max_chunk_refs
  pub totals : s'.total_files ≡ s.total_files + total_bytes files

-- Files that are new after a path was added have other paths than it.
fresh-add :
    (seen : List Text) (path : Text) (files : List FileEntry)
    → All (λ f. contains (add seen path) f.path ≡ false) files
    → All (λ f. contains seen f.path ≡ false) files × All (λ f. path ≢ f.path) files
fresh-add seen path [] h = (tt, tt)
fresh-add seen path (f ∷ files) (e, h) =
    let (new, differ) = fresh-add seen path files h in
    let here : contains seen f.path ≡ false = ground (arith, contains-add seen path f.path) in
    let other : text_eq path f.path ≡ false = ground (arith, contains-add seen path f.path) in
    ((here, new), ((λ same. ground (arith, text_eq_iff path f.path)), differ))

FilesStep-cons :
    (s t u : Scan) (f : FileEntry) (files : List FileEntry)
    → FileStep s t f
    → FilesStep t u files
    → FilesStep s u (f ∷ files)
FilesStep-cons s t u f files k r =
    let (new, differ) =
      fresh-add s.paths f.path files
        (subst (λ p. All (λ g. contains p g.path ≡ false) files) k.paths r.fresh) in
    record {
      valid = (FileIsValid-Extends r.extends k.valid, r.valid);
      fresh = (k.fresh, new);
      distinct = (differ, r.distinct);
      extends = λ h n e. r.extends h n (k.extends h n e);
      counted = omega (arith, k.counted, r.counted);
      capped = λ c. r.capped (k.capped c);
      totals = omega (arith, k.totals, r.totals);
    }

check_files-FilesStep :
    (s s' : Scan) (raws : List Json) (files : List FileEntry)
    → check_files s raws ≡ ok (s', files)
    → FilesStep s s' files
unfolding check_files
check_files-FilesStep s s' [] files h =
    subst (λ x. FilesStep s x.0 x.1) (ok-injective h)
      (record {
        valid = tt;
        fresh = tt;
        distinct = tt;
        extends = λ k n e. e;
        counted = omega arith;
        capped = λ k. k;
        totals = omega arith;
      })
check_files-FilesStep s s' (raw ∷ raws) files h = >>=-elim (check_file s raw) _ h λ x is_x h1.
    >>=-elim (check_files x.0 raws) _ h1 λ y is_y h2.
      subst (λ z. FilesStep s z.0 z.1) (ok-injective h2)
        (FilesStep-cons s x.0 y.0 x.1 y.1 (check_file-FileStep s x.0 raw x.1 is_x)
          (check_files-FilesStep x.0 y.0 raws y.1 is_y))

-- A manifest that is within every bound and fits its pointer.
pub record IsValid (pointer : VersionPointer) (m : IndexManifest) : Type 0 where
  pub version : m.version ≡ pointer.version
  pub bundle : (b : Text) → pointer.bundle_id ≡ some b → m.bundle_id ≡ b
  pub file_count : length m.files ≤ max_sync_files
  pub distinct : HasDistinctPaths m.files
  pub refs : total_refs m.files ≤ max_chunk_refs
  pub bytes : total_bytes m.files ≤ max_total_uncompressed_bytes
  -- the size of each chunk, by its hash
  pub sizes : Table ℕ
  pub files : All (FileIsValid sizes) m.files
  pub chunk_count : length sizes ≤ max_distinct_chunks
  pub chunk_bytes : sum_by (λ n. n) (values sizes) ≤ max_total_uncompressed_bytes

add_sizes-eq : (a n : ℕ) (xs : List ℕ) → add_sizes a xs ≡ ok n → n ≡ a + sum_by (λ k. k) xs
unfolding add_sizes
add_sizes-eq a n [] h = ground arith
add_sizes-eq a n (x ∷ xs) h =
    >>=-elim (checked_add a x) _ h
      λ b is_b h1. omega (arith, checked_add-eq a x b is_b, add_sizes-eq b n xs h1)

record TotalsHold (s : Scan) : Type 0 where
  pub chunk_count : length s.tally.sizes ≤ max_distinct_chunks
  pub chunk_bytes : sum_by (λ n. n) (values s.tally.sizes) ≤ max_total_uncompressed_bytes
  pub bytes : s.total_files ≤ max_total_uncompressed_bytes

check_totals-TotalsHold : (s : Scan) → check_totals s ≡ ok tt → TotalsHold s
unfolding check_totals
check_totals-TotalsHold s h =
    require-elim (leb (length s.tally.sizes) max_distinct_chunks) _ _ h λ few h1.
      >>=-elim (add_sizes 0 (values s.tally.sizes)) _ h1 λ n is_n h2.
        let sum = add_sizes-eq 0 n (values s.tally.sizes) is_n in
        record {
          chunk_count = ground arith;
          chunk_bytes = ground (arith, sum);
          bytes = ground arith;
        }

manifest_shape-few :
    (ms : Members) (x : Text × Text × List Json)
    → manifest_shape ms ≡ ok x
    → length x.2 ≤ max_sync_files
unfolding manifest_shape
manifest_shape-few ms x h = ground arith

check_files-length :
    (s s' : Scan) (raws : List Json) (files : List FileEntry)
    → check_files s raws ≡ ok (s', files)
    → length files ≡ length raws
unfolding check_files
check_files-length s s' [] files h = ground arith
check_files-length s s' (raw ∷ raws) files h = >>=-elim (check_file s raw) _ h λ x is_x h1.
    >>=-elim (check_files x.0 raws) _ h1 λ y is_y h2.
      let same = check_files-length x.0 y.0 raws y.1 is_y in
      let e : x.1 ∷ y.1 ≡ files = ap (λ z. z.1) (ok-injective h2) in
      omega (arith, ap length (sym e), same)

same_bundle-eq :
    (o : Option Text) (found : Text)
    → same_bundle o found ≡ true
    → (b : Text) → o ≡ some b
    → found ≡ b
same_bundle-eq o found h b e = ground (arith, text_eq_iff found b)

-- A manifest that `assertManifest` returns fits its pointer's version and bundle, has at most 1024
-- files with distinct safe paths and well formed hashes, each file of the size of its chunks, at most
-- 8192 chunk references and 4096 chunks within their caps, one size to each chunk hash, and at most
-- 512 MiB of files and of chunks.
pub assert_manifest-IsValid :
    (value : Json) (pointer : VersionPointer) (m : IndexManifest)
    → assert_manifest value pointer ≡ ok m
    → IsValid pointer m
unfolding assert_manifest
assert_manifest-IsValid value pointer m h = >>=-elim (object_at value) _ h λ ms _ h1.
    >>=-elim (manifest_shape ms) _ h1 λ x is_x h2.
      require-elim (text_eq x.1 pointer.version) _ _ h2 λ versions h3.
        require-elim (same_bundle pointer.bundle_id x.0) _ _ h3 λ bundles h4.
          >>=-elim (check_files empty_scan x.2) _ h4 λ y is_y h5.
            >>=-elim (check_totals y.0) _ h5 λ _ totals h6.
              let r = check_files-FilesStep empty_scan y.0 x.2 y.1 is_y in
              let t = check_totals-TotalsHold y.0 totals in
              subst (IsValid pointer) (ok-injective h6) (record {
                version = (text_eq_iff _ _).0 versions;
                bundle = same_bundle-eq pointer.bundle_id x.0 bundles;
                file_count = omega (
                  arith,
                  check_files-length empty_scan y.0 x.2 y.1 is_y,
                  manifest_shape-few ms x is_x,
                );
                distinct = r.distinct;
                refs = omega (arith, r.counted, r.capped);
                bytes = omega (arith, r.totals, t.bytes);
                sizes = y.0.tally.sizes;
                files = r.valid;
                chunk_count = t.chunk_count;
                chunk_bytes = t.chunk_bytes;
              })
