-- ===== src/Engine/Manifest/Selection.antt =====
-- engine/sync.ts: the files that `selectedFiles` returns.
use edgeproc_browser.Base.{
  ◌<◌, Bool, true, false, ◌≡◌, refl, sym, ap, ◌∙◌, some, List, [], ◌∷◌, arith, Text, text_eq,
  text_eq_iff, text_eq_refl, Bool-cases, inl, inr, ok, length, ◌||◌, any, select, ltb, All,
  >>=-elim, require-elim, ok-injective,
}
use mathlib.Core.List.{Memᴰ}
use edgeproc_browser.Base.Table.{contains, add, contains-add}
use edgeproc_browser.Engine.Manifest.{
  FileEntry, IndexManifest, wants, add_paths, select_paths, selected_files,
}

-- Some wanted path names the file, or a directory that it is in.
abbrev pub is_wanted : List Text → FileEntry → Bool
is_wanted paths entry = any (λ path. wants path entry) paths

contains-add_paths :
    (selected : List Text) (entries : List FileEntry) (q : Text)
    → contains (add_paths selected entries) q
      ≡ (contains selected q || any (λ f. text_eq f.path q) entries)
contains-add_paths selected [] q = ground arith
contains-add_paths selected (f ∷ entries) q =
    ground
      (arith, contains-add_paths (add selected f.path) entries q, contains-add selected f.path q)

-- Whether a path is wanted depends on the path alone.
wants-eq : (path : Text) (f e : FileEntry) → f.path ≡ e.path → wants path f ≡ wants path e
unfolding wants
wants-eq path f e same = rw same

no_match :
    (path : Text) (e : FileEntry) (files : List FileEntry)
    → wants path e ≡ false
    → any (λ f. text_eq f.path e.path) (select (wants path) files) ≡ false
no_match path e [] h = refl
no_match path e (f ∷ files) h = elim (Bool-cases (wants path f)) [
  | inr other ↦ rw other (no_match path e files h)
  | inl wanted ↦ elim (Bool-cases (text_eq f.path e.path)) [
    | inl same ↦ absurd (cc (wants-eq path f e ((text_eq_iff _ _).0 same), wanted, h))
    | inr differ ↦ rw (wanted, differ) (no_match path e files h)
  ]
]

match :
    (path : Text) (e : FileEntry) (files : List FileEntry)
    → Memᴰ e files
    → wants path e ≡ true
    → any (λ f. text_eq f.path e.path) (select (wants path) files) ≡ true
match path e [] m h = elim m [ ]
match path e (f ∷ files) (Memᴰ.head same) h = ground (
  arith,
  ap (wants path) same,
  ap (λ (x : FileEntry). text_eq x.path e.path) same,
  text_eq_refl e.path,
)
match path e (f ∷ files) (Memᴰ.tail m) h = ground (arith, match path e files m h)

any-select-wants :
    (path : Text) (e : FileEntry) (files : List FileEntry)
    → Memᴰ e files
    → any (λ f. text_eq f.path e.path) (select (wants path) files) ≡ wants path e
any-select-wants path e files m = elim (Bool-cases (wants path e)) [
  | inl h ↦ match path e files m h ∙ sym h
  | inr h ↦ no_match path e files h ∙ sym h
]

select_paths-contains :
    (selected found : List Text) (files : List FileEntry) (paths : List Text)
    → select_paths selected files paths ≡ ok found
    → (e : FileEntry) → Memᴰ e files
    → contains found e.path ≡ (contains selected e.path || is_wanted paths e)
unfolding select_paths
select_paths-contains selected found files [] h e m = ground arith
select_paths-contains selected found files (path ∷ paths) h e m =
    require-elim (ltb 0 (length (select (wants path) files))) _ _ h λ some_match h1. ground (
      arith,
      select_paths-contains (add_paths selected (select (wants path) files)) found files paths h1 e
          m,
      contains-add_paths selected (select (wants path) files) e.path,
      any-select-wants path e files m,
    )

select_paths-matched :
    (selected found : List Text) (files : List FileEntry) (paths : List Text)
    → select_paths selected files paths ≡ ok found
    → All (λ path. 0 < length (select (wants path) files)) paths
unfolding select_paths
select_paths-matched selected found files [] h = tt
select_paths-matched selected found files (path ∷ paths) h =
    require-elim (ltb 0 (length (select (wants path) files))) _ _ h λ some_match h1. (
      ground arith,
      select_paths-matched (add_paths selected (select (wants path) files)) found files paths h1,
    )

select-eq :
    {A : Type 0} (f g : A → Bool) (xs : List A)
    → ((x : A) → Memᴰ x xs → f x ≡ g x)
    → select f xs ≡ select g xs
select-eq f g [] h = refl
select-eq f g (x ∷ xs) h =
    let rest = select-eq f g xs (λ y m. h y (Memᴰ.tail m)) in rw (h x (Memᴰ.head refl), rest) refl

contains_nil : (q : Text) (b : Bool) → (contains [] q || b) ≡ b
unfolding contains
contains_nil q b = refl

-- With wanted paths `selectedFiles` returns the files, in the manifest's order, that some wanted path
-- names or holds as a directory; and every wanted path has such a file.
pub selected_files_lem :
    (m : IndexManifest) (paths : List Text) (files : List FileEntry)
    → selected_files m (some paths) ≡ ok files
    → (files ≡ select (is_wanted paths) m.files)
      × All (λ path. 0 < length (select (wants path) m.files)) paths
unfolding selected_files
selected_files_lem m paths files h =
    >>=-elim (select_paths [] m.files paths) _ h λ found is_found h1. (
      sym (ok-injective h1)
          ∙ select-eq (λ e. contains found e.path) (is_wanted paths) m.files
              (λ e k.
                select_paths-contains [] found m.files paths is_found e k
                ∙ contains_nil e.path (is_wanted paths e)),
      select_paths-matched [] found m.files paths is_found,
    )
