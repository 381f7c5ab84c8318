-- ===== src/Base/Table.antt =====
-- ECMAScript's `Map` and `Set` over strings: the entries in the order of their first insertion.
use edgeproc_browser.Base.Tests.{if◌then◌else◌}
use edgeproc_browser.Base.Strings.{Text, text_eq, text_eq_iff, text_eq_refl}
use mathlib.Core.Path.{◌≡◌, refl}
use mathlib.Core.Bool.{Bool, true, false}
use mathlib.Core.Option.{Option, none, some}
use mathlib.Core.List.{List, [], ◌∷◌, map}
use native.Mathlib.Omega.{arith}

abbrev pub Table : Type 0 → Type 0
Table V = List (Text × V)

module _ {V : Type 0} where
  -- map.get(key)
  unfoldable pub get : Table V → Text → Option V
  get [] k = none
  get ((j, v) ∷ t) k = if text_eq j k then some v else get t k

  -- map.set(key, value): a known key keeps its place
  unfoldable pub put : Table V → Text → V → Table V
  put [] k v = (k, v) ∷ []
  put ((j, w) ∷ t) k v = if text_eq j k then (j, v) ∷ t else (j, w) ∷ put t k v

  -- map.delete(key)
  unfoldable pub remove : Table V → Text → Table V
  remove [] k = []
  remove ((j, w) ∷ t) k = let rest = remove t k in if text_eq j k then rest else (j, w) ∷ rest

  -- map.has(key)
  abbrev pub has : Table V → Text → Bool
  has t k = elim (get t k) [ none ↦ false | some _ ↦ true ]

  abbrev pub values : Table V → List V
  values t = map (λ e. e.1) t

  abbrev pub keys : Table V → List Text
  keys t = map (λ e. e.0) t

  pub get-put :
      (t : Table V) (k j : Text) (v : V)
      → get (put t k v) j ≡ (if text_eq k j then some v else get t j)
  unfolding get put
  get-put [] k j v = refl
  get-put ((i, w) ∷ t) k j v =
      ground (arith, text_eq_iff i k, text_eq_iff i j, text_eq_iff k j, get-put t k j v)

  pub get-put_self : (t : Table V) (k : Text) (v : V) → get (put t k v) k ≡ some v
  get-put_self t k v = rw get-put (rw (text_eq_refl k))

  pub get-remove :
      (t : Table V) (k j : Text) → get (remove t k) j ≡ (if text_eq k j then none else get t j)
  unfolding get remove
  get-remove [] k j = ground arith
  get-remove ((i, w) ∷ t) k j =
      ground (arith, text_eq_iff i k, text_eq_iff i j, text_eq_iff k j, get-remove t k j)

-- A `Set` of strings, as the list of its items.
unfoldable pub contains : List Text → Text → Bool
contains [] k = false
contains (j ∷ s) k = if text_eq j k then true else contains s k

-- set.add(key)
unfoldable pub add : List Text → Text → List Text
add [] k = k ∷ []
add (j ∷ s) k = if text_eq j k then j ∷ s else j ∷ add s k

pub contains-add :
    (s : List Text) (k j : Text)
    → contains (add s k) j ≡ (if text_eq k j then true else contains s j)
unfolding contains add
contains-add [] k j = refl
contains-add (i ∷ s) k j =
    ground (arith, text_eq_iff i k, text_eq_iff i j, text_eq_iff k j, contains-add s k j)
