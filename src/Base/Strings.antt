-- ===== src/Base/Strings.antt =====
-- JavaScript strings: lists of UTF-16 code units. `length` is their length.
use Prim.Native.Nat.{ℕ}
use Prim.Native.Char.{code}
use Prim.Native.String.{String}
use mathlib.Core.Path.{◌≡◌, refl}
use mathlib.Core.Logic.{◌↔◌, ◌≢◌}
use mathlib.Core.Bool.{Bool, true, false, ◌&&◌}
use mathlib.Core.List.{List, [], ◌∷◌, ◌++◌}
use native.Mathlib.Omega.{arith}
use edgeproc_browser.Base.Tests.{◌==◌, ltb, if◌then◌else◌}

abbrev pub Text : Type 0
Text = List ℕ

-- Uint8Array
abbrev pub Bytes : Type 0
Bytes = List ℕ

-- The code units of a literal.
abbrev pub codes : String → Text
codes String.[] = []
codes (String.◌∷◌ c s) = code c ∷ codes s

-- ===
unfoldable pub text_eq : Text → Text → Bool
text_eq [] [] = true
text_eq (a ∷ s) (b ∷ t) = (a == b) && text_eq s t
text_eq _ _ = false

pub text_eq_iff : (s t : Text) → (text_eq s t ≡ true) ↔ (s ≡ t)
unfolding text_eq
text_eq_iff [] [] = ((λ _. refl), (λ _. refl))
text_eq_iff (a ∷ s) [] = ground arith
text_eq_iff [] (b ∷ t) = ground arith
text_eq_iff (a ∷ s) (b ∷ t) = ground (arith, text_eq_iff s t)

pub text_eq_refl : (s : Text) → text_eq s s ≡ true
text_eq_refl s = (text_eq_iff s s).1 refl

pub text_eq_comm : (s t : Text) → text_eq s t ≡ text_eq t s
text_eq_comm s t = ground (arith, text_eq_iff s t, text_eq_iff t s)

pub text_eq_ne : (s t : Text) → s ≢ t → text_eq s t ≡ false
text_eq_ne s t h = ground (arith, text_eq_iff s t)

-- String.prototype.startsWith
unfoldable pub starts_with : Text → Text → Bool
starts_with s [] = true
starts_with [] (b ∷ t) = false
starts_with (a ∷ s) (b ∷ t) = (a == b) && starts_with s t

-- String.prototype.endsWith with one code unit
unfoldable pub ends_with : Text → ℕ → Bool
ends_with [] u = false
ends_with (a ∷ []) u = a == u
ends_with (a ∷ b ∷ s) u = ends_with (b ∷ s) u

-- A test of every code unit, as a character class under `^…*$`.
unfoldable pub all_units : (ℕ → Bool) → Text → Bool
all_units p [] = true
all_units p (a ∷ s) = p a && all_units p s

-- the part in hand gets one more code unit in front
abbrev push_front : ℕ → List Text → List Text
push_front a [] = (a ∷ []) ∷ []
push_front a (part ∷ parts) = (a ∷ part) ∷ parts

-- String.prototype.split with one code unit: never empty
unfoldable pub split_on : ℕ → Text → List Text
split_on u [] = [] ∷ []
split_on u (a ∷ s) = let rest = split_on u s in if a == u then [] ∷ rest else push_front a rest

-- The default order of `sort`: by code units.
unfoldable pub text_leb : Text → Text → Bool
text_leb [] t = true
text_leb (a ∷ s) [] = false
text_leb (a ∷ s) (b ∷ t) = if ltb a b then true else (a == b) && text_leb s t

pub text_leb_total : (s t : Text) → text_leb s t ≡ false → text_leb t s ≡ true
unfolding text_leb
text_leb_total [] t h = cc
text_leb_total (a ∷ s) [] h = refl
text_leb_total (a ∷ s) (b ∷ t) h = ground (arith, text_leb_total s t)

pub text_leb_antisymm : (s t : Text) → text_leb s t ≡ true → text_leb t s ≡ true → s ≡ t
unfolding text_leb
text_leb_antisymm [] [] h k = refl
text_leb_antisymm [] (b ∷ t) h k = ground arith
text_leb_antisymm (a ∷ s) [] h k = ground arith
text_leb_antisymm (a ∷ s) (b ∷ t) h k = ground (arith, text_leb_antisymm s t)

pub text_leb_trans :
    (s t u : Text) → text_leb s t ≡ true → text_leb t u ≡ true → text_leb s u ≡ true
unfolding text_leb
text_leb_trans [] t u h k = refl
text_leb_trans (a ∷ s) [] u h k = cc
text_leb_trans (a ∷ s) (b ∷ t) [] h k = cc
text_leb_trans (a ∷ s) (b ∷ t) (c ∷ u) h k = ground (arith, text_leb_trans s t u)

-- Array.prototype.join, with one code unit
unfoldable pub join_with : ℕ → List Text → Text
join_with u [] = []
join_with u (part ∷ []) = part
join_with u (part ∷ more ∷ parts) = part ++ u ∷ join_with u (more ∷ parts)
