-- ===== src/Engine/Freshness/Release.antt =====
-- engine/sync.ts: releases as sequences of numbers that go on with zeros.
use edgeproc_browser.Base.{subst, ◌↔◌, ℕ, zero, suc, ◌<◌, ◌≡◌, refl, List, [], ◌∷◌, arith, ◌∙◌, sym}
use edgeproc_browser.Engine.Freshness.{compare_release, unless_equal}
use Prim.Native.Nat.{compare, Ordering}

-- The part at an index, 0 past the end.
abbrev pub part : List ℕ → ℕ → ℕ
part [] i = 0
part (a ∷ s) zero = a
part (a ∷ s) (suc i) = part s i

-- The first part in which they differ is less in `a`.
pub record IsOlder (a b : List ℕ) : Type 0 where
  pub place : ℕ
  pub before : (i : ℕ) → i < place → part a i ≡ part b i
  pub less : part a place < part b place

IsOlder-here : (a b : List ℕ) → part a 0 < part b 0 → IsOlder a b
IsOlder-here a b h = record { place = 0; before = λ i k. absurd (omega arith); less = h }

abbrev tail : List ℕ → List ℕ
tail [] = []
tail (a ∷ s) = s

part-tail : (a : List ℕ) (i : ℕ) → part a (suc i) ≡ part (tail a) i
part-tail [] i = refl
part-tail (a ∷ s) i = refl

IsOlder-later : (a b : List ℕ) → part a 0 ≡ part b 0 → IsOlder (tail a) (tail b) → IsOlder a b
IsOlder-later a b e o = record {
  place = suc o.place;
  before = go;
  less = rw (part-tail a o.place, part-tail b o.place) o.less;
}
  where
    go : (i : ℕ) → i < suc o.place → part a i ≡ part b i
    go zero h = e
    go (suc i) h = rw (part-tail a i, part-tail b i) (o.before i (omega arith))

-- What each sign of the comparison says.
abbrev pub Says : Ordering → List ℕ → List ℕ → Type 0
Says Ordering.lt a b = IsOlder a b
Says Ordering.gt a b = IsOlder b a
Says Ordering.eq a b = (i : ℕ) → part a i ≡ part b i

Says-later :
    (o : Ordering) (a b : List ℕ) → part a 0 ≡ part b 0 → Says o (tail a) (tail b) → Says o a b
Says-later Ordering.lt a b e h = IsOlder-later a b e h
Says-later Ordering.gt a b e h = IsOlder-later b a (sym e) h
Says-later Ordering.eq a b e h = go
  where
    go : (i : ℕ) → part a i ≡ part b i
    go zero = e
    go (suc i) = part-tail a i ∙ h i ∙ sym (part-tail b i)

-- One round.
Says-unless_equal :
    (a b : List ℕ) (rest : Ordering)
    → Says rest (tail a) (tail b)
    → Says (unless_equal (compare (part a 0) (part b 0)) rest) a b
Says-unless_equal a b rest h = go (compare (part a 0) (part b 0)) refl
  where
    go : (o : Ordering) → compare (part a 0) (part b 0) ≡ o → Says (unless_equal o rest) a b
    go Ordering.lt e = IsOlder-here a b (ground arith)
    go Ordering.gt e = IsOlder-here b a (ground arith)
    go Ordering.eq e = Says-later rest a b (ground arith) h

compare_release-Says : (a b : List ℕ) → Says (compare_release a b) a b
unfolding compare_release
compare_release-Says [] [] = λ i. refl
compare_release-Says (x ∷ s) [] = Says-unless_equal (x ∷ s) [] _ (compare_release-Says s [])
compare_release-Says [] (y ∷ t) = Says-unless_equal [] (y ∷ t) _ (compare_release-Says [] t)
compare_release-Says (x ∷ s) (y ∷ t) =
    Says-unless_equal (x ∷ s) (y ∷ t) _ (compare_release-Says s t)

pub IsOlder-asymm : {a b : List ℕ} → IsOlder a b → IsOlder b a → ⊥
IsOlder-asymm h k = grind (arith, h.before k.place, k.before h.place, h.less, k.less)

pub Says-unique : (a b : List ℕ) (o p : Ordering) → Says o a b → Says p a b → o ≡ p
Says-unique a b Ordering.lt Ordering.lt h k = refl
Says-unique a b Ordering.lt Ordering.gt h k = absurd (IsOlder-asymm h k)
Says-unique a b Ordering.lt Ordering.eq h k = absurd (omega (arith, k h.place, h.less))
Says-unique a b Ordering.gt Ordering.lt h k = absurd (IsOlder-asymm h k)
Says-unique a b Ordering.gt Ordering.gt h k = refl
Says-unique a b Ordering.gt Ordering.eq h k = absurd (omega (arith, k h.place, h.less))
Says-unique a b Ordering.eq Ordering.lt h k = absurd (omega (arith, h k.place, k.less))
Says-unique a b Ordering.eq Ordering.gt h k = absurd (omega (arith, h k.place, k.less))
Says-unique a b Ordering.eq Ordering.eq h k = refl

-- `compareRelease` answers exactly what the sequences say: less if the first differing part is less,
-- greater if it is greater, equal if all parts agree, a missing part being 0.
pub compare_release_iff : (a b : List ℕ) (o : Ordering) → (compare_release a b ≡ o) ↔ Says o a b
compare_release_iff a b o = (
  λ e. subst (λ p. Says p a b) e (compare_release-Says a b),
  λ h. Says-unique a b (compare_release a b) o (compare_release-Says a b) h,
)
