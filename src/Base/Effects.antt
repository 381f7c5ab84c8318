-- ===== src/Base/Effects.antt =====
-- Methods that read and write a state and may throw. What was written before a throw stays written,
-- so the state comes back beside the error too. A promise that is awaited at once is such a method.
use edgeproc_browser.Base.Tests.{if◌then◌else◌}
use edgeproc_browser.Base.Outcomes.{Outcome, ok, err}
use mathlib.Core.Path.{◌≡◌, refl, ◌∙◌}
use mathlib.Core.Bool.{Bool, true, false}
use mathlib.Core.List.{List, [], ◌∷◌}
use edgeproc_browser.Base.Lists.{All}

abbrev pub Exec : Type 0 → Type 0 → Type 0 → Type 0
Exec E S A = S → Outcome E A × S

module _ {E S A : Type 0} where
  abbrev pub pure : A → Exec E S A
  pure a s = (ok a, s)

  abbrev pub raise : E → Exec E S A
  raise e s = (err e, s)

  abbrev pub lift : Outcome E A → Exec E S A
  lift r s = (r, s)

-- What follows a method: it runs unless the method threw.
abbrev pub after : {E S A B : Type 0} → (A → Exec E S B) → Outcome E A × S → Outcome E B × S
after f (ok a, s) = f a s
after f (err e, s) = (err e, s)

infixl 5 ◌>>=◌ ◌>>◌
unfoldable pub ◌>>=◌ : {E S A B : Type 0} → Exec E S A → (A → Exec E S B) → Exec E S B
◌>>=◌ m f s = after f (m s)

abbrev pub ◌>>◌ : {E S B : Type 0} → Exec E S (Unit {0}) → Exec E S B → Exec E S B
m >> k = m >>= λ _. k

-- try { m } catch (e) { handler(e) }
abbrev pub handled : {E S A : Type 0} → (E → Exec E S A) → Outcome E A × S → Outcome E A × S
handled h (ok a, s) = (ok a, s)
handled h (err e, s) = h e s

unfoldable pub catch : {E S A : Type 0} → Exec E S A → (E → Exec E S A) → Exec E S A
catch m h s = handled h (m s)

-- try { … } catch (e) { … }, with the outcome as a value: what follows decides
unfoldable pub attempt : {E S A : Type 0} → Exec E S A → Exec E S (Outcome E A)
attempt m s = (ok (m s).0, (m s).1)

-- The methods of a list of items, one after the other; the first that throws ends it.
unfoldable pub each : {E S A B : Type 0} → (A → Exec E S B) → List A → Exec E S (List B)
each f [] = pure []
each f (a ∷ rest) = f a >>= λ b. each f rest >>= λ bs. pure (b ∷ bs)

-- A part of the state that a method leaves as it was, whether it returns or throws.
pub record Fixes {E S A X : Type 0} (view : S → X) (m : Exec E S A) : Type 0 where
  pub at : (s : S) → view (m s).1 ≡ view s

module _ {E S A X : Type 0} {view : S → X} where
  pub Fixes-pure : (a : A) → Fixes {E = E} view (pure a)
  Fixes-pure a = record { at = λ s. refl }

  pub Fixes-raise : (e : E) → Fixes {A = A} view (raise e)
  Fixes-raise e = record { at = λ s. refl }

  pub Fixes-lift : (r : Outcome E A) → Fixes view (lift r)
  Fixes-lift r = record { at = λ s. refl }

  pub Fixes-if :
      (b : Bool) (m n : Exec E S A) → Fixes view m → Fixes view n → Fixes view (if b then m else n)
  Fixes-if true m n km kn = km
  Fixes-if false m n km kn = kn

  pub Fixes-catch :
      (m : Exec E S A) (h : E → Exec E S A)
      → Fixes view m
      → ((e : E) → Fixes view (h e))
      → Fixes view (catch m h)
  unfolding catch
  Fixes-catch m h km kh = record { at = λ s. go (m s) (km.at s) }
    where
      go : {s : S} (r : Outcome E A × S) → view r.1 ≡ view s → view (handled h r).1 ≡ view s
      go (ok a, t) e = e
      go (err x, t) e = (kh x).at t ∙ e

pub Fixes-bind :
    {E S A B X : Type 0} {view : S → X} (m : Exec E S A) (f : A → Exec E S B)
    → Fixes view m
    → ((a : A) → Fixes view (f a))
    → Fixes view (m >>= f)
unfolding ◌>>=◌
Fixes-bind {E} {S} {A} {view = view} m f km kf = record { at = λ s. go s (m s) (km.at s) }
  where
    go : (s : S) (r : Outcome E A × S) → view r.1 ≡ view s → view (after f r).1 ≡ view s
    go s (ok a, t) e = (kf a).at t ∙ e
    go s (err x, t) e = e

pub Fixes-each :
    {E S A B X : Type 0} {view : S → X} (f : A → Exec E S B) (xs : List A)
    → ((a : A) → Fixes view (f a))
    → Fixes view (each f xs)
unfolding each
Fixes-each f [] k = Fixes-pure []
Fixes-each f (a ∷ xs) k =
    Fixes-bind (f a) _ (k a)
      λ b. Fixes-bind (each f xs) _ (Fixes-each f xs k) λ bs. Fixes-pure (b ∷ bs)

-- The same of a list of methods, each of which leaves it.
pub Fixes-each_listed :
    {E S A B X : Type 0} {view : S → X} (f : A → Exec E S B) (xs : List A)
    → All (λ a. Fixes view (f a)) xs
    → Fixes view (each f xs)
unfolding each
Fixes-each_listed f [] k = Fixes-pure []
Fixes-each_listed f (a ∷ xs) (here, rest) =
    Fixes-bind (f a) _ here
      λ b. Fixes-bind (each f xs) _ (Fixes-each_listed f xs rest) λ bs. Fixes-pure (b ∷ bs)

pub Fixes-attempt :
    {E S A X : Type 0} {view : S → X} (m : Exec E S A) → Fixes view m → Fixes view (attempt m)
unfolding attempt
Fixes-attempt m k = record { at = λ s. k.at s }

pub ruleset fixes_rules = (
  Fixes-attempt, Fixes-each, Fixes-pure, Fixes-raise, Fixes-lift, Fixes-if, Fixes-catch, Fixes-bind,
)

-- Inversion of a bind that returned.
pub >>=-returns :
    {E S A B : Type 0} (m : Exec E S A) (f : A → Exec E S B) (s t : S) (b : B)
    → (m >>= f) s ≡ (ok b, t)
    → (a : A) × (u : S) × (m s ≡ (ok a, u)) × (f a u ≡ (ok b, t))
unfolding ◌>>=◌
>>=-returns {E} {S} {A} m f s t b h = go (m s) refl h
  where
    go :
        (r : Outcome E A × S)
        → m s ≡ r
        → after f r ≡ (ok b, t)
        → (a : A) × (u : S) × (m s ≡ (ok a, u)) × (f a u ≡ (ok b, t))
    go (ok a, u) e k = (a, u, e, k)
    go (err x, u) e k = cc
