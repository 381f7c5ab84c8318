-- ===== src/Base/Returns.antt =====
-- What holds where a method returns: rules that follow a method along its binds.
use edgeproc_browser.Base.Tests.{if◌then◌else◌}
use edgeproc_browser.Base.Outcomes.{ok-injective, Outcome, ok, err}
use edgeproc_browser.Base.Effects.{pure, raise, Exec, ◌>>=◌, after, catch, handled, lift, Fixes}
use mathlib.Core.Bool.{Bool, true, false}
use mathlib.Core.Path.{subst, ◌≡◌, refl, ◌∙◌}

-- `Q` holds of the value and the state, if a value came back.
pub data Returns {E S A : Type 0} (Q : A → S → Type 0) : Outcome E A × S → Type 0 where
  returned : {a : A} {s : S} → Q a s → Returns Q (ok a, s)
  threw : {e : E} {s : S} → Returns Q (err e, s)

-- `Q` holds of the value and of what `view` shows, if a value came back; an error left it at `x`.
pub data Ends {E S A X : Type 0} (view : S → X) (Q : A → X → Type 0) (x : X)
    : Outcome E A × S → Type 0 where
  ended : {a : A} {s : S} → Q a (view s) → Ends view Q x (ok a, s)
  failed : {e : E} {s : S} → view s ≡ x → Ends view Q x (err e, s)

module _ {E S A B : Type 0} where
  pub bind_Returns :
      {Q : B → S → Type 0} (m : Exec E S A) (f : A → Exec E S B) (s : S)
      → ((a : A) (t : S) → m s ≡ (ok a, t) → Returns Q (f a t))
      → Returns Q ((m >>= f) s)
  unfolding ◌>>=◌
  bind_Returns {Q} m f s k = go (m s) refl
    where
      go : (r : Outcome E A × S) → m s ≡ r → Returns Q (after f r)
      go (ok a, t) e = k a t e
      go (err x, t) e = threw

  -- What a lifted outcome is, where it returned.
  pub lift-Returns :
      {Q : B → S → Type 0} (r : Outcome E A) (f : A → Exec E S B) (s : S)
      → ((a : A) → r ≡ ok a → Returns Q (f a s))
      → Returns Q ((lift r >>= f) s)
  unfolding ◌>>=◌
  lift-Returns (ok a) f s k = k a refl
  lift-Returns (err e) f s k = threw

  pub lift-Ends :
      {X : Type 0} {view : S → X} {Q : B → X → Type 0} {x : X} (r : Outcome E A)
      (f : A → Exec E S B) (s : S)
      → view s ≡ x
      → ((a : A) → r ≡ ok a → Ends view Q x (f a s))
      → Ends view Q x ((lift r >>= f) s)
  unfolding ◌>>=◌
  lift-Ends (ok a) f s same k = k a refl
  lift-Ends (err e) f s same k = failed same

  pub bind_Ends :
      {X : Type 0} {view : S → X} {Q : B → X → Type 0} {x : X} (m : Exec E S A) (f : A → Exec E S B)
      (s : S)
      → Fixes view m
      → view s ≡ x
      → ((a : A) (t : S) → m s ≡ (ok a, t) → view t ≡ x → Ends view Q x (f a t))
      → Ends view Q x ((m >>= f) s)
  unfolding ◌>>=◌
  bind_Ends {X} {view} {Q} {x} m f s fixes same k = go (m s) refl (fixes.at s ∙ same)
    where
      go : (r : Outcome E A × S) → m s ≡ r → view r.1 ≡ x → Ends view Q x (after f r)
      go (ok a, t) e kept = k a t e kept
      go (err y, t) e kept = failed kept

module _ {E S A X : Type 0} {view : S → X} {Q : A → X → Type 0} {x : X} where
  pub Fixes-Ends :
      (m : Exec E S A) (s : S)
      → Fixes view m
      → view s ≡ x
      → ((a : A) (t : S) → m s ≡ (ok a, t) → view t ≡ x → Q a (view t))
      → Ends view Q x (m s)
  Fixes-Ends m s fixes same k = go (m s) refl (fixes.at s ∙ same)
    where
      go : (r : Outcome E A × S) → m s ≡ r → view r.1 ≡ x → Ends view Q x r
      go (ok a, t) e kept = ended (k a t e kept)
      go (err y, t) e kept = failed kept

  pub catch-Ends :
      (m : Exec E S A) (h : E → Exec E S A) (s : S)
      → Ends view Q x (m s)
      → ((e : E) (t : S) → view t ≡ x → Ends view Q x (h e t))
      → Ends view Q x (catch m h s)
  unfolding catch
  catch-Ends m h s ends k = go (m s) ends
    where
      go : (r : Outcome E A × S) → Ends view Q x r → Ends view Q x (handled h r)
      go (ok a, t) (ended q) = ended q
      go (err y, t) (failed kept) = k y t kept

-- What `Returns` says, for a run that did.
pub Returns-at :
    {E S A : Type 0} {Q : A → S → Type 0} (r : Outcome E A × S) (a : A)
    → Returns Q r
    → r.0 ≡ ok a
    → Q a r.1
Returns-at {Q} (ok b, s) a (returned q) h = subst (λ y. Q y s) (ok-injective h) q
Returns-at (err e, s) a threw h = absurd (cc)

-- Whatever state it starts in, a value that the method returns satisfies `Q`.
pub record Gives {E S A : Type 0} (Q : A → Type 0) (m : Exec E S A) : Type 0 where
  pub at : (s : S) → Returns (λ a _. Q a) (m s)

module _ {E S A : Type 0} {Q : A → Type 0} where
  pub Gives-pure : (a : A) → Q a → Gives {E = E} {S = S} Q (pure a)
  Gives-pure a q = record { at = λ s. returned q }

  pub Gives-raise : (e : E) → Gives {S = S} Q (raise e)
  Gives-raise e = record { at = λ s. threw }

  pub Gives-lift : (r : Outcome E A) → ((a : A) → r ≡ ok a → Q a) → Gives {S = S} Q (lift r)
  Gives-lift (ok a) k = record { at = λ s. returned (k a refl) }
  Gives-lift (err e) k = record { at = λ s. threw }

  pub Gives-if :
      (b : Bool) (m n : Exec E S A) → Gives Q m → Gives Q n → Gives Q (if b then m else n)
  Gives-if true m n left right = left
  Gives-if false m n left right = right

  pub Gives-catch :
      (m : Exec E S A) (h : E → Exec E S A)
      → Gives Q m
      → ((e : E) → Gives Q (h e))
      → Gives Q (catch m h)
  unfolding catch
  Gives-catch m h q k = record { at = λ s. go (m s) (q.at s) }
    where
      go : (r : Outcome E A × S) → Returns (λ a _. Q a) r → Returns (λ a _. Q a) (handled h r)
      go (ok a, t) (returned x) = returned x
      go (err e, t) threw = (k e).at t

-- `P` may be the trivial property, where nothing of the first value is needed.
pub Gives-bind :
    {E S A B : Type 0} (P : A → Type 0) {Q : B → Type 0} (m : Exec E S A) (f : A → Exec E S B)
    → Gives P m
    → ((a : A) → P a → Gives Q (f a))
    → Gives Q (m >>= f)
unfolding ◌>>=◌
Gives-bind {E} {S} {A} P {Q} m f p k = record { at = λ s. go (m s) (p.at s) }
  where
    go : (r : Outcome E A × S) → Returns (λ a _. P a) r → Returns (λ b _. Q b) (after f r)
    go (ok a, t) (returned x) = (k a x).at t
    go (err e, t) threw = threw

pub Gives-anything : {E S A : Type 0} (m : Exec E S A) → Gives (λ _. Unit {0}) m
Gives-anything {E} {S} {A} m = record { at = λ s. go (m s) }
  where
    go : (r : Outcome E A × S) → Returns (λ _ _. Unit {0}) r
    go (ok a, t) = returned tt
    go (err e, t) = threw

-- Past a method of which nothing is known.
pub Gives-then :
    {E S A B : Type 0} {Q : B → Type 0} (m : Exec E S A) (f : A → Exec E S B)
    → ((a : A) → Gives Q (f a))
    → Gives Q (m >>= f)
Gives-then m f k = Gives-bind _ m f (Gives-anything m) λ a _. k a
