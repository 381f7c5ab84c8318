-- ===== src/Base/Outcomes.antt =====
-- What a call returns or throws.
use mathlib.Core.Path.{◌≡◌, refl}
use mathlib.Core.Logic.{◌⊎◌, inl, inr}
use mathlib.Core.Bool.{Bool, true, false}

pub data Outcome (E A : Type 0) : Type 0 where
  ok : A → Outcome E A
  err : E → Outcome E A

infixl 5 ◌>>=◌ ◌>>◌
-- What follows a call: it runs unless the call threw.
abbrev pub ◌>>=◌ : {E A B : Type 0} → Outcome E A → (A → Outcome E B) → Outcome E B
err thrown >>= next = err thrown
ok value >>= next = next value

-- if (!test) throw e
abbrev pub require : {E : Type 0} → Bool → E → Outcome E (Unit {0})
require false thrown = err thrown
require true thrown = ok tt

abbrev pub ◌>>◌ : {E B : Type 0} → Outcome E (Unit {0}) → Outcome E B → Outcome E B
first >> rest = first >>= λ done. rest

pub >>=-eq-ok :
    {E A B : Type 0} (m : Outcome E A) (f : A → Outcome E B) {b : B}
    → (m >>= f) ≡ ok b
    → (a : A) × (m ≡ ok a) × (f a ≡ ok b)
>>=-eq-ok (err thrown) next h = cc
>>=-eq-ok (ok value) next h = (value, refl, h)

pub require-eq-ok :
    {E : Type 0} (test : Bool) (e : E) {u : Unit {0}} → require test e ≡ ok u → test ≡ true
require-eq-ok true e h = refl
require-eq-ok false e h = cc

-- A split on a computed outcome.
pub Outcome-cases :
    {E A : Type 0} (r : Outcome E A) → ((a : A) × (r ≡ ok a)) ⊎ ((e : E) × (r ≡ err e))
Outcome-cases (ok a) = inl (a, refl)
Outcome-cases (err e) = inr (e, refl)

-- Inversion of a bind that returned, for a goal: what it binds stays a variable there.
pub >>=-elim :
    {E A B P : Type 0} (m : Outcome E A) (f : A → Outcome E B) {b : B}
    → (m >>= f) ≡ ok b
    → ((a : A) → m ≡ ok a → f a ≡ ok b → P)
    → P
>>=-elim (ok a) f h k = k a refl h
>>=-elim (err e) f h k = absurd (cc)

pub require-elim :
    {E B P : Type 0} (test : Bool) (e : E) (n : Outcome E B) {b : B}
    → (require test e >> n) ≡ ok b
    → (test ≡ true → n ≡ ok b → P)
    → P
require-elim true e n h k = k refl h
require-elim false e n h k = absurd (cc)

pub ok-injective : {E A : Type 0} {a b : A} → ◌≡◌ {A = Outcome E A} (ok a) (ok b) → a ≡ b
ok-injective h = cc
