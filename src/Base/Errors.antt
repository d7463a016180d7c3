-- ===== src/Base/Errors.antt =====
-- Go's `(T, error)` results: a value, or an error of the component's own type.
use mathlib.Core.Bool.{Bool, true, false}
use mathlib.Core.Path.{◌≡◌, refl}
use mathlib.Core.Logic.{◌⊎◌, inl, inr}

pub data Outcome {ℓ} (E A : Type ℓ) : Type ℓ where
  ok : A → Outcome E A
  err : E → Outcome E A

infixl 5 ◌>>=◌ ◌>>◌
abbrev pub ◌>>=◌ {ℓ} : {E A B : Type ℓ} → Outcome E A → (A → Outcome E B) → Outcome E B
ok a >>= f = f a
err e >>= f = err e

abbrev pub ◌>>◌ {ℓ} : {E B : Type ℓ} → Outcome E (Unit {ℓ}) → Outcome E B → Outcome E B
m >> k = m >>= λ _. k

-- `if bad { return err }`
abbrev pub refuse_if {ℓ} : {E : Type ℓ} → Bool → E → Outcome E (Unit {ℓ})
refuse_if true e = err e
refuse_if false e = ok tt

-- An error of a callee that the caller wraps.
abbrev pub wrap {ℓ} : {E F A : Type ℓ} → (E → F) → Outcome E A → Outcome F A
wrap f (ok a) = ok a
wrap f (err e) = err (f e)

-- What a chain that ends well has passed.
pub passed {ℓ} :
    {E A B : Type ℓ} (m : Outcome E A) (f : A → Outcome E B) {b : B}
    → (m >>= f) ≡ ok b
    → (a : A) × (m ≡ ok a) × (f a ≡ ok b)
passed (ok a) f h = (a, refl, h)
passed (err e) f h = cc

pub passed_check {ℓ} :
    {E B : Type ℓ} (m : Outcome E (Unit {ℓ})) (k : Outcome E B) {b : B}
    → (m >> k) ≡ ok b
    → (m ≡ ok tt) × (k ≡ ok b)
passed_check (ok tt) k h = (refl, h)
passed_check (err e) k h = cc

pub not_refused {ℓ} :
    {E B : Type ℓ} (b : Bool) (e : E) (k : Outcome E B) {v : B}
    → (refuse_if b e >> k) ≡ ok v
    → (b ≡ false) × (k ≡ ok v)
not_refused true e k h = cc
not_refused false e k h = (refl, h)

pub not_refused_last {ℓ} : {E : Type ℓ} (b : Bool) (e : E) → refuse_if b e ≡ ok tt → b ≡ false
not_refused_last true e h = cc
not_refused_last false e h = refl

pub ok_inj {ℓ} : {E A : Type ℓ} {a b : A} → ◌≡◌ {A = Outcome E A} (ok a) (ok b) → a ≡ b
ok_inj h = cc

-- To split on a computed result and keep the equation.
pub Outcome-cases {ℓ} :
    {E A : Type ℓ} (m : Outcome E A) → ((e : E) × (m ≡ err e)) ⊎ ((a : A) × (m ≡ ok a))
Outcome-cases (err e) = inl (e, refl)
Outcome-cases (ok a) = inr (a, refl)
