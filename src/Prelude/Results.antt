-- ===== src/Prelude/Results.antt =====
-- A value or the error that was raised in its place.
use mathlib.Core.Bool.{Bool, true, false}
use mathlib.Core.Path.{◌≡◌, refl}
use mathlib.Core.Logic.{◌↔◌}

pub data Result {ℓ κ} (E : Type ℓ) (A : Type κ) : Type (ℓ ⊔ κ) where
  ok : A → Result E A
  err : E → Result E A

infixl 5 ◌>>=◌ ◌>>◌
abbrev pub ◌>>=◌ {ℓ κ ι} :
    {E : Type ℓ} {A : Type κ} {B : Type ι} → Result E A → (A → Result E B) → Result E B
ok a >>= f = f a
err e >>= f = err e

abbrev pub ◌>>◌ {ℓ κ} : {E : Type ℓ} {B : Type κ} → Result E (Unit {0}) → Result E B → Result E B
m >> k = m >>= λ _. k

-- `if test: raise e`.
abbrev pub raise_if {ℓ} : {E : Type ℓ} → Bool → E → Result E (Unit {0})
raise_if true e = err e
raise_if false e = ok tt

-- No error was raised.
abbrev pub Returns {ℓ κ} : {E : Type ℓ} {A : Type κ} → Result E A → Type 0
Returns (ok a) = Unit
Returns (err e) = ⊥

pub raise_if-Returns {ℓ} : {E : Type ℓ} (b : Bool) (e : E) → Returns (raise_if b e) ↔ (b ≡ false)
raise_if-Returns true e = ((λ r. absurd r), λ h. absurd cc)
raise_if-Returns false e = ((λ r. refl), λ h. tt)

-- Both have to succeed.
pub then-Returns {ℓ κ} :
    {E : Type ℓ} {B : Type κ} (m : Result E (Unit {0})) (k : Result E B)
    → Returns (m >> k) ↔ (Returns m × Returns k)
then-Returns (ok u) k = ((λ r. (tt, r)), λ p. p.1)
then-Returns (err e) k = ((λ r. absurd r), λ p. absurd p.0)
