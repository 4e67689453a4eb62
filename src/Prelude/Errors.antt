-- ===== src/Prelude/Errors.antt =====
-- What a call that may raise gives back: its value, or the exception.
use mathlib.Core.Path.{◌≡◌, refl}
use native.Mathlib.Omega.{arith}

pub data Result {ℓ κ} (X : Type ℓ) (V : Type κ) : Type (ℓ ⊔ κ) where
  err : X → Result X V
  ok : V → Result X V

-- The rest of a block, which does not run once something was raised.
infixl 5 ◌>>=◌
abbrev pub ◌>>=◌ {ℓ κ μ} :
    {X : Type ℓ} {V : Type κ} {W : Type μ} → Result X V → (V → Result X W) → Result X W
err raised >>= rest = err raised
ok value >>= rest = rest value

module _ {ℓ κ μ} {X : Type ℓ} {V : Type κ} {W : Type μ} where
  -- A block that succeeds got past its first step.
  pub >>=-eq-ok :
      (first : Result X V) (rest : V → Result X W) {w : W}
      → (first >>= rest) ≡ ok w
      → (v : V) × (first ≡ ok v) × (rest v ≡ ok w)
  >>=-eq-ok (err raised) rest succeeds = absurd (ground arith)
  >>=-eq-ok (ok value) rest succeeds = (value, refl, succeeds)
