-- ===== src/Money/Rounding.antt =====
-- The rounding of a product.
use billing_api.Common.{ℕ, ◌+◌, ◌*◌, ◌/◌, ◌≤◌, ◌<◌, ◌≡◌, refl, arith, pos, ◌+ℤ◌, ◌*ℤ◌, div_ℤ}
use billing_api.Money.{ScaledDecimal, factor, multiply}

product_pos : (a b : ℕ) → pos a *ℤ pos b ≡ pos (a * b)
unfolding ◌*ℤ◌
product_pos a b = ground arith

sum_pos : (a b : ℕ) → pos a +ℤ pos b ≡ pos (a + b)
unfolding ◌+ℤ◌
sum_pos a b = ground arith

multiply_lem : (a b : ScaledDecimal) → multiply a b ≡ div_ℤ (a *ℤ b +ℤ pos 50000) factor
unfolding multiply
multiply_lem a b = refl

pub multiply_pos : (a b : ℕ) → multiply (pos a) (pos b) ≡ pos ((a * b + 50000) / factor)
unfolding div_ℤ
multiply_pos a b =
    rw (multiply_lem (pos a) (pos b)) (rw (product_pos a b) (rw (sum_pos (a * b) 50000) refl))

-- The product of two amounts that are not negative is the exact one, in units of 10⁻¹⁰, rounded half
-- up to units of 10⁻⁵.
multiply_rounds :
    (a b : ℕ)
    → (r : ℕ) × (multiply (pos a) (pos b) ≡ pos r)
      × (2 * (r * factor) ≤ 2 * (a * b) + factor)
      × (2 * (a * b) < 2 * (r * factor) + factor)
multiply_rounds a b = ((a * b + 50000) / factor, multiply_pos a b, omega arith, omega arith)
