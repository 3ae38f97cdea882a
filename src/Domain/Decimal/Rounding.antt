-- ===== src/Domain/Decimal/Rounding.antt =====
-- What the roundings of `decimal` compute, as used by services/payroll/calculator.py.
use native.Mathlib.Nat.{pow-suc, div-eq_of_lt, div-mul-le_self, lt-div-mul-add}
use payroll_software.Base.{ℕ, zero, suc, ◌+◌, ◌*◌, ◌^◌, ◌≤◌, ◌<◌, ◌≡◌, refl, arith, lt→ltb}
use payroll_software.Base.Int.{ℤ, pos, negsuc, mag, pos_part, neg_part, with_sign}
use payroll_software.Domain.Decimal.{
  finite, precision, half_up, fix, to_cents, quantize_cents, cents_exponent,
}
use payroll_software.Base.Result.{ok}

pub pow_pos : (k : ℕ) → 0 < 10 ^ k
pow_pos zero = omega arith
pow_pos (suc k) = rw pow-suc (omega (arith, pow_pos k))

mag-with_sign : (c : ℤ) (n : ℕ) → mag (with_sign c n) ≡ n
unfolding with_sign
mag-with_sign (pos _) n = omega arith
mag-with_sign (negsuc _) n = ground arith

-- The result lies on the same side of zero as the exact value.
pub half_up_sign :
    (m : ℕ) (c : ℤ)
    → 0 < m
    → (neg_part c ≡ 0 → neg_part (half_up m c) ≡ 0) × (pos_part c ≡ 0 → pos_part (half_up m c) ≡ 0)
unfolding half_up with_sign
half_up_sign m (pos zero) h = (λ _. refl, λ _. div-eq_of_lt (omega arith))
half_up_sign m (pos (suc n)) h = (λ _. refl, λ e. absurd (omega arith))
half_up_sign m (negsuc n) h = (λ e. absurd (omega arith), λ _. ground arith)

-- It is the nearest whole number, and a tie goes away from zero.
pub half_up_nearest :
    (m : ℕ) (c : ℤ)
    → 0 < m
    → (2 * mag (half_up m c) * m ≤ 2 * mag c + m)
      × (2 * mag c + m < 2 * mag (half_up m c) * m + 2 * m)
unfolding half_up
half_up_nearest m c h = rw mag-with_sign (
  omega (arith, div-mul-le_self (2 * mag c + m) (2 * m)),
  omega (arith, lt-div-mul-add {a = 2 * mag c + m} {b = 2 * m} (omega arith)),
)

pub fix_small : (c e : ℤ) → mag c < 10 ^ precision → fix c e ≡ finite c e
unfolding fix
fix_small c e h = rw (lt→ltb (mag c) (10 ^ precision) h)

pub quantize_cents_small :
    (c e : ℤ)
    → mag (to_cents c e) < 10 ^ precision
    → quantize_cents (finite c e) ≡ ok (finite (to_cents c e) cents_exponent)
unfolding quantize_cents
quantize_cents_small c e h = rw (lt→ltb (mag (to_cents c e)) (10 ^ precision) h)
