-- ===== src/Services/Payroll/Nearest.antt =====
-- services/payroll/calculator.py, `_quantize`: rounding to the nearest cent.
use payroll_software.Base.{ℕ, suc, ◌+◌, ◌*◌, ◌^◌, ◌≤◌, ◌<◌, ◌≡◌}
use payroll_software.Base.Int.{ℤ, pos, int_laws, negsuc, mag, pos_part, neg_part, ◌+ℤ◌}
use payroll_software.Base.Result.{ok}
use payroll_software.Domain.Decimal.{finite, precision, cents_exponent, to_cents, half_up}
use payroll_software.Domain.Decimal.Rounding.{
  pow_pos, half_up_nearest, half_up_sign, quantize_cents_small,
}
use payroll_software.Services.Payroll.{quantize}

two_more : (k : ℕ) → negsuc (suc (suc k)) +ℤ pos 2 ≡ negsuc k
two_more k = omega int_laws

to_cents_below : (c : ℤ) (k : ℕ) → to_cents c (negsuc (suc (suc k))) ≡ half_up (10 ^ suc k) c
unfolding to_cents
to_cents_below c k = rw (two_more k)

-- An amount with more than two decimals, k + 1 more, that rounds to less than 10^28 cents is rounded
-- to the nearest whole number of cents, a tie away from zero, and never across zero.
pub quantize_nearest :
    (c : ℤ) (k : ℕ)
    → mag (to_cents c (negsuc (suc (suc k)))) < 10 ^ precision
    → let unit = 10 ^ suc k in
      (r : ℤ) × (quantize (finite c (negsuc (suc (suc k)))) ≡ ok (finite r cents_exponent))
      × (2 * mag r * unit ≤ 2 * mag c + unit)
      × (2 * mag c + unit < 2 * mag r * unit + 2 * unit)
      × ((neg_part c ≡ 0 → neg_part r ≡ 0) × (pos_part c ≡ 0 → pos_part r ≡ 0))
unfolding quantize
quantize_nearest c k h =
    let (low, high) = half_up_nearest (10 ^ suc k) c (pow_pos (suc k)) in
    (
      half_up (10 ^ suc k) c,
      rw (← to_cents_below c k) (quantize_cents_small c (negsuc (suc (suc k))) h),
      low,
      high,
      half_up_sign (10 ^ suc k) c (pow_pos (suc k)),
    )
