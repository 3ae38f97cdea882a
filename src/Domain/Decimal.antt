-- ===== src/Domain/Decimal.antt =====
-- `decimal.Decimal` of the standard library under its default context: 28 digits, ROUND_HALF_EVEN,
-- and the InvalidOperation trap on. A finite number is a coefficient and an exponent of ten. The
-- sign of zero and the limits on exponents (about a million) are not modelled.
pub mod Rounding
pub mod Cents
pub mod Text
use payroll_software.Base.{
  ℕ, zero, suc, ◌+◌, ◌-◌, ◌*◌, ◌/◌, ◌%◌, ◌^◌, Bool, true, false, not, ltb, ◌==◌, if◌then◌else◌,
}
use payroll_software.Base.Int.{
  ℤ, pos, negsuc, pos_part, mag, neg, with_sign, ◌+ℤ◌, ◌-ℤ◌, ◌*ℤ◌, leb_ℤ,
}
use payroll_software.Base.Result.{Result, ok, err, invalid_operation}

-- `infinity true` is -Infinity. `snan` is the signalling NaN.
pub data Decimal : Type 0 where
  finite : ℤ → ℤ → Decimal
  infinity : Bool → Decimal
  nan snan : Decimal

abbrev pub precision : ℕ
precision = 28

-- The exponent of a whole number of cents, -2.
abbrev pub cents_exponent : ℤ
cents_exponent = negsuc 1

-- Decimal("0")
abbrev pub zero_decimal : Decimal
zero_decimal = finite (pos 0) (pos 0)

digits_from : ℕ → ℕ → ℕ
digits_from zero n = 1
digits_from (suc f) n = elim (ltb n 10) [ true ↦ 1 | false ↦ suc (digits_from f (n / 10)) ]

-- The number of decimal digits; each round takes one off, so `n` rounds are enough.
unfoldable pub digits : ℕ → ℕ
unfolding digits_from
digits n = digits_from n n

-- `n / m` to the nearest whole number, a tie to the even one.
unfoldable pub half_even : ℕ → ℕ → ℕ
half_even m n =
    let q = n / m in
    let r = n % m in
    if ltb (2 * r) m then q else if ltb m (2 * r) then q + 1 else if q % 2 == 0 then q else q + 1

-- `c / m` to the nearest whole number, a tie away from zero.
unfoldable pub half_up : ℕ → ℤ → ℤ
half_up m c = with_sign c ((2 * mag c + m) / (2 * m))

abbrev carry : ℤ → ℤ → ℕ → Decimal
carry c e n =
    if n == 10 ^ precision
    then finite (with_sign c (10 ^ (precision - 1))) (e +ℤ pos 1)
    else finite (with_sign c n) e

-- A result is rounded to the precision of the context.
unfoldable pub fix : ℤ → ℤ → Decimal
unfolding digits half_even with_sign ◌+ℤ◌
fix c e =
    if ltb (mag c) (10 ^ precision)
    then finite c e
    else (let k = digits (mag c) - precision in carry c (e +ℤ pos k) (half_even (10 ^ k) (mag c)))

-- The coefficient of a number with the exponent `e` at the exponent `f`, which is no larger.
unfoldable pub align : ℤ → ℤ → ℤ → ℤ
unfolding ◌-ℤ◌ ◌*ℤ◌
align c e f = c *ℤ pos (10 ^ pos_part (e -ℤ f))

abbrev pub min_ℤ : ℤ → ℤ → ℤ
min_ℤ a b = if leb_ℤ a b then a else b

-- a + b
unfoldable pub add : Decimal → Decimal → Result Decimal
unfolding fix align ◌+ℤ◌
add (finite c e) (finite d f) = let g = min_ℤ e f in ok (fix (align c e g +ℤ align d f g) g)
add snan b = err invalid_operation
add a snan = err invalid_operation
add nan b = ok nan
add a nan = ok nan
add (infinity true) (infinity false) = err invalid_operation
add (infinity false) (infinity true) = err invalid_operation
add (infinity s) b = ok (infinity s)
add a (infinity s) = ok (infinity s)

-- -a
unfoldable pub negate : Decimal → Result Decimal
unfolding fix neg
negate (finite c e) = ok (fix (neg c) e)
negate (infinity s) = ok (infinity (not s))
negate nan = ok nan
negate snan = err invalid_operation

-- a - b; the sign of a NaN is not modelled.
unfoldable pub subtract : Decimal → Decimal → Result Decimal
unfolding add fix align ◌+ℤ◌ neg
subtract a (finite d f) = add a (finite (neg d) f)
subtract a (infinity s) = add a (infinity (not s))
subtract a nan = add a nan
subtract a snan = add a snan

-- The sign of an infinite product, where the other factor is a number.
abbrev inf_times : Bool → ℤ → Result Decimal
inf_times s (pos zero) = err invalid_operation
inf_times s (pos (suc n)) = ok (infinity s)
inf_times s (negsuc n) = ok (infinity (not s))

abbrev xor_sign : Bool → Bool → Bool
xor_sign true b = not b
xor_sign false b = b

-- a * b
unfoldable pub multiply : Decimal → Decimal → Result Decimal
unfolding fix ◌+ℤ◌ ◌*ℤ◌
multiply (finite c e) (finite d f) = ok (fix (c *ℤ d) (e +ℤ f))
multiply snan b = err invalid_operation
multiply a snan = err invalid_operation
multiply nan b = ok nan
multiply a nan = ok nan
multiply (infinity s) (infinity t) = ok (infinity (xor_sign s t))
multiply (infinity s) (finite d f) = inf_times s d
multiply (finite c e) (infinity t) = inf_times t c

-- The whole number of cents nearest to c * 10^k cents, for an exponent `k` counted in cents.
abbrev shift : ℤ → ℤ → ℤ
shift c (pos k) = c *ℤ pos (10 ^ k)
shift c (negsuc k) = half_up (10 ^ suc k) c

unfoldable pub to_cents : ℤ → ℤ → ℤ
unfolding ◌+ℤ◌ ◌*ℤ◌ half_up with_sign
to_cents c e = shift c (e +ℤ pos 2)

-- d.quantize(Decimal("0.01"), rounding=ROUND_HALF_UP)
unfoldable pub quantize_cents : Decimal → Result Decimal
unfolding to_cents
quantize_cents (finite c e) =
    if ltb (mag (to_cents c e)) (10 ^ precision)
    then ok (finite (to_cents c e) cents_exponent)
    else err invalid_operation
quantize_cents (infinity s) = err invalid_operation
quantize_cents nan = ok nan
quantize_cents snan = err invalid_operation
