-- ===== src/Services/Payroll/Exact.antt =====
-- services/payroll/calculator.py: the amounts of a payslip, for finite inputs below 10^28 cents.
use payroll_software.Base.{
  ◌+◌, ◌^◌, ◌<◌, ◌≡◌, refl, List, [], ◌∷◌, some, inl, inr, arith, All, ◌∙◌, ap,
}
use payroll_software.Base.Int.{
  ℤ, pos, mag, ◌+ℤ◌, ◌*ℤ◌, sum_ℤ, sum_mag, mag-+ℤ-le, zero-+ℤ, +ℤ-zero, +ℤ_assoc,
}
use payroll_software.Base.Text.{Text, text, text_eq}
use payroll_software.Base.Result.{ok}
use payroll_software.Domain.Decimal.{
  Decimal, finite, infinity, nan, snan, precision, cents_exponent, zero_decimal, to_cents, multiply,
  fix,
}
use payroll_software.Domain.Decimal.Rounding.{quantize_cents_small, fix_small}
use payroll_software.Domain.Decimal.Cents.{IsCents, add-IsCents}
use payroll_software.Services.Payroll.{
  CompensationInput, PayrollInput, LineType, PayslipLineResult, fixed_basis, hourly_basis,
  unit_basis, quantize, fixed_base, rated_base, hourly_description, unit_description, compute_base,
  add_lines,
}

-- A number that is neither infinite nor a NaN.
abbrev pub IsFinite : Decimal → Type 0
IsFinite (finite c e) = Unit
IsFinite (infinity s) = ⊥
IsFinite nan = ⊥
IsFinite snan = ⊥

-- A finite number in whole cents, a half cent away from zero.
abbrev pub rounded : Decimal → ℤ
rounded (finite c e) = to_cents c e
rounded (infinity s) = pos 0
rounded nan = pos 0
rounded snan = pos 0

-- The rounded amounts of a list.
abbrev pub amounts : List CompensationInput → List ℤ
amounts [] = []
amounts (x ∷ xs) = rounded x.amount ∷ amounts xs

abbrev pub AllFinite : List CompensationInput → Type 0
AllFinite xs = All (λ x. IsFinite x.amount) xs

-- The lines of a list, with the rounded amounts.
abbrev pub exact_lines : LineType → List CompensationInput → List PayslipLineResult
exact_lines t [] = []
exact_lines t (x ∷ xs) =
    record {
      line_type = t;
      description = x.description;
      amount = finite (rounded x.amount) cents_exponent;
    }
    ∷ exact_lines t xs

quantize-rounded :
    (d : Decimal)
    → IsFinite d
    → mag (rounded d) < 10 ^ precision
    → quantize d ≡ ok (finite (rounded d) cents_exponent)
unfolding quantize
quantize-rounded (finite c e) f h = quantize_cents_small c e h
quantize-rounded (infinity s) f h = absurd f
quantize-rounded nan f h = absurd f
quantize-rounded snan f h = absurd f

-- One loop computes the exact total and the exact lines.
add_lines-exact :
    (t : LineType) (total : Decimal) (v : ℤ) (xs : List CompensationInput)
    → IsCents v total
    → AllFinite xs
    → mag v + sum_mag (amounts xs) < 10 ^ precision
    → (sum : Decimal) × (add_lines t total xs ≡ ok (sum, exact_lines t xs))
      × IsCents (v +ℤ sum_ℤ (amounts xs)) sum
unfolding add_lines
add_lines-exact t total v [] p f h = (total, refl, rw (+ℤ-zero v) p)
add_lines-exact t total v (x ∷ xs) p f h =
    let w = rounded x.amount in
    let (next, added, q) =
      add-IsCents v w total (finite w cents_exponent) p (inl refl) (omega (arith, mag-+ℤ-le v w)) in
    let (sum, rest, r) = add_lines-exact t next (v +ℤ w) xs q f.1 (omega (arith, mag-+ℤ-le v w)) in
    (
      sum,
      rw (quantize-rounded x.amount f.0 (omega arith), added, rest),
      rw (← +ℤ_assoc v w (sum_ℤ (amounts xs))) r,
    )

-- The sum of a list of amounts, from zero.
pub add_lines_from_zero :
    (t : LineType) (xs : List CompensationInput)
    → AllFinite xs
    → sum_mag (amounts xs) < 10 ^ precision
    → (sum : Decimal) × (add_lines t zero_decimal xs ≡ ok (sum, exact_lines t xs))
      × IsCents (sum_ℤ (amounts xs)) sum
add_lines_from_zero t xs f h =
    let (sum, e, p) =
      add_lines-exact t zero_decimal (pos 0) xs (inr (refl, refl)) f (omega arith) in
    (sum, e, rw (zero-+ℤ (sum_ℤ (amounts xs))) at p)

-- The exact pay before rounding, as a coefficient and an exponent: the salary, or the rate times
-- the quantity where that product has no more than 28 digits.
pub data Gross (i : PayrollInput) : ℤ → ℤ → Type 0 where
  salaried : {c e : ℤ} → i.pay_basis ≡ fixed_basis → i.base_salary ≡ some (finite c e) → Gross i c e
  by_hour :
      {c e d f : ℤ}
      → i.pay_basis ≡ hourly_basis
      → i.hourly_rate ≡ some (finite c e)
      → i.hours_worked ≡ some (finite d f)
      → mag (c *ℤ d) < 10 ^ precision
      → Gross i (c *ℤ d) (e +ℤ f)
  by_unit :
      {c e d f : ℤ}
      → i.pay_basis ≡ unit_basis
      → i.unit_rate ≡ some (finite c e)
      → i.units_processed ≡ some (finite d f)
      → mag (c *ℤ d) < 10 ^ precision
      → Gross i (c *ℤ d) (e +ℤ f)

-- The description of the base line.
pub base_text : {i : PayrollInput} {c e : ℤ} → Gross i c e → Text
base_text (salaried b s) = text "Fixed monthly salary"
base_text {i} (by_hour {d = d} {f = f} b r q h) = hourly_description i.currency (finite d f)
base_text {i} (by_unit {d = d} {f = f} b r q h) = unit_description i.currency (finite d f)

multiply-fix : (c e d f : ℤ) → multiply (finite c e) (finite d f) ≡ ok (fix (c *ℤ d) (e +ℤ f))
unfolding multiply
multiply-fix c e d f = refl

multiply-finite :
    (c e d f : ℤ)
    → mag (c *ℤ d) < 10 ^ precision
    → multiply (finite c e) (finite d f) ≡ ok (finite (c *ℤ d) (e +ℤ f))
multiply-finite c e d f small = multiply-fix c e d f ∙ ap ok (fix_small (c *ℤ d) (e +ℤ f) small)

rated_base-exact :
    (c e d f : ℤ) (describe : Decimal → Text)
    → mag (c *ℤ d) < 10 ^ precision
    → mag (to_cents (c *ℤ d) (e +ℤ f)) < 10 ^ precision
    → rated_base (some (finite c e)) (some (finite d f)) describe
      ≡ ok (finite (to_cents (c *ℤ d) (e +ℤ f)) cents_exponent, describe (finite d f))
unfolding rated_base quantize
rated_base-exact c e d f describe small h =
    rw (multiply-finite c e d f small, quantize_cents_small (c *ℤ d) (e +ℤ f) h)

pub compute_base-exact :
    (i : PayrollInput) {c e : ℤ} (g : Gross i c e)
    → mag (to_cents c e) < 10 ^ precision
    → compute_base i ≡ ok (finite (to_cents c e) cents_exponent, base_text g)
unfolding compute_base base_text text_eq
compute_base-exact i {c = c} {e = e} (salaried b s) h =
    rw (b, s) (unfold fixed_base quantize in rw (quantize_cents_small c e h))
compute_base-exact i (by_hour {c = c} {e = e} {d = d} {f = f} b r q small) h =
    rw (b, r, q) (rated_base-exact c e d f (hourly_description i.currency) small h)
compute_base-exact i (by_unit {c = c} {e = e} {d = d} {f = f} b r q small) h =
    rw (b, r, q) (rated_base-exact c e d f (unit_description i.currency) small h)
