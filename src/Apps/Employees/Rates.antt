-- ===== src/Apps/Employees/Rates.antt =====
-- apps/employees/forms.py: which rates the edit form lets through.
use payroll_software.Base.{
  ℕ, zero, suc, ◌+◌, Bool, true, false, not, ◌≡◌, ◌==◌, refl, Option, none, some, arith, is_some,
  if◌then◌else◌, Bool-cases, inl, inr,
}
use payroll_software.Base.Int.{pos, negsuc, mag}
use payroll_software.Base.Text.{Text, text_eq}
use payroll_software.Domain.Decimal.{Decimal, finite, infinity, nan, snan}
use payroll_software.Services.Payroll.{fixed_basis, hourly_basis, unit_basis}
use payroll_software.Database.{Employee}
use payroll_software.Apps.Employees.{
  Cleaned, RateField, base_salary_field, hourly_rate_field, unit_rate_field, rate_field, is_truthy,
  clean, pay_rate,
}

-- The employee as the form saves it, for a pay basis and the cleaned rates.
abbrev pub saved : Text → Cleaned → Employee → Employee
saved b c e = record e {
  pay_basis = b;
  base_salary = c.base_salary;
  hourly_rate = c.hourly_rate;
  unit_rate = c.unit_rate;
}

abbrev count : Option Decimal → ℕ
count o = if is_some o then 1 else 0

-- How many rates the cleaned data holds.
abbrev pub rates : Cleaned → ℕ
rates c = count c.base_salary + count c.hourly_rate + count c.unit_rate

-- No amount, or the amount zero, at any exponent.
abbrev pub is_lacking : Option Decimal → Bool
is_lacking none = true
is_lacking (some (finite c e)) = mag c == 0
is_lacking (some d) = false

is_truthy_lem : (v : Option Decimal) → is_truthy v ≡ not (is_lacking v)
is_truthy_lem none = refl
is_truthy_lem (some (finite (pos zero) e)) = refl
is_truthy_lem (some (finite (pos (suc n)) e)) = ground arith
is_truthy_lem (some (finite (negsuc n) e)) = ground arith
is_truthy_lem (some (infinity s)) = refl
is_truthy_lem (some nan) = refl
is_truthy_lem (some snan) = refl

-- The pay basis that a field belongs to, and what was entered in the field.
abbrev pub basis_of : RateField → Text
basis_of base_salary_field = fixed_basis
basis_of hourly_rate_field = hourly_basis
basis_of unit_rate_field = unit_basis

abbrev pub entered : RateField → Cleaned → Option Decimal
entered base_salary_field c = c.base_salary
entered hourly_rate_field c = c.hourly_rate
entered unit_rate_field c = c.unit_rate

-- What the form must do with the rate that was entered in a field: it leaves this rate alone, or,
-- where it is lacking, an error at the field and no rate.
abbrev pub RateHeld : Option Decimal → RateField → Option RateField → Option Decimal → ℕ → Type 0
RateHeld v field error rate held =
    (error ≡ (if is_lacking v then some field else none))
    × (rate ≡ (if is_lacking v then none else v))
    × (held ≡ (if is_lacking v then 0 else 1))

kept-RateHeld :
    (v : Option Decimal) (field : RateField) (held : ℕ)
    → held ≡ count (if is_truthy v then v else none)
    → RateHeld v field
        (if is_truthy v then none else some field)
        (if is_truthy v then v else none)
        held
kept-RateHeld none field held h = (refl, refl, h)
kept-RateHeld (some d) field held h = elim (Bool-cases (is_lacking (some d))) [
  | inl e ↦ rw (is_truthy_lem (some d), e) (refl, refl, rw (is_truthy_lem (some d), e) at h)
  | inr e ↦ rw (is_truthy_lem (some d), e) (refl, refl, rw (is_truthy_lem (some d), e) at h)
]

-- Where the pay basis is that of a rate's field, the form reports an error, at this field, exactly if
-- the rate that was entered there is missing or zero. Otherwise the cleaned data holds this rate as
-- entered, and no other; it is the pay rate of the employee that the form makes. Where the form
-- reports an error the data holds no rate.
pub clean_fits :
    (c : Cleaned) (e : Employee) (field : RateField)
    → c.pay_basis ≡ some (basis_of field)
    → RateHeld
        (entered field c)
        field
        (clean c).0
        (pay_rate (saved (basis_of field) (clean c).1 e))
        (rates (clean c).1)
unfolding clean rate_field pay_rate text_eq
clean_fits c e base_salary_field h =
    rw h (kept-RateHeld c.base_salary base_salary_field _ (omega arith))
clean_fits c e hourly_rate_field h =
    rw h (kept-RateHeld c.hourly_rate hourly_rate_field _ (omega arith))
clean_fits c e unit_rate_field h = rw h (kept-RateHeld c.unit_rate unit_rate_field _ (omega arith))
