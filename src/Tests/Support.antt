-- ===== src/Tests/Support.antt =====
-- Logging, money, the panel of expiring documents, and the views over employees and adjustments.
use payroll_software.Base.{
  ℕ, true, not, ◌≡◌, refl, inl, inr, none, some, [], ◌∷◌, any, select, if◌then◌else◌, map, ◌&&◌,
}
use payroll_software.Base.Int.{pos}
use payroll_software.Base.Text.{Text, text, text_eq, is_member}
use payroll_software.Base.Result.{err, value_error}
use payroll_software.Domain.Decimal.{finite, add, subtract, multiply, negate}
use payroll_software.Domain.Money.{
  Money, add_money, subtract_money, multiply_money, negate_money, in_currency, money_arithmetic,
}
use payroll_software.Services.Payroll.{fixed_basis}
use payroll_software.Services.Observability.{
  LogRecord, by_name, positional, is_masked, is_sensitive, filter, sensitive_keys, standard_fields,
}
use payroll_software.Services.Observability.Masking.{
  get, map_option, hide, ArgsMasked, filter_hides, filter_masks,
}
use payroll_software.Database.{Employee, Db}
use payroll_software.Apps.Tenants.{lower, objects}
use payroll_software.Apps.Compensation.{Posted, compensation_create}
use payroll_software.Apps.Compensation.Additions.{Added, compensation_create-Added}
use payroll_software.Apps.Employees.{
  Cleaned, base_salary_field, clean, pay_rate, create_portal_account_view,
}
use payroll_software.Apps.Employees.Rates.{RateHeld, entered, basis_of, saved, rates, clean_fits}
use payroll_software.Apps.Employees.Portal.{Granted, create_portal_account_view-Granted}
use payroll_software.Apps.Employees.Csv.{Row}
use payroll_software.Config.{passport, expiring_docs}
use payroll_software.Config.Panel.{is_about, shows, expiring_docs-shows}
use payroll_software.Tests.Data.{
  cents, boss, alice, bob, office, staffed, in_acme, request_of, first_to_last,
}

abbrev lowered : Text → Text
lowered = map lower

abbrev logged : ℕ → LogRecord ℕ
logged salary = record {
  args = positional (7 ∷ []);
  attributes = (text "Salary", salary) ∷ (text "name", 3) ∷ [];
}

salary-is_masked : is_masked {A = ℕ} lowered 0 (text "Salary") ≡ true
unfolding is_masked is_sensitive text_eq lower
salary-is_masked = refl

filter_hides_example : filter lowered 0 (logged 1000) ≡ filter lowered 0 (logged 2000)
filter_hides_example =
    filter_hides lowered 0 (logged 1000) (logged 2000) refl
      (refl, inl salary-is_masked, (refl, inr refl, tt))

abbrev raise_given : LogRecord ℕ
raise_given = record {
  args = by_name ((text "Salary", 1000) ∷ (text "count", 2) ∷ []);
  attributes = (text "salary", 1000) ∷ [];
}

filter_masks_example :
    let (passed, after) = filter lowered 0 raise_given in
    (passed ≡ true)
    × ArgsMasked lowered 0 (text "Salary") raise_given.args after.args
    × (get (text "Salary") after.attributes
        ≡ map_option
            (hide lowered 0 (
              not (is_member (text "Salary") standard_fields)
              && is_member (lowered (text "Salary")) sensitive_keys))
            (get (text "Salary") raise_given.attributes))
filter_masks_example = filter_masks lowered 0 (text "Salary") raise_given

abbrev birr : Money
birr = record { amount = cents 5; currency = text "ETB" }

abbrev rupees : ℕ → Money
rupees n = record { amount = cents n; currency = text "PKR" }

money_arithmetic_example :
    (add_money (rupees 100) birr ≡ (
      if text_eq (text "PKR") (text "ETB")
      then in_currency (text "PKR") (add (cents 100) (cents 5))
      else err value_error))
    × (subtract_money (rupees 100) birr ≡ (
        if text_eq (text "PKR") (text "ETB")
        then in_currency (text "PKR") (subtract (cents 100) (cents 5))
        else err value_error))
    × (multiply_money (rupees 100) (cents 200)
        ≡ in_currency (text "PKR") (multiply (cents 100) (cents 200)))
    × (negate_money (rupees 100) ≡ in_currency (text "PKR") (negate (cents 100)))
unfolding text_eq
money_arithmetic_example = money_arithmetic (rupees 100) birr (cents 200) refl

abbrev traveller : Employee
traveller = record alice { passport_expiry = some 120; visa_expiry = some 400 }

abbrev travels : Db
travels = staffed (traveller ∷ bob ∷ [])

expiring_docs-shows_example :
    any (is_about 1 passport) (expiring_docs first_to_last 100 in_acme travels)
    ≡ any
        (shows 100 1 passport)
        (select (λ e. e.is_active) (objects (λ e. e.company) in_acme travels.employees))
expiring_docs-shows_example = expiring_docs-shows 100 1 passport first_to_last in_acme travels

abbrev typed : Cleaned
typed = record {
  pay_basis = some fixed_basis;
  base_salary = some (finite (pos 0) (pos 0));
  hourly_rate = some (cents 5);
  unit_rate = none;
}

clean_fits_example :
    RateHeld
      (entered base_salary_field typed)
      base_salary_field
      (clean typed).0
      (pay_rate (saved (basis_of base_salary_field) (clean typed).1 alice))
      (rates (clean typed).1)
clean_fits_example = clean_fits typed alice base_salary_field refl

-- The office, where the second employee has an address.
abbrev reachable : Db
reachable = staffed (alice ∷ record bob { work_email = text "bob@acme.example" } ∷ [])

create_portal_account_view-Granted_example :
    Granted lowered
      (request_of boss)
      2
      reachable
      (create_portal_account_view lowered (request_of boss) 2 reachable).1
create_portal_account_view-Granted_example =
    create_portal_account_view-Granted lowered (request_of boss) 2 reachable

abbrev gift : Posted
gift = record { employee = 1; period = 1; description = text "Eid"; amount = cents 5000 }

compensation_create-Added_example :
    Added
      (request_of boss)
      8
      (text "bonus")
      office
      (compensation_create (request_of boss) 8 (text "bonus") (some gift) office).1
compensation_create-Added_example =
    compensation_create-Added (request_of boss) 8 (text "bonus") (some gift) office

abbrev some_row : Row
some_row =
    (text "pay_basis", some fixed_basis)
    ∷ (text "first_name", some (text "A"))
    ∷ (text "last_name", some (text "B"))
    ∷ (text "hire_date", some (text "2025-01-01"))
    ∷ (text "base_salary", some (text "10"))
    ∷ []
