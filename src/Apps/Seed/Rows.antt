-- ===== src/Apps/Seed/Rows.antt =====
-- apps/tenants/management/commands/seed_demo.py: the rows that the command looks up or makes.
use payroll_software.Base.{
  ℕ, ◌+◌, Bool, true, ◌&&◌, none, some, List, [], ◌∷◌, ◌++◌, any, select, first, ◌==◌,
  if◌then◌else◌,
}
use payroll_software.Base.Int.{pos, negsuc}
use payroll_software.Base.Text.{Text, text, text_eq}
use payroll_software.Base.Result.{Result, ok, err}
use payroll_software.Domain.Decimal.{Decimal, finite}
use payroll_software.Services.Payroll.{fixed_basis, hourly_basis, unit_basis}
use payroll_software.Database.{
  Company, company_model, User, Employee, PayPeriod, advance, Db, Context,
}
use payroll_software.Apps.Tenants.{objects}
use payroll_software.Apps.Employees.Crud.{EmployeeFields, insert_employee}
use payroll_software.Apps.Compensation.{Kind, Posted, save_line, table}
use payroll_software.Apps.Payroll.Period.{create_period}

-- A step that may raise, and what follows it.
abbrev pub after {ℓ κ} :
    {A : Type ℓ} {B : Type κ} → Result A × Db → (A → Db → Result B × Db) → Result B × Db
after (ok a, db) next = next a db
after (err x, db) next = (err x, db)

-- No tenant and no user are bound while the command starts.
abbrev pub unbound : Context
unbound = record { current_tenant = none; current_user = none }

-- `with tenant_context(tenant), user_context(owner)`
abbrev pub bound : Company → User → Context
bound t u = record { current_tenant = some t; current_user = some u }

-- `Company.objects.get_or_create(slug=slug, defaults=...)`
unfoldable pub get_or_create_company : Text → Text → Text → Text → Db → Result Company × Db
get_or_create_company slug name country currency db =
    elim (first (select (λ c. text_eq c.slug slug) db.companies)) [
      | some c ↦ (ok c, db)
      | none ↦
          let c : Company = record {
            pk = db.next_pk company_model;
            slug = slug;
            name = name;
            country = country;
            currency = currency;
            is_active = true;
          } in
          (
            ok c,
            record db {
              companies = db.companies ++ c ∷ [];
              next_pk = advance company_model (c.pk + 1) db.next_pk;
            },
          )
    ]

-- One line of a roster: the names, the pay basis and the rate.
pub record Sample : Type 0 where
  pub first_name : Text
  pub last_name : Text
  pub basis : Text
  pub rate : Decimal

-- `Employee.objects.filter(first_name=..., last_name=...).exists()`
abbrev pub is_listed : Context → Sample → List Employee → Bool
is_listed ctx s rows =
    any (λ e. text_eq e.first_name s.first_name && text_eq e.last_name s.last_name)
      (objects (λ e. e.company) ctx rows)

-- The row of a sample; `hired` is the first of January 2025.
unfoldable pub sample_fields : ℕ → Sample → EmployeeFields
sample_fields hired s =
    let fixed = text_eq s.basis fixed_basis in
    let hourly = text_eq s.basis hourly_basis in
    record {
      first_name = s.first_name;
      last_name = s.last_name;
      work_email = [];
      phone = [];
      national_id = none;
      passport_number = none;
      passport_expiry = none;
      visa_number = none;
      visa_expiry = none;
      bank_account_number = none;
      pay_basis = s.basis;
      base_salary = if fixed then some s.rate else none;
      hourly_rate = if fixed then none else if hourly then some s.rate else none;
      unit_rate = if fixed then none else if hourly then none else some s.rate;
      hire_date = hired;
      is_active = true;
    }

-- `_seed_employees`, in the context of the tenant.
unfoldable pub seed_employees : ℕ → Context → Company → List Sample → Db → Db
seed_employees hired ctx tenant [] db = db
seed_employees hired ctx tenant (s ∷ roster) db = seed_employees hired ctx tenant roster (
    if is_listed ctx s db.employees
    then db
    else insert_employee ctx tenant.pk (sample_fields hired s) db)

-- The two rosters.
abbrev pub amount : ℕ → Decimal
amount n = finite (pos n) (pos 0)

abbrev pub acme_roster : List Sample
acme_roster =
    record {
      first_name = text "Mira";
      last_name = text "Iqbal";
      basis = fixed_basis;
      rate = amount 85000;
    }
    ∷ record {
      first_name = text "Sami";
      last_name = text "Khan";
      basis = hourly_basis;
      rate = amount 450;
    }
    ∷ record {
      first_name = text "Bilal";
      last_name = text "Ahmed";
      basis = unit_basis;
      rate = finite (pos 1250) (negsuc 1);
    }
    ∷ record {
      first_name = text "Hira";
      last_name = text "Sheikh";
      basis = fixed_basis;
      rate = amount 110000;
    }
    ∷ []

abbrev pub beta_roster : List Sample
beta_roster =
    record {
      first_name = text "Tigist";
      last_name = text "Bekele";
      basis = fixed_basis;
      rate = amount 18000;
    }
    ∷ record {
      first_name = text "Yonas";
      last_name = text "Tesfaye";
      basis = hourly_basis;
      rate = amount 90;
    }
    ∷ record {
      first_name = text "Senait";
      last_name = text "Hailu";
      basis = unit_basis;
      rate = finite (pos 350) (negsuc 1);
    }
    ∷ []

-- `PayPeriod.all_tenants.get_or_create(company=..., year=..., month=...)`, outside any tenant.
unfoldable pub get_or_create_period : ℕ → Company → ℕ → ℕ → Db → Result PayPeriod × Db
get_or_create_period now t year month db =
    elim (first
      (select (λ p. p.company == t.pk && (p.year == year && p.month == month)) db.periods)) [
        | some p ↦ (ok p, db)
        | none ↦ create_period unbound now t.pk year month db
      ]

-- A sample adjustment, unless the employee has one of the kind for the period already.
unfoldable pub seed_line : Context → ℕ → Kind → Company → Posted → Db → Db
seed_line ctx now kind t f db =
    if any (λ l. l.employee == f.employee && l.period == f.period)
      (objects (λ l. l.company) ctx (table kind db.adjustments))
    then db
    else save_line ctx now kind t f db

abbrev pub sample_line : Employee → PayPeriod → Text → ℕ → Posted
sample_line e period what n = record {
  employee = e.pk;
  period = period.pk;
  description = what;
  amount = amount n;
}
