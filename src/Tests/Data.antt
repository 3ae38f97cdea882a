-- ===== src/Tests/Data.antt =====
-- A small company: one employee on a fixed salary and one by the hour.
use payroll_software.Base.{ℕ, Bool, true, false, Option, none, some, List, [], ◌∷◌, leb}
use payroll_software.Base.Int.{pos}
use payroll_software.Base.Text.{Text, text}
use payroll_software.Domain.Decimal.{Decimal, finite, cents_exponent}
use payroll_software.Services.Payroll.{PayrollInput, fixed_basis, hourly_basis}
use payroll_software.Database.{
  Company, User, Role, company_admin, employee, Employee, PayPeriod, status_open, status_closed,
  Payslip, Db, Context,
}
use payroll_software.Apps.Http.{Request}

abbrev pub cents : ℕ → Decimal
cents n = finite (pos n) cents_exponent

abbrev pub acme : Company
acme = record {
  pk = 1;
  slug = text "acme";
  name = text "Acme";
  country = text "PK";
  currency = text "PKR";
  is_active = true;
}

abbrev pub globex : Company
globex = record {
  pk = 2;
  slug = text "globex";
  name = text "Globex";
  country = text "ET";
  currency = text "ETB";
  is_active = true;
}

abbrev pub user_of : ℕ → Role → Option ℕ → User
user_of k r c = record {
  pk = k;
  email = text "a@b";
  role = r;
  company = c;
  is_active = true;
  is_staff = false;
  is_superuser = false;
}

abbrev pub boss : User
boss = user_of 1 company_admin (some 1)

abbrev pub worker : User
worker = user_of 2 employee (some 1)

abbrev pub employee_of : ℕ → Text → Option Decimal → Option ℕ → Employee
employee_of k basis salary user = record {
  pk = k;
  company = 1;
  first_name = text "A";
  last_name = text "B";
  work_email = [];
  phone = [];
  national_id = none;
  passport_number = none;
  passport_expiry = none;
  visa_number = none;
  visa_expiry = none;
  bank_account_number = none;
  pay_basis = basis;
  base_salary = salary;
  hourly_rate = none;
  unit_rate = none;
  hire_date = 0;
  is_active = true;
  user = user;
}

abbrev pub alice : Employee
alice = employee_of 1 fixed_basis (some (cents 100000)) (some 2)

abbrev pub bob : Employee
bob = employee_of 2 hourly_basis none none

abbrev pub period_of : ℕ → ℕ → Bool → PayPeriod
period_of k month closed = record {
  pk = k;
  company = 1;
  year = 2025;
  month = month;
  status = elim closed [ true ↦ status_closed | false ↦ status_open ];
  closed_at = none;
  closed_by = none;
  created_at = 7;
  updated_at = 7;
}

abbrev pub may : PayPeriod
may = period_of 1 5 false

abbrev pub april : PayPeriod
april = period_of 2 4 true

abbrev pub payslip_of : ℕ → PayPeriod → Payslip
payslip_of k p = record {
  pk = k;
  company = 1;
  employee = 1;
  period = p.pk;
  hours_worked = none;
  units_processed = none;
  base_pay = cents 100000;
  bonuses_total = finite (pos 0) (pos 0);
  deductions_total = finite (pos 0) (pos 0);
  reimbursements_total = finite (pos 0) (pos 0);
  net_pay = cents 100000;
  currency = text "PKR";
}

abbrev pub first_to_last : Employee → Employee → Bool
first_to_last a b = leb a.pk b.pk

abbrev pub staffed : List Employee → Db
staffed es = record {
  companies = acme ∷ globex ∷ [];
  users = boss ∷ worker ∷ [];
  employees = es;
  periods = may ∷ april ∷ [];
  adjustments = record { bonuses = []; deductions = []; reimbursements = [] };
  payslips = payslip_of 3 april ∷ payslip_of 4 may ∷ [];
  lines = [];
  audit = [];
  next_pk = λ m. 9;
}

abbrev pub office : Db
office = staffed (alice ∷ bob ∷ [])

abbrev pub in_acme : Context
in_acme = record { current_tenant = some acme; current_user = some boss }

abbrev pub request_of : User → Request
request_of u = record { is_post = true; user = some u; tenant = some acme }

abbrev pub wage : PayrollInput
wage = record {
  pay_basis = fixed_basis;
  base_salary = some (cents 100000);
  hourly_rate = none;
  unit_rate = none;
  hours_worked = none;
  units_processed = none;
  bonuses = record { description = text "Eid"; amount = cents 5000 } ∷ [];
  deductions = record { description = text "Loan"; amount = cents 2500 } ∷ [];
  reimbursements = [];
  currency = text "PKR";
}
