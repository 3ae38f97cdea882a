-- ===== src/Config.antt =====
-- config/views.py: the home page and its panel of expiring documents.
pub mod Panel
use payroll_software.Base.{
  ℕ, ◌+◌, Bool, true, false, ◌&&◌, ◌||◌, Option, none, some, List, [], ◌∷◌, ◌++◌, leb,
  if◌then◌else◌, select, length, first, any, ◌==◌,
}
use payroll_software.Base.Int.{ℤ, pos, ◌-ℤ◌, neg, leb_ℤ, ltb_ℤ}
use payroll_software.Database.{
  Company, User, Employee, PayPeriod, Payslip, PeriodStatus, status_open, Role, employee, Db,
  Context,
}
use payroll_software.Apps.Tenants.{objects}
use payroll_software.Apps.Http.{
  Request, Response, to_login, redirected, rendered, context_of, is_employee,
}
use payroll_software.Apps.Payroll.Period.{status_eq, find_period}
use payroll_software.Apps.Payroll.Run.{order_by}

abbrev pub expiry_window_days : ℕ
expiry_window_days = 60

pub data DocType : Type 0 where
  passport visa : DocType

-- A row of the panel.
pub record ExpiringDoc : Type 0 where
  pub employee : Employee
  pub doc_type : DocType
  pub expiry : ℕ
  pub days_remaining : ℤ
  pub days_overdue : ℤ

-- `expiry is not None and expiry <= cutoff`
unfoldable pub is_due : ℕ → Option ℕ → Bool
is_due cutoff none = false
is_due cutoff (some expiry) = leb expiry cutoff

abbrev pub doc_row : ℕ → Employee → DocType → ℕ → ExpiringDoc
doc_row today emp t expiry =
    let days = pos expiry -ℤ pos today in
    record {
      employee = emp;
      doc_type = t;
      expiry = expiry;
      days_remaining = days;
      days_overdue = if ltb_ℤ days (pos 0) then neg days else pos 0;
    }

-- The row of one document, if it is due.
unfoldable pub doc_rows : ℕ → Employee → DocType → Option ℕ → List ExpiringDoc
doc_rows today emp t none = []
doc_rows today emp t (some expiry) =
    if is_due (today + expiry_window_days) (some expiry)
    then doc_row today emp t expiry ∷ []
    else []

-- The loop over the candidates.
unfoldable pub all_rows : ℕ → List Employee → List ExpiringDoc
all_rows today [] = []
all_rows today (emp ∷ emps) =
    doc_rows today emp passport emp.passport_expiry
    ++ (doc_rows today emp visa emp.visa_expiry ++ all_rows today emps)

-- The active employees of the tenant with a document that is due.
unfoldable pub candidates : ℕ → Context → Db → List Employee
candidates cutoff ctx db =
    select (λ e. is_due cutoff e.passport_expiry || is_due cutoff e.visa_expiry)
      (select (λ e. e.is_active) (objects (λ e. e.company) ctx db.employees))

abbrev pub sooner : ExpiringDoc → ExpiringDoc → Bool
sooner a b = leb_ℤ a.days_remaining b.days_remaining

-- `_expiring_docs` on a day; `before` is the default order of employees.
unfoldable pub expiring_docs : (Employee → Employee → Bool) → ℕ → Context → Db → List ExpiringDoc
expiring_docs before today ctx db =
    order_by sooner
      (all_rows today (order_by before (candidates (today + expiry_window_days) ctx db)))

-- The counters and the panel of the home page.
pub record Dashboard : Type 0 where
  pub active_employees : ℕ
  pub open_periods : ℕ
  pub payslips_this_year : ℕ
  pub docs : List ExpiringDoc

abbrev in_year : ℕ → List PayPeriod → Payslip → Bool
in_year year periods p = elim (find_period p.period periods) [
  | none ↦ false
  | some period ↦ period.year == year
]

abbrev dashboard : (Employee → Employee → Bool) → ℕ → ℕ → Context → Db → Dashboard
dashboard before today year ctx db = record {
  active_employees = length (select (λ e. e.is_active) (objects (λ e. e.company) ctx db.employees));
  open_periods =
      length
        (select (λ p. status_eq p.status status_open) (objects (λ p. p.company) ctx db.periods));
  payslips_this_year =
      length (select (in_year year db.periods) (objects (λ p. p.company) ctx db.payslips));
  docs = expiring_docs before today ctx db;
}

-- `HomeView`, on a day of a year: the counters stand on the page of a tenant only.
unfoldable pub home_view :
    (Employee → Employee → Bool) → ℕ → ℕ → Request → Db → Response (Option Dashboard)
home_view before today year r db = elim r.user [
  | none ↦ to_login
  | some u ↦ elim (is_employee u) [
    | true ↦ redirected
    | false ↦ elim r.tenant [
      | none ↦ rendered none
      | some t ↦ rendered (some (dashboard before today year (context_of r) db))
    ]
  ]
]
