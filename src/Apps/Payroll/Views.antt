-- ===== src/Apps/Payroll/Views.antt =====
-- apps/payroll/views.py: the views over pay periods and payslips.
pub mod Staff
pub mod SelfService
pub mod Pages
use payroll_software.Base.{
  ℕ, Bool, true, false, not, ◌&&◌, ◌||◌, Option, none, some, List, [], ◌∷◌, ◌++◌, map, ◌==◌, leb,
  ◌+◌, ◌-◌, if◌then◌else◌, select, first, any, option_eq, length,
}
use payroll_software.Base.Text.{text_eq}
use payroll_software.Base.Result.{Result, ok, err, not_found}
use payroll_software.Domain.Decimal.{Decimal}
use payroll_software.Services.Payroll.{hourly_basis, unit_basis, fixed_basis}
use payroll_software.Database.{
  Company, User, Employee, PayPeriod, Payslip, PeriodStatus, status_open, status_closed, Db,
  Context,
}
use payroll_software.Apps.Tenants.{objects}
use payroll_software.Apps.Http.{
  Request, Response, to_login, forbidden, missing, server_error, redirected, form_page, rendered,
  shown, context_of, is_employee, Denial, anonymous, not_allowed, denied, tenant_required,
  employee_required,
}
use payroll_software.Apps.Payroll.Period.{is_closed, save_period, create_period}
use payroll_software.Apps.Payroll.Run.{
  active_employees, company_of, order_by, run_payroll_for_period,
}

-- The rows of a manager that is scoped by the request's tenant.
abbrev pub scoped_periods : Request → Db → List PayPeriod
scoped_periods r db = objects (λ p. p.company) (context_of r) db.periods

abbrev pub scoped_payslips : Request → Db → List Payslip
scoped_payslips r db = objects (λ p. p.company) (context_of r) db.payslips

-- `get_object_or_404(PayPeriod, pk=pk)`
abbrev pub get_period : Request → ℕ → Db → Option PayPeriod
get_period r pk db = first (select (λ p. p.pk == pk) (scoped_periods r db))

-- The check of `run_payroll_view` and `close_period_view`; it is that of the mixin.
unfoldable pub staff_only : Request → Option Denial
staff_only r = elim r.user [
  | none ↦ some anonymous
  | some u ↦ elim r.tenant [
    | none ↦ some not_allowed
    | some t ↦ elim (is_employee u) [ true ↦ some not_allowed | false ↦ none ]
  ]
]

abbrev pub user_pk : Option User → Option ℕ
user_pk none = none
user_pk (some u) = some u.pk

-- The period as `close_period_view` saves it.
abbrev pub closed_form : ℕ → Option ℕ → PayPeriod → PayPeriod
closed_form now by p = record p { status = status_closed; closed_at = some now; closed_by = by }

-- Closing the period that was found.
unfoldable pub close_found : Request → ℕ → Option PayPeriod → Db → Response Unit × Db
close_found r now none db = (missing, db)
close_found r now (some p) db =
    let (result, db') = save_period (context_of r) now (closed_form now (user_pk r.user) p) db in
    (elim result [ ok _ ↦ redirected | err _ ↦ server_error ], db')

-- `close_period_view`
unfoldable pub close_period_view : Request → ℕ → ℕ → Db → Response Unit × Db
close_period_view r pk now db = elim r.is_post [
  | false ↦ (redirected, db)
  | true ↦ elim (staff_only r) [
    | some d ↦ (denied d, db)
    | none ↦ close_found r now (get_period r pk db) db
  ]
]

-- The names of the dynamic fields of `RunPayrollForm`, by employee.
pub data FormField : Type 0 where
  hours_field units_field : ℕ → FormField

-- `form.cleaned_data`, once the form is valid.
abbrev pub Cleaned : Type 0
Cleaned = FormField → Option Decimal

-- `dynamic_employees`: the active employees of the company that are not on a fixed salary.
unfoldable pub dynamic_employees : (Employee → Employee → Bool) → ℕ → Db → List Employee
dynamic_employees before company db =
    select (λ e. not (text_eq e.pay_basis fixed_basis))
      (active_employees before company db.employees)

abbrev quantity : ℕ → Option Decimal → List (ℕ × Decimal) → List (ℕ × Decimal)
quantity pk none rest = rest
quantity pk (some v) rest = (pk, v) ∷ rest

-- `hours_by_employee`
unfoldable pub hours_by_employee : Cleaned → List Employee → List (ℕ × Decimal)
hours_by_employee cleaned [] = []
hours_by_employee cleaned (e ∷ es) =
    let rest = hours_by_employee cleaned es in
    if text_eq e.pay_basis hourly_basis
    then quantity e.pk (cleaned (hours_field e.pk)) rest
    else rest

-- `units_by_employee`; `Decimal` of a decimal does not raise.
unfoldable pub units_by_employee : Cleaned → List Employee → List (ℕ × Decimal)
units_by_employee cleaned [] = []
units_by_employee cleaned (e ∷ es) =
    let rest = units_by_employee cleaned es in
    if text_eq e.pay_basis unit_basis then quantity e.pk (cleaned (units_field e.pk)) rest else rest

-- What the page of a run says: how many payslips there are, and how many employees were skipped.
pub record RunReport : Type 0 where
  pub generated : ℕ
  pub skipped : ℕ

-- A valid form was posted for an open period: `run_payroll_view` from its `form.is_valid()` on.
unfoldable pub run_posted :
    (Employee → Employee → Bool) → Request → PayPeriod → Cleaned → Db → Response RunReport × Db
run_posted before r period cleaned db =
    let dynamic = dynamic_employees before period.company db in
    let eligible = length (select (λ e. e.company == period.company && e.is_active) db.employees) in
    let (result, db') =
      run_payroll_for_period before (context_of r) period (hours_by_employee cleaned dynamic)
        (units_by_employee cleaned dynamic) db in
    (
      elim result [
        | ok created ↦
            rendered (record { generated = length created; skipped = eligible - length created })
        | err _ ↦ server_error
      ],
      db',
    )

-- `run_payroll_view` once the period was looked up; the form is none where it is not valid.
unfoldable pub run_found :
    (Employee → Employee → Bool)
    → Request
    → Option Cleaned
    → Option PayPeriod
    → Db
    → Response RunReport × Db
run_found before r form none db = (missing, db)
run_found before r form (some period) db = elim (is_closed period) [
  | true ↦ (redirected, db)
  | false ↦ elim r.is_post [
    | false ↦ (form_page, db)
    | true ↦ elim form [
      | none ↦ (form_page, db)
      | some cleaned ↦ run_posted before r period cleaned db
    ]
  ]
]

-- `run_payroll_view`
unfoldable pub run_payroll_view :
    (Employee → Employee → Bool) → Request → ℕ → Option Cleaned → Db → Response RunReport × Db
run_payroll_view before r pk form db = elim (staff_only r) [
  | some d ↦ (denied d, db)
  | none ↦ run_found before r form (get_period r pk db) db
]

-- `PayPeriodCreateView`, where a posted form is valid; an existing month shows the form again.
unfoldable pub period_create_view : Request → ℕ → ℕ → ℕ → Db → Response Unit × Db
period_create_view r now year month db = elim (tenant_required r) [
  | some d ↦ (denied d, db)
  | none ↦ elim r.is_post [
    | false ↦ (form_page, db)
    | true ↦ elim r.tenant [
      | none ↦ (forbidden, db)
      | some t ↦
          if any (λ p. p.company == t.pk && (p.year == year && p.month == month)) db.periods
          then (form_page, db)
          else (let (result, db') = create_period (context_of r) now t.pk year month db in
              (elim result [ ok _ ↦ redirected | err _ ↦ server_error ], db'))
    ]
  ]
]

-- `PayslipDetailView`: an employee is redirected to the self-service page.
unfoldable pub payslip_detail_view : Request → ℕ → Db → Response Payslip
payslip_detail_view r pk db = elim r.user [
  | none ↦ to_login
  | some u ↦ elim (is_employee u) [
    | true ↦ redirected
    | false ↦ elim (tenant_required r) [
      | some d ↦ denied d
      | none ↦ shown r.is_post (elim (first (select (λ p. p.pk == pk) (scoped_payslips r db))) [
        | none ↦ missing
        | some p ↦ rendered p
      ])
    ]
  ]
]

-- `payslip.employee.user_id`, through the unscoped base manager.
abbrev pub owner : Payslip → Db → Option ℕ
owner p db = elim (first (select (λ e. e.pk == p.employee) db.employees)) [
  | none ↦ none
  | some e ↦ e.user
]

-- The year and the month of a payslip's period.
abbrev month_of : Db → Payslip → ℕ × ℕ
month_of db p = elim (first (select (λ q. q.pk == p.period) db.periods)) [
  | none ↦ (0, 0)
  | some q ↦ (q.year, q.month)
]

-- `order_by("-period__year", "-period__month")`
abbrev pub latest_first : Db → Payslip → Payslip → Bool
latest_first db a b =
    let (year, month) = month_of db a in
    let (year', month') = month_of db b in
    leb (year' + 1) year || (year' == year && leb month' month)

-- `MyPayslipsView`
unfoldable pub my_payslips_view : Request → Db → Response (List Payslip)
my_payslips_view r db = elim (employee_required r db) [
  | some d ↦ denied d
  | none ↦ shown r.is_post (
      rendered (
        order_by (latest_first db)
          (select (λ p. option_eq (owner p db) (user_pk r.user)) (scoped_payslips r db))))
]

-- The ownership check of `MyPayslipDetailView.get_object`.
abbrev pub own_or_forbidden : Request → Db → Option Payslip → Response Payslip
own_or_forbidden r db none = missing
own_or_forbidden r db (some p) =
    if option_eq (owner p db) (user_pk r.user) then rendered p else forbidden

-- `MyPayslipDetailView`
unfoldable pub my_payslip_detail_view : Request → ℕ → Db → Response Payslip
my_payslip_detail_view r pk db = elim (employee_required r db) [
  | some d ↦ denied d
  | none ↦
      shown r.is_post
        (own_or_forbidden r db (first (select (λ p. p.pk == pk) (scoped_payslips r db))))
]
