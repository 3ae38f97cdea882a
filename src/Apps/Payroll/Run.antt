-- ===== src/Apps/Payroll/Run.antt =====
-- apps/payroll/services.py: one payslip for every active employee of the period's company. A run
-- is atomic: where it raises, the database is left as it was.
pub mod Due
pub mod Loop
pub mod Refines
pub mod Scope
pub mod Order
pub mod Paid
pub mod Abort
pub mod Logged
use payroll_software.Base.{
  ℕ, zero, suc, ◌+◌, Bool, true, false, not, ◌&&◌, Option, none, some, List, [], ◌∷◌, ◌++◌, map,
  ◌==◌, leb, if◌then◌else◌, select, any, first, length,
}
use payroll_software.Base.Text.{Text}
use payroll_software.Base.Result.{
  Result, ok, err, Exn, value_error, integrity_error, not_found, ◌>>=◌,
}
use payroll_software.Domain.Decimal.{Decimal}
use payroll_software.Services.Payroll.{
  CompensationInput, PayrollInput, PayslipLineResult, PayslipResult, calculate_payslip,
}
use payroll_software.Database.{
  Company, Employee, PayPeriod, CompensationLine, Payslip, PayslipLine, payslip_model,
  payslip_line_model, advance, AuditLogEntry, delete, Adjustments, Db, Context,
}
use payroll_software.Apps.Audit.{entries, audited, audit_post_save}

-- ORDER BY: `before a b` if `a` may stand in front of `b`.
unfoldable pub insert_by {ℓ} : {A : Type ℓ} → (A → A → Bool) → A → List A → List A
insert_by before a [] = a ∷ []
insert_by before a (b ∷ rest) = if before a b then a ∷ (b ∷ rest) else b ∷ insert_by before a rest

unfoldable pub order_by {ℓ} : {A : Type ℓ} → (A → A → Bool) → List A → List A
unfolding insert_by
order_by before [] = []
order_by before (a ∷ rest) = insert_by before a (order_by before rest)

-- `dict.get`, for a dict of decimals by employee.
unfoldable pub get_quantity : ℕ → List (ℕ × Decimal) → Option Decimal
get_quantity k [] = none
get_quantity k ((j, v) ∷ d) = if j == k then some v else get_quantity k d

-- `_comp_list`
unfoldable pub comp_list : List CompensationLine → List CompensationInput
comp_list = map (λ c. record { description = c.description; amount = c.amount })

-- The default order of the compensation models, the newest first.
abbrev newest_first : CompensationLine → CompensationLine → Bool
newest_first a b = leb b.created_at a.created_at

-- `Bonus.all_tenants.filter(employee=emp, period=period)`, and so for the other two tables.
unfoldable pub adjustments_of : ℕ → ℕ → List CompensationLine → List CompensationLine
unfolding order_by
adjustments_of emp period rows =
    order_by newest_first (select (λ c. c.employee == emp && c.period == period) rows)

-- The input of the calculation for one employee.
unfoldable pub payroll_input :
    Text
    → PayPeriod
    → List (ℕ × Decimal)
    → List (ℕ × Decimal)
    → Adjustments
    → Employee
    → PayrollInput
payroll_input currency period hours units adj emp = record {
  pay_basis = emp.pay_basis;
  base_salary = emp.base_salary;
  hourly_rate = emp.hourly_rate;
  unit_rate = emp.unit_rate;
  hours_worked = get_quantity emp.pk hours;
  units_processed = get_quantity emp.pk units;
  bonuses = comp_list (adjustments_of emp.pk period.pk adj.bonuses);
  deductions = comp_list (adjustments_of emp.pk period.pk adj.deductions);
  reimbursements = comp_list (adjustments_of emp.pk period.pk adj.reimbursements);
  currency = currency;
}

-- The entries of the post_delete signals of the rows that a queryset deleted.
unfoldable pub deleted_entries : Context → List Payslip → List AuditLogEntry
deleted_entries ctx [] = []
deleted_entries ctx (p ∷ ps) =
    entries (audited ctx delete payslip_model p.pk) ++ deleted_entries ctx ps

-- Django's deletion of a queryset sorts the rows by primary key, and deletes and reports them in the
-- reverse of this order.
abbrev pub falling_pk : Payslip → Payslip → Bool
falling_pk a b = leb b.pk a.pk

-- `Payslip.all_tenants.filter(period=period).delete()`; the lines go with their payslip.
unfoldable pub delete_payslips : Context → PayPeriod → Db → Db
delete_payslips ctx period db =
    let doomed = select (λ p. p.period == period.pk) db.payslips in
    record db {
      payslips = select (λ p. not (p.period == period.pk)) db.payslips;
      lines = select (λ l. not (any (λ p. p.pk == l.payslip) doomed)) db.lines;
      audit = db.audit ++ deleted_entries ctx (order_by falling_pk doomed);
    }

-- The row of a payslip.
abbrev pub payslip_row : ℕ → ℕ → PayPeriod → Employee → PayrollInput → PayslipResult → Payslip
payslip_row pk company period emp i r = record {
  pk = pk;
  company = company;
  employee = emp.pk;
  period = period.pk;
  hours_worked = i.hours_worked;
  units_processed = i.units_processed;
  base_pay = r.base_pay;
  bonuses_total = r.bonuses_total;
  deductions_total = r.deductions_total;
  reimbursements_total = r.reimbursements_total;
  net_pay = r.net_pay;
  currency = r.currency;
}

-- `PayslipLine.objects.bulk_create`: it sends no signals.
abbrev line_rows : ℕ → ℕ → List PayslipLineResult → List PayslipLine
line_rows pk payslip [] = []
line_rows pk payslip (l ∷ ls) =
    record {
      pk = pk;
      payslip = payslip;
      line_type = l.line_type;
      description = l.description;
      amount = l.amount;
    }
    ∷ line_rows (pk + 1) payslip ls

-- `unique_employee_period` has a row already.
abbrev pub has_payslip : ℕ → ℕ → List Payslip → Bool
has_payslip emp period rows = any (λ p. p.employee == emp && p.period == period) rows

-- The row, its signal, and its lines.
unfoldable pub insert_payslip :
    Context → ℕ → PayPeriod → Employee → PayrollInput → PayslipResult → Db → Db
insert_payslip ctx company period emp i r db =
    let pk = db.next_pk payslip_model in
    let line_pk = db.next_pk payslip_line_model in
    let saved = audit_post_save ctx payslip_model pk true (record db {
      payslips = db.payslips ++ payslip_row pk company period emp i r ∷ [];
      next_pk = advance payslip_model (pk + 1) db.next_pk;
    }) in
    record saved {
      lines = saved.lines ++ line_rows line_pk pk r.lines;
      next_pk = advance payslip_line_model (line_pk + length r.lines) saved.next_pk;
    }

-- `Payslip.objects.create` under its constraint, and the lines.
unfoldable pub create_payslip :
    Context → ℕ → PayPeriod → Employee → PayrollInput → PayslipResult → Db → Result Payslip × Db
create_payslip ctx company period emp i r db =
    if has_payslip emp.pk period.pk db.payslips then (err integrity_error, db) else (
      ok (payslip_row (db.next_pk payslip_model) company period emp i r),
      insert_payslip ctx company period emp i r db,
    )

-- A fold over the rows of a query that stops where a step raises, with what the steps appended.
abbrev pub and_then {ℓ} :
    {A : Type ℓ} → Result (Option A) × Db → (Db → Result (List A) × Db) → Result (List A) × Db
and_then (err x, db) next = (err x, db)
and_then (ok none, db) next = next db
and_then (ok (some a), db) next = let (r, db') = next db in (r >>= λ l. ok (a ∷ l), db')

-- What the loop does with the result of one calculation: it skips a ValueError.
unfoldable pub pay_result :
    Context
    → ℕ
    → PayPeriod
    → Employee
    → PayrollInput
    → Result PayslipResult
    → Db
    → Result (Option Payslip) × Db
pay_result ctx company period emp i (ok r) db =
    let (p, db') = create_payslip ctx company period emp i r db in (p >>= λ row. ok (some row), db')
pay_result ctx company period emp i (err value_error) db = (ok none, db)
pay_result ctx company period emp i (err x) db = (err x, db)

-- One round of the loop.
unfoldable pub pay_employee :
    Context → ℕ → PayPeriod → Employee → PayrollInput → Db → Result (Option Payslip) × Db
pay_employee ctx company period emp i = pay_result ctx company period emp i (calculate_payslip i)

-- The loop over the employees, with the input of each.
unfoldable pub pay_all :
    Context
    → ℕ
    → PayPeriod
    → (Adjustments → Employee → PayrollInput)
    → List Employee
    → Db
    → Result (List Payslip) × Db
pay_all ctx company period input [] db = (ok [], db)
pay_all ctx company period input (emp ∷ emps) db =
    and_then (pay_employee ctx company period emp (input db.adjustments emp) db)
      (pay_all ctx company period input emps)

-- `transaction.atomic`
abbrev pub atomic {ℓ} : {A : Type ℓ} → (Db → Result A × Db) → Db → Result A × Db
atomic body db = let (r, db') = body db in elim r [ ok a ↦ (ok a, db') | err x ↦ (err x, db) ]

-- `Employee.all_tenants.filter(company=..., is_active=True)`, in the order of the model: `before` is
-- the order of (last_name, first_name) under the collation of the database.
unfoldable pub active_employees : (Employee → Employee → Bool) → ℕ → List Employee → List Employee
unfolding order_by
active_employees before company rows =
    order_by before (select (λ e. e.company == company && e.is_active) rows)

-- `period.company`
abbrev pub company_of : PayPeriod → Db → Option Company
company_of period db = first (select (λ c. c.pk == period.company) db.companies)

-- The body of `run_payroll_for_period`, for the period's company.
unfoldable pub run_for_company :
    (Employee → Employee → Bool)
    → Context
    → PayPeriod
    → List (ℕ × Decimal)
    → List (ℕ × Decimal)
    → Company
    → Db
    → Result (List Payslip) × Db
run_for_company before ctx period hours units company db =
    let cleared = delete_payslips ctx period db in
    pay_all ctx company.pk period (payroll_input company.currency period hours units)
      (active_employees before company.pk cleared.employees) cleared

-- `run_payroll_for_period`
unfoldable pub run_payroll_for_period :
    (Employee → Employee → Bool)
    → Context
    → PayPeriod
    → List (ℕ × Decimal)
    → List (ℕ × Decimal)
    → Db
    → Result (List Payslip) × Db
run_payroll_for_period before ctx period hours units db = elim (company_of period db) [
  | none ↦ (err not_found, db)
  | some company ↦ atomic (run_for_company before ctx period hours units company) db
]
