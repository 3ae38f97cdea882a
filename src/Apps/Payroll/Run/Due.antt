-- ===== src/Apps/Payroll/Run/Due.antt =====
-- What a payroll run owes, as a function of the employees alone: the specification of
-- `run_payroll_for_period` of apps/payroll/services.py.
use payroll_software.Base.{ℕ, false, ◌≡◌, List, [], ◌∷◌, ◌++◌, map, All, Pairwise, ◌==◌}
use payroll_software.Base.Result.{Result, ok, err, value_error, ◌>>=◌}
use payroll_software.Services.Payroll.{PayrollInput, PayslipResult, calculate_payslip}
use payroll_software.Database.{Employee, PayPeriod, Payslip, Db, employee_model, pay_period_model}
use payroll_software.Apps.Payroll.Run.{payslip_row, has_payslip}

-- A payslip without its primary key.
abbrev pub unkeyed : Payslip → Payslip
unkeyed p = record p { pk = 0 }

-- The rows due once the result for the first employee is known: a ValueError skips the employee,
-- any other exception ends the run.
unfoldable pub due_step :
    (PayslipResult → Payslip) → Result PayslipResult → Result (List Payslip) → Result (List Payslip)
due_step row (ok r) rest = rest >>= λ rows. ok (row r ∷ rows)
due_step row (err value_error) rest = rest
due_step row (err x) rest = err x

-- The payslips due to a list of employees, without primary keys.
unfoldable pub due :
    ℕ → PayPeriod → (Employee → PayrollInput) → List Employee → Result (List Payslip)
due company period input [] = ok []
due company period input (e ∷ es) =
    due_step (payslip_row 0 company period e (input e)) (calculate_payslip (input e))
      (due company period input es)

-- No two employees of the list share a primary key.
abbrev pub Distinct : List Employee → Type 0
Distinct = Pairwise (λ e f. e.pk == f.pk)

-- No employee of the list has a payslip for the period among the rows.
abbrev pub Fresh : ℕ → List Payslip → List Employee → Type 0
Fresh period rows es = All (λ e. has_payslip e.pk period rows ≡ false) es

-- What a run leaves alone: all but payslips, their lines, the audit log and the sequences of these.
pub record Kept (before after : Db) : Type 0 where
  pub companies : after.companies ≡ before.companies
  pub users : after.users ≡ before.users
  pub employees : after.employees ≡ before.employees
  pub periods : after.periods ≡ before.periods
  pub adjustments : after.adjustments ≡ before.adjustments
  pub next_employee : after.next_pk employee_model ≡ before.next_pk employee_model
  pub next_period : after.next_pk pay_period_model ≡ before.next_pk pay_period_model

-- How the loop over the employees ends from `db`, given the rows due: with the exception that is
-- due; or with payslips that are the rows due but for their keys, appended to the table.
abbrev pub Pays : Db → Result (List Payslip) → Result (List Payslip) × Db → Type 0
Pays db (err x) out = out.0 ≡ err x
Pays db (ok rows) out =
    (ps : List Payslip) × (out.0 ≡ ok ps)
    × (map unkeyed ps ≡ rows)
    × (out.1.payslips ≡ db.payslips ++ ps)
    × Kept db out.1
