-- ===== src/System.antt =====
-- The program as a whole: its tables under any sequence of requests to the views that change state,
-- of apps/employees/views.py, apps/payroll/views.py and apps/compensation/views.py.
pub mod Tables
pub mod References
pub mod Sound
pub mod Owners
pub mod Isolated
pub mod Branches
pub mod Employees
pub mod Imports
pub mod Slots
pub mod Payroll
pub mod Periods
pub mod Adjustments
pub mod Seed
pub mod Safety
pub mod Pages
use payroll_software.Base.{ℕ, Bool, Option, List, [], ◌∷◌}
use payroll_software.Base.Text.{Text}
use payroll_software.Domain.Decimal.{Decimal}
use payroll_software.Database.{Company, Employee, Db}
use payroll_software.Apps.Http.{Request}
use payroll_software.Apps.Employees.{create_portal_account_view}
use payroll_software.Apps.Employees.Crud.{
  EmployeeFields, employee_create_view, employee_update_view, employee_delete_view,
}
use payroll_software.Apps.Employees.Csv.{Row, csv_import_view}
use payroll_software.Apps.Payroll.Views.{
  Cleaned, run_payroll_view, close_period_view, period_create_view,
}
use payroll_software.Apps.Compensation.{Posted, compensation_create}

-- A request to one of the views, with what the address names and what the form or the file holds;
-- a number that is no primary key is the time.
pub data Action : Type 0 where
  add_employee : Request → Option EmployeeFields → Action
  edit_employee : Request → ℕ → Option EmployeeFields → Action
  remove_employee : Request → ℕ → Action
  import_file : Request → Option (List Text × List Row) → Action
  make_account : Request → ℕ → Action
  add_period : Request → ℕ → ℕ → ℕ → Action
  close_period : Request → ℕ → ℕ → Action
  run_payroll : Request → ℕ → Option Cleaned → Action
  add_compensation : Request → ℕ → Text → Option Posted → Action

abbrev pub request : Action → Request
request (add_employee r form) = r
request (edit_employee r pk form) = r
request (remove_employee r pk) = r
request (import_file r file) = r
request (make_account r pk) = r
request (add_period r now year month) = r
request (close_period r pk now) = r
request (run_payroll r pk form) = r
request (add_compensation r now word form) = r

-- The order of employees, `normalize_email`, and the parameters of the import.
module _ (before : Employee → Employee → Bool) (normalize strip lowered : Text → Text)
    (fromisoformat : Text → Option ℕ) (decimal : Text → Option Decimal) where
  -- The database after a request was served.
  unfoldable pub act : Action → Db → Db
  act (add_employee r form) db = (employee_create_view r form db).1
  act (edit_employee r pk form) db = (employee_update_view r pk form db).1
  act (remove_employee r pk) db = (employee_delete_view r pk db).1
  act (import_file r file) db = (csv_import_view strip lowered fromisoformat decimal r file db).1
  act (make_account r pk) db = (create_portal_account_view normalize r pk db).1
  act (add_period r now year month) db = (period_create_view r now year month db).1
  act (close_period r pk now) db = (close_period_view r pk now db).1
  act (run_payroll r pk form) db = (run_payroll_view before r pk form db).1
  act (add_compensation r now word form) db = (compensation_create r now word form db).1

  -- The database after a sequence of requests.
  unfoldable pub acts : List Action → Db → Db
  acts [] db = db
  acts (a ∷ rest) db = acts rest (act a db)
