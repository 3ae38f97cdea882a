-- ===== src/System/Safety.antt =====
-- What holds after any sequence of requests to the views that change state.
use payroll_software.Base.{ℕ, Bool, Option, List, [], ◌∷◌, All}
use payroll_software.Base.Text.{Text}
use payroll_software.Domain.Decimal.{Decimal}
use payroll_software.Database.{Employee, Db}
use payroll_software.System.{
  Action, add_employee, edit_employee, remove_employee, import_file, make_account, add_period,
  close_period, run_payroll, add_compensation, request, act, acts,
}
use payroll_software.System.Tables.{tables, WellFormed, Owns, Changes}
use payroll_software.System.Sound.{Changes-WellFormed}
use payroll_software.System.Isolated.{Untouched, Untouched-refl, Untouched-trans, Changes-Untouched}
use payroll_software.System.Employees.{
  employee_create_view-Changes, employee_update_view-Changes, employee_delete_view-Changes,
}
use payroll_software.System.Imports.{create_portal_account_view-Changes, csv_import_view-Changes}
use payroll_software.System.Periods.{
  close_period_view-Changes, period_create_view-Changes, run_payroll_view-Changes,
}
use payroll_software.System.Adjustments.{compensation_create-Changes}

module _ (before : Employee → Employee → Bool) (normalize strip lowered : Text → Text)
    (fromisoformat : Text → Option ℕ) (decimal : Text → Option Decimal) where
  -- From well-formed tables, a request to any of the views that change state does to the tables what
  -- the specification allows to its tenant: it adds employees under fresh keys, edits employees in
  -- place, removes an employee that no row refers to, opens a month that the company has not opened
  -- yet, amends a period in place, adds an adjustment for an employee and a period of the tenant, or
  -- replaces the payslips of one of its periods by single payslips for its employees; and all of
  -- these with rows of the tenant only.
  pub act-Changes :
      (a : Action) (db : Db)
      → WellFormed (tables db)
      → Changes
          (request a).tenant
          (tables db)
          (tables (act before normalize strip lowered fromisoformat decimal a db))
  unfolding act
  act-Changes (add_employee r form) db h = employee_create_view-Changes r db h form
  act-Changes (edit_employee r pk form) db h = employee_update_view-Changes r db h pk form
  act-Changes (remove_employee r pk) db h = employee_delete_view-Changes r db h pk
  act-Changes (import_file r file) db h =
      csv_import_view-Changes strip lowered fromisoformat decimal r file db
  act-Changes (make_account r pk) db h = create_portal_account_view-Changes normalize r db h pk
  act-Changes (add_period r now year month) db h = period_create_view-Changes r db h now year month
  act-Changes (close_period r pk now) db h = close_period_view-Changes r db h pk now
  act-Changes (run_payroll r pk form) db h = run_payroll_view-Changes r db h before pk form
  act-Changes (add_compensation r now word form) db h =
      compensation_create-Changes r db now word form

  -- Whatever requests the views serve, in whatever order and for whatever tenants: well-formed tables
  -- stay well formed. Employees and periods keep distinct primary keys, every payslip and every
  -- adjustment refers to an employee and a period that exist and are of its own company, nobody has
  -- two payslips for a period, and a company has at most one period for each month, of 1 to 12.
  pub acts-WellFormed :
      (actions : List Action) (db : Db)
      → WellFormed (tables db)
      → WellFormed (tables (acts before normalize strip lowered fromisoformat decimal actions db))
  unfolding acts
  acts-WellFormed [] db h = h
  acts-WellFormed (a ∷ rest) db h =
      acts-WellFormed rest (act before normalize strip lowered fromisoformat decimal a db)
        (Changes-WellFormed (request a).tenant (tables db) h (act-Changes a db h))

  -- Tenants are isolated: from well-formed tables, requests on hosts of other tenants than a company
  -- leave the employees, periods, adjustments and payslips of the company as they were, in whatever
  -- order they are served.
  pub acts-Untouched :
      (c : ℕ) (actions : List Action) (db : Db)
      → WellFormed (tables db)
      → All (λ a. ¬ Owns (request a).tenant c) actions
      → Untouched c
          (tables db)
          (tables (acts before normalize strip lowered fromisoformat decimal actions db))
  unfolding acts
  acts-Untouched c [] db h other = Untouched-refl c (tables db)
  acts-Untouched c (a ∷ rest) db h other =
      let next = act before normalize strip lowered fromisoformat decimal a db in
      let changed = act-Changes a db h in
      Untouched-trans c (Changes-Untouched (request a).tenant c other.0 (tables db) h changed) (
        acts-Untouched c rest next (Changes-WellFormed (request a).tenant (tables db) h changed)
          other.1)
