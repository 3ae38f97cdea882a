-- ===== src/Apps/Employees.antt =====
-- apps/employees: the pay rate of an employee (models.py), the edit form (forms.py) and the portal
-- account (views.py).
pub mod Rates
pub mod Portal
pub mod Csv
pub mod Crud
use payroll_software.Base.{
  ℕ, zero, Bool, true, false, not, ◌&&◌, ◌||◌, Option, none, some, List, [], ◌∷◌, ◌++◌, map, first,
  select, ◌==◌, is_some, if◌then◌else◌,
}
use payroll_software.Base.Int.{pos}
use payroll_software.Base.Text.{Text, text_eq}
use payroll_software.Base.Result.{Result, ok, err, integrity_error}
use payroll_software.Domain.Decimal.{Decimal, finite}
use payroll_software.Services.Payroll.{fixed_basis, hourly_basis, unit_basis}
use payroll_software.Database.{
  Company, User, Role, company_admin, payroll_manager, employee, Employee, employee_model, Db,
  Context,
}
use payroll_software.Apps.Audit.{audit_post_save}
use payroll_software.Apps.Tenants.{objects}
use payroll_software.Apps.Accounts.Manager.{create_user}
use payroll_software.Apps.Http.{
  Request, Response, to_login, forbidden, missing, wrong_method, server_error, redirected,
  context_of,
}

-- `Employee.pay_rate`; the columns hold decimals.
unfoldable pub pay_rate : Employee → Option Decimal
pay_rate e =
    if text_eq e.pay_basis fixed_basis
    then e.base_salary
    else if text_eq e.pay_basis hourly_basis
    then e.hourly_rate
    else if text_eq e.pay_basis unit_basis
    then e.unit_rate
    else none

-- `cleaned_data` of the form as `clean` finds it, as far as it reads or changes it.
pub record Cleaned : Type 0 where
  pub pay_basis : Option Text
  pub base_salary : Option Decimal
  pub hourly_rate : Option Decimal
  pub unit_rate : Option Decimal

pub data RateField : Type 0 where
  base_salary_field hourly_rate_field unit_rate_field : RateField

-- `basis_to_field.get(str(basis_value)) if basis_value else None`
unfoldable pub rate_field : Option Text → Option RateField
rate_field none = none
rate_field (some b) =
    if text_eq b fixed_basis
    then some base_salary_field
    else if text_eq b hourly_basis
    then some hourly_rate_field
    else if text_eq b unit_basis
    then some unit_rate_field
    else none

-- The truth value of `cleaned.get(rate_field)`: zero is false.
abbrev pub is_truthy : Option Decimal → Bool
is_truthy none = false
is_truthy (some (finite (pos zero) e)) = false
is_truthy (some d) = true

-- `EmployeeForm.clean`: the field that gets an error, and the cleaned data. `add_error` takes the
-- field out of the data.
unfoldable pub clean : Cleaned → Option RateField × Cleaned
clean c =
    let rejected = λ (v : Option Decimal). if is_truthy v then v else none in
    let failed = λ (v : Option Decimal) (f : RateField). if is_truthy v then none else some f in
    elim (rate_field c.pay_basis) [
      | none ↦ (none, record c { base_salary = none; hourly_rate = none; unit_rate = none })
      | some base_salary_field ↦ (
        failed c.base_salary base_salary_field,
        record c { base_salary = rejected c.base_salary; hourly_rate = none; unit_rate = none },
      )
      | some hourly_rate_field ↦ (
        failed c.hourly_rate hourly_rate_field,
        record c { base_salary = none; hourly_rate = rejected c.hourly_rate; unit_rate = none },
      )
      | some unit_rate_field ↦ (
        failed c.unit_rate unit_rate_field,
        record c { base_salary = none; hourly_rate = none; unit_rate = rejected c.unit_rate },
      )
    ]

-- `request.user.role in (Role.COMPANY_ADMIN, Role.PAYROLL_MANAGER)`
abbrev pub may_create_accounts : User → Bool
may_create_accounts u = elim u.role [ company_admin ↦ true | payroll_manager ↦ true | _ ↦ false ]

-- `employee.user = new_user`, saved with its signal.
unfoldable pub link_user : Context → ℕ → User → Db → Db
link_user ctx pk u db = audit_post_save ctx employee_model pk false (record db {
  employees = map (λ e. if e.pk == pk then record e { user = some (u.pk) } else e) db.employees;
})

-- `normalize` is Django's `normalize_email`.
module _ (normalize : Text → Text) where
  -- The account is made, and the employee linked; an address that is taken changes nothing.
  unfoldable pub open_account : Request → Company → Employee → Db → Response Unit × Db
  open_account r tenant e db =
      let (made, db') =
        create_user normalize e.work_email
          (record {
            is_staff = none;
            is_superuser = none;
            role = employee;
            company = some (tenant.pk);
          })
          db in
      elim made [
        | ok u ↦ (redirected, link_user (context_of r) e.pk u db')
        | err integrity_error ↦ (redirected, db')
        | err x ↦ (server_error, db')
      ]

  -- `create_portal_account_view` once the employee was looked up.
  unfoldable pub portal_found : Request → Company → Option Employee → Db → Response Unit × Db
  portal_found r tenant none db = (missing, db)
  portal_found r tenant (some e) db =
      if is_some e.user || text_eq e.work_email []
      then (redirected, db)
      else open_account r tenant e db

  -- `create_portal_account_view`
  unfoldable pub create_portal_account_view : Request → ℕ → Db → Response Unit × Db
  create_portal_account_view r pk db = elim r.is_post [
    | false ↦ (wrong_method, db)
    | true ↦ elim r.user [
      | none ↦ (to_login, db)
      | some u ↦ elim r.tenant [
        | none ↦ (forbidden, db)
        | some t ↦ elim (may_create_accounts u) [
          | false ↦ (forbidden, db)
          | true ↦
              portal_found r t
                (first
                  (select (λ e. e.pk == pk) (objects (λ e. e.company) (context_of r) db.employees)))
                db
        ]
      ]
    ]
  ]
