-- ===== src/Apps/Employees/Crud.antt =====
-- apps/employees/views.py: listing, showing, adding, changing and removing employees, and the
-- template of the import; apps/employees/forms.py as these views use it.
use payroll_software.Base.{
  ℕ, ◌+◌, Bool, true, false, not, ◌||◌, Option, none, some, List, [], ◌∷◌, ◌++◌, map, first, select,
  any, ◌==◌, if◌then◌else◌,
}
use payroll_software.Base.Text.{Text, text, is_member}
use payroll_software.Domain.Decimal.{Decimal}
use payroll_software.Database.{Company, Employee, employee_model, advance, Db, Context}
use payroll_software.Apps.Audit.{audit_post_save, audit_post_delete}
use payroll_software.Apps.Tenants.{objects}
use payroll_software.Apps.Employees.{Cleaned, clean}
use payroll_software.Apps.Payroll.Run.{order_by}
use payroll_software.Apps.Employees.Csv.{pay_bases, required_columns}
use payroll_software.Apps.Http.{
  Request, Response, missing, server_error, redirected, form_page, rendered, shown, context_of,
  denied, tenant_required,
}

-- What the fields of `EmployeeForm` hold, once each is valid by itself.
pub record EmployeeFields : Type 0 where
  pub first_name : Text
  pub last_name : Text
  pub work_email : Text
  pub phone : Text
  pub national_id : Option Text
  pub passport_number : Option Text
  pub passport_expiry : Option ℕ
  pub visa_number : Option Text
  pub visa_expiry : Option ℕ
  pub bank_account_number : Option Text
  pub pay_basis : Text
  pub base_salary : Option Decimal
  pub hourly_rate : Option Decimal
  pub unit_rate : Option Decimal
  pub hire_date : ℕ
  pub is_active : Bool

-- The fields with the rates that `clean` leaves, where it reports no error; none where the form is
-- not valid.
unfoldable pub valid_form : EmployeeFields → Option EmployeeFields
valid_form f =
    let cleaned : Cleaned = record {
      pay_basis = some (f.pay_basis);
      base_salary = f.base_salary;
      hourly_rate = f.hourly_rate;
      unit_rate = f.unit_rate;
    } in
    let (failed, c) = clean cleaned in
    if is_member f.pay_basis pay_bases
    then elim failed [
      | some field ↦ none
      | none ↦ some (record f {
        base_salary = c.base_salary;
        hourly_rate = c.hourly_rate;
        unit_rate = c.unit_rate;
      })
    ]
    else none

-- The row that the form makes of an instance: a new one, or the one that is edited.
abbrev pub with_fields : EmployeeFields → Employee → Employee
with_fields f e = record e {
  first_name = f.first_name;
  last_name = f.last_name;
  work_email = f.work_email;
  phone = f.phone;
  national_id = f.national_id;
  passport_number = f.passport_number;
  passport_expiry = f.passport_expiry;
  visa_number = f.visa_number;
  visa_expiry = f.visa_expiry;
  bank_account_number = f.bank_account_number;
  pay_basis = f.pay_basis;
  base_salary = f.base_salary;
  hourly_rate = f.hourly_rate;
  unit_rate = f.unit_rate;
  hire_date = f.hire_date;
  is_active = f.is_active;
}

-- An instance of the model with its key, its company and no account.
abbrev pub blank : ℕ → ℕ → Employee
blank pk company = record {
  pk = pk;
  company = company;
  first_name = [];
  last_name = [];
  work_email = [];
  phone = [];
  national_id = none;
  passport_number = none;
  passport_expiry = none;
  visa_number = none;
  visa_expiry = none;
  bank_account_number = none;
  pay_basis = [];
  base_salary = none;
  hourly_rate = none;
  unit_rate = none;
  hire_date = 0;
  is_active = true;
  user = none;
}

-- The rows that the views of a request look an employee up in.
abbrev pub scoped_employees : Request → Db → List Employee
scoped_employees r db = objects (λ e. e.company) (context_of r) db.employees

abbrev pub get_employee : Request → ℕ → Db → Option Employee
get_employee r pk db = first (select (λ e. e.pk == pk) (scoped_employees r db))

-- `save` of a new row, with its signal.
unfoldable pub insert_employee : Context → ℕ → EmployeeFields → Db → Db
insert_employee ctx company f db =
    let pk = db.next_pk employee_model in
    audit_post_save ctx employee_model pk true (record db {
      employees = db.employees ++ with_fields f (blank pk company) ∷ [];
      next_pk = advance employee_model (pk + 1) db.next_pk;
    })

-- `save` of the row that was edited, with its signal.
unfoldable pub update_employee : Context → Employee → Db → Db
update_employee ctx e db =
    audit_post_save ctx employee_model e.pk false
      (record db { employees = map (λ f. if f.pk == e.pk then e else f) db.employees })

-- The rows that refer to an employee with `on_delete=PROTECT`.
unfoldable pub is_protected : ℕ → Db → Bool
is_protected pk db =
    any (λ p. p.employee == pk) db.payslips
    || (any (λ l. l.employee == pk) db.adjustments.bonuses
        || (any (λ l. l.employee == pk) db.adjustments.deductions
            || any (λ l. l.employee == pk) db.adjustments.reimbursements))

-- `delete` of a row, with its signal.
unfoldable pub delete_employee : Context → ℕ → Db → Db
delete_employee ctx pk db =
    audit_post_delete ctx employee_model pk
      (record db { employees = select (λ e. not (e.pk == pk)) db.employees })

-- A form was posted to the create view; it is none where a field is not valid.
unfoldable pub create_posted : Request → Company → Option EmployeeFields → Db → Response Unit × Db
create_posted r t none db = (form_page, db)
create_posted r t (some f) db = elim (valid_form f) [
  | none ↦ (form_page, db)
  | some g ↦ (redirected, insert_employee (context_of r) t.pk g db)
]

-- `EmployeeCreateView`
unfoldable pub employee_create_view : Request → Option EmployeeFields → Db → Response Unit × Db
employee_create_view r form db = elim (tenant_required r) [
  | some d ↦ (denied d, db)
  | none ↦ elim r.is_post [
    | false ↦ (form_page, db)
    | true ↦ elim r.tenant [ none ↦ (server_error, db) | some t ↦ create_posted r t form db ]
  ]
]

-- A form was posted to the update view, for the employee that was found.
unfoldable pub update_posted : Request → Employee → Option EmployeeFields → Db → Response Unit × Db
update_posted r e none db = (form_page, db)
update_posted r e (some f) db = elim (valid_form f) [
  | none ↦ (form_page, db)
  | some g ↦ (redirected, update_employee (context_of r) (with_fields g e) db)
]

-- `EmployeeUpdateView`
unfoldable pub employee_update_view : Request → ℕ → Option EmployeeFields → Db → Response Unit × Db
employee_update_view r pk form db = elim (tenant_required r) [
  | some d ↦ (denied d, db)
  | none ↦ elim (get_employee r pk db) [
    | none ↦ (missing, db)
    | some e ↦ elim r.is_post [ false ↦ (form_page, db) | true ↦ update_posted r e form db ]
  ]
]

-- The deletion of the employee that was found; a protected one makes Django raise.
unfoldable pub delete_found : Request → Employee → Db → Response Unit × Db
delete_found r e db =
    if is_protected e.pk db
    then (server_error, db)
    else (redirected, delete_employee (context_of r) e.pk db)

-- `EmployeeDeleteView`
unfoldable pub employee_delete_view : Request → ℕ → Db → Response Unit × Db
employee_delete_view r pk db = elim (tenant_required r) [
  | some d ↦ (denied d, db)
  | none ↦ elim (get_employee r pk db) [
    | none ↦ (missing, db)
    | some e ↦ elim r.is_post [ false ↦ (form_page, db) | true ↦ delete_found r e db ]
  ]
]

-- `EmployeeListView`, all its pages together, in the order of (last_name, first_name).
unfoldable pub employee_list_view :
    (Employee → Employee → Bool) → Request → Db → Response (List Employee)
employee_list_view before r db = elim (tenant_required r) [
  | some d ↦ denied d
  | none ↦ shown r.is_post (rendered (order_by before (scoped_employees r db)))
]

-- `EmployeeDetailView`
unfoldable pub employee_detail_view : Request → ℕ → Db → Response Employee
employee_detail_view r pk db = elim (tenant_required r) [
  | some d ↦ denied d
  | none ↦ shown r.is_post (elim (get_employee r pk db) [ none ↦ missing | some e ↦ rendered e ])
]

abbrev pub optional_columns : List Text
optional_columns =
    text "work_email"
    ∷ text "phone"
    ∷ text "national_id"
    ∷ text "passport_number"
    ∷ text "passport_expiry"
    ∷ text "visa_number"
    ∷ text "visa_expiry"
    ∷ text "bank_account_number"
    ∷ text "base_salary"
    ∷ text "hourly_rate"
    ∷ text "unit_rate"
    ∷ text "is_active"
    ∷ []

-- `csv_template_view`: the row of headers that the file holds. Its gate is that of the mixin.
unfoldable pub csv_template_view : Request → Response (List Text)
csv_template_view r = elim (tenant_required r) [
  | some d ↦ denied d
  | none ↦ rendered (required_columns ++ optional_columns)
]
