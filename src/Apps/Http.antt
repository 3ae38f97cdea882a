-- ===== src/Apps/Http.antt =====
-- Requests and responses, and the gates in front of the views: `_TenantRequiredMixin` of
-- apps/payroll/views.py and of apps/employees/views.py, and `_EmployeeRequiredMixin`.
pub mod Gates
use payroll_software.Base.{
  ℕ, Bool, true, false, Option, none, some, List, [], ◌∷◌, first, select, option_eq,
}
use payroll_software.Database.{
  Company, User, Role, super_admin, company_admin, payroll_manager, viewer, employee, Employee, Db,
  Context,
}

-- What a view reads of a request: its method, GET or POST, `request.user` (none if anonymous), `request.tenant`.
pub record Request : Type 0 where
  pub is_post : Bool
  pub user : Option User
  pub tenant : Option Company

-- `PermissionDenied` and `Http404` are the responses 403 and 404 that Django makes of them,
-- `wrong_method` is that of `require_POST`, and
-- `server_error` is any other exception that leaves the view. `form_page` shows a form (again);
-- `rendered` is a page, or the message of a redirection, with what it shows.
pub data Response (A : Type 0) : Type 0 where
  to_login forbidden missing wrong_method server_error : Response A
  redirected form_page : Response A
  rendered : A → Response A

-- A page that Django's generic views show: they answer no POST.
abbrev pub shown : {A : Type 0} → Bool → Response A → Response A
shown is_post page = elim is_post [ true ↦ wrong_method | false ↦ page ]

-- The bindings that the middleware made for the request.
abbrev pub context_of : Request → Context
context_of r = record { current_tenant = r.tenant; current_user = r.user }

abbrev pub is_employee : User → Bool
is_employee u = elim u.role [ employee ↦ true | _ ↦ false ]

-- Why a gate turns a request away.
pub data Denial : Type 0 where
  anonymous not_allowed : Denial

abbrev pub denied : {A : Type 0} → Denial → Response A
denied anonymous = to_login
denied not_allowed = forbidden

-- `_TenantRequiredMixin.dispatch`: none lets the request through.
unfoldable pub tenant_required : Request → Option Denial
tenant_required r = elim r.user [
  | none ↦ some anonymous
  | some u ↦ elim r.tenant [
    | none ↦ some not_allowed
    | some t ↦ elim (is_employee u) [ true ↦ some not_allowed | false ↦ none ]
  ]
]

-- `request.user.employee_profile`, the reverse of the one-to-one field `Employee.user`.
unfoldable pub employee_profile : User → List Employee → Option Employee
employee_profile u rows = first (select (λ e. option_eq e.user (some u.pk)) rows)

-- `_EmployeeRequiredMixin.dispatch`
unfoldable pub employee_required : Request → Db → Option Denial
employee_required r db = elim r.user [
  | none ↦ some anonymous
  | some u ↦ elim r.tenant [
    | none ↦ some not_allowed
    | some t ↦ elim (is_employee u) [
      | false ↦ some not_allowed
      | true ↦ elim (employee_profile u db.employees) [ none ↦ some not_allowed | some e ↦ none ]
    ]
  ]
]
