-- ===== src/Apps/Accounts.antt =====
-- apps/accounts: who may exist and who may sign in where (models.py, forms.py).
pub mod Manager
use payroll_software.Base.{
  ℕ, Bool, true, false, not, ◌&&◌, ◌||◌, Option, none, some, ◌≡◌, ◌↔◌, arith, option_eq,
  option_eq_iff, is_some, if◌then◌else◌,
}
use payroll_software.Base.Result.{Result, ok, validation_error, ◌>>◌, raise_if}
use payroll_software.Database.{Company, User, Role, super_admin}

abbrev pub is_super_admin : Role → Bool
is_super_admin super_admin = true
is_super_admin _ = false

-- The check constraint `super_admin_xor_company` of `User`.
unfoldable pub super_admin_xor_company : Role → Option ℕ → Bool
super_admin_xor_company role company =
    is_super_admin role && not (is_some company) || not (is_super_admin role) && is_some company

-- `getattr(tenant, "id", None)`
abbrev pub tenant_id : Option Company → Option ℕ
tenant_id none = none
tenant_id (some t) = some t.pk

-- `TenantScopedAuthenticationForm.confirm_login_allowed`, on the host of a tenant or on the bare
-- domain. `base_check` is the check of django's own form.
unfoldable pub confirm_login_allowed :
    (User → Result (Unit {0})) → Option Company → User → Result (Unit {0})
confirm_login_allowed base_check tenant user = do
  base_check user
  if is_super_admin user.role
      then raise_if (is_some tenant) validation_error
      else raise_if (not (option_eq user.company (tenant_id tenant))) validation_error

-- A user that the check constraint allows, and that django's own form accepts, may sign in exactly
-- on the host of their company, which for a super-admin is the bare domain.
pub confirm_login_allowed_iff :
    (base_check : User → Result (Unit {0})) (tenant : Option Company) (user : User)
    → super_admin_xor_company user.role user.company ≡ true
    → base_check user ≡ ok tt
    → (confirm_login_allowed base_check tenant user ≡ ok tt) ↔ (user.company ≡ tenant_id tenant)
unfolding confirm_login_allowed super_admin_xor_company
confirm_login_allowed_iff base_check tenant user fits accepted = rw accepted (
  λ h. ground (arith, option_eq_iff user.company (tenant_id tenant)),
  λ h. ground (arith, option_eq_iff user.company (tenant_id tenant)),
)
