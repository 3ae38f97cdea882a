-- ===== src/Apps/Tenants/Rls.antt =====
-- apps/payroll/migrations/0002_rls.py: the row-level policies, against the scoped manager of
-- apps/tenants/managers.py.
use payroll_software.Base.{
  ℕ, Bool, true, false, ◌||◌, ◌&&◌, Option, none, some, List, [], ◌==◌, select, any, if◌then◌else◌,
}
use payroll_software.Database.{Company, User, Payslip, PayslipLine}
use payroll_software.Apps.Tenants.{objects}
use payroll_software.Apps.Tenants.Middleware.{Guc, is_super}

-- `company_id = NULLIF(current_setting('app.current_tenant_id', true), '')::int`; a comparison with
-- NULL does not hold.
unfoldable pub tenant_isolation : Guc → ℕ → Bool
tenant_isolation guc company_id = elim guc.current_tenant_id [
  | none ↦ false
  | some t ↦ company_id == t
]

-- The tables of employees, periods, payslips, adjustments and audit entries: those whose rows must
-- have a `company_id`.
pub data Table : Type 0 where
  employees_employee payroll_payperiod payroll_payslip compensation_bonus : Table
  compensation_deduction compensation_expensereimbursement audit_auditlogentry : Table

-- `table in PII_TABLES_WITH_COMPANY`
unfoldable pub is_pii_table : Table → Bool
is_pii_table employees_employee = true
is_pii_table payroll_payslip = true
is_pii_table compensation_bonus = true
is_pii_table compensation_deduction = true
is_pii_table compensation_expensereimbursement = true
is_pii_table audit_auditlogentry = true
is_pii_table payroll_payperiod = false

-- A row is visible if its table has no policies, or one of the two accepts it.
unfoldable pub visible : Guc → Table → ℕ → Bool
visible guc table company_id =
    if is_pii_table table then tenant_isolation guc company_id || guc.is_super_admin else true

-- The policies of payroll_payslipline: the parent payslip is among those of the tenant, in a
-- subquery that is itself under the policies of payroll_payslip.
unfoldable pub line_visible : Guc → List Payslip → PayslipLine → Bool
line_visible guc payslips line =
    any
      (λ p.
        p.pk == line.payslip
        && (tenant_isolation guc p.company && visible guc payroll_payslip p.company))
      payslips
    || guc.is_super_admin

-- What an unscoped query returns under row-level security.
abbrev pub unscoped {ℓ} : {A : Type ℓ} → Table → (A → ℕ) → Guc → List A → List A
unscoped table company guc rows = select (λ r. visible guc table (company r)) rows

-- What a query may return in a request: the scoped rows, and all rows to a super-admin who is
-- outside any tenant.
abbrev pub permitted {ℓ} : {A : Type ℓ} → (A → ℕ) → Option User → Option Company → List A → List A
permitted company user (some t) rows =
    objects company (record { current_tenant = some t; current_user = user }) rows
permitted company none none rows = []
permitted company (some u) none rows = if is_super u then rows else []
