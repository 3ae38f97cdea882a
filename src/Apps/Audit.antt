-- ===== src/Apps/Audit.antt =====
-- apps/audit: the registry of audited models, the recorder, and the signal handlers.
use payroll_software.Base.{ℕ, Bool, Option, none, some, List, [], ◌∷◌, ◌++◌, if◌then◌else◌, any}
use payroll_software.Database.{
  User, Model, bonus_model, deduction_model, reimbursement_model, employee_model, pay_period_model,
  payslip_model, model_eq, AuditAction, create, update, delete, AuditLogEntry, Db, Context,
}

-- `register_audit`: adding to a set twice is adding once.
unfoldable pub register_audit : Model → List Model → List Model
register_audit m registry = if any (model_eq m) registry then registry else m ∷ registry

-- The `ready` hooks of the apps, in the order of INSTALLED_APPS.
unfoldable pub audited_models : List Model
unfolding register_audit
audited_models = register_audit payslip_model (
    register_audit pay_period_model (
      register_audit reimbursement_model (
        register_audit deduction_model
          (register_audit bonus_model (register_audit employee_model [])))))

-- The primary key of the current user, if there is one.
abbrev pub user_pk : Option User → Option ℕ
user_pk none = none
user_pk (some u) = some u.pk

-- `record_audit`: the entry that it stores and returns, or none outside a tenant.
unfoldable pub record_audit : Context → AuditAction → Model → ℕ → Option AuditLogEntry
record_audit ctx action m target = elim ctx.current_tenant [
  | none ↦ none
  | some tenant ↦ some (record {
    company = tenant.pk;
    actor = user_pk ctx.current_user;
    action = action;
    target_model = m;
    target_id = target;
  })
]

abbrev pub entries : Option AuditLogEntry → List AuditLogEntry
entries none = []
entries (some e) = e ∷ []

-- `AuditLogEntry.objects.create`, where there is an entry.
abbrev pub store_entry : Option AuditLogEntry → Db → Db
store_entry e db = record db { audit = db.audit ++ entries e }

-- What the handler of a signal records for a model.
unfoldable pub audited : Context → AuditAction → Model → ℕ → Option AuditLogEntry
audited ctx action m target =
    if any (model_eq m) audited_models then record_audit ctx action m target else none

-- `_audit_post_save`
abbrev pub audit_post_save : Context → Model → ℕ → Bool → Db → Db
audit_post_save ctx m target created =
    store_entry (audited ctx (if created then create else update) m target)

-- `_audit_post_delete`
abbrev pub audit_post_delete : Context → Model → ℕ → Db → Db
audit_post_delete ctx m target = store_entry (audited ctx delete m target)
