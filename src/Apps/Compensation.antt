-- ===== src/Apps/Compensation.antt =====
-- apps/compensation: the views over bonuses, deductions and reimbursements (views.py, forms.py).
pub mod Additions
use payroll_software.Base.{
  ℕ, ◌+◌, Bool, true, false, ◌&&◌, Option, none, some, List, [], ◌∷◌, ◌++◌, any, ◌==◌,
  if◌then◌else◌,
}
use payroll_software.Base.Text.{Text, text, text_eq}
use payroll_software.Domain.Decimal.{Decimal}
use payroll_software.Database.{
  Company, User, Employee, PayPeriod, CompensationLine, status_open, Model, bonus_model,
  deduction_model, reimbursement_model, Adjustments, advance, Db, Context,
}
use payroll_software.Apps.Audit.{audit_post_save}
use payroll_software.Apps.Tenants.{objects}
use payroll_software.Apps.Http.{
  Request, Response, to_login, forbidden, redirected, form_page, rendered, context_of, is_employee,
  Denial, anonymous, not_allowed, denied,
}
use payroll_software.Apps.Payroll.Period.{status_eq}

-- `login_required`, then `_require_tenant`
unfoldable pub require_tenant : Request → Option Denial
require_tenant r = elim r.user [
  | none ↦ some anonymous
  | some u ↦ elim r.tenant [
    | none ↦ some not_allowed
    | some t ↦ elim (is_employee u) [ true ↦ some not_allowed | false ↦ none ]
  ]
]

pub data Kind : Type 0 where
  bonus_kind deduction_kind reimbursement_kind : Kind

-- The dict of forms, by the word in the address.
unfoldable pub kind_of : Text → Option Kind
kind_of word =
    if text_eq word (text "bonus")
    then some bonus_kind
    else if text_eq word (text "deduction")
    then some deduction_kind
    else if text_eq word (text "reimbursement")
    then some reimbursement_kind
    else none

-- What the fields of the form hold, once each is valid by itself.
pub record Posted : Type 0 where
  pub employee : ℕ
  pub period : ℕ
  pub description : Text
  pub amount : Decimal

-- The choices that `_BaseCompensationForm` offers: active employees and open periods of the tenant.
unfoldable pub offers : Company → Posted → Db → Bool
offers t f db =
    any (λ e. e.pk == f.employee && (e.company == t.pk && e.is_active)) db.employees
    && any (λ p. p.pk == f.period && (p.company == t.pk && status_eq p.status status_open))
        db.periods

abbrev pub model_of : Kind → Model
model_of bonus_kind = bonus_model
model_of deduction_kind = deduction_model
model_of reimbursement_kind = reimbursement_model

abbrev pub table : Kind → Adjustments → List CompensationLine
table bonus_kind a = a.bonuses
table deduction_kind a = a.deductions
table reimbursement_kind a = a.reimbursements

abbrev pub append_line : Kind → CompensationLine → Adjustments → Adjustments
append_line bonus_kind l a = record a { bonuses = a.bonuses ++ l ∷ [] }
append_line deduction_kind l a = record a { deductions = a.deductions ++ l ∷ [] }
append_line reimbursement_kind l a = record a { reimbursements = a.reimbursements ++ l ∷ [] }

abbrev pub new_line : ℕ → ℕ → Company → Posted → CompensationLine
new_line pk now t f = record {
  pk = pk;
  company = t.pk;
  employee = f.employee;
  period = f.period;
  description = f.description;
  amount = f.amount;
  created_at = now;
}

-- `obj.save()` of a new row, with its signal.
unfoldable pub save_line : Context → ℕ → Kind → Company → Posted → Db → Db
save_line ctx now kind t f db =
    let pk = db.next_pk (model_of kind) in
    audit_post_save ctx (model_of kind) pk true (record db {
      adjustments = append_line kind (new_line pk now t f) db.adjustments;
      next_pk = advance (model_of kind) (pk + 1) db.next_pk;
    })

-- The form was posted; it is none where a field is not valid.
unfoldable pub create_posted :
    Request → ℕ → Kind → Company → Option Posted → Db → Response Unit × Db
create_posted r now kind t none db = (form_page, db)
create_posted r now kind t (some f) db =
    if offers t f db
    then (redirected, save_line (context_of r) now kind t f db)
    else (form_page, db)

-- `compensation_create`
unfoldable pub compensation_create : Request → ℕ → Text → Option Posted → Db → Response Unit × Db
compensation_create r now word form db = elim (require_tenant r) [
  | some d ↦ (denied d, db)
  | none ↦ elim (kind_of word) [
    | none ↦ (forbidden, db)
    | some kind ↦ elim r.is_post [
      | false ↦ (form_page, db)
      | true ↦ elim r.tenant [
        | none ↦ (forbidden, db)
        | some t ↦ create_posted r now kind t form db
      ]
    ]
  ]
]

-- `compensation_list`
unfoldable pub compensation_list : Request → Db → Response Adjustments
compensation_list r db = elim (require_tenant r) [
  | some d ↦ denied d
  | none ↦
      let mine = λ (k : Kind). objects (λ l. l.company) (context_of r) (table k db.adjustments) in
      rendered (record {
        bonuses = mine bonus_kind;
        deductions = mine deduction_kind;
        reimbursements = mine reimbursement_kind;
      })
]
