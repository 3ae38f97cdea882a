-- ===== src/System/Adjustments.antt =====
-- apps/compensation/views.py refines the specification.
use payroll_software.Base.{
  ℕ, true, ◌&&◌, ◌≡◌, refl, inl, inr, Option, none, some, arith, ◌==◌, any_mono, Bool-cases,
}
use payroll_software.Base.Text.{Text}
use payroll_software.Database.{Context, Company, status_open, Db}
use payroll_software.Apps.Http.{Request, context_of}
use payroll_software.Apps.Payroll.Period.{status_eq}
use payroll_software.Apps.Compensation.{
  require_tenant, Kind, bonus_kind, deduction_kind, reimbursement_kind, kind_of, Posted, offers,
  save_line, create_posted, compensation_create, new_line, model_of,
}
use payroll_software.System.Tables.{tables, Refers, Change, adjust, Changes, none_yet, once}
use payroll_software.System.Branches.{after_gate, after_method, after_find}

module _ (r : Request) (db : Db) where
  abbrev Reached : Db → Type 0
  Reached after = Changes r.tenant (tables db) (tables after)

  -- What the form offers is of the tenant.
  offered :
      (t : Company) (f : Posted)
      → offers t f db ≡ true
      → Refers db.employees db.periods t.pk f.employee f.period
  unfolding offers
  offered t f e = (
    any_mono (λ e. e.pk == f.employee && (e.company == t.pk && e.is_active))
        (λ e. e.pk == f.employee && e.company == t.pk) db.employees (λ e q. ground arith)
        (ground arith),
    any_mono (λ p. p.pk == f.period && (p.company == t.pk && status_eq p.status status_open))
        (λ p. p.pk == f.period && p.company == t.pk) db.periods (λ p q. ground arith)
        (ground arith),
  )

  pub save_line-Change :
      (ctx : Context) (now : ℕ) (kind : Kind) (t : Company) (f : Posted)
      → r.tenant ≡ some t
      → Refers db.employees db.periods t.pk f.employee f.period
      → Change r.tenant (tables db) (tables (save_line ctx now kind t f db))
  unfolding save_line
  save_line-Change ctx now bonus_kind t f on refers =
      adjust bonus_kind (new_line (db.next_pk (model_of bonus_kind)) now t f) (rw on refl) refers
  save_line-Change ctx now deduction_kind t f on refers =
      adjust deduction_kind (new_line (db.next_pk (model_of deduction_kind)) now t f) (rw on refl)
        refers
  save_line-Change ctx now reimbursement_kind t f on refers =
      adjust reimbursement_kind (new_line (db.next_pk (model_of reimbursement_kind)) now t f)
        (rw on refl) refers

  pub compensation_create-Changes :
      (now : ℕ) (word : Text) (form : Option Posted)
      → Reached (compensation_create r now word form db).1
  unfolding compensation_create create_posted
  compensation_create-Changes now word form = after_gate Reached (require_tenant r) db _ none_yet (
      after_find Reached (kind_of word) _ _ none_yet λ kind _.
        after_method Reached r.is_post _ _ none_yet
          λ _. after_find Reached r.tenant _ _ none_yet λ t on. posted kind t on form)
    where
      posted :
          (kind : Kind) (t : Company)
          → r.tenant ≡ some t
          → (form : Option Posted) → Reached (create_posted r now kind t form db).1
      posted kind t on none = none_yet
      posted kind t on (some f) = elim (Bool-cases (offers t f db)) [
        | inl e ↦ rw e (once (save_line-Change (context_of r) now kind t f on (offered t f e)))
        | inr e ↦ rw e none_yet
      ]
