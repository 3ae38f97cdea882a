-- ===== src/Apps/Compensation/Additions.antt =====
-- apps/compensation/views.py, `compensation_create`: what it may add.
use mathlib.Core.Option.{some-injective, none-ne-some}
use payroll_software.Base.{
  ◌&&◌, ◌==◌, any, arith, ℕ, true, ◌≡◌, refl, subst, ◌⊎◌, inl, inr, Option, none, some, Bool-cases,
  Option-cases, ◌≢◌, [], ◌∷◌, ◌++◌,
}
use payroll_software.Base.Text.{Text, text, text_eq, text_eq→eq}
use payroll_software.Apps.Payroll.Period.{status_eq}
use payroll_software.Database.{
  status_open, Company, User, employee, CompensationLine, Adjustments, Db,
}
use payroll_software.Apps.Http.{Request, Response}
use payroll_software.Apps.Compensation.{
  Kind, Posted, require_tenant, kind_of, offers, append_line, new_line, model_of, save_line,
  create_posted, compensation_create,
}

-- The adjustments with the row in the table that a word names.
abbrev pub InTable : Text → CompensationLine → Adjustments → Adjustments → Type 0
InTable word row old new =
    ((word ≡ text "bonus") × (new ≡ record old { bonuses = old.bonuses ++ row ∷ [] }))
    ⊎ ((word ≡ text "deduction") × (new ≡ record old { deductions = old.deductions ++ row ∷ [] }))
    ⊎ ((word ≡ text "reimbursement")
        × (new ≡ record old { reimbursements = old.reimbursements ++ row ∷ [] }))

-- What the view did: nothing, or, for a signed-in user who is no employee, it added one row for an
-- active employee and an open period of the tenant, to the table that the address names.
abbrev pub Added : Request → ℕ → Text → Db → Db → Type 0
Added r now word db after =
    (after ≡ db)
    ⊎ ((u : User) × (t : Company) × (f : Posted) × (pk : ℕ) × ((r.user ≡ some u)
          × (u.role ≢ employee))
        × (r.tenant ≡ some t)
        × (any (λ e. e.pk == f.employee && (e.company == t.pk && e.is_active)) db.employees ≡ true)
        × (any (λ p. p.pk == f.period && (p.company == t.pk && status_eq p.status status_open))
              db.periods
            ≡ true)
        × InTable word (new_line pk now t f) db.adjustments after.adjustments
        × ((after.employees ≡ db.employees)
            × (after.periods ≡ db.periods)
            × (after.payslips ≡ db.payslips)))

offers-both :
    (t : Company) (f : Posted) (db : Db)
    → offers t f db ≡ true
    → (any (λ e. e.pk == f.employee && (e.company == t.pk && e.is_active)) db.employees ≡ true)
      × (any
            (λ p. p.pk == f.period && (p.company == t.pk && status_eq p.status status_open))
            db.periods
          ≡ true)
unfolding offers
offers-both t f db h = ground arith

-- Whom the gate lets through.
staff :
    (r : Request) → require_tenant r ≡ none → (u : User) × (r.user ≡ some u) × (u.role ≢ employee)
unfolding require_tenant
staff r h = elim (Option-cases r.user) [
  | inl n ↦ ground arith
  | inr (u, on) ↦ (u, on, λ e. ground arith)
]

-- The tables that the words name.
in_table :
    (word : Text) (kind : Kind)
    → kind_of word ≡ some kind
    → (row : CompensationLine) (a : Adjustments) → InTable word row a (append_line kind row a)
unfolding kind_of
in_table word kind h row a = elim (Bool-cases (text_eq word (text "bonus"))) [
  | inl e ↦
      subst (λ k. InTable word row a (append_line k row a)) (some-injective _ _ (rw e at h))
        (inl (text_eq→eq _ _ e, refl))
  | inr e ↦ elim (Bool-cases (text_eq word (text "deduction"))) [
    | inl f ↦
        subst (λ k. InTable word row a (append_line k row a)) (some-injective _ _ (rw (e, f) at h))
          (inr (inl (text_eq→eq _ _ f, refl)))
    | inr f ↦ elim (Bool-cases (text_eq word (text "reimbursement"))) [
      | inl g ↦
          subst (λ k. InTable word row a (append_line k row a))
            (some-injective _ _ (rw (e, f, g) at h)) (inr (inr (text_eq→eq _ _ g, refl)))
      | inr g ↦ absurd (none-ne-some _ (rw (e, f, g) at h))
    ]
  ]
]

posted-Added :
    (r : Request) (now : ℕ) (word : Text) (kind : Kind) (t : Company) (form : Option Posted)
    (db : Db)
    → require_tenant r ≡ none
    → r.tenant ≡ some t
    → kind_of word ≡ some kind
    → Added r now word db (create_posted r now kind t form db).1
unfolding create_posted save_line
posted-Added r now word kind t none db through on named = inl refl
posted-Added r now word kind t (some f) db through on named = elim (Bool-cases (offers t f db)) [
  | inr h ↦ inl (rw (create_posted, h))
  | inl h ↦ inr (
    (staff r through).0,
    t,
    f,
    db.next_pk (model_of kind),
    ((staff r through).1, (staff r through).2),
    on,
    (offers-both t f db h).0,
    (offers-both t f db h).1,
    rw (create_posted, h)
        (in_table word kind named (new_line (db.next_pk (model_of kind)) now t f) db.adjustments),
    rw (create_posted, h) (refl, refl, refl),
  )
]

create-step :
    (r : Request) (now : ℕ) (word : Text) (form : Option Posted) {kind : Kind} {t : Company}
    (db : Db)
    → require_tenant r ≡ none
    → kind_of word ≡ some kind
    → r.is_post ≡ true
    → r.tenant ≡ some t
    → create_posted r now kind t form db ≡ compensation_create r now word form db
unfolding compensation_create
create-step r now word form db through named post on =
    simp (compensation_create, through, named, post, on)

-- The view changes nothing, or the request is on the host of a tenant by a signed-in user who is no
-- employee, and it adds one row, to the table that the address names, with the tenant's key, for an
-- active employee and an open period of that tenant; the other tables of adjustments, employees,
-- periods and payslips stay.
pub compensation_create-Added :
    (r : Request) (now : ℕ) (word : Text) (form : Option Posted) (db : Db)
    → Added r now word db (compensation_create r now word form db).1
unfolding compensation_create
compensation_create-Added r now word form db = elim (Option-cases (require_tenant r)) [
  | inr (d, turned) ↦ inl (rw (compensation_create, turned))
  | inl through ↦ elim (Option-cases (kind_of word)) [
    | inl unknown ↦ inl (rw (compensation_create, through, unknown))
    | inr (kind, named) ↦ elim (Bool-cases r.is_post) [
      | inr get ↦ inl (rw (compensation_create, through, named, get))
      | inl post ↦ elim (Option-cases r.tenant) [
        | inl bare ↦ inl (rw (compensation_create, through, named, post, bare))
        | inr (t, on) ↦
            subst (λ (out : Response Unit × Db). Added r now word db out.1)
              (create-step r now word form db through named post on)
              (posted-Added r now word kind t form db through on named)
      ]
    ]
  ]
]
