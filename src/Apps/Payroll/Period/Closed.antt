-- ===== src/Apps/Payroll/Period/Closed.antt =====
-- apps/payroll/models.py, `PayPeriod.save` of a period that is closed.
use payroll_software.Base.{
  ℕ, Bool, true, false, not, ◌&&◌, ◌||◌, Option, some, ◌==◌, ◌≡◌, refl, sym, ◌∙◌, arith, any-select,
  Bool-cases, inl, inr, List, [], ◌∷◌, ==_refl,
}
use payroll_software.Base.Result.{ok, err, validation_error}
use payroll_software.Database.{PayPeriod, status_open, status_closed, Db, Context}
use payroll_software.Apps.Payroll.Period.{
  id_field, company_field, year_field, month_field, status_field, closed_at_field, closed_by_field,
  created_at_field, updated_at_field, all_fields, differs, is_closing_field, changes_more,
  is_closed, find_period, breaks_constraint, replace, write_period, refuses, save_period,
}

-- The two versions of a period agree in all that closing does not set.
abbrev pub SameIdentity : PayPeriod → PayPeriod → Type 0
SameIdentity a b =
    (a.pk ≡ b.pk)
    × (a.company ≡ b.company)
    × (a.year ≡ b.year)
    × (a.month ≡ b.month)
    × (a.created_at ≡ b.created_at)

pub and_false : (b : Bool) → (b && false) ≡ false
and_false b = ground arith

-- Five fields decide.
abbrev identity_differs : PayPeriod → PayPeriod → Bool
identity_differs a b =
    not (a.pk == b.pk)
    || (not (a.company == b.company)
        || (not (a.year == b.year)
            || (not (a.month == b.month) || not (a.created_at == b.created_at))))

ors :
    (a b c d e f g h i : Bool)
    → ((a && true)
        || ((b && true)
            || ((c && true)
                || ((d && true)
                    || ((e && false)
                        || ((f && false)
                            || ((g && false) || ((h && true) || ((i && false) || false)))))))))
      ≡ (a || (b || (c || (d || h))))
ors a b c d e f g h i = ground arith

changes_more_lem : (a b : PayPeriod) → changes_more a b ≡ identity_differs a b
unfolding changes_more is_closing_field
changes_more_lem a b =
    any-select (λ f. not (is_closing_field f)) (differs a b) all_fields
    ∙ ors (differs a b id_field) (differs a b company_field) (differs a b year_field)
        (differs a b month_field) (differs a b status_field) (differs a b closed_at_field)
        (differs a b closed_by_field) (differs a b created_at_field) (differs a b updated_at_field)
    ∙ (unfold differs in refl)

same_identity : (a b : PayPeriod) → identity_differs a b ≡ false → SameIdentity a b
same_identity a b h = ground arith

no_difference : (a b : PayPeriod) → SameIdentity a b → identity_differs a b ≡ false
no_difference a b h = ground arith

-- A closed period cannot be moved: saving a version that differs from the stored one in its key,
-- company, year, month or time of creation raises ValidationError and writes nothing.
pub closed_period_refuses :
    (ctx : Context) (now : ℕ) (p : PayPeriod) {old : PayPeriod} (db : Db)
    → find_period p.pk db.periods ≡ some old
    → is_closed old ≡ true
    → ¬ SameIdentity p old
    → save_period ctx now p db ≡ (err validation_error, db)
unfolding save_period refuses
closed_period_refuses ctx now p {old} db found closed differ =
    elim (Bool-cases (changes_more p old)) [
      | inl h ↦ rw (found, closed, h)
      | inr h ↦ absurd (differ (same_identity p old (sym (changes_more_lem p old) ∙ h)))
    ]

find_period-replace :
    (p : PayPeriod) (rows : List PayPeriod) {old : PayPeriod}
    → find_period p.pk rows ≡ some old
    → find_period p.pk (replace p rows) ≡ some p
find_period-replace p [] h = cc
find_period-replace p (q ∷ rows) h = elim (Bool-cases (q.pk == p.pk)) [
  | inl e ↦ rw (e, ==_refl p.pk)
  | inr e ↦ rw (e, e) (find_period-replace p rows (rw e at h))
]

-- A stored period that fits the constraints is written, and found under its key from then on.
pub write_period-stores :
    (ctx : Context) (now : ℕ) (p : PayPeriod) {old : PayPeriod} (db : Db)
    → find_period p.pk db.periods ≡ some old
    → breaks_constraint p db.periods ≡ false
    → let (result, db') = write_period ctx now p db in
      (result ≡ ok (record p { updated_at = now }))
      × (find_period p.pk db'.periods ≡ some (record p { updated_at = now }))
unfolding write_period
write_period-stores ctx now p db found fits =
    rw (fits, found) (refl, find_period-replace (record p { updated_at = now }) db.periods found)

-- Saving a closed period with the status set back to open succeeds, where the period fits the
-- constraints of the table: the row under its key then reads open, with the time of the change.
pub closed_period_reopens :
    (ctx : Context) (now : ℕ) (old : PayPeriod) (db : Db)
    → find_period old.pk db.periods ≡ some old
    → is_closed old ≡ true
    → breaks_constraint old db.periods ≡ false
    → let reopened = record old { status = status_open; updated_at = now } in
      let (result, after) = save_period ctx now (record old { status = status_open }) db in
      (result ≡ ok reopened) × (find_period old.pk after.periods ≡ some reopened)
unfolding save_period refuses breaks_constraint
closed_period_reopens ctx now old db found closed fits =
    let opened = record old { status = status_open } in
    let same =
      changes_more_lem opened old ∙ no_difference opened old (refl, refl, refl, refl, refl) in
    rw (found, closed, same) (write_period-stores ctx now opened db found fits)

-- Closing changes nothing that the guard protects.
pub closing_passes :
    (now : ℕ) (by : Option ℕ) (p : PayPeriod)
    → changes_more (record p { status = status_closed; closed_at = some now; closed_by = by }) p
      ≡ false
closing_passes now by p =
    let closing = record p { status = status_closed; closed_at = some now; closed_by = by } in
    changes_more_lem closing p ∙ no_difference closing p (refl, refl, refl, refl, refl)
