-- ===== src/System/Periods.antt =====
-- apps/payroll/views.py refines the specification: opening and closing a month, and a run.
use payroll_software.Base.{
  arith, ◌<◌, All-both, All-not_any, ◌&&◌, not, ℕ, Bool, true, false, ◌&&◌, ◌≡◌, refl, subst, inl,
  inr, Option, none, some, List, [], ◌∷◌, All, any, ◌==◌, Member, same_row, any-Member, All-map,
  Bool-cases, Option-cases, if◌then◌else◌, ==_refl,
}
use payroll_software.Database.{
  Context, Company, Employee, PayPeriod, status_open, pay_period_model, Db,
}
use payroll_software.Apps.Http.{Request, tenant_required, context_of}
use payroll_software.Apps.Payroll.Period.{
  is_closed, find_period, breaks_constraint, write_period, refuses, save_period, create_period,
}
use payroll_software.Apps.Payroll.Views.{
  get_period, staff_only, closed_form, close_found, close_period_view, Cleaned, run_posted,
  run_found, run_payroll_view, period_create_view, user_pk, dynamic_employees, hours_by_employee,
  units_by_employee,
}
use payroll_software.System.Tables.{
  same_month, IsMonth, tables, WellFormed, Owns, Amends, open_month, amend, Changes, none_yet, once,
}
use payroll_software.System.Branches.{after_gate, after_method, after_ban, after_find, found_row}
use payroll_software.System.Payroll.{run-Changes}

-- A row that is there is found.
find_none :
    (k : ℕ) (rows : List PayPeriod) → find_period k rows ≡ none → any (λ p. p.pk == k) rows ≡ false
find_none k [] h = refl
find_none k (p ∷ rows) h = elim (Bool-cases (p.pk == k)) [
  | inl q ↦ absurd (clash p (rw q at h))
  | inr q ↦ rw q (find_none k rows (rw q at h))
]
  where
    clash : (p : PayPeriod) → ◌≡◌ {A = Option PayPeriod} (some p) none → ⊥
    clash p h = cc

amend_one :
    (r : Request) (p q : PayPeriod) (db : Db)
    → WellFormed (tables db)
    → Member p db.periods
    → Owns r.tenant p.company
    → q.pk ≡ p.pk
    → q.company ≡ p.company
    → q.year ≡ p.year
    → q.month ≡ p.month
    → All (Amends r.tenant (λ o. if o.pk == q.pk then q else o)) db.periods
amend_one r p q db h m own key company year month =
    All-map (λ o. (o.pk == p.pk) ≡ true → o ≡ p)
      (Amends r.tenant (λ o. if o.pk == q.pk then q else o)) db.periods
      (λ o same. elim (Bool-cases (o.pk == q.pk)) [
        | inr n ↦ rw n (refl, refl, inr refl, refl, refl)
        | inl e ↦
            rw (e, same (subst (λ k. (o.pk == k) ≡ true) key e))
              (key, company, inl own, year, month)
      ])
      (same_row (λ p. p.pk) db.periods p h.periods.1 m)

-- What the constraints of the table say of a new row.
new-IsMonth : (p : PayPeriod) (rows : List PayPeriod) → breaks_constraint p rows ≡ false → IsMonth p
unfolding breaks_constraint
new-IsMonth p rows h = (ground arith, ground arith)

month_free :
    (p : PayPeriod) (rows : List PayPeriod)
    → breaks_constraint p rows ≡ false
    → All (λ q. q.pk < p.pk) rows
    → All (λ q. same_month q p ≡ false) rows
unfolding breaks_constraint
month_free p rows h below =
    let clash = λ (q : PayPeriod).
      not (q.pk == p.pk) && (q.company == p.company && (q.year == p.year && q.month == p.month)) in
    All-map (λ q. (clash q ≡ false) × (q.pk < p.pk)) (λ q. same_month q p ≡ false) rows
      (λ q k. apart q p k.0 k.1)
      (All-both (λ q. clash q ≡ false) (λ q. q.pk < p.pk) rows
        (All-not_any clash rows (ground arith)) below)
  where
    apart :
        (q p : PayPeriod)
        → (not (q.pk == p.pk)
            && (q.company == p.company && (q.year == p.year && q.month == p.month)))
          ≡ false
        → q.pk < p.pk
        → same_month q p ≡ false
    apart q p e l = ground arith

module _ (r : Request) (db : Db) (h : WellFormed (tables db)) where
  abbrev Reached : Db → Type 0
  Reached after = Changes r.tenant (tables db) (tables after)

  -- Saving a stored period of the tenant, in a version with the same key and company.
  write-Changes :
      (now : ℕ) (p q : PayPeriod)
      → Member p db.periods
      → Owns r.tenant p.company
      → q.pk ≡ p.pk
      → q.company ≡ p.company
      → q.year ≡ p.year
      → q.month ≡ p.month
      → Reached (write_period (context_of r) now q db).1
  unfolding write_period
  write-Changes now p q m own key company year month =
      elim (Bool-cases (breaks_constraint q db.periods)) [
        | inl e ↦ rw e none_yet
        | inr e ↦ elim (Option-cases (find_period q.pk db.periods)) [
          | inl n ↦
              let there : any (λ o. o.pk == q.pk) db.periods ≡ true =
                any-Member (λ o. o.pk == q.pk) p db.periods m (rw key (==_refl p.pk)) in
              let gone : any (λ o. o.pk == q.pk) db.periods ≡ false = find_none q.pk db.periods n in
              absurd (cc)
          | inr (old, f) ↦
              rw (e, f)
                (once (
                  amend (λ o. if o.pk == q.pk then record q { updated_at = now } else o)
                    (amend_one r p (record q { updated_at = now }) db h m own key company year
                      month)))
        ]
      ]

  save-Changes :
      (now : ℕ) (p q : PayPeriod)
      → Member p db.periods
      → Owns r.tenant p.company
      → q.pk ≡ p.pk
      → q.company ≡ p.company
      → q.year ≡ p.year
      → q.month ≡ p.month
      → Reached (save_period (context_of r) now q db).1
  unfolding save_period
  save-Changes now p q m own key company year month =
      elim (Bool-cases (refuses q (find_period q.pk db.periods))) [
        | inl e ↦ rw e none_yet
        | inr e ↦ rw e (write-Changes now p q m own key company year month)
      ]

  pub close_period_view-Changes : (pk now : ℕ) → Reached (close_period_view r pk now db).1
  unfolding close_period_view close_found
  close_period_view-Changes pk now =
      after_method Reached r.is_post _ _ none_yet
        λ _. after_gate Reached (staff_only r) db _ none_yet (closed (get_period r pk db) refl)
    where
      closed : (o : Option PayPeriod) → get_period r pk db ≡ o → Reached (close_found r now o db).1
      closed none e = none_yet
      closed (some p) e =
          let (m, key, own) =
            found_row (λ (p : PayPeriod). p.company) (λ p. p.pk) (context_of r) pk db.periods p e in
          save-Changes now p (closed_form now (user_pk r.user) p) m own refl refl refl refl

  pub create_period-Changes :
      (ctx : Context) (now year month : ℕ) (t : Company)
      → r.tenant ≡ some t
      → Reached (create_period ctx now t.pk year month db).1
  unfolding create_period
  create_period-Changes ctx now year month t on =
      let p : PayPeriod = record {
        pk = db.next_pk pay_period_model;
        company = t.pk;
        year = year;
        month = month;
        status = status_open;
        closed_at = none;
        closed_by = none;
        created_at = now;
        updated_at = now;
      } in
      elim (Bool-cases (breaks_constraint p db.periods)) [
        | inl e ↦ rw e none_yet
        | inr e ↦ rw e (
            once (
              open_month p refl (rw on refl) (new-IsMonth p db.periods e)
                (month_free p db.periods e h.periods.0)))
      ]

  pub period_create_view-Changes :
      (now year month : ℕ) → Reached (period_create_view r now year month db).1
  unfolding period_create_view
  period_create_view-Changes now year month = after_gate Reached (tenant_required r) db _ none_yet (
      after_method Reached r.is_post _ _ none_yet λ _.
        after_find Reached r.tenant _ _ none_yet λ t on.
          elim (Bool-cases
            (any (λ p. p.company == t.pk && (p.year == year && p.month == month)) db.periods)) [
              | inl e ↦ rw e none_yet
              | inr e ↦ rw e (create_period-Changes (context_of r) now year month t on)
            ])

  pub run_payroll_view-Changes :
      (before : Employee → Employee → Bool) (pk : ℕ) (form : Option Cleaned)
      → Reached (run_payroll_view before r pk form db).1
  unfolding run_payroll_view run_found run_posted
  run_payroll_view-Changes before pk form =
      after_gate Reached (staff_only r) db _ none_yet (ran (get_period r pk db) refl form)
    where
      ran :
          (o : Option PayPeriod)
          → get_period r pk db ≡ o
          → (form : Option Cleaned) → Reached (run_found before r form o db).1
      ran none e form = none_yet
      ran (some p) e form =
          let (m, key, own) =
            found_row (λ (p : PayPeriod). p.company) (λ p. p.pk) (context_of r) pk db.periods p e in
          after_ban Reached (is_closed p) _ _ none_yet (
            after_method Reached r.is_post _ _ none_yet λ _.
              after_find Reached form _ _ none_yet λ cleaned _.
                run-Changes before r p
                  (hours_by_employee cleaned (dynamic_employees before p.company db))
                  (units_by_employee cleaned (dynamic_employees before p.company db)) db h m own)
