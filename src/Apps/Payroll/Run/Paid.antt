-- ===== src/Apps/Payroll/Run/Paid.antt =====
-- apps/payroll/services.py: whom a run pays, and what a second run does.
use payroll_software.Base.{
  Member, ℕ, Bool, true, false, not, ◌≡◌, refl, sym, ap, ap₂, ◌∙◌, subst, List, ◌++◌, map, arith,
  All, ◌==◌, some, select, first, All-always, All-selected, All-map, select-none, select-All,
  select-append, ==_refl,
}
use mathlib.Core.List.{append-nil}
use payroll_software.Base.Result.{Result, ok, err, ok-injective, err≢ok}
use payroll_software.Domain.Decimal.{Decimal}
use payroll_software.Services.Payroll.{PayslipResult, calculate_payslip}
use payroll_software.Database.{Company, Employee, PayPeriod, Payslip, Adjustments, Db, Context}
use payroll_software.Apps.Payroll.Run.{
  payroll_input, payslip_row, active_employees, company_of, run_payroll_for_period,
}
use payroll_software.Apps.Payroll.Run.Due.{unkeyed, due, Distinct, Kept}
use payroll_software.Apps.Payroll.Run.Refines.{
  others, owed, Settles, run_payroll_for_period-Settles, active_employees-Distinct,
}
use payroll_software.Apps.Payroll.Run.Scope.{
  is_ok, is_paid, OnOk, paid_iff_ok, due-All, is_paid-unkeyed, All-unmap, Member-active_employees,
  is_active_member, active_employees-is_active_member,
}

-- A run that returned: the rows owed are those returned, but for their keys.
settled :
    (period : PayPeriod) (db : Db) (rows : Result (List Payslip)) (out : Result (List Payslip) × Db)
    (ps : List Payslip)
    → Settles period db rows out
    → out.0 ≡ ok ps
    → (rows ≡ ok (map unkeyed ps))
      × (out.1.payslips ≡ others period db.payslips ++ ps)
      × Kept db out.1
settled period db (err x) out ps s e =
    absurd (err≢ok (sym (ap (λ (o : Result (List Payslip) × Db). o.0) s) ∙ e))
settled period db (ok rows) out ps (qs, returned, same, rest, kept) e =
    let q : qs ≡ ps = ok-injective (sym returned ∙ e) in
    (
      subst (λ l. ok rows ≡ ok (map unkeyed l)) q (ap ok (sym same)),
      subst (λ l. out.1.payslips ≡ others period db.payslips ++ l) q rest,
      kept,
    )

-- A table after a run splits into the other periods' payslips and the new ones.
module _ (period : PayPeriod) where
  abbrev this : Payslip → Bool
  this p = p.period == period.pk

  not-true : (b : Bool) → not b ≡ true → b ≡ false
  not-true b h = ground arith

  select-this :
      (rows ps : List Payslip)
      → All (λ p. this p ≡ true) ps
      → select this (others period rows ++ ps) ≡ ps
  select-this rows ps h = rw (
    select-append this (others period rows) ps,
    select-none this (others period rows) (
        All-map (λ p. not (this p) ≡ true) (λ p. this p ≡ false) (others period rows)
          (λ p. not-true (this p)) (All-selected (λ p. not (this p)) rows)),
    select-All this ps h,
  )

  others-others :
      (rows ps : List Payslip)
      → All (λ p. this p ≡ true) ps
      → others period (others period rows ++ ps) ≡ others period rows
  others-others rows ps h = rw (
    select-append (λ p. not (this p)) (others period rows) ps,
    select-All (λ p. not (this p)) (others period rows) (All-selected (λ p. not (this p)) rows),
    select-none (λ p. not (this p)) ps
        (All-map (λ p. this p ≡ true) (λ p. not (this p) ≡ false) ps (λ p e. rw e) h),
    append-nil (others period rows),
  )

module _ (before : Employee → Employee → Bool) (ctx : Context) (period : PayPeriod)
    (hours units : List (ℕ × Decimal)) where
  module _ {company : Company} (db : Db) (ps : List Payslip)
      (found : company_of period db ≡ some company) (d : Distinct db.employees)
      (e : (run_payroll_for_period before ctx period hours units db).0 ≡ ok ps) where
    pub run-settled :
        (owed before period hours units company db ≡ ok (map unkeyed ps))
        × ((run_payroll_for_period before ctx period hours units db).1.payslips
            ≡ others period db.payslips ++ ps)
        × Kept db (run_payroll_for_period before ctx period hours units db).1
    run-settled =
        settled period db (owed before period hours units company db)
          (run_payroll_for_period before ctx period hours units db) ps
          (run_payroll_for_period-Settles before ctx period hours units db found d) e

    -- What holds of every row that the loop can make holds of the payslips returned.
    run-All :
        (P : Payslip → Type 0)
        → All
            (λ f.
              (r : PayslipResult)
              → P (
                  payslip_row 0 company.pk period f
                    (payroll_input company.currency period hours units db.adjustments f)
                    r))
            (active_employees before company.pk db.employees)
        → All (λ p. P (unkeyed p)) ps
    run-All P h = All-unmap P ps (
        subst (OnOk (All P)) run-settled.0 (
          due-All company.pk period
            (payroll_input company.currency period hours units db.adjustments) P
            (active_employees before company.pk db.employees) h))

    returned_in_period : All (λ p. (p.period == period.pk) ≡ true) ps
    returned_in_period =
        run-All (λ p. (p.period == period.pk) ≡ true)
          (All-always (λ f. (r : PayslipResult) → (period.pk == period.pk) ≡ true)
            (active_employees before company.pk db.employees) λ f r. ==_refl period.pk)

    -- After a successful run the payslips of the period are exactly the payslips that it returned,
    -- in place of any former ones; the payslips of every other period are untouched, and so are the
    -- companies, users, employees, periods and adjustments, and the next keys of employees and
    -- periods. The period's company exists, and employees have distinct primary keys.
    pub run_replaces_period :
        let after = (run_payroll_for_period before ctx period hours units db).1 in
        (select (λ p. p.period == period.pk) after.payslips ≡ ps)
        × (others period after.payslips ≡ others period db.payslips)
        × Kept db after
    run_replaces_period =
        let (_, grown, kept) = run-settled in
        (
          ap (select (λ p. p.period == period.pk)) grown
              ∙ select-this period db.payslips ps returned_in_period,
          ap (others period) grown ∙ others-others period db.payslips ps returned_in_period,
          kept,
        )

    -- Every payslip that a successful run returns is one of the period and of its company, for an
    -- active employee of that company. The period's company exists, and employees have distinct
    -- primary keys.
    pub run_pays_members :
        All
          (λ p.
            ((p.period ≡ period.pk) × (p.company ≡ company.pk))
            × (is_active_member company.pk db.employees p.employee ≡ true))
          ps
    run_pays_members =
        run-All
          (λ p.
            ((p.period ≡ period.pk) × (p.company ≡ company.pk))
            × (is_active_member company.pk db.employees p.employee ≡ true))
          (All-map (λ f. is_active_member company.pk db.employees f.pk ≡ true) _
            (active_employees before company.pk db.employees) (λ f h r. ((refl, refl), h))
            (active_employees-is_active_member before company.pk db.employees))

    -- A successful run pays an active employee of the company exactly if the calculation returns
    -- for the input that the database and the recorded hours and units give. The period's company
    -- exists, and employees have distinct primary keys.
    pub run_pays_exactly :
        (f : Employee)
        → Member f db.employees
        → f.company ≡ company.pk
        → f.is_active ≡ true
        → is_paid f ps
          ≡ is_ok (
              calculate_payslip
                (payroll_input company.currency period hours units db.adjustments f))
    run_pays_exactly f m c active =
        let input = payroll_input company.currency period hours units db.adjustments in
        sym (is_paid-unkeyed f ps)
        ∙ subst (OnOk (λ rows. is_paid f rows ≡ is_ok (calculate_payslip (input f)))) run-settled.0
            (paid_iff_ok company.pk period input f (active_employees before company.pk db.employees)
              (active_employees-Distinct before company.pk db.employees d)
              (Member-active_employees before company.pk f db.employees c active m))

  -- Where a run has returned payslips, running payroll again with the same hours and units
  -- returns the same payslips but for their primary keys, and leaves the table with these in
  -- place of the first run's and with the other periods' payslips as before both runs. The
  -- period's company exists, and employees have distinct primary keys.
  pub run_again :
      {company : Company} (db : Db) (ps : List Payslip)
      → company_of period db ≡ some company
      → Distinct db.employees
      → (run_payroll_for_period before ctx period hours units db).0 ≡ ok ps
      → let once = (run_payroll_for_period before ctx period hours units db).1 in
        let twice = run_payroll_for_period before ctx period hours units once in
        (qs : List Payslip) × (twice.0 ≡ ok qs)
        × (map unkeyed qs ≡ map unkeyed ps)
        × (twice.1.payslips ≡ others period db.payslips ++ qs)
  run_again {company} db ps found d e =
      let once = (run_payroll_for_period before ctx period hours units db).1 in
      let (owed_once, grown, kept) = run-settled db ps found d e in
      let found' : company_of period once ≡ some company =
        ap (λ (l : List Company). first (select (λ c. c.pk == period.company) l)) kept.companies
        ∙ found in
      let d' : Distinct once.employees = subst Distinct (sym kept.employees) d in
      let same : owed before period hours units company once ≡ ok (map unkeyed ps) =
        ap₂
          (λ (a : Adjustments) (es : List Employee).
            due company.pk period (payroll_input company.currency period hours units a)
              (active_employees before company.pk es))
          kept.adjustments kept.employees
        ∙ owed_once in
      let (qs, returned, rows, grown', _) =
        subst
          (λ o. Settles period once o (run_payroll_for_period before ctx period hours units once))
          same (run_payroll_for_period-Settles before ctx period hours units once found' d') in
      (
        qs,
        returned,
        rows,
        grown' ∙ ap (λ (l : List Payslip). l ++ qs) (run_replaces_period db ps found d e).1,
      )
