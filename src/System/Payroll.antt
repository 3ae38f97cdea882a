-- ===== src/System/Payroll.antt =====
-- apps/payroll/services.py refines the specification: a run is one change by the tenant, or none.
use payroll_software.Base.{
  any-Member, ℕ, Bool, true, ◌&&◌, ◌≡◌, sym, ap, subst, ◌⊎◌, inl, inr, some, List, map, arith, All,
  ◌==◌, first-select, Member, All-map, Option-cases, any_mono, Pairwise,
}
use payroll_software.Base.Result.{Result, ok, err}
use payroll_software.Domain.Decimal.{Decimal}
use payroll_software.Database.{Company, Employee, PayPeriod, Payslip, Db}
use payroll_software.Apps.Http.{Request, context_of}
use payroll_software.Apps.Payroll.Run.{
  company_of, payroll_input, active_employees, run_payroll_for_period,
}
use payroll_software.Apps.Payroll.Run.Due.{unkeyed, Kept}
use payroll_software.Apps.Payroll.Run.Refines.{
  owed, Settles, run_payroll_for_period-Settles, active_employees-Distinct,
}
use payroll_software.Apps.Payroll.Run.Scope.{OnOk, is_active_member}
use payroll_software.Apps.Payroll.Run.Paid.{run_pays_members, run-settled}
use payroll_software.System.Tables.{
  tables, covers, Slip, same_slot, WellFormed, Owns, Change, pay, Changes, none_yet, once,
}
use payroll_software.System.Slots.{due-Pairwise, unkeyed-Pairwise}

-- The state after a run that returned.
module _ (before : Employee → Employee → Bool) (r : Request) (period : PayPeriod)
    (hours units : List (ℕ × Decimal)) (db : Db) (h : WellFormed (tables db)) where
  abbrev run : Result (List Payslip) × Db
  run = run_payroll_for_period before (context_of r) period hours units db

  single :
      (company : Company) (ps : List Payslip)
      → owed before period hours units company db ≡ ok (map unkeyed ps)
      → Pairwise same_slot ps
  single company ps q = unkeyed-Pairwise ps (
      subst (OnOk (Pairwise same_slot)) q (
        due-Pairwise company.pk period
          (payroll_input company.currency period hours units db.adjustments)
          (active_employees before company.pk db.employees)
          (active_employees-Distinct before company.pk db.employees h.employees.1)))

  members :
      (c : ℕ) (ps : List Payslip)
      → All
          (λ p.
            ((p.period ≡ period.pk) × (p.company ≡ c))
            × (is_active_member c db.employees p.employee ≡ true))
          ps
      → All (Slip db.employees c period.pk) ps
  members c ps = All-map _ (Slip db.employees c period.pk) ps λ p q. (
    q.0.0,
    q.0.1,
    any_mono (λ e. e.pk == p.employee && (e.company == c && e.is_active))
        (λ e. e.pk == p.employee && e.company == c) db.employees (λ e a. ground arith) q.1,
  )

  -- A run returns, or it leaves the database as it was.
  settle :
      (rows : Result (List Payslip)) (out : Result (List Payslip) × Db)
      → Settles period db rows out
      → (out.1 ≡ db) ⊎ ((ps : List Payslip) × (out.0 ≡ ok ps))
  settle (err x) out s = inl (ap (λ (o : Result (List Payslip) × Db). o.1) s)
  settle (ok rows) out s = inr (s.0, s.1)

  Kept-tables :
      (after : Db) (rows : List Payslip)
      → Kept db after
      → after.payslips ≡ rows
      → record (tables db) { payslips = rows } ≡ tables after
  Kept-tables after rows k q = λ i. record {
    employees = sym k.employees i;
    periods = sym k.periods i;
    adjustments = sym k.adjustments i;
    payslips = sym q i;
    next_employee = sym k.next_employee i;
    next_period = sym k.next_period i;
  }

  covered :
      (company : Company)
      → Member period db.periods
      → company_of period db ≡ some company
      → (company.pk ≡ period.company) × (covers db.periods company.pk period.pk ≡ true)
  covered company m found =
      let (_, q) = first-select (λ c. c.pk == period.company) db.companies company found in
      let same : company.pk ≡ period.company = ground arith in
      (
        same,
        any-Member (λ p. p.pk == period.pk && p.company == company.pk) period db.periods m
            (ground arith),
      )

  paid :
      (company : Company) (ps : List Payslip)
      → Member period db.periods
      → Owns r.tenant period.company
      → company_of period db ≡ some company
      → run.0 ≡ ok ps
      → Change r.tenant (tables db) (tables run.1)
  paid company ps m own found returned =
      let (owes, grown, kept) =
        run-settled before (context_of r) period hours units db ps found h.employees.1 returned in
      let (same, cover) = covered company m found in
      subst (Change r.tenant (tables db)) (Kept-tables run.1 _ kept grown) (
        pay company.pk period.pk ps (rw same own) cover
          (members company.pk ps (
            run_pays_members before (context_of r) period hours units db ps found h.employees.1
              returned))
          (single company ps owes))

  pub run-Changes :
      Member period db.periods
      → Owns r.tenant period.company
      → Changes r.tenant (tables db) (tables run.1)
  unfolding run_payroll_for_period
  run-Changes m own = elim (Option-cases (company_of period db)) [
    | inl q ↦ rw (q, run_payroll_for_period) none_yet
    | inr (company, found) ↦
        elim (settle (owed before period hours units company db) run (
          run_payroll_for_period-Settles before (context_of r) period hours units db found
            h.employees.1)) [
              | inl same ↦ subst (λ d. Changes r.tenant (tables db) (tables d)) (sym same) none_yet
              | inr (ps, returned) ↦ once (paid company ps m own found returned)
            ]
  ]
