-- ===== src/System/Pages.antt =====
-- apps/payroll/views.py: what the pages of a period show, in well-formed tables.
use payroll_software.Base.{
  Bool, true, false, refl, if◌then◌else◌, ap, ℕ, ◌≡◌, none, some, map, ◌==◌, select, All-map, arith,
  Option-cases, inl, inr, any-Member, ◌&&◌,
}
use payroll_software.Database.{Company, PayPeriod, Payslip, Db}
use payroll_software.Apps.Http.{
  Request, Response, wrong_method, shown, rendered, tenant_required, context_of,
}
use payroll_software.Apps.Tenants.{objects}
use payroll_software.Apps.Payroll.Views.{get_period, scoped_payslips}
use payroll_software.Apps.Payroll.Views.Pages.{with_lines, period_detail_view, period_print_view}
use payroll_software.Apps.Payroll.Run.{order_by}
use payroll_software.System.Tables.{tables, covers, Refers, WellFormed}
use payroll_software.System.Owners.{select-spared, covers_one}
use payroll_software.System.Branches.{found_row}

answered :
    {A : Type 0} (post : Bool) (page : Response A)
    → shown post page ≡ (if post then wrong_method else page)
answered true page = refl
answered false page = refl

module _ (r : Request) (pk : ℕ) (db : Db) (h : WellFormed (tables db)) {period : PayPeriod}
    (entered : tenant_required r ≡ none) (found : get_period r pk db ≡ some period) where
  -- A payslip of the period is one of the period's company.
  same_company :
      (p : Payslip)
      → covers db.periods p.company p.period ≡ true
      → (p.period == pk) ≡ true
      → p.company ≡ period.company
  same_company p refers e =
      let (m, key, own) =
        found_row (λ (p : PayPeriod). p.company) (λ p. p.pk) (context_of r) pk db.periods period
          found in
      let here : covers db.periods period.company p.period ≡ true =
        any-Member (λ q. q.pk == p.period && q.company == period.company) period db.periods m
          (ground arith) in
      covers_one db.periods p.company period.company p.period h.periods.1 refers here

  in_tenant :
      (t : Company)
      → period.company ≡ t.pk
      → select (λ p. p.period == pk) (select (λ p. p.company == t.pk) db.payslips)
        ≡ select (λ p. p.period == pk) db.payslips
  in_tenant t own =
      select-spared (λ p. p.period == pk) (λ p. p.company == t.pk) db.payslips
        (All-map (λ p. Refers db.employees db.periods p.company p.employee p.period)
          (λ p. (p.period == pk) ≡ true → (p.company == t.pk) ≡ true) db.payslips
          (λ p q e. equal p.company period.company t.pk (same_company p q.1 e) own)
          h.references.payslips)
    where
      equal : (a b c : ℕ) → a ≡ b → b ≡ c → (a == c) ≡ true
      equal a b c p q = ground arith

  in_period :
      select (λ p. p.period == period.pk) (scoped_payslips r db)
      ≡ select (λ p. p.period == pk) db.payslips
  unfolding objects
  in_period =
      let (m, key, own) =
        found_row (λ (p : PayPeriod). p.company) (λ p. p.pk) (context_of r) pk db.periods period
          found in
      elim (Option-cases r.tenant) [
        | inl n ↦ absurd (rw n at own)
        | inr (t, on) ↦ rw (key, on) (in_tenant t (rw on at own))
      ]

  -- In well-formed tables, whoever passes the gate with a GET sees on the page of a period of the
  -- tenant, and on its page to print, every payslip of the period in the whole table and no other, in
  -- the default order, on the latter with its lines: the scoping by tenant loses none. A POST to
  -- either is answered by 405.
  pub period_pages :
      (before : Payslip → Payslip → Bool)
      → let rows = order_by before (select (λ p. p.period == pk) db.payslips) in
        (period_detail_view before r pk db
          ≡ (if r.is_post then wrong_method else rendered (period, rows)))
        × (period_print_view before r pk db
            ≡ (if r.is_post then wrong_method else rendered (period, map (with_lines db) rows)))
  unfolding period_detail_view period_print_view
  period_pages before =
      let sorted = order_by before (select (λ p. p.period == pk) db.payslips) in
      let same = ap (order_by before) in_period in
      (
        rw (entered, found, period_detail_view, same)
            (answered r.is_post (rendered (period, sorted))),
        rw (entered, found, period_print_view, same)
            (answered r.is_post (rendered (period, map (with_lines db) sorted))),
      )
