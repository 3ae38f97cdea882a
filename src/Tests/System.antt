-- ===== src/Tests/System.antt =====
-- The theorems of the System tree, at the office of the test data.
use payroll_software.System.Pages.{period_pages}
use payroll_software.Apps.Tenants.{objects}
use payroll_software.Apps.Http.{Request, tenant_required, rendered, wrong_method}
use payroll_software.Apps.Payroll.Run.{order_by}
use payroll_software.Database.{Payslip}
use payroll_software.Apps.Payroll.Views.{get_period}
use payroll_software.Apps.Payroll.Views.Pages.{with_lines, period_detail_view, period_print_view}
use payroll_software.Apps.Seed.{seed_demo}
use payroll_software.System.Seed.{seed_demo-WellFormed}
use payroll_software.Base.{
  select, map, leb, Bool, false, if◌then◌else◌, ◌≡◌, ◌==◌, ℕ, refl, Option, none, some, List, [],
  ◌∷◌, arith,
}
use payroll_software.Base.Text.{Text}
use payroll_software.Domain.Decimal.{Decimal}
use payroll_software.System.{Action, remove_employee, close_period, run_payroll, request, act, acts}
use payroll_software.System.Tables.{tables, WellFormed, Owns, Changes}
use payroll_software.System.Isolated.{Untouched}
use payroll_software.System.Safety.{act-Changes, acts-WellFormed, acts-Untouched}
use payroll_software.Tests.Data.{may, boss, office, request_of, first_to_last}

office-WellFormed : WellFormed (tables office)
office-WellFormed = record {
  employees = ((omega arith, (omega arith, tt)), ((refl, tt), (tt, tt)));
  periods = ((omega arith, (omega arith, tt)), ((refl, tt), (tt, tt)));
  references = record {
    bonuses = tt;
    deductions = tt;
    reimbursements = tt;
    payslips = ((refl, refl), ((refl, refl), tt));
  };
  slots = ((refl, tt), (tt, tt));
  months = (((refl, tt), (tt, tt)), ((omega arith, omega arith), ((omega arith, omega arith), tt)));
}

-- A run for May that pays Alice, the closing of May, and the removal of Bob.
abbrev month_end : List Action
month_end =
    run_payroll (request_of boss) 1 (some (λ f. none))
    ∷ close_period (request_of boss) 1 8
    ∷ remove_employee (request_of boss) 2
    ∷ []

abbrev same : Text → Text
same s = s

abbrev no_date : Text → Option ℕ
no_date s = none

abbrev no_number : Text → Option Decimal
no_number s = none

act-Changes_example :
    Changes (request (run_payroll (request_of boss) 1 (some (λ f. none)))).tenant (tables office) (
      tables (
        act first_to_last same same same no_date no_number
          (run_payroll (request_of boss) 1 (some (λ f. none)))
          office))
act-Changes_example =
    act-Changes first_to_last same same same no_date no_number
      (run_payroll (request_of boss) 1 (some (λ f. none))) office office-WellFormed

acts-WellFormed_example :
    WellFormed (tables (acts first_to_last same same same no_date no_number month_end office))
acts-WellFormed_example =
    acts-WellFormed first_to_last same same same no_date no_number month_end office
      office-WellFormed

not_globex : ¬ Owns (request_of boss).tenant 2
not_globex e = omega (arith, e)

acts-Untouched_example :
    Untouched 2
      (tables office)
      (tables (acts first_to_last same same same no_date no_number month_end office))
acts-Untouched_example =
    acts-Untouched first_to_last same same same no_date no_number 2 month_end office
      office-WellFormed (not_globex, (not_globex, (not_globex, tt)))

-- A GET of the boss.
abbrev visit : Request
visit = record (request_of boss) { is_post = false }

boss_enters_office : tenant_required visit ≡ none
unfolding tenant_required
boss_enters_office = refl

may_is_there : get_period visit 1 office ≡ some may
unfolding objects
may_is_there = refl

abbrev older_first : Payslip → Payslip → Bool
older_first a b = leb a.pk b.pk

period_pages_example :
    let rows = order_by older_first (select (λ p. p.period == 1) office.payslips) in
    (period_detail_view older_first visit 1 office
      ≡ (if visit.is_post then wrong_method else rendered (may, rows)))
    × (period_print_view older_first visit 1 office
        ≡ (if visit.is_post then wrong_method else rendered (may, map (with_lines office) rows)))
period_pages_example =
    period_pages visit 1 office office-WellFormed boss_enters_office may_is_there older_first

seed_demo-WellFormed_example : WellFormed (tables (seed_demo first_to_last 9 8 2025 6 office).1)
seed_demo-WellFormed_example =
    seed_demo-WellFormed first_to_last 9 8 2025 6 office office-WellFormed
