-- ===== src/Apps/Payroll/Views/Pages.antt =====
-- apps/payroll/views.py: the pages of periods and payslips that staff read. Where a list is paged, all
-- its pages are taken together.
use payroll_software.Base.{ℕ, Bool, ◌+◌, ◌||◌, ◌&&◌, leb, none, some, List, ◌==◌, map, select}
use payroll_software.Services.Payroll.{LineType, base, bonus, deduction, reimbursement}
use payroll_software.Apps.Payroll.Run.{order_by}
use payroll_software.Database.{PayPeriod, Payslip, PayslipLine, Db}
use payroll_software.Apps.Http.{
  Request, Response, missing, rendered, shown, denied, tenant_required,
}
use payroll_software.Apps.Payroll.Views.{scoped_periods, scoped_payslips, get_period}

-- The default order of pay periods, by falling year and month.
abbrev newest_period : PayPeriod → PayPeriod → Bool
newest_period a b = leb (b.year + 1) a.year || (b.year == a.year && leb b.month a.month)

-- `PayPeriodListView`
unfoldable pub period_list_view : Request → Db → Response (List PayPeriod)
period_list_view r db = elim (tenant_required r) [
  | some d ↦ denied d
  | none ↦ shown r.is_post (rendered (order_by newest_period (scoped_periods r db)))
]

-- `Payslip.objects.filter(period=period)` in the default order of payslips: by period and the last
-- name of the employee, under the collation of the database.
abbrev pub payslips_in : (Payslip → Payslip → Bool) → Request → PayPeriod → Db → List Payslip
payslips_in before r period db =
    order_by before (select (λ p. p.period == period.pk) (scoped_payslips r db))

-- `PayPeriodDetailView`
unfoldable pub period_detail_view :
    (Payslip → Payslip → Bool) → Request → ℕ → Db → Response (PayPeriod × List Payslip)
period_detail_view before r pk db = elim (tenant_required r) [
  | some d ↦ denied d
  | none ↦ shown r.is_post (elim (get_period r pk db) [
    | none ↦ missing
    | some period ↦ rendered (period, payslips_in before r period db)
  ])
]

-- `PayslipListView`
unfoldable pub payslip_list_view :
    (Payslip → Payslip → Bool) → Request → Db → Response (List Payslip)
payslip_list_view before r db = elim (tenant_required r) [
  | some d ↦ denied d
  | none ↦ shown r.is_post (rendered (order_by before (scoped_payslips r db)))
]

-- The default order of lines, by the text of `line_type` and the primary key.
abbrev rank : LineType → ℕ
rank base = 0
rank bonus = 1
rank deduction = 2
rank reimbursement = 3

abbrev line_before : PayslipLine → PayslipLine → Bool
line_before a b =
    leb (rank a.line_type + 1) (rank b.line_type)
    || (rank a.line_type == rank b.line_type && leb a.pk b.pk)

-- A payslip with its lines, `prefetch_related("lines")`.
abbrev pub with_lines : Db → Payslip → Payslip × List PayslipLine
with_lines db p = (p, order_by line_before (select (λ l. l.payslip == p.pk) db.lines))

-- `PeriodPayslipsPrintView`
unfoldable pub period_print_view :
    (Payslip → Payslip → Bool)
    → Request
    → ℕ
    → Db
    → Response (PayPeriod × List (Payslip × List PayslipLine))
period_print_view before r pk db = elim (tenant_required r) [
  | some d ↦ denied d
  | none ↦ shown r.is_post (elim (get_period r pk db) [
    | none ↦ missing
    | some period ↦ rendered (period, map (with_lines db) (payslips_in before r period db))
  ])
]
