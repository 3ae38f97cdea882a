-- ===== src/Tests/Views.antt =====
-- The gates and the views of apps/payroll/views.py, on requests to the host of a tenant.
use payroll_software.Base.{false, none, some, [], ◌∷◌, ◌≡◌, ◌≢◌, ◌↔◌, refl}
use payroll_software.Database.{User, Company, employee, Payslip, status_closed}
use payroll_software.Apps.Tenants.{objects}
use payroll_software.Apps.Http.{Request, rendered, redirected, tenant_required}
use payroll_software.Apps.Http.Gates.{tenant_required_iff, tenant_required_elsewhere}
use payroll_software.Apps.Payroll.Period.{find_period, breaks_constraint}
use payroll_software.Apps.Payroll.Views.{
  RunReport, user_pk, close_period_view, run_payroll_view, period_create_view, payslip_detail_view,
}
use payroll_software.Apps.Payroll.Views.Staff.{staff_views_refuse, close_period_view-closes}
use payroll_software.Tests.Data.{
  acme, globex, boss, worker, may, april, office, request_of, first_to_last,
}

abbrev by_boss : Request
by_boss = request_of boss

abbrev by_worker : Request
by_worker = request_of worker

boss_enters : tenant_required by_boss ≡ none
unfolding tenant_required
boss_enters = refl

tenant_required_iff_example : (tenant_required by_boss ≡ none) ↔ (
    (u : User) × (t : Company) × (by_boss.user ≡ some u)
    × (by_boss.tenant ≡ some t)
    × (u.role ≢ employee))
tenant_required_iff_example = tenant_required_iff by_boss

tenant_required_elsewhere_example : tenant_required (record by_boss { tenant = some globex }) ≡ none
tenant_required_elsewhere_example = tenant_required_elsewhere by_boss globex boss_enters

-- A GET of the worker.
abbrev visit : Request
visit = record by_worker { is_post = false }

staff_views_refuse_example :
    ((run_payroll_view first_to_last by_worker 1 none office).1 ≡ office)
    × ((close_period_view by_worker 1 8 office).1 ≡ office)
    × ((period_create_view by_worker 8 2025 6 office).1 ≡ office)
    × ((report : RunReport)
        → (run_payroll_view first_to_last by_worker 1 none office).0 ≢ rendered report)
    × ((p : Payslip) → payslip_detail_view by_worker 1 office ≢ rendered p)
staff_views_refuse_example = staff_views_refuse first_to_last by_worker 1 8 2025 6 none office refl

april_found :
    objects
      (λ p. p.company)
      (record { current_tenant = some acme; current_user = some boss })
      office.periods
    ≡ may ∷ april ∷ []
unfolding objects
april_found = refl

may_fits : breaks_constraint may office.periods ≡ false
unfolding breaks_constraint
may_fits = refl

close_period_view-closes_example :
    let closed = record may {
      status = status_closed;
      closed_at = some 8;
      closed_by = user_pk by_boss.user;
      updated_at = 8;
    } in
    ((close_period_view by_boss 1 8 office).0 ≡ redirected)
    × (find_period may.pk (close_period_view by_boss 1 8 office).1.periods ≡ some closed)
unfolding objects
close_period_view-closes_example =
    close_period_view-closes by_boss 1 8 may office refl refl refl refl may_fits
