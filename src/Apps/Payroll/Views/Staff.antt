-- ===== src/Apps/Payroll/Views/Staff.antt =====
-- apps/payroll/views.py: what the views for company staff change, and for whom.
use payroll_software.Base.{
  ℕ, Bool, true, false, not, ◌≡◌, ◌≢◌, Option, none, some, arith, inl, inr, Option-cases,
}
use payroll_software.Database.{Employee, Payslip, PayPeriod, status_closed, Db, Context}
use payroll_software.Apps.Http.{
  Request, redirected, rendered, context_of, is_employee, tenant_required,
}
use payroll_software.Apps.Payroll.Period.{
  is_closed, find_period, refuses, save_period, write_period, breaks_constraint,
}
use payroll_software.Apps.Payroll.Period.Closed.{and_false, closing_passes, write_period-stores}
use payroll_software.Apps.Payroll.Views.{
  Cleaned, RunReport, staff_only, get_period, close_period_view, run_payroll_view,
  period_create_view, payslip_detail_view, close_found, run_found, closed_form, user_pk,
}

-- A signed-in user who is no employee, on the host of a tenant.
abbrev pub is_staff_request : Request → Bool
is_staff_request r = elim r.user [
  | none ↦ false
  | some u ↦ elim r.tenant [ none ↦ false | some t ↦ not (is_employee u) ]
]

-- A request that is not by a signed-in user with another role than employee, on the host of a
-- tenant, changes nothing through the views that run payroll, close a period or open one, and
-- neither the run nor the page of a payslip renders anything to it.
pub staff_views_refuse :
    (before : Employee → Employee → Bool) (r : Request) (pk now year month : ℕ)
    (form : Option Cleaned) (db : Db)
    → is_staff_request r ≡ false
    → ((run_payroll_view before r pk form db).1 ≡ db)
      × ((close_period_view r pk now db).1 ≡ db)
      × ((period_create_view r now year month db).1 ≡ db)
      × ((report : RunReport) → (run_payroll_view before r pk form db).0 ≢ rendered report)
      × ((p : Payslip) → payslip_detail_view r pk db ≢ rendered p)
unfolding run_payroll_view close_period_view period_create_view payslip_detail_view staff_only
    tenant_required
staff_views_refuse before r pk now year month form db h =
    (ground arith, ground arith, ground arith, λ report. ground arith, λ p. ground arith)

-- A closed period cannot be run from the view: the database stays as it was.
pub run_payroll_view-closed :
    (before : Employee → Employee → Bool) (r : Request) (pk : ℕ) (form : Option Cleaned)
    {p : PayPeriod} (db : Db)
    → get_period r pk db ≡ some p
    → is_closed p ≡ true
    → (run_payroll_view before r pk form db).1 ≡ db
unfolding run_payroll_view run_found
run_payroll_view-closed before r pk form db found closed = elim (Option-cases (staff_only r)) [
  | inl n ↦ rw (n, run_payroll_view, found, closed, run_found)
  | inr (d, n) ↦ rw (n, run_payroll_view)
]

staff_only-admits : (r : Request) → is_staff_request r ≡ true → staff_only r ≡ none
unfolding staff_only
staff_only-admits r h = ground arith

-- The guard lets the closing of any stored version through.
save_period-closing :
    (ctx : Context) (now : ℕ) (by : Option ℕ) (p : PayPeriod) (db : Db)
    → find_period p.pk db.periods ≡ some p
    → save_period ctx now (closed_form now by p) db ≡ write_period ctx now (closed_form now by p) db
unfolding save_period refuses
save_period-closing ctx now by p db found =
    rw (found, closing_passes now by p, and_false (is_closed p))

close_found-closes :
    (r : Request) (now : ℕ) (p : PayPeriod) (db : Db)
    → find_period p.pk db.periods ≡ some p
    → breaks_constraint p db.periods ≡ false
    → let closed = record p {
      status = status_closed;
      closed_at = some now;
      closed_by = user_pk r.user;
      updated_at = now;
    } in
      ((close_found r now (some p) db).0 ≡ redirected)
      × (find_period p.pk (close_found r now (some p) db).1.periods ≡ some closed)
unfolding close_found breaks_constraint
close_found-closes r now p db found fits =
    let saved = save_period-closing (context_of r) now (user_pk r.user) p db found in
    let (e, stored) =
      write_period-stores (context_of r) now (closed_form now (user_pk r.user) p) db found fits in
    (rw (close_found, saved, e), rw (close_found, saved) stored)

close-step :
    (r : Request) (pk now : ℕ) (p : PayPeriod) (db : Db)
    → is_staff_request r ≡ true
    → r.is_post ≡ true
    → get_period r pk db ≡ some p
    → close_period_view r pk now db ≡ close_found r now (some p) db
unfolding close_period_view close_found
close-step r pk now p db staff posted asked =
    rw (posted, staff_only-admits r staff, asked, close_period_view)

-- A posted request of a staff member closes the period that it names: its row has the status
-- closed, the time of the request and the user. The period is one of the tenant, its row is the
-- one under its key, and it fits the constraints of the table. It need not be open: a closed
-- period gets a new time and a new user.
pub close_period_view-closes :
    (r : Request) (pk now : ℕ) (p : PayPeriod) (db : Db)
    → is_staff_request r ≡ true
    → r.is_post ≡ true
    → get_period r pk db ≡ some p
    → find_period p.pk db.periods ≡ some p
    → breaks_constraint p db.periods ≡ false
    → let closed = record p {
      status = status_closed;
      closed_at = some now;
      closed_by = user_pk r.user;
      updated_at = now;
    } in
      ((close_period_view r pk now db).0 ≡ redirected)
      × (find_period p.pk (close_period_view r pk now db).1.periods ≡ some closed)
close_period_view-closes r pk now p db staff posted asked found fits =
    rw (close-step r pk now p db staff posted asked) (close_found-closes r now p db found fits)
