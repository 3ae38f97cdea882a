-- ===== src/Tests/Periods.antt =====
-- `PayPeriod.save` on a closed period.
use payroll_software.Base.{◌≡◌, refl, arith, false, some}
use payroll_software.Base.Result.{ok, err, validation_error}
use payroll_software.Database.{status_open}
use payroll_software.Apps.Payroll.Period.{save_period, breaks_constraint, find_period}
use payroll_software.Apps.Payroll.Period.Closed.{
  SameIdentity, closed_period_refuses, closed_period_reopens,
}
use payroll_software.Tests.Data.{april, office, in_acme}

moved : ¬ SameIdentity (record april { year = 2024 }) april
moved h = ground arith

closed_period_refuses_example :
    save_period in_acme 8 (record april { year = 2024 }) office ≡ (err validation_error, office)
closed_period_refuses_example =
    closed_period_refuses in_acme 8 (record april { year = 2024 }) office refl refl moved

april_fits : breaks_constraint april office.periods ≡ false
unfolding breaks_constraint
april_fits = refl

closed_period_reopens_example :
    let reopened = record april { status = status_open; updated_at = 8 } in
    let (result, after) = save_period in_acme 8 (record april { status = status_open }) office in
    (result ≡ ok reopened) × (find_period april.pk after.periods ≡ some reopened)
closed_period_reopens_example = closed_period_reopens in_acme 8 april office refl refl april_fits
