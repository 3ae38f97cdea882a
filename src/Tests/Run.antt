-- ===== src/Tests/Run.antt =====
-- apps/payroll/services.py on a company of two employees, of whom one has no hours.
use payroll_software.Base.{
  true, false, ◌≡◌, refl, List, [], ◌∷◌, ◌++◌, map, All, select, ◌==◌, some, none, inl, inr,
}
use payroll_software.Base.Result.{Exn, ok, err, invalid_operation}
use payroll_software.Base.Int.{neg, with_sign, ◌*ℤ◌, ◌+ℤ◌, ◌-ℤ◌}
use payroll_software.Base.Text.{text_eq}
use payroll_software.Domain.Decimal.{
  infinity, add, align, digits, fix, half_even, half_up, multiply, subtract, to_cents,
  quantize_cents,
}
use payroll_software.Apps.Audit.{audited, audited_models, record_audit, register_audit}
use payroll_software.Services.Payroll.{
  fixed_basis, calculate_payslip, quantize, compute_base, fixed_base, rated_base, add_lines,
}
use payroll_software.Database.{Payslip, Employee, Db}
use payroll_software.Apps.Payroll.Run.{
  payroll_input, run_payroll_for_period, run_for_company, pay_all, active_employees,
  delete_payslips, pay_employee, pay_result, comp_list, adjustments_of, create_payslip,
  deleted_entries, get_quantity, insert_by, insert_payslip, order_by,
}
use payroll_software.Apps.Payroll.Run.Due.{unkeyed, Kept, Distinct}
use payroll_software.Apps.Payroll.Run.Refines.{
  others, owed, Settles, run_payroll_for_period-Settles,
}
use payroll_software.Apps.Payroll.Run.Scope.{is_ok, is_paid, is_active_member}
use payroll_software.Apps.Payroll.Run.Paid.{
  run_replaces_period, run_pays_members, run_pays_exactly, run_again,
}
use payroll_software.Apps.Payroll.Run.Abort.{unusable_salary_aborts}
use payroll_software.Apps.Payroll.Run.Logged.{IsLog, run_is_logged}
use payroll_software.Tests.Data.{
  acme, alice, bob, may, office, staffed, in_acme, first_to_last, payslip_of, employee_of,
}

abbrev paid : List Payslip
paid = payslip_of 9 may ∷ []

office-Distinct : Distinct office.employees
office-Distinct = ((refl, tt), (tt, tt))

office_pays : (run_payroll_for_period first_to_last in_acme may [] [] office).0 ≡ ok paid
unfolding run_payroll_for_period run_for_company pay_all active_employees delete_payslips
    pay_employee pay_result calculate_payslip compute_base text_eq payroll_input fixed_base quantize
    quantize_cents add_lines comp_list adjustments_of add audited audited_models record_audit
    register_audit create_payslip deleted_entries get_quantity insert_by insert_payslip order_by neg
    with_sign ◌*ℤ◌ ◌+ℤ◌ ◌-ℤ◌ align digits fix half_even half_up multiply subtract to_cents
    rated_base
office_pays = refl

run_payroll_for_period-Settles_example :
    Settles may office
      (owed first_to_last may [] [] acme office)
      (run_payroll_for_period first_to_last in_acme may [] [] office)
run_payroll_for_period-Settles_example =
    run_payroll_for_period-Settles first_to_last in_acme may [] [] office refl office-Distinct

run_pays_exactly_example :
    is_paid bob paid
    ≡ is_ok (calculate_payslip (payroll_input acme.currency may [] [] office.adjustments bob))
run_pays_exactly_example =
    run_pays_exactly first_to_last in_acme may [] [] office paid refl office-Distinct office_pays
      bob (inr (inl refl)) refl refl

run_replaces_period_example :
    let after = (run_payroll_for_period first_to_last in_acme may [] [] office).1 in
    (select (λ p. p.period == may.pk) after.payslips ≡ paid)
    × (others may after.payslips ≡ others may office.payslips)
    × Kept office after
run_replaces_period_example =
    run_replaces_period first_to_last in_acme may [] [] office paid refl office-Distinct office_pays

run_pays_members_example :
    All
      (λ p.
        ((p.period ≡ may.pk) × (p.company ≡ acme.pk))
        × (is_active_member acme.pk office.employees p.employee ≡ true))
      paid
run_pays_members_example =
    run_pays_members first_to_last in_acme may [] [] office paid refl office-Distinct office_pays

run_again_example :
    let once = (run_payroll_for_period first_to_last in_acme may [] [] office).1 in
    let twice = run_payroll_for_period first_to_last in_acme may [] [] once in
    (qs : List Payslip) × (twice.0 ≡ ok qs)
    × (map unkeyed qs ≡ map unkeyed paid)
    × (twice.1.payslips ≡ others may office.payslips ++ qs)
run_again_example =
    run_again first_to_last in_acme may [] [] office paid refl office-Distinct office_pays

abbrev carol : Employee
carol = employee_of 3 fixed_basis (some (infinity false)) none

abbrev shaken : Db
shaken = staffed (alice ∷ carol ∷ [])

shaken-Distinct : Distinct shaken.employees
shaken-Distinct = ((refl, tt), (tt, tt))

infinite_salary : quantize (infinity false) ≡ err invalid_operation
unfolding quantize quantize_cents
infinite_salary = refl

unusable_salary_aborts_example :
    (x : Exn) × (run_payroll_for_period first_to_last in_acme may [] [] shaken ≡ (err x, shaken))
unusable_salary_aborts_example =
    unusable_salary_aborts first_to_last in_acme may [] [] shaken carol refl shaken-Distinct
      (inr (inl refl)) refl refl refl refl infinite_salary

run_is_logged_example :
    ((ps : List Payslip)
      → (run_payroll_for_period first_to_last in_acme may [] [] office).0 ≡ ok ps
      → IsLog in_acme refl first_to_last may [] [] office ps
          (run_payroll_for_period first_to_last in_acme may [] [] office).1)
    × ((x : Exn)
        → (run_payroll_for_period first_to_last in_acme may [] [] office).0 ≡ err x
        → (run_payroll_for_period first_to_last in_acme may [] [] office).1.audit ≡ office.audit)
run_is_logged_example = run_is_logged in_acme {t = acme} refl first_to_last may [] [] office
