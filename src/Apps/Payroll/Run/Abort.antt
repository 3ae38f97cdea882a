-- ===== src/Apps/Payroll/Run/Abort.antt =====
-- apps/payroll/services.py: an exception other than ValueError ends the whole run.
use payroll_software.Base.{Member, ℕ, Bool, true, ◌≡◌, refl, subst, List, [], ◌∷◌, some, inl, inr}
use payroll_software.Base.Text.{text_eq}
use payroll_software.Base.Result.{Result, ok, err, Exn, value_error, invalid_operation}
use payroll_software.Domain.Decimal.{Decimal}
use payroll_software.Services.Payroll.{
  PayrollInput, PayslipResult, fixed_basis, fixed_base, compute_base, quantize, calculate_payslip,
}
use payroll_software.Database.{Company, Employee, PayPeriod, Payslip, Db, Context}
use payroll_software.Apps.Payroll.Run.{
  payroll_input, payslip_row, active_employees, company_of, run_payroll_for_period,
}
use payroll_software.Apps.Payroll.Run.Due.{due_step, due, Distinct}
use payroll_software.Apps.Payroll.Run.Refines.{Settles, run_payroll_for_period-Settles}
use payroll_software.Apps.Payroll.Run.Scope.{Member-active_employees}

-- A salary that cannot be rounded makes the calculation raise InvalidOperation.
unusable_salary :
    (i : PayrollInput) (salary : Decimal)
    → i.pay_basis ≡ fixed_basis
    → i.base_salary ≡ some salary
    → quantize salary ≡ err invalid_operation
    → calculate_payslip i ≡ err invalid_operation
unfolding calculate_payslip compute_base fixed_base text_eq
unusable_salary i salary b s q = rw (b, s, q)

due_step-err :
    (row : PayslipResult → Payslip) (result : Result PayslipResult) (y : Exn)
    → (x : Exn) × (due_step row result (err y) ≡ err x)
unfolding due_step
due_step-err row (ok r) y = (y, refl)
due_step-err row (err value_error) y = (y, refl)
due_step-err row (err x) y = (x, refl)

due_aborts :
    (company : ℕ) (period : PayPeriod) (input : Employee → PayrollInput) (f : Employee)
    (es : List Employee)
    → Member f es
    → calculate_payslip (input f) ≡ err invalid_operation
    → (x : Exn) × (due company period input es ≡ err x)
unfolding due
due_aborts company period input f [] m h = absurd m
due_aborts company period input f (e ∷ es) (inl q) h =
    (invalid_operation, unfold due_step in rw (q, h))
due_aborts company period input f (e ∷ es) (inr m) h =
    let (y, rest) = due_aborts company period input f es m h in
    let (x, step) =
      due_step-err (payslip_row 0 company period e (input e)) (calculate_payslip (input e)) y in
    (x, rw rest step)

-- One active employee of the company with a fixed salary whose rounding to cents raises
-- InvalidOperation makes the run raise an exception, and then nobody is paid: the database stays
-- as it was. The period's company exists, and employees have distinct primary keys.
pub unusable_salary_aborts :
    (before : Employee → Employee → Bool) (ctx : Context) (period : PayPeriod)
    (hours units : List (ℕ × Decimal)) {company : Company} (db : Db) (f : Employee)
    {salary : Decimal}
    → company_of period db ≡ some company
    → Distinct db.employees
    → Member f db.employees
    → f.company ≡ company.pk
    → f.is_active ≡ true
    → f.pay_basis ≡ fixed_basis
    → f.base_salary ≡ some salary
    → quantize salary ≡ err invalid_operation
    → (x : Exn) × (run_payroll_for_period before ctx period hours units db ≡ (err x, db))
unusable_salary_aborts before ctx period hours units {company} db f {salary} found d m c active b s
      q =
    let input = payroll_input company.currency period hours units db.adjustments in
    let (x, raised) =
      due_aborts company.pk period input f (active_employees before company.pk db.employees)
        (Member-active_employees before company.pk f db.employees c active m)
        (unfold payroll_input in unusable_salary (input f) salary b s q) in
    (
      x,
      subst (λ o. Settles period db o (run_payroll_for_period before ctx period hours units db))
          raised (run_payroll_for_period-Settles before ctx period hours units db found d),
    )
