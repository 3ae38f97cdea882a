-- ===== src/System/Slots.antt =====
-- apps/payroll/services.py: a run makes one payslip for an employee and a period.
use payroll_software.Base.{
  ℕ, false, ◌&&◌, ◌≡◌, List, [], ◌∷◌, map, arith, All, ◌==◌, Pairwise, All-map, All-not_any,
}
use payroll_software.Base.Result.{Result, ok, err, value_error}
use payroll_software.Services.Payroll.{PayrollInput, PayslipResult, calculate_payslip}
use payroll_software.Database.{Employee, PayPeriod, Payslip}
use payroll_software.Apps.Payroll.Run.{payslip_row}
use payroll_software.Apps.Payroll.Run.Due.{unkeyed, due_step, due, Distinct}
use payroll_software.Apps.Payroll.Run.Scope.{OnOk, is_paid, unpaid}
use payroll_software.System.Tables.{same_slot}

module _ (company : ℕ) (period : PayPeriod) (input : Employee → PayrollInput) where
  step-Pairwise :
      (e : Employee) (result : Result PayslipResult) (rest : Result (List Payslip))
      → OnOk (λ rows. is_paid e rows ≡ false) rest
      → OnOk (Pairwise same_slot) rest
      → OnOk (Pairwise same_slot) (due_step (payslip_row 0 company period e (input e)) result rest)
  unfolding due_step
  step-Pairwise e (ok r) (ok rows) unpaid h = (
    All-map (λ p. (p.employee == e.pk) ≡ false)
        (λ p. (e.pk == p.employee && period.pk == p.period) ≡ false) rows (λ p q. ground arith)
        (All-not_any (λ p. p.employee == e.pk) rows unpaid),
    h,
  )
  step-Pairwise e (ok r) (err x) unpaid h = tt
  step-Pairwise e (err value_error) rest unpaid h = h
  step-Pairwise e (err x) rest unpaid h = tt

  pub due-Pairwise :
      (es : List Employee) → Distinct es → OnOk (Pairwise same_slot) (due company period input es)
  unfolding due
  due-Pairwise [] d = tt
  due-Pairwise (e ∷ es) d =
      step-Pairwise e (calculate_payslip (input e)) (due company period input es)
        (unpaid company period input e es d.0) (due-Pairwise es d.1)

unkeyed-apart :
    (p : Payslip) (ps : List Payslip)
    → All (λ q. same_slot (unkeyed p) q ≡ false) (map unkeyed ps)
    → All (λ q. same_slot p q ≡ false) ps
unkeyed-apart p [] h = tt
unkeyed-apart p (q ∷ ps) h = (h.0, unkeyed-apart p ps h.1)

pub unkeyed-Pairwise :
    (ps : List Payslip) → Pairwise same_slot (map unkeyed ps) → Pairwise same_slot ps
unkeyed-Pairwise [] h = tt
unkeyed-Pairwise (p ∷ ps) h = (unkeyed-apart p ps h.0, unkeyed-Pairwise ps h.1)
