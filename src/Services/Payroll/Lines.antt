-- ===== src/Services/Payroll/Lines.antt =====
-- services/payroll/calculator.py: the lines of a payslip add up to its net pay.
use payroll_software.Base.{◌^◌, ◌<◌, ◌≡◌, refl, List, [], ◌∷◌, ◌++◌, ap, sym, ◌∙◌}
use payroll_software.Base.Int.{ℤ, pos, ◌+ℤ◌, ◌-ℤ◌, sum_ℤ, +ℤ_assoc, zero-+ℤ, int_laws}
use payroll_software.Base.Text.{Text}
use payroll_software.Base.Result.{ok}
use payroll_software.Domain.Decimal.{precision, to_cents}
use payroll_software.Domain.Decimal.Cents.{to_cents_same}
use payroll_software.Services.Payroll.{
  CompensationInput, PayrollInput, PayslipLineResult, PayslipResult, bonus, deduction,
  reimbursement, calculate_payslip,
}
use payroll_software.Services.Payroll.Exact.{
  AllFinite, Gross, base_text, rounded, amounts, exact_lines,
}
use payroll_software.Services.Payroll.Net.{turnover, exact_net, itemised, calculate_payslip-IsExact}

-- What a line adds to the pay, in cents: a deduction counts against it.
abbrev pub signed : PayslipLineResult → ℤ
signed line = elim line.line_type [
  | deduction ↦ pos 0 -ℤ rounded line.amount
  | _ ↦ rounded line.amount
]

-- What a payslip's lines add up to, in cents.
abbrev pub balance : List PayslipLineResult → ℤ
balance [] = pos 0
balance (line ∷ lines) = signed line +ℤ balance lines

balance-append : (xs ys : List PayslipLineResult) → balance (xs ++ ys) ≡ balance xs +ℤ balance ys
balance-append [] ys = sym (zero-+ℤ (balance ys))
balance-append (x ∷ xs) ys =
    rw (balance-append xs ys) (sym (+ℤ_assoc (signed x) (balance xs) (balance ys)))

balance-bonus : (xs : List CompensationInput) → balance (exact_lines bonus xs) ≡ sum_ℤ (amounts xs)
balance-bonus [] = refl
balance-bonus (x ∷ xs) = rw (to_cents_same (rounded x.amount), balance-bonus xs)

balance-reimbursement :
    (xs : List CompensationInput) → balance (exact_lines reimbursement xs) ≡ sum_ℤ (amounts xs)
balance-reimbursement [] = refl
balance-reimbursement (x ∷ xs) = rw (to_cents_same (rounded x.amount), balance-reimbursement xs)

less_sum : (a b : ℤ) → pos 0 -ℤ a +ℤ (pos 0 -ℤ b) ≡ pos 0 -ℤ (a +ℤ b)
less_sum a b = omega int_laws

balance-deduction :
    (xs : List CompensationInput) → balance (exact_lines deduction xs) ≡ pos 0 -ℤ sum_ℤ (amounts xs)
balance-deduction [] = omega int_laws
balance-deduction (x ∷ xs) =
    rw (to_cents_same (rounded x.amount), balance-deduction xs)
      (less_sum (rounded x.amount) (sum_ℤ (amounts xs)))

net_sum : (b x d r : ℤ) → b +ℤ (x +ℤ (pos 0 -ℤ d +ℤ r)) ≡ b +ℤ x +ℤ r -ℤ d
net_sum b x d r = omega int_laws

-- The lines of an exact payslip add up to its exact net pay.
balance-itemised : (i : PayrollInput) (b : ℤ) (t : Text) → balance (itemised i b t) ≡ exact_net i b
balance-itemised i b t =
    rw
      (
        to_cents_same b,
        balance-append (exact_lines bonus i.bonuses)
            (exact_lines deduction i.deductions ++ exact_lines reimbursement i.reimbursements),
        balance-append (exact_lines deduction i.deductions)
            (exact_lines reimbursement i.reimbursements),
        balance-bonus i.bonuses,
        balance-deduction i.deductions,
        balance-reimbursement i.reimbursements,
      )
      (net_sum b (sum_ℤ (amounts i.bonuses)) (sum_ℤ (amounts i.deductions))
        (sum_ℤ (amounts i.reimbursements)))

-- Where the pay (a salary, or a rate times a quantity with a product of at most 28 digits) and
-- every adjustment are finite and their magnitudes, rounded to cents, add up to less than 10^28
-- cents, the calculation returns a payslip whose lines add up to its net pay, deductions counted
-- as negative.
pub calculate_payslip_balances :
    (i : PayrollInput) {c e : ℤ}
    → Gross i c e
    → AllFinite i.bonuses
    → AllFinite i.deductions
    → AllFinite i.reimbursements
    → turnover i (to_cents c e) < 10 ^ precision
    → (r : PayslipResult) × (calculate_payslip i ≡ ok r) × (balance r.lines ≡ rounded r.net_pay)
calculate_payslip_balances i {c = c} {e = e} g fb fd fr h =
    let (r, returned, exact) = calculate_payslip-IsExact i g fb fd fr h in
    (
      r,
      returned,
      ap balance exact.lines
          ∙ balance-itemised i (to_cents c e) (base_text g)
          ∙ sym (ap rounded exact.net_pay ∙ to_cents_same (exact_net i (to_cents c e))),
    )
