-- ===== src/Apps/Payroll/Amounts.antt =====
-- The amounts of payslips as money: the methods `*_money` of PayslipResult in
-- services/payroll/calculator.py and of Payslip in apps/payroll/models.py.
use payroll_software.Base.{ℕ, ◌≡◌, refl, Bool-cases, inl, inr, if◌then◌else◌, subst}
use payroll_software.Base.Text.{Text, is_member, text_eq_refl}
use payroll_software.Base.Result.{Result, ok, err, value_error, ◌>>=◌, ok-injective, err≢ok}
use payroll_software.Domain.Decimal.{Decimal, zero_decimal, add, subtract}
use payroll_software.Domain.Money.{
  Money, money, add_money, subtract_money, check_same_currency, allowed_currencies,
}
use payroll_software.Database.{Payslip, PayPeriod, Employee}
use payroll_software.Services.Payroll.{
  PayrollInput, PayslipResult, bonus, deduction, reimbursement, add_lines, compute_base, quantize,
  calculate_payslip,
}
use payroll_software.Apps.Payroll.Run.{payslip_row}

-- `PayslipResult.net_pay_money`
unfoldable pub result_net_pay_money : PayslipResult → Result Money
result_net_pay_money r = money r.net_pay r.currency

unfoldable pub base_pay_money : Payslip → Result Money
base_pay_money p = money p.base_pay p.currency

unfoldable pub bonuses_money : Payslip → Result Money
bonuses_money p = money p.bonuses_total p.currency

unfoldable pub deductions_money : Payslip → Result Money
deductions_money p = money p.deductions_total p.currency

unfoldable pub reimbursements_money : Payslip → Result Money
reimbursements_money p = money p.reimbursements_total p.currency

unfoldable pub net_pay_money : Payslip → Result Money
net_pay_money p = money p.net_pay p.currency

-- The net pay anew from the amounts that the payslip shows, rounded to cents.
abbrev pub recomputed_net : Payslip → Result Money
recomputed_net p = do
  base ← base_pay_money p
  bonuses ← bonuses_money p
  with_bonuses ← add_money base bonuses
  reimbursements ← reimbursements_money p
  gross ← add_money with_bonuses reimbursements
  deductions ← deductions_money p
  net ← subtract_money gross deductions
  rounded ← quantize net.amount
  money rounded net.currency

-- What the calculation of a result has added up.
record AddsUp (i : PayrollInput) (r : PayslipResult) : Type 0 where
  with_bonuses : Decimal
  gross : Decimal
  net : Decimal
  currency : r.currency ≡ i.currency
  bonuses : add r.base_pay r.bonuses_total ≡ ok with_bonuses
  reimbursements : add with_bonuses r.reimbursements_total ≡ ok gross
  deductions : subtract gross r.deductions_total ≡ ok net
  rounding : quantize net ≡ ok r.net_pay

-- A chain that returned has gone through each step.
bind-returned {ℓ κ μ} :
    {A : Type ℓ} {B : Type κ} {P : B → Type μ} (m : Result A) (f : A → Result B)
    → ((a : A) → m ≡ ok a → (b : B) → f a ≡ ok b → P b)
    → (b : B) → m >>= f ≡ ok b
    → P b
bind-returned (ok a) f h b e = h a refl b e
bind-returned (err x) f h b e = absurd (err≢ok e)

calculate_payslip-AddsUp :
    (i : PayrollInput) (r : PayslipResult) → calculate_payslip i ≡ ok r → AddsUp i r
unfolding calculate_payslip
calculate_payslip-AddsUp i = bind-returned (compute_base i) _ λ p _.
    bind-returned (add_lines bonus zero_decimal i.bonuses) _ λ b _.
      bind-returned (add_lines deduction zero_decimal i.deductions) _ λ d _.
        bind-returned (add_lines reimbursement zero_decimal i.reimbursements) _ λ m _.
          bind-returned (add p.0 b.0) _ λ s es. bind-returned (add s m.0) _ λ g eg.
            bind-returned (subtract g d.0) _ λ n en. bind-returned (quantize n) _ λ q eq r e.
              subst (AddsUp i) (ok-injective e) record {
                with_bonuses = s;
                gross = g;
                net = n;
                currency = refl;
                bonuses = es;
                reimbursements = eg;
                deductions = en;
                rounding = eq;
              }

same_currency :
    (x y : Decimal) (c : Text)
    → check_same_currency
        (record { amount = x; currency = c })
        (record { amount = y; currency = c })
      ≡ ok tt
unfolding check_same_currency
same_currency x y c = rw (text_eq_refl c)

-- The payslip of a calculation that returned shows amounts that add up: as money, base pay plus
-- bonuses plus reimbursements less deductions, rounded to cents, is its net pay, which is that of
-- the calculation and in the input's currency. For a currency that is not allowed, reading the net
-- pay as money raises ValueError, and so does adding up.
pub payslip_adds_up :
    (pk company : ℕ) (period : PayPeriod) (emp : Employee) (i : PayrollInput) (r : PayslipResult)
    → calculate_payslip i ≡ ok r
    → let p = payslip_row pk company period emp i r in
      (recomputed_net p ≡ net_pay_money p)
      × (net_pay_money p ≡ result_net_pay_money r)
      × (net_pay_money p ≡ (
          if is_member i.currency allowed_currencies
          then ok (record { amount = r.net_pay; currency = i.currency })
          else err value_error))
unfolding base_pay_money bonuses_money reimbursements_money deductions_money net_pay_money
    result_net_pay_money money add_money subtract_money
payslip_adds_up pk company period emp i r e =
    let a = calculate_payslip-AddsUp i r e in
    (
      elim (Bool-cases (is_member r.currency allowed_currencies)) [
        | inl h ↦ rw (
          h,
          same_currency r.base_pay r.bonuses_total r.currency,
          a.bonuses,
          h,
          same_currency a.with_bonuses r.reimbursements_total r.currency,
          a.reimbursements,
          h,
          same_currency a.gross r.deductions_total r.currency,
          a.deductions,
          h,
          a.rounding,
          h,
        )
        | inr h ↦ rw h
      ],
      refl,
      rw a.currency,
    )
