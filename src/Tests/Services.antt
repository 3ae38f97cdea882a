-- ===== src/Tests/Services.antt =====
-- services/payroll/calculator.py on a salary of 1000.00 with a bonus of 50.00 and a deduction of 25.00.
use payroll_software.Base.{◌≤◌, ◌*◌, ◌+◌, ◌^◌, ◌<◌, ◌≡◌, ◌≢◌, refl, arith, if◌then◌else◌, [], ◌∷◌}
use payroll_software.Base.Int.{
  ℤ, mag, negsuc, neg_part, pos_part, with_sign, pos, ◌+ℤ◌, ◌*ℤ◌, ◌-ℤ◌, neg,
}
use payroll_software.Base.Result.{ok, err, value_error}
use payroll_software.Domain.Decimal.{
  finite, half_up, precision, cents_exponent, to_cents, zero_decimal, add, subtract, quantize_cents,
  align, digits, fix, half_even,
}
use payroll_software.Services.Payroll.{
  quantize, PayslipResult, calculate_payslip, compute_base, fixed_base, add_lines, base, bonus,
  deduction,
}
use payroll_software.Services.Payroll.Exact.{Gross, salaried, base_text, rounded}
use payroll_software.Services.Payroll.Net.{IsExact, turnover, calculate_payslip-IsExact}
use payroll_software.Services.Payroll.Lines.{balance, calculate_payslip_balances}
use payroll_software.Services.Payroll.Errors.{IsSufficient, calculate_payslip-value_error}
use payroll_software.Services.Payroll.Nearest.{quantize_nearest}
use payroll_software.Base.Text.{text, text_eq, is_member}
use payroll_software.Domain.Money.{allowed_currencies}
use payroll_software.Apps.Payroll.Run.{payslip_row}
use payroll_software.Apps.Payroll.Amounts.{
  recomputed_net, net_pay_money, result_net_pay_money, payslip_adds_up,
}
use payroll_software.Tests.Data.{wage, cents, may, alice}

abbrev wage-Gross : Gross wage (pos 100000) cents_exponent
wage-Gross = salaried refl refl

wage-turnover : turnover wage (to_cents (pos 100000) cents_exponent) < 10 ^ precision
unfolding to_cents ◌+ℤ◌ ◌*ℤ◌
wage-turnover = omega arith

calculate_payslip-IsExact_example :
    (r : PayslipResult) × (calculate_payslip wage ≡ ok r)
    × IsExact wage (to_cents (pos 100000) cents_exponent) (base_text wage-Gross) r
calculate_payslip-IsExact_example =
    calculate_payslip-IsExact wage wage-Gross (tt, tt) (tt, tt) tt wage-turnover

calculate_payslip_balances_example :
    (r : PayslipResult) × (calculate_payslip wage ≡ ok r) × (balance r.lines ≡ rounded r.net_pay)
calculate_payslip_balances_example =
    calculate_payslip_balances wage wage-Gross (tt, tt) (tt, tt) tt wage-turnover

calculate_payslip-value_error_example :
    (¬ IsSufficient wage → calculate_payslip wage ≡ err value_error)
    × (IsSufficient wage → calculate_payslip wage ≢ err value_error)
calculate_payslip-value_error_example = calculate_payslip-value_error wage

eighth-small : mag (to_cents (pos 12345) (negsuc 2)) < 10 ^ precision
unfolding to_cents ◌+ℤ◌ ◌*ℤ◌ half_up with_sign
eighth-small = omega arith

-- 12.345 is rounded.
quantize_nearest_example :
    (r : ℤ) × (quantize (finite (pos 12345) (negsuc 2)) ≡ ok (finite r cents_exponent))
    × (2 * mag r * 10 ^ 1 ≤ 2 * 12345 + 10 ^ 1)
    × (2 * 12345 + 10 ^ 1 < 2 * mag r * 10 ^ 1 + 2 * 10 ^ 1)
    × ((neg_part (pos 12345) ≡ 0 → neg_part r ≡ 0) × (pos_part (pos 12345) ≡ 0 → pos_part r ≡ 0))
quantize_nearest_example = quantize_nearest (pos 12345) 0 eighth-small

abbrev wage_result : PayslipResult
wage_result = record {
  base_pay = cents 100000;
  bonuses_total = cents 5000;
  deductions_total = cents 2500;
  reimbursements_total = zero_decimal;
  net_pay = cents 102500;
  currency = text "PKR";
  lines =
      record { line_type = base; description = text "Fixed monthly salary"; amount = cents 100000 }
      ∷ record { line_type = bonus; description = text "Eid"; amount = cents 5000 }
      ∷ record { line_type = deduction; description = text "Loan"; amount = cents 2500 }
      ∷ [];
}

wage_pays : calculate_payslip wage ≡ ok wage_result
unfolding calculate_payslip compute_base text_eq fixed_base quantize quantize_cents add_lines add
    neg with_sign ◌*ℤ◌ ◌+ℤ◌ ◌-ℤ◌ align digits fix half_even half_up subtract to_cents
wage_pays = refl

payslip_adds_up_example :
    let p = payslip_row 7 1 may alice wage wage_result in
    (recomputed_net p ≡ net_pay_money p)
    × (net_pay_money p ≡ result_net_pay_money wage_result)
    × (net_pay_money p ≡ (
        if is_member wage.currency allowed_currencies
        then ok (record { amount = wage_result.net_pay; currency = wage.currency })
        else err value_error))
payslip_adds_up_example = payslip_adds_up 7 1 may alice wage wage_result wage_pays
