-- ===== src/Services/Payroll/Net.antt =====
-- services/payroll/calculator.py, `calculate_payslip`: totals, net pay and lines of a payslip.
use payroll_software.Base.{ℕ, ◌+◌, ◌^◌, ◌≤◌, ◌<◌, ◌≡◌, refl, List, ◌∷◌, ◌++◌, inl, arith}
use payroll_software.Base.Int.{
  ℤ, mag, ◌+ℤ◌, ◌-ℤ◌, sum_ℤ, sum_mag, mag-+ℤ-le, mag--ℤ-le, mag-sum_ℤ-le,
}
use payroll_software.Base.Text.{Text}
use payroll_software.Base.Result.{ok}
use payroll_software.Domain.Decimal.{Decimal, finite, precision, cents_exponent, to_cents}
use payroll_software.Domain.Decimal.Cents.{IsCents, add-IsCents, subtract-IsCents, quantize-IsCents}
use payroll_software.Services.Payroll.{
  PayrollInput, PayslipLineResult, PayslipResult, base, bonus, deduction, reimbursement, quantize,
  calculate_payslip,
}
use payroll_software.Services.Payroll.Exact.{
  AllFinite, Gross, base_text, amounts, exact_lines, compute_base-exact, add_lines_from_zero,
}

-- The net pay in cents: the sum of what is paid less the sum of what is deducted.
abbrev pub exact_net : PayrollInput → ℤ → ℤ
exact_net i b =
    b
    +ℤ sum_ℤ (amounts i.bonuses)
    +ℤ sum_ℤ (amounts i.reimbursements)
    -ℤ sum_ℤ (amounts i.deductions)

-- All the amounts of an input, in cents, taken as positive.
abbrev pub turnover : PayrollInput → ℤ → ℕ
turnover i b =
    mag b
    + sum_mag (amounts i.bonuses)
    + sum_mag (amounts i.reimbursements)
    + sum_mag (amounts i.deductions)

-- The line of the base pay, then those of the bonuses, the deductions and the reimbursements.
abbrev pub itemised : PayrollInput → ℤ → Text → List PayslipLineResult
itemised i b base_description =
    record { line_type = base; description = base_description; amount = finite b cents_exponent }
    ∷ (exact_lines bonus i.bonuses
        ++ (exact_lines deduction i.deductions ++ exact_lines reimbursement i.reimbursements))

-- A payslip over `b` cents of base pay with the given totals.
abbrev exact_payslip : PayrollInput → ℤ → Text → Decimal → Decimal → Decimal → PayslipResult
exact_payslip i b base_description bonuses deductions reimbursements = record {
  base_pay = finite b cents_exponent;
  bonuses_total = bonuses;
  deductions_total = deductions;
  reimbursements_total = reimbursements;
  net_pay = finite (exact_net i b) cents_exponent;
  currency = i.currency;
  lines = itemised i b base_description;
}

-- The payslip that the exact amounts give, with `b` cents of base pay.
pub record IsExact (i : PayrollInput) (b : ℤ) (base_description : Text) (r : PayslipResult)
    : Type 0 where
  pub base_pay : r.base_pay ≡ finite b cents_exponent
  pub bonuses : IsCents (sum_ℤ (amounts i.bonuses)) r.bonuses_total
  pub deductions : IsCents (sum_ℤ (amounts i.deductions)) r.deductions_total
  pub reimbursements : IsCents (sum_ℤ (amounts i.reimbursements)) r.reimbursements_total
  pub net_pay : r.net_pay ≡ finite (exact_net i b) cents_exponent
  pub currency : r.currency ≡ i.currency
  pub lines : r.lines ≡ itemised i b base_description

-- Where the pay (a salary, or a rate times a quantity with a product of at most 28 digits) and
-- every adjustment are finite and their magnitudes, rounded to cents, add up to less than 10^28
-- cents, the calculation returns a payslip: the base pay is the exact pay rounded, each total is
-- the exact sum of its rounded amounts, the net pay is base plus bonuses plus reimbursements less
-- deductions to the cent, the currency is the input's, and there is one line for the base pay and
-- one for each adjustment, in the input's order.
pub calculate_payslip-IsExact :
    (i : PayrollInput) {c e : ℤ} (g : Gross i c e)
    → AllFinite i.bonuses
    → AllFinite i.deductions
    → AllFinite i.reimbursements
    → turnover i (to_cents c e) < 10 ^ precision
    → (r : PayslipResult) × (calculate_payslip i ≡ ok r) × IsExact i (to_cents c e) (base_text g) r
unfolding calculate_payslip quantize
calculate_payslip-IsExact i {c = c} {e = e} g fb fd fr h =
    let b = to_cents c e in
    let vb = sum_ℤ (amounts i.bonuses) in
    let vd = sum_ℤ (amounts i.deductions) in
    let vr = sum_ℤ (amounts i.reimbursements) in
    let hb : mag vb ≤ sum_mag (amounts i.bonuses) = mag-sum_ℤ-le (amounts i.bonuses) in
    let hd : mag vd ≤ sum_mag (amounts i.deductions) = mag-sum_ℤ-le (amounts i.deductions) in
    let hr : mag vr ≤ sum_mag (amounts i.reimbursements) =
      mag-sum_ℤ-le (amounts i.reimbursements) in
    let h1 : mag (b +ℤ vb) ≤ mag b + mag vb = mag-+ℤ-le b vb in
    let h2 : mag (b +ℤ vb +ℤ vr) ≤ mag (b +ℤ vb) + mag vr = mag-+ℤ-le (b +ℤ vb) vr in
    let h3 : mag (b +ℤ vb +ℤ vr -ℤ vd) ≤ mag (b +ℤ vb +ℤ vr) + mag vd =
      mag--ℤ-le (b +ℤ vb +ℤ vr) vd in
    let (db, eb, pb) = add_lines_from_zero bonus i.bonuses fb (omega arith) in
    let (dd, ed, pd) = add_lines_from_zero deduction i.deductions fd (omega arith) in
    let (dr, er, pr) = add_lines_from_zero reimbursement i.reimbursements fr (omega arith) in
    let (s1, e1, p1) = add-IsCents b vb (finite b cents_exponent) db (inl refl) pb (omega arith) in
    let (s2, e2, p2) = add-IsCents (b +ℤ vb) vr s1 dr p1 pr (omega arith) in
    let (s3, e3, p3) = subtract-IsCents (b +ℤ vb +ℤ vr) vd s2 dd p2 pd (omega arith) in
    let e4 = quantize-IsCents (b +ℤ vb +ℤ vr -ℤ vd) s3 p3 (omega arith) in
    (
      exact_payslip i b (base_text g) db dd dr,
      rw (compute_base-exact i g (omega arith), eb, ed, er, e1, e2, e3, e4),
      record {
        base_pay = refl;
        bonuses = pb;
        deductions = pd;
        reimbursements = pr;
        net_pay = refl;
        currency = refl;
        lines = refl;
      },
    )
