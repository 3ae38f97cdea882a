-- ===== src/Services/Payroll.antt =====
-- services/payroll/calculator.py: the pure computation of one payslip.
pub mod Errors
pub mod Nearest
pub mod Lines
pub mod Net
pub mod Exact
use payroll_software.Base.{
  ℕ, Bool, true, false, List, [], ◌∷◌, ◌++◌, Option, none, some, if◌then◌else◌,
}
use payroll_software.Base.Text.{Text, text, text_eq}
use payroll_software.Base.Result.{Result, ok, err, value_error, ◌>>=◌}
use payroll_software.Domain.Decimal.{Decimal, zero_decimal, add, subtract, multiply, quantize_cents}
use payroll_software.Domain.Decimal.Text.{str}

pub record CompensationInput : Type 0 where
  pub description : Text
  pub amount : Decimal

pub record PayrollInput : Type 0 where
  pub pay_basis : Text
  pub base_salary : Option Decimal
  pub hourly_rate : Option Decimal
  pub unit_rate : Option Decimal
  pub hours_worked : Option Decimal
  pub units_processed : Option Decimal
  pub bonuses : List CompensationInput
  pub deductions : List CompensationInput
  pub reimbursements : List CompensationInput
  pub currency : Text

-- The strings "base", "bonus", "deduction" and "reimbursement".
pub data LineType : Type 0 where
  base bonus deduction reimbursement : LineType

pub record PayslipLineResult : Type 0 where
  pub line_type : LineType
  pub description : Text
  pub amount : Decimal

pub record PayslipResult : Type 0 where
  pub base_pay : Decimal
  pub bonuses_total : Decimal
  pub deductions_total : Decimal
  pub reimbursements_total : Decimal
  pub net_pay : Decimal
  pub currency : Text
  pub lines : List PayslipLineResult

abbrev pub fixed_basis : Text
fixed_basis = text "fixed"

abbrev pub hourly_basis : Text
hourly_basis = text "hourly"

abbrev pub unit_basis : Text
unit_basis = text "unit"

-- `_quantize`
unfoldable pub quantize : Decimal → Result Decimal
quantize amount = quantize_cents amount

-- The branch of a fixed salary.
unfoldable pub fixed_base : Option Decimal → Result (Decimal × Text)
fixed_base none = err value_error
fixed_base (some salary) = do q ← quantize salary; ok (q, text "Fixed monthly salary")

-- The branches of a rate times a quantity, with the description that the quantity gives.
unfoldable pub rated_base :
    Option Decimal → Option Decimal → (Decimal → Text) → Result (Decimal × Text)
rated_base none quantity describe = err value_error
rated_base (some rate) none describe = err value_error
rated_base (some rate) (some quantity) describe = do
  pay ← multiply rate quantity
  q ← quantize pay
  ok (q, describe quantity)

unfoldable pub hourly_description : Text → Decimal → Text
hourly_description currency hours =
    text "Hourly pay (" ++ (str hours ++ (text " h @ " ++ (currency ++ text ")")))

unfoldable pub unit_description : Text → Decimal → Text
unit_description currency units =
    text "Unit-based pay (" ++ (str units ++ (text " units @ " ++ (currency ++ text ")")))

-- `_compute_base`
unfoldable pub compute_base : PayrollInput → Result (Decimal × Text)
compute_base i =
    if text_eq i.pay_basis fixed_basis
    then fixed_base i.base_salary
    else if text_eq i.pay_basis hourly_basis
    then rated_base i.hourly_rate i.hours_worked (hourly_description i.currency)
    else if text_eq i.pay_basis unit_basis
    then rated_base i.unit_rate i.units_processed (unit_description i.currency)
    else err value_error

-- The three loops over bonuses, deductions and reimbursements: the running total, and the lines
-- that the loop appends.
unfoldable pub add_lines :
    LineType → Decimal → List CompensationInput → Result (Decimal × List PayslipLineResult)
add_lines t total [] = ok (total, [])
add_lines t total (x ∷ xs) = do
  amount ← quantize x.amount
  total' ← add total amount
  (sum, rest) ← add_lines t total' xs
  ok (sum, record { line_type = t; description = x.description; amount = amount } ∷ rest)

unfoldable pub calculate_payslip : PayrollInput → Result PayslipResult
calculate_payslip i = do
  (base_pay, base_description) ← compute_base i
  (bonuses_total, bonus_lines) ← add_lines bonus zero_decimal i.bonuses
  (deductions_total, deduction_lines) ← add_lines deduction zero_decimal i.deductions
  (reimbursements_total, reimbursement_lines) ←
      add_lines reimbursement zero_decimal i.reimbursements
  with_bonuses ← add base_pay bonuses_total
  gross ← add with_bonuses reimbursements_total
  net ← subtract gross deductions_total
  net_pay ← quantize net
  ok (record {
    base_pay = base_pay;
    bonuses_total = bonuses_total;
    deductions_total = deductions_total;
    reimbursements_total = reimbursements_total;
    net_pay = net_pay;
    currency = i.currency;
    lines =
        record { line_type = base; description = base_description; amount = base_pay }
        ∷ (bonus_lines ++ (deduction_lines ++ reimbursement_lines));
  })
