-- ===== src/Services/Payroll/Errors.antt =====
-- services/payroll/calculator.py: which inputs raise, and what.
use payroll_software.Base.{
  true, false, ◌≡◌, ◌≢◌, refl, List, [], ◌∷◌, Option, none, some, ◌⊎◌, inl, inr, arith, is_some,
  Bool-cases, zero, suc, not,
}
use payroll_software.Base.Int.{pos, negsuc, neg}
use payroll_software.Base.Text.{text_eq, text_eq→eq, Text}
use payroll_software.Base.Result.{Result, ok, err, value_error, ◌>>=◌}
use payroll_software.Domain.Decimal.{
  Decimal, finite, infinity, nan, snan, zero_decimal, add, subtract, multiply, quantize_cents,
}
use payroll_software.Services.Payroll.{
  CompensationInput, PayrollInput, LineType, fixed_basis, hourly_basis, unit_basis, bonus,
  deduction, reimbursement, quantize, fixed_base, rated_base, hourly_description, unit_description,
  compute_base, add_lines, calculate_payslip,
}

-- Raises no ValueError: it returns, or raises decimal's InvalidOperation.
abbrev NoValueError {ℓ} : {A : Type ℓ} → Result A → Type ℓ
NoValueError r = r ≢ err value_error

add-NoValueError : (a b : Decimal) → NoValueError (add a b)
unfolding add
add-NoValueError (finite c e) (finite d f) h = cc
add-NoValueError (infinity true) (infinity true) h = cc
add-NoValueError (infinity true) (infinity false) h = cc
add-NoValueError (infinity false) (infinity true) h = cc
add-NoValueError (infinity false) (infinity false) h = cc
add-NoValueError (infinity true) (finite d f) h = cc
add-NoValueError (infinity false) (finite d f) h = cc
add-NoValueError (infinity s) nan h = cc
add-NoValueError (infinity s) snan h = cc
add-NoValueError nan (infinity s) h = cc
add-NoValueError a b h = cc

subtract-NoValueError : (a b : Decimal) → NoValueError (subtract a b)
unfolding subtract
subtract-NoValueError a (finite d f) h = add-NoValueError a (finite (neg d) f) h
subtract-NoValueError a (infinity s) h = add-NoValueError a (infinity (not s)) h
subtract-NoValueError a nan h = add-NoValueError a nan h
subtract-NoValueError a snan h = add-NoValueError a snan h

multiply-NoValueError : (a b : Decimal) → NoValueError (multiply a b)
unfolding multiply
multiply-NoValueError (finite (pos zero) e) (infinity t) h = cc
multiply-NoValueError (finite (pos (suc c)) e) (infinity t) h = cc
multiply-NoValueError (finite (negsuc c) e) (infinity t) h = cc
multiply-NoValueError (infinity s) (finite (pos zero) f) h = cc
multiply-NoValueError (infinity s) (finite (pos (suc d)) f) h = cc
multiply-NoValueError (infinity s) (finite (negsuc d) f) h = cc
multiply-NoValueError nan (infinity t) h = cc
multiply-NoValueError a b h = cc

quantize-NoValueError : (a : Decimal) → NoValueError (quantize a)
unfolding quantize quantize_cents
quantize-NoValueError a h = ground arith

-- A chain of steps that raise no ValueError raises none.
bind-NoValueError {ℓ κ} :
    {A : Type ℓ} {B : Type κ} (m : Result A) (f : A → Result B)
    → NoValueError m
    → ((a : A) → NoValueError (f a))
    → NoValueError (m >>= f)
bind-NoValueError (ok a) f hm hf = hf a
bind-NoValueError (err e) f hm hf = λ h. hm (cc)

ok-NoValueError {ℓ} : {A : Type ℓ} (a : A) → NoValueError (ok a)
ok-NoValueError a h = cc

add_lines-NoValueError :
    (t : LineType) (total : Decimal) (xs : List CompensationInput)
    → NoValueError (add_lines t total xs)
unfolding add_lines
add_lines-NoValueError t total [] = ok-NoValueError (total, [])
add_lines-NoValueError t total (x ∷ xs) =
    bind-NoValueError (quantize x.amount) _ (quantize-NoValueError x.amount) λ amount.
      bind-NoValueError (add total amount) _ (add-NoValueError total amount) λ total'.
        bind-NoValueError (add_lines t total' xs) _ (add_lines-NoValueError t total' xs)
          λ p. ok-NoValueError _

-- All that follows the base pay.
after_base-NoValueError :
    (i : PayrollInput) → NoValueError (compute_base i) → NoValueError (calculate_payslip i)
unfolding calculate_payslip
after_base-NoValueError i h = bind-NoValueError (compute_base i) _ h λ p.
    bind-NoValueError (add_lines bonus zero_decimal i.bonuses) _
      (add_lines-NoValueError bonus zero_decimal i.bonuses)
      λ b.
        bind-NoValueError (add_lines deduction zero_decimal i.deductions) _
          (add_lines-NoValueError deduction zero_decimal i.deductions)
          λ d.
            bind-NoValueError (add_lines reimbursement zero_decimal i.reimbursements) _
              (add_lines-NoValueError reimbursement zero_decimal i.reimbursements)
              λ r. bind-NoValueError (add p.0 b.0) _ (add-NoValueError p.0 b.0) λ s.
                bind-NoValueError (add s r.0) _ (add-NoValueError s r.0) λ g.
                  bind-NoValueError (subtract g d.0) _ (subtract-NoValueError g d.0) λ n.
                    bind-NoValueError (quantize n) _ (quantize-NoValueError n)
                      λ q. ok-NoValueError _

-- The input has what its pay basis needs.
abbrev pub IsSufficient : PayrollInput → Type 0
IsSufficient i =
    ((i.pay_basis ≡ fixed_basis) × (is_some i.base_salary ≡ true))
    ⊎ ((i.pay_basis ≡ hourly_basis)
        × (is_some i.hourly_rate ≡ true)
        × (is_some i.hours_worked ≡ true))
    ⊎ ((i.pay_basis ≡ unit_basis)
        × (is_some i.unit_rate ≡ true)
        × (is_some i.units_processed ≡ true))

fixed_base-NoValueError : (o : Option Decimal) → is_some o ≡ true → NoValueError (fixed_base o)
unfolding fixed_base
fixed_base-NoValueError none e = cc
fixed_base-NoValueError (some d) e =
    bind-NoValueError (quantize d) _ (quantize-NoValueError d) λ q. ok-NoValueError _

rated_base-NoValueError :
    (r q : Option Decimal) (describe : Decimal → Text)
    → is_some r ≡ true
    → is_some q ≡ true
    → NoValueError (rated_base r q describe)
unfolding rated_base
rated_base-NoValueError none q describe e f = cc
rated_base-NoValueError (some r) none describe e f = cc
rated_base-NoValueError (some r) (some q) describe e f =
    bind-NoValueError (multiply r q) _ (multiply-NoValueError r q)
      λ p. bind-NoValueError (quantize p) _ (quantize-NoValueError p) λ q. ok-NoValueError _

compute_base-NoValueError : (i : PayrollInput) → IsSufficient i → NoValueError (compute_base i)
unfolding compute_base text_eq
compute_base-NoValueError i (inl (b, s)) = rw b (fixed_base-NoValueError i.base_salary s)
compute_base-NoValueError i (inr (inl (b, r, q))) =
    rw b (rated_base-NoValueError i.hourly_rate i.hours_worked (hourly_description i.currency) r q)
compute_base-NoValueError i (inr (inr (b, r, q))) =
    rw b (rated_base-NoValueError i.unit_rate i.units_processed (unit_description i.currency) r q)

fixed_base-missing : (o : Option Decimal) → ¬ (is_some o ≡ true) → fixed_base o ≡ err value_error
unfolding fixed_base
fixed_base-missing none h = refl
fixed_base-missing (some d) h = absurd (h refl)

rated_base-missing :
    (r q : Option Decimal) (describe : Decimal → Text)
    → ¬ ((is_some r ≡ true) × (is_some q ≡ true))
    → rated_base r q describe ≡ err value_error
unfolding rated_base
rated_base-missing none q describe h = refl
rated_base-missing (some r) none describe h = refl
rated_base-missing (some r) (some q) describe h = absurd (h (refl, refl))

compute_base-missing : (i : PayrollInput) → ¬ IsSufficient i → compute_base i ≡ err value_error
unfolding compute_base
compute_base-missing i h = elim (Bool-cases (text_eq i.pay_basis fixed_basis)) [
  | inl e ↦ rw e (fixed_base-missing i.base_salary λ s. h (inl (text_eq→eq _ _ e, s)))
  | inr e ↦ rw e (elim (Bool-cases (text_eq i.pay_basis hourly_basis)) [
    | inl f ↦ rw f (
        rated_base-missing i.hourly_rate i.hours_worked _
          λ s. h (inr (inl (text_eq→eq _ _ f, s.0, s.1))))
    | inr f ↦ rw f (elim (Bool-cases (text_eq i.pay_basis unit_basis)) [
      | inl g ↦ rw g (
          rated_base-missing i.unit_rate i.units_processed _
            λ s. h (inr (inr (text_eq→eq _ _ g, s.0, s.1))))
      | inr g ↦ rw g
    ])
  ])
]

-- The calculation raises ValueError for the inputs that lack the salary, or the rate or the
-- quantity, of their pay basis, and for an unknown basis; for every other input it does not raise
-- ValueError.
pub calculate_payslip-value_error :
    (i : PayrollInput)
    → (¬ IsSufficient i → calculate_payslip i ≡ err value_error)
      × (IsSufficient i → calculate_payslip i ≢ err value_error)
calculate_payslip-value_error i = (
  λ h. unfold calculate_payslip in rw (compute_base-missing i h),
  λ h. after_base-NoValueError i (compute_base-NoValueError i h),
)
