-- ===== src/Domain/Money.antt =====
-- domain/money.py: amounts with a currency.
use payroll_software.Base.{
  true, false, not, ◌≡◌, refl, List, [], ◌∷◌, ◌++◌, Bool-cases, inl, inr, if◌then◌else◌,
}
use payroll_software.Base.Text.{Text, text, text_eq, is_member}
use payroll_software.Base.Result.{Result, ok, err, value_error, ◌>>=◌, ◌>>◌, raise_if}
use payroll_software.Domain.Decimal.{Decimal, add, subtract, multiply, negate}

abbrev pub allowed_currencies : List Text
allowed_currencies = text "PKR" ∷ text "ETB" ∷ []

pub record Money : Type 0 where
  pub amount : Decimal
  pub currency : Text

-- `Money(amount, currency)`, of a decimal.
unfoldable pub money : Decimal → Text → Result Money
money amount currency =
    if is_member currency allowed_currencies
    then ok (record { amount = amount; currency = currency })
    else err value_error

-- `__repr__`, and `__str__`
unfoldable pub repr : Money → Text
repr m = text "<Money " ++ (m.currency ++ text " REDACTED>")

-- `_check_same_currency`
unfoldable pub check_same_currency : Money → Money → Result (Unit {0})
check_same_currency a b = raise_if (not (text_eq a.currency b.currency)) value_error

-- `__add__`
unfoldable pub add_money : Money → Money → Result Money
add_money a b = do check_same_currency a b; sum ← add a.amount b.amount; money sum a.currency

-- `__sub__`
unfoldable pub subtract_money : Money → Money → Result Money
subtract_money a b = do
  check_same_currency a b
  difference ← subtract a.amount b.amount
  money difference a.currency

-- `__mul__` and `__rmul__`, of a decimal factor.
unfoldable pub multiply_money : Money → Decimal → Result Money
multiply_money a factor = do product ← multiply a.amount factor; money product a.currency

-- `__neg__`
unfoldable pub negate_money : Money → Result Money
negate_money a = do opposite ← negate a.amount; money opposite a.currency

-- The currency is one of those allowed.
abbrev pub IsAllowed : Money → Type 0
IsAllowed m = is_member m.currency allowed_currencies ≡ true

-- What arithmetic on amounts gives in one currency.
abbrev pub in_currency : Text → Result Decimal → Result Money
in_currency c (ok d) = ok (record { amount = d; currency = c })
in_currency c (err e) = err e

allowed :
    (r : Result Decimal) (c : Text)
    → is_member c allowed_currencies ≡ true
    → (r >>= λ d. money d c) ≡ in_currency c r
unfolding money
allowed (ok d) c h = rw h
allowed (err e) c h = refl

same : (a b : Money) → text_eq a.currency b.currency ≡ true → check_same_currency a b ≡ ok tt
unfolding check_same_currency
same a b h = rw h

different :
    (a b : Money)
    → text_eq a.currency b.currency ≡ false
    → check_same_currency a b ≡ err value_error
unfolding check_same_currency
different a b h = rw h

-- Arithmetic on money of an allowed currency is that on the amounts, in the same currency, with the
-- exceptions of the amounts; adding or subtracting money of another currency raises ValueError.
pub money_arithmetic :
    (a b : Money) (factor : Decimal)
    → IsAllowed a
    → (add_money a b ≡ (
        if text_eq a.currency b.currency
        then in_currency a.currency (add a.amount b.amount)
        else err value_error))
      × (subtract_money a b ≡ (
          if text_eq a.currency b.currency
          then in_currency a.currency (subtract a.amount b.amount)
          else err value_error))
      × (multiply_money a factor ≡ in_currency a.currency (multiply a.amount factor))
      × (negate_money a ≡ in_currency a.currency (negate a.amount))
unfolding add_money subtract_money multiply_money negate_money
money_arithmetic a b factor h = elim (Bool-cases (text_eq a.currency b.currency)) [
  | inl e ↦
      rw (e, same a b e)
        (
          allowed (add a.amount b.amount) a.currency h,
          allowed (subtract a.amount b.amount) a.currency h,
          allowed (multiply a.amount factor) a.currency h,
          allowed (negate a.amount) a.currency h,
        )
  | inr e ↦
      rw (e, different a b e)
        (
          refl,
          refl,
          allowed (multiply a.amount factor) a.currency h,
          allowed (negate a.amount) a.currency h,
        )
]
