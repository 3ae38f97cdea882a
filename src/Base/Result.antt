-- ===== src/Base/Result.antt =====
-- The exceptions that the program raises or lets through, and the results of code that may raise.
use payroll_software.Base.{◌≡◌, ap, ◌≢◌, Bool, true, false}

-- The classes that some handler of the program tells apart. `invalid_operation` is
-- `decimal.InvalidOperation`, an `ArithmeticError` and so no `ValueError`.
pub data Exn : Type 0 where
  value_error type_error invalid_operation integrity_error validation_error : Exn
  data_error permission_denied not_found runtime_error attribute_error improperly_configured
        invalid_token :
      Exn

pub data Result {ℓ} (A : Type ℓ) : Type ℓ where
  ok : A → Result A
  err : Exn → Result A

abbrev value_or {ℓ} : {A : Type ℓ} → A → Result A → A
value_or d (err e) = d
value_or d (ok a) = a

-- `if b: raise e`
abbrev pub raise_if : Bool → Exn → Result (Unit {0})
raise_if b e = elim b [ true ↦ err e | false ↦ ok tt ]

-- An exception skips what follows.
infixl 5 ◌>>=◌
abbrev pub ◌>>=◌ {ℓ κ} : {A : Type ℓ} {B : Type κ} → Result A → (A → Result B) → Result B
err e >>= next = err e
ok a >>= next = next a

pub ok-injective {ℓ} : {A : Type ℓ} {a b : A} → ok a ≡ ok b → a ≡ b
ok-injective {a} h = ap (value_or a) h

pub err≢ok {ℓ} : {A : Type ℓ} {e : Exn} {a : A} → err e ≢ ok a
err≢ok h = cc

infixl 5 ◌>>◌
abbrev pub ◌>>◌ {ℓ} : {B : Type ℓ} → Result (Unit {0}) → Result B → Result B
first >> rest = first >>= λ _. rest
