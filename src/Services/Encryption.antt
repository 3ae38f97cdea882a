-- ===== src/Services/Encryption.antt =====
-- services/encryption: the keys (fernet.py) and the two fields of encrypted columns (fields.py).
-- Form fields are left out.
pub mod RoundTrip
use payroll_software.Base.{ℕ, Option, none, some, List, [], ◌∷◌}
use payroll_software.Base.Text.{Text}
use payroll_software.Base.Result.{
  Result, ok, err, value_error, invalid_operation, improperly_configured, invalid_token, ◌>>=◌,
}
use payroll_software.Domain.Decimal.{Decimal}
use payroll_software.Domain.Decimal.Text.{str}
use payroll_software.Domain.Decimal.Text.Parse.{parse}

-- What may be assigned to a decimal field: a decimal, or another value, which counts by its `str`.
pub data Value : Type 0 where
  decimal_value : Decimal → Value
  other_value : Text → Value

-- `Decimal(str(value))`
unfoldable pub as_decimal : Value → Result Decimal
as_decimal (decimal_value d) = ok d
as_decimal (other_value s) = elim (parse s) [ none ↦ err invalid_operation | some d ↦ ok d ]

-- `EncryptedDecimalField.to_python`
unfoldable pub decimal_to_python : Option Value → Result (Option Decimal)
decimal_to_python none = ok none
decimal_to_python (some v) = as_decimal v >>= λ d. ok (some d)

-- The library `cryptography`. `fernet` is the class Fernet on a key, none where it raises
-- ValueError; `seal` and `unseal` are `encrypt` and `decrypt` of a MultiFernet over the keys, on texts
-- by `str.encode` and `bytes.decode`; a number stands for the time and the random bytes of a token,
-- and none for InvalidToken.
module _ {Fernet : Type 0} (fernet : Text → Option Fernet) (seal : List Fernet → ℕ → Text → Text)
    (unseal : List Fernet → Text → Option Text) where
  -- The loop of `build_multifernet`.
  unfoldable pub fernets : List Text → Result (List Fernet)
  fernets [] = ok []
  fernets (key ∷ keys) = elim (fernet key) [
    | none ↦ err value_error
    | some f ↦ fernets keys >>= λ fs. ok (f ∷ fs)
  ]

  -- `build_multifernet`, of the setting FIELD_ENCRYPTION_KEYS; it is none where there is no such
  -- setting.
  unfoldable pub build_multifernet : Option (List Text) → Result (List Fernet)
  build_multifernet none = err improperly_configured
  build_multifernet (some []) = err improperly_configured
  build_multifernet (some (key ∷ keys)) = fernets (key ∷ keys)

  -- `_encrypt`
  unfoldable pub encrypt : Option (List Text) → ℕ → Text → Result Text
  encrypt setting moment plaintext =
      build_multifernet setting >>= λ fs. ok (seal fs moment plaintext)

  -- `_decrypt`
  unfoldable pub decrypt : Option (List Text) → Text → Result Text
  decrypt setting ciphertext = build_multifernet setting >>= λ fs. elim (unseal fs ciphertext) [
    | none ↦ err invalid_token
    | some s ↦ ok s
  ]

  -- `EncryptedTextField.get_prep_value`
  unfoldable pub text_prep_value : Option (List Text) → ℕ → Option Text → Result (Option Text)
  text_prep_value setting moment none = ok none
  text_prep_value setting moment (some s) = encrypt setting moment s >>= λ t. ok (some t)

  -- `EncryptedTextField.from_db_value`
  unfoldable pub text_from_db_value : Option (List Text) → Option Text → Result (Option Text)
  text_from_db_value setting none = ok none
  text_from_db_value setting (some t) = decrypt setting t >>= λ s. ok (some s)

  -- `EncryptedDecimalField.get_prep_value`
  unfoldable pub decimal_prep_value : Option (List Text) → ℕ → Option Value → Result (Option Text)
  decimal_prep_value setting moment none = ok none
  decimal_prep_value setting moment (some v) =
      as_decimal v >>= λ d. encrypt setting moment (str d) >>= λ t. ok (some t)

  -- `EncryptedDecimalField.from_db_value`
  unfoldable pub decimal_from_db_value : Option (List Text) → Option Text → Result (Option Decimal)
  decimal_from_db_value setting none = ok none
  decimal_from_db_value setting (some t) =
      decrypt setting t >>= λ s. as_decimal (other_value s) >>= λ d. ok (some d)
