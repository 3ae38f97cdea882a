-- ===== src/Tests/Encryption.antt =====
-- The encrypted fields, with a cipher that puts the key and the moment in front of the text.
use payroll_software.Base.{
  ℕ, ◌≡◌, refl, inl, inr, Option, none, some, List, [], ◌∷◌, any, any-Member, ◌==◌, ==_refl,
  if◌then◌else◌,
}
use payroll_software.Base.Int.{pos, negsuc, ◌-ℤ◌}
use payroll_software.Base.Text.{Text, text}
use payroll_software.Base.Result.{ok}
use payroll_software.Domain.Decimal.{finite}
use payroll_software.Domain.Decimal.Text.Parse.{
  parse, unsigned, number, scan, fraction, assembled, exponent,
}
use payroll_software.Services.Encryption.{
  other_value, as_decimal, decimal_to_python, decimal_prep_value, decimal_from_db_value,
}
use payroll_software.Services.Encryption.RoundTrip.{Unseals, decimal_round_trip}

abbrev toy_fernet : Text → Option ℕ
toy_fernet [] = none
toy_fernet (k ∷ s) = some k

abbrev toy_seal : List ℕ → ℕ → Text → Text
toy_seal [] moment s = s
toy_seal (f ∷ fs) moment s = f ∷ (moment ∷ s)

abbrev toy_unseal : List ℕ → Text → Option Text
toy_unseal gs (f ∷ (moment ∷ s)) = if any (λ g. f == g) gs then some s else none
toy_unseal gs s = none

toy-Unseals : Unseals toy_fernet toy_seal toy_unseal
toy-Unseals f fs gs moment s m = rw (any-Member (λ g. f == g) f gs m (==_refl f)) refl

abbrev amount : Text
amount = text "12345.67"

amount_is :
    decimal_to_python (some (other_value amount)) ≡ ok (some (finite (pos 1234567) (negsuc 1)))
unfolding decimal_to_python as_decimal parse unsigned number scan fraction assembled exponent ◌-ℤ◌
amount_is = refl

-- Stored under one key, and read after a new key was put in front of it.
decimal_round_trip_example :
    (t : Text) × (decimal_prep_value toy_fernet toy_seal toy_unseal
        (some (text "A" ∷ []))
        7
        (some (other_value amount))
      ≡ ok (some t))
    × (decimal_from_db_value toy_fernet toy_seal toy_unseal
          (some (text "B" ∷ (text "A" ∷ [])))
          (some t)
        ≡ ok (some (finite (pos 1234567) (negsuc 1))))
decimal_round_trip_example =
    decimal_round_trip toy_fernet toy_seal toy_unseal (text "A") [] (text "B" ∷ (text "A" ∷ [])) 7
      toy-Unseals ((b'A', refl), tt) ((b'B', refl), ((b'A', refl), tt)) (inr (inl refl))
      (other_value amount) (finite (pos 1234567) (negsuc 1)) amount_is
