-- ===== src/Services/Encryption/RoundTrip.antt =====
-- services/encryption: what is stored is read back, also after the keys were rotated.
use payroll_software.Base.{
  ℕ, ◌≡◌, refl, ◌⊎◌, inl, inr, Option, none, some, List, [], ◌∷◌, All, Member,
}
use payroll_software.Base.Text.{Text}
use payroll_software.Base.Result.{Result, ok, err, improperly_configured, ◌>>=◌}
use payroll_software.Domain.Decimal.{Decimal}
use payroll_software.Domain.Decimal.Text.{str}
use payroll_software.Domain.Decimal.Text.RoundTrip.{parse-str}
use payroll_software.Services.Encryption.{
  Value, decimal_value, other_value, as_decimal, decimal_to_python, fernets, build_multifernet,
  encrypt, decrypt, text_prep_value, text_from_db_value, decimal_prep_value, decimal_from_db_value,
}

as_decimal-str : (d : Decimal) → as_decimal (other_value (str d)) ≡ ok d
unfolding as_decimal
as_decimal-str d = rw (parse-str d, as_decimal) refl

to_python_ok :
    (v : Value) (d : Decimal) → decimal_to_python (some v) ≡ ok (some d) → as_decimal v ≡ ok d
unfolding decimal_to_python
to_python_ok v d h = inner (as_decimal v) d h
  where
    inner : (r : Result Decimal) (d : Decimal) → (r >>= λ d. ok (some d)) ≡ ok (some d) → r ≡ ok d
    inner (ok c) d h = cc
    inner (err x) d h = absurd (cc)

module _ {Fernet : Type 0} (fernet : Text → Option Fernet) (seal : List Fernet → ℕ → Text → Text)
    (unseal : List Fernet → Text → Option Text) where
  -- Every key of the setting is a Fernet key.
  abbrev pub Usable : List Text → Type 0
  Usable = All (λ key. (f : Fernet) × (fernet key ≡ some f))

  -- MultiFernet encrypts with the first of its keys, and decrypts what any of them has encrypted.
  abbrev pub Unseals : Type 0
  Unseals =
      (f : Fernet) (fs gs : List Fernet) (moment : ℕ) (s : Text)
      → Member f gs
      → unseal gs (seal (f ∷ fs) moment s) ≡ some s

  fernets-Usable :
      (keys : List Text)
      → Usable keys
      → (fs : List Fernet) × (fernets fernet seal unseal keys ≡ ok fs)
        × ((key : Text) (f : Fernet) → Member key keys → fernet key ≡ some f → Member f fs)
  unfolding fernets
  fernets-Usable [] h = ([], refl, λ key f m q. m)
  fernets-Usable (key ∷ keys) ((f, is_key), h) =
      let (fs, made, there) = fernets-Usable keys h in
      (
        f ∷ fs,
        rw (is_key, made, fernets) refl,
        λ k g m q. elim m [
          | inl same ↦ inl (found key k f g same is_key q)
          | inr n ↦ inr (there k g n q)
        ],
      )
    where
      found :
          (key k : Text) (f g : Fernet) → key ≡ k → fernet key ≡ some f → fernet k ≡ some g → f ≡ g
      found key k f g same p q = cc

  build-fernets :
      (key : Text) (keys : List Text)
      → Member key keys
      → build_multifernet fernet seal unseal (some keys) ≡ fernets fernet seal unseal keys
  unfolding build_multifernet
  build-fernets key [] m = absurd m
  build-fernets key (k ∷ keys) m = refl

  module _ (key : Text) (keys later : List Text) (moment : ℕ) (unseals : Unseals)
      (usable : Usable (key ∷ keys)) (usable' : Usable later) (kept : Member key later) where
    -- A text that was encrypted under the keys is decrypted under the later ones.
    sealed :
        (s : Text)
        → (t : Text) × (encrypt fernet seal unseal (some (key ∷ keys)) moment s ≡ ok t)
          × (decrypt fernet seal unseal (some later) t ≡ ok s)
    unfolding encrypt decrypt build_multifernet fernets
    sealed s =
        let (f, is_key) = usable.0 in
        let (fs, made, _) = fernets-Usable keys usable.1 in
        let (gs, made', there) = fernets-Usable later usable' in
        let opened = unseals f fs gs moment s (there key f kept is_key) in
        (
          seal (f ∷ fs) moment s,
          rw (is_key, made, fernets) refl,
          rw (build-fernets key later kept, made', opened) refl,
        )

    -- A value is stored in a decimal field, and read back, as the decimal that `to_python` makes of
    -- it, to the digit and the exponent. The keys at the time of storing are Fernet keys, and so are
    -- those at the time of reading, which still hold the key that was first; MultiFernet encrypts
    -- with the first key, and decrypts what any of its keys has encrypted.
    pub decimal_round_trip :
        (v : Value) (d : Decimal)
        → decimal_to_python (some v) ≡ ok (some d)
        → (t : Text) × (decimal_prep_value fernet seal unseal (some (key ∷ keys)) moment (some v)
            ≡ ok (some t))
          × (decimal_from_db_value fernet seal unseal (some later) (some t) ≡ ok (some d))
    unfolding decimal_prep_value decimal_from_db_value
    decimal_round_trip v d h =
        let (t, stored, read) = sealed (str d) in
        (t, rw (to_python_ok v d h, stored) refl, rw (read, as_decimal-str d) refl)

    -- The same for a text field, which gives back the text.
    text_round_trip :
        (s : Text)
        → (t : Text) × (text_prep_value fernet seal unseal (some (key ∷ keys)) moment (some s)
            ≡ ok (some t))
          × (text_from_db_value fernet seal unseal (some later) (some t) ≡ ok (some s))
    unfolding text_prep_value text_from_db_value
    text_round_trip s = let (t, stored, read) = sealed s in (t, rw stored refl, rw read refl)

  -- Without keys, be the setting absent or empty, no text and no decimal can be stored or read:
  -- both fields raise ImproperlyConfigured. None is stored and read as it is all the same.
  pub no_keys :
      (setting : Option (List Text)) (moment : ℕ) (s t : Text) (d : Decimal)
      → ((setting ≡ none) ⊎ (setting ≡ some []))
      → ((text_prep_value fernet seal unseal setting moment (some s) ≡ err improperly_configured)
          × (text_from_db_value fernet seal unseal setting (some t) ≡ err improperly_configured)
          × (decimal_prep_value fernet seal unseal setting moment (some (decimal_value d))
              ≡ err improperly_configured)
          × (decimal_from_db_value fernet seal unseal setting (some t) ≡ err improperly_configured))
        × ((text_prep_value fernet seal unseal setting moment none ≡ ok none)
            × (text_from_db_value fernet seal unseal setting none ≡ ok none)
            × (decimal_prep_value fernet seal unseal setting moment none ≡ ok none)
            × (decimal_from_db_value fernet seal unseal setting none ≡ ok none))
  unfolding text_prep_value text_from_db_value decimal_prep_value decimal_from_db_value encrypt
      decrypt build_multifernet as_decimal
  no_keys setting moment s t d (inl e) = rw e ((refl, refl, refl, refl), (refl, refl, refl, refl))
  no_keys setting moment s t d (inr e) = rw e ((refl, refl, refl, refl), (refl, refl, refl, refl))
