-- ===== src/Apps/Employees/Csv/Rows.antt =====
-- apps/employees/csv_import.py, `_row_to_employee`: what a row gives.
use payroll_software.Base.{
  length, ◌≤◌, ℕ, Bool, true, false, not, ◌||◌, ◌≡◌, refl, ◌⊎◌, inl, inr, Option, none, some, [],
  is_some, arith, Bool-cases, if◌then◌else◌,
}
use payroll_software.Base.Text.{Text, text, text_eq, is_member}
use payroll_software.Base.Result.{
  Result, ok, err, value_error, attribute_error, data_error, ◌>>=◌, raise_if,
}
use payroll_software.Domain.Decimal.{Decimal}
use payroll_software.Services.Payroll.{fixed_basis, hourly_basis, unit_basis}
use payroll_software.Database.{Company, Employee}
use payroll_software.Apps.Employees.{pay_rate}
use payroll_software.Apps.Employees.Csv.{
  Row, cell, pay_bases, required, or_empty, stripped, parse_date, parse_decimal, parse_bool,
  rate_cell, row_to_employee, fits_columns, within_columns,
}

-- The texts are no longer than their columns.
abbrev pub Fitting : Employee → Type 0
Fitting e =
    (length e.first_name ≤ 150)
    × (length e.last_name ≤ 150)
    × (length e.work_email ≤ 254)
    × (length e.phone ≤ 32)

fits_columns-Fitting : (e : Employee) → fits_columns e ≡ true → Fitting e
unfolding fits_columns
fits_columns-Fitting e h = (ground arith, ground arith, ground arith, ground arith)

-- What an imported employee has: the company, both names, texts that fit their columns, no account, and the rate of the pay basis.
abbrev pub IsImported : Company → Employee → Type 0
IsImported company e =
    (e.company ≡ company.pk)
    × ((text_eq e.first_name [] || text_eq e.last_name []) ≡ false)
    × Fitting e
    × (e.user ≡ none)
    × (is_some (pay_rate e) ≡ true)

-- An imported employee under the given key.
abbrev pub Numbered : ℕ → Company → Employee → Type 0
Numbered pk company e = (e.pk ≡ pk) × IsImported company e

-- A result with the property, or one of the three exceptions that a row may raise.
abbrev pub Yields : {A : Type 0} → (A → Type 0) → Result A → Type 0
Yields P (ok a) = P a
Yields P (err x) = (x ≡ value_error) ⊎ (x ≡ attribute_error) ⊎ (x ≡ data_error)

bind-Yields :
    {A B : Type 0} (Q : A → Type 0) (P : B → Type 0) (m : Result A) (f : A → Result B)
    → Yields Q m
    → ((a : A) → Q a → Yields P (f a))
    → Yields P (m >>= f)
bind-Yields Q P (ok a) f h k = k a h
bind-Yields Q P (err x) f h k = h

raise_if-Yields : (b : Bool) → Yields (λ _. b ≡ false) (raise_if b value_error)
raise_if-Yields true = inl refl
raise_if-Yields false = refl

rate_given :
    (e : Employee)
    → is_member e.pay_basis pay_bases ≡ true
    → (text_eq e.pay_basis fixed_basis ≡ true → is_some e.base_salary ≡ true)
    → (text_eq e.pay_basis hourly_basis ≡ true → is_some e.hourly_rate ≡ true)
    → (text_eq e.pay_basis unit_basis ≡ true → is_some e.unit_rate ≡ true)
    → is_some (pay_rate e) ≡ true
unfolding pay_rate
rate_given e h f w v = elim (Bool-cases (text_eq e.pay_basis fixed_basis)) [
  | inl p ↦ rw p (f p)
  | inr p ↦ elim (Bool-cases (text_eq e.pay_basis hourly_basis)) [
    | inl q ↦ rw (p, q) (w q)
    | inr q ↦ elim (Bool-cases (text_eq e.pay_basis unit_basis)) [
      | inl r ↦ rw (p, q, r) (v r)
      | inr r ↦ ground arith
    ]
  ]
]

within_columns-Yields :
    (pk : ℕ) (company : Company) (e : Employee)
    → e.pk ≡ pk
    → e.company ≡ company.pk
    → (text_eq e.first_name [] || text_eq e.last_name []) ≡ false
    → e.user ≡ none
    → is_some (pay_rate e) ≡ true
    → Yields (Numbered pk company) (within_columns e)
unfolding within_columns
within_columns-Yields pk company e key own named user rate = elim (Bool-cases (fits_columns e)) [
  | inl h ↦ rw h (key, (own, named, fits_columns-Fitting e h, user, rate))
  | inr h ↦ rw h (inr (inr refl))
]

module _ (strip lowered : Text → Text) (fromisoformat : Text → Option ℕ)
    (decimal : Text → Option Decimal) where
  abbrev Any : {A : Type 0} → A → Type 0
  Any a = Unit

  stripped-Yields : (o : Option Text) → Yields Any (stripped strip lowered fromisoformat decimal o)
  unfolding stripped
  stripped-Yields none = inr (inl refl)
  stripped-Yields (some s) = tt

  parsed-Yields :
      {A : Type 0} (s : Text) (o : Option A)
      → Yields Any (
          if text_eq s []
          then ok none
          else elim o [ none ↦ err value_error | some a ↦ ok (some a) ])
  parsed-Yields s none = elim (Bool-cases (text_eq s [])) [
    | inl h ↦ rw h tt
    | inr h ↦ rw h (inl refl)
  ]
  parsed-Yields s (some a) = elim (Bool-cases (text_eq s [])) [ inl h ↦ rw h tt | inr h ↦ rw h tt ]

  parse_date-Yields :
      (o : Option Text) → Yields Any (parse_date strip lowered fromisoformat decimal o)
  unfolding parse_date
  parse_date-Yields o =
      bind-Yields Any Any (stripped strip lowered fromisoformat decimal o) _ (stripped-Yields o)
        λ s _. parsed-Yields s (fromisoformat s)

  parse_decimal-Yields :
      (o : Option Text) → Yields Any (parse_decimal strip lowered fromisoformat decimal o)
  unfolding parse_decimal
  parse_decimal-Yields o =
      bind-Yields Any Any (stripped strip lowered fromisoformat decimal o) _ (stripped-Yields o)
        λ s _. parsed-Yields s (decimal s)

  parse_bool-Yields :
      (o : Option Text) → Yields Any (parse_bool strip lowered fromisoformat decimal o)
  unfolding parse_bool
  parse_bool-Yields o =
      bind-Yields Any Any (stripped strip lowered fromisoformat decimal o) _ (stripped-Yields o)
        λ s _. tt

  required-Yields : {A : Type 0} (o : Option A) → Yields Any (required o)
  required-Yields none = inl refl
  required-Yields (some a) = tt

  -- The rate that the basis wants is there.
  abbrev Wanted : Text → Text → Option Decimal → Type 0
  Wanted wanted basis v = text_eq basis wanted ≡ true → is_some v ≡ true

  rate_cell-Yields :
      (wanted basis key : Text) (row : Row)
      → Yields
          (Wanted wanted basis)
          (rate_cell strip lowered fromisoformat decimal wanted basis key row)
  unfolding rate_cell
  rate_cell-Yields wanted basis key row = elim (Bool-cases (text_eq basis wanted)) [
    | inl h ↦ rw h (
        bind-Yields Any (Wanted wanted basis)
          (parse_decimal strip lowered fromisoformat decimal (cell key [] row)) _
          (parse_decimal-Yields (cell key [] row))
          λ v _.
            bind-Yields Any (Wanted wanted basis) (required v) _ (required-Yields v) λ d _ _. refl)
    | inr h ↦ rw h (λ e. cc)
  ]

  -- The rest of a row's chain of steps.
  step :
      (pk : ℕ) (company : Company) {A : Type 0} (Q : A → Type 0) (m : Result A)
      (f : A → Result Employee)
      → Yields Q m
      → ((a : A) → Q a → Yields (Numbered pk company) (f a))
      → Yields (Numbered pk company) (m >>= f)
  step pk company Q m f h k = bind-Yields Q (Numbered pk company) m f h k

  -- A row gives an employee as imported, or raises ValueError, AttributeError or DataError.
  pub row_to_employee-Yields :
      (pk : ℕ) (company : Company) (row : Row)
      → Yields
          (Numbered pk company)
          (row_to_employee strip lowered fromisoformat decimal pk company row)
  unfolding row_to_employee
  row_to_employee-Yields pk company row =
      let basis = lowered (strip (or_empty (cell (text "pay_basis") [] row))) in
      step pk company (λ _. not (is_member basis pay_bases) ≡ false)
        (raise_if (not (is_member basis pay_bases)) value_error) _
        (raise_if-Yields (not (is_member basis pay_bases)))
        λ _ known.
          step pk company (Any)
            (stripped strip lowered fromisoformat decimal (cell (text "first_name") [] row)) _
            (stripped-Yields (cell (text "first_name") [] row))
            λ first_name _.
              step pk company (Any)
                (stripped strip lowered fromisoformat decimal (cell (text "last_name") [] row)) _
                (stripped-Yields (cell (text "last_name") [] row))
                λ last_name _.
                  step pk company (Any)
                    (stripped strip lowered fromisoformat decimal (cell (text "work_email") [] row))
                    _ (stripped-Yields (cell (text "work_email") [] row))
                    λ work_email _.
                      step pk company (Any)
                        (stripped strip lowered fromisoformat decimal (cell (text "phone") [] row))
                        _ (stripped-Yields (cell (text "phone") [] row))
                        λ phone _.
                          step pk company (Any)
                            (parse_date strip lowered fromisoformat decimal
                              (cell (text "passport_expiry") [] row))
                            _ (parse_date-Yields (cell (text "passport_expiry") [] row))
                            λ passport_expiry _.
                              step pk company (Any)
                                (parse_date strip lowered fromisoformat decimal
                                  (cell (text "visa_expiry") [] row))
                                _ (parse_date-Yields (cell (text "visa_expiry") [] row))
                                λ visa_expiry _.
                                  step pk company (Any)
                                    (parse_date strip lowered fromisoformat decimal
                                      (cell (text "hire_date") [] row))
                                    _ (parse_date-Yields (cell (text "hire_date") [] row))
                                    λ hire_date _.
                                      step pk company (Any)
                                        (parse_bool strip lowered fromisoformat decimal
                                          (cell (text "is_active") (text "true") row))
                                        _
                                        (parse_bool-Yields
                                          (cell (text "is_active") (text "true") row))
                                        λ is_active _.
                                          step pk company (Any) (required hire_date) _
                                            (required-Yields hire_date)
                                            λ hired _.
                                              step pk company
                                                (λ _.
                                                  (text_eq first_name [] || text_eq last_name [])
                                                  ≡ false)
                                                (raise_if
                                                  (text_eq first_name [] || text_eq last_name [])
                                                  value_error)
                                                _
                                                (raise_if-Yields
                                                  (text_eq first_name [] || text_eq last_name []))
                                                λ _ named.
                                                  step pk company (Wanted fixed_basis basis)
                                                    (rate_cell strip lowered fromisoformat decimal
                                                      fixed_basis basis (text "base_salary") row)
                                                    _
                                                    (rate_cell-Yields fixed_basis basis
                                                      (text "base_salary") row)
                                                    λ base_salary s.
                                                      step pk company (Wanted hourly_basis basis)
                                                        (rate_cell strip lowered fromisoformat
                                                          decimal hourly_basis basis
                                                          (text "hourly_rate") row)
                                                        _
                                                        (rate_cell-Yields hourly_basis basis
                                                          (text "hourly_rate") row)
                                                        λ hourly_rate h.
                                                          step pk company (Wanted unit_basis basis)
                                                            (rate_cell strip lowered fromisoformat
                                                            decimal unit_basis basis
                                                            (text "unit_rate") row)
                                                            _
                                                            (rate_cell-Yields unit_basis basis
                                                            (text "unit_rate") row)
                                                            λ unit_rate u.
                                                            within_columns-Yields pk company _ refl
                                                            refl named refl
                                                            (rate_given _ (ground arith) s h u)
