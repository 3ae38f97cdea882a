-- ===== src/Apps/Employees/Csv.antt =====
-- apps/employees/csv_import.py: the bulk import of employees.
pub mod Rows
pub mod Outcomes
use payroll_software.Base.{
  ℕ, ◌+◌, Bool, true, false, not, ◌&&◌, ◌||◌, Option, none, some, List, [], ◌∷◌, ◌++◌, any, select,
  length, leb, ◌==◌, if◌then◌else◌,
}
use payroll_software.Base.Text.{Text, text, text_eq, is_member}
use payroll_software.Base.Result.{
  Result, ok, err, Exn, value_error, attribute_error, data_error, ◌>>=◌, ◌>>◌, raise_if,
}
use payroll_software.Domain.Decimal.{Decimal}
use payroll_software.Services.Payroll.{fixed_basis, hourly_basis, unit_basis}
use payroll_software.Database.{Company, Employee, employee_model, advance, Db, Context}
use payroll_software.Apps.Audit.{audit_post_save}
use payroll_software.Apps.Tenants.{lower}
use payroll_software.Apps.Http.{
  Request, Response, to_login, forbidden, server_error, rendered, context_of, is_employee,
}

-- A row of `csv.DictReader`: a cell that a short row lacks is None, here none.
abbrev pub Row : Type 0
Row = List (Text × Option Text)

abbrev pub required_columns : List Text
required_columns = text "first_name" ∷ text "last_name" ∷ text "pay_basis" ∷ text "hire_date" ∷ []

-- A RowOutcome without its message.
pub record RowOutcome : Type 0 where
  pub line_number : ℕ
  pub ok_row : Bool
  pub employee_id : Option ℕ

-- `row.get(key, default)`
unfoldable pub cell : Text → Text → Row → Option Text
cell key default [] = some default
cell key default ((k, v) ∷ row) = if text_eq k key then v else cell key default row

-- `PayBasis.values`
abbrev pub pay_bases : List Text
pay_bases = fixed_basis ∷ hourly_basis ∷ unit_basis ∷ []

abbrev or_none : Text → Option Text
or_none s = if text_eq s [] then none else some s

abbrev pub or_empty : Option Text → Text
or_empty none = []
or_empty (some s) = s

abbrev pub required {ℓ} : {A : Type ℓ} → Option A → Result A
required none = err value_error
required (some a) = ok a

-- A text of at most `limit` characters that PostgreSQL can hold: it has no character NUL.
abbrev fits_column : ℕ → Text → Bool
fits_column limit s = leb (length s) limit && not (any (λ c. c == 0) s)

-- The columns of text fields of Employee that the import fills from a cell as it is; `create` does
-- not validate, so that the database refuses what does not fit. The encrypted columns have
-- no limit, and the keys of their cipher are taken to be configured.
unfoldable pub fits_columns : Employee → Bool
fits_columns e =
    fits_column 150 e.first_name
    && (fits_column 150 e.last_name && (fits_column 254 e.work_email && fits_column 32 e.phone))

-- The database takes the row, or refuses a text.
unfoldable pub within_columns : Employee → Result Employee
within_columns e = raise_if (not (fits_columns e)) data_error >> ok e

-- `str.strip`, `str.lower` of a text, `date.fromisoformat` and `Decimal` of a text; the last two are
-- none where Python raises.
module _ (strip lowered : Text → Text) (fromisoformat : Text → Option ℕ)
    (decimal : Text → Option Decimal) where
  -- `value.strip()`, of a value that may be None
  unfoldable pub stripped : Option Text → Result Text
  stripped none = err attribute_error
  stripped (some s) = ok (strip s)

  abbrev parsed {ℓ} : {A : Type ℓ} → (Text → Option A) → Text → Result (Option A)
  parsed parse s =
      if text_eq s []
      then ok none
      else elim (parse s) [ none ↦ err value_error | some a ↦ ok (some a) ]

  -- `_parse_date`
  unfoldable pub parse_date : Option Text → Result (Option ℕ)
  parse_date value = stripped value >>= parsed fromisoformat

  -- `_parse_decimal`
  unfoldable pub parse_decimal : Option Text → Result (Option Decimal)
  parse_decimal value = stripped value >>= parsed decimal

  -- `_parse_bool`
  unfoldable pub parse_bool : Option Text → Result Bool
  parse_bool value = do
    s ← stripped value
    ok (is_member (lowered s) (text "1" ∷ text "true" ∷ text "yes" ∷ text "y" ∷ text "t" ∷ []))

  -- `(row.get(key) or "").strip()`
  abbrev text_or_empty : Text → Row → Text
  text_or_empty key row = strip (or_empty (cell key [] row))

  -- The rate of the pay basis, which must be given.
  unfoldable pub rate_cell : Text → Text → Text → Row → Result (Option Decimal)
  rate_cell wanted basis key row =
      if text_eq basis wanted
      then (parse_decimal (cell key [] row) >>= λ v. required v >>= λ d. ok (some d))
      else ok none

  -- `_row_to_employee` with the next primary key, up to the insertion of the row by
  -- `Employee.objects.create`; what the database refuses raises DataError.
  unfoldable pub row_to_employee : ℕ → Company → Row → Result Employee
  row_to_employee pk company row = do
    let basis = lowered (text_or_empty (text "pay_basis") row)
    raise_if (not (is_member basis pay_bases)) value_error
    first_name ← stripped (cell (text "first_name") [] row)
    last_name ← stripped (cell (text "last_name") [] row)
    work_email ← stripped (cell (text "work_email") [] row)
    phone ← stripped (cell (text "phone") [] row)
    passport_expiry ← parse_date (cell (text "passport_expiry") [] row)
    visa_expiry ← parse_date (cell (text "visa_expiry") [] row)
    hire_date ← parse_date (cell (text "hire_date") [] row)
    is_active ← parse_bool (cell (text "is_active") (text "true") row)
    hired ← required hire_date
    raise_if (text_eq first_name [] || text_eq last_name []) value_error
    base_salary ← rate_cell fixed_basis basis (text "base_salary") row
    hourly_rate ← rate_cell hourly_basis basis (text "hourly_rate") row
    unit_rate ← rate_cell unit_basis basis (text "unit_rate") row
    within_columns (record {
      pk = pk;
      company = company.pk;
      first_name = first_name;
      last_name = last_name;
      work_email = work_email;
      phone = phone;
      national_id = or_none (text_or_empty (text "national_id") row);
      passport_number = or_none (text_or_empty (text "passport_number") row);
      passport_expiry = passport_expiry;
      visa_number = or_none (text_or_empty (text "visa_number") row);
      visa_expiry = visa_expiry;
      bank_account_number = or_none (text_or_empty (text "bank_account_number") row);
      pay_basis = basis;
      base_salary = base_salary;
      hourly_rate = hourly_rate;
      unit_rate = unit_rate;
      hire_date = hired;
      is_active = is_active;
      user = none;
    })

  -- The insertion by `Employee.objects.create`, of a row that fits, with its signal.
  unfoldable pub create_employee : Context → Employee → Db → Db
  create_employee ctx e db = audit_post_save ctx employee_model e.pk true (record db {
    employees = db.employees ++ e ∷ [];
    next_pk = advance employee_model (e.pk + 1) db.next_pk;
  })

  abbrev pub also : RowOutcome → Result (List RowOutcome) × Db → Result (List RowOutcome) × Db
  also o (rest, db) = (rest >>= λ l. ok (o ∷ l), db)

  -- One round of the loop, with what follows it: a ValueError is reported, and any other exception
  -- leaves the import, with the employees made so far.
  unfoldable pub import_row :
      Context
      → ℕ
      → ℕ
      → (Db → Result (List RowOutcome) × Db)
      → Result Employee
      → Db
      → Result (List RowOutcome) × Db
  import_row ctx line pk next (ok e) db =
      also (record { line_number = line; ok_row = true; employee_id = some pk })
        (next (create_employee ctx e db))
  import_row ctx line pk next (err value_error) db =
      also (record { line_number = line; ok_row = false; employee_id = none }) (next db)
  import_row ctx line pk next (err x) db = (err x, db)

  -- The loop over the rows from a line on.
  unfoldable pub import_rows : Context → Company → ℕ → List Row → Db → Result (List RowOutcome) × Db
  import_rows ctx company line [] db = (ok [], db)
  import_rows ctx company line (row ∷ rows) db =
      let pk = db.next_pk employee_model in
      import_row ctx line pk (import_rows ctx company (line + 1) rows)
        (row_to_employee pk company row) db

  -- `import_employees`, of the header and the rows that the reader yields.
  unfoldable pub import_employees :
      Context → Company → List Text → List Row → Db → Result (List RowOutcome) × Db
  import_employees ctx company headers rows db =
      if any (λ c. not (is_member c headers)) required_columns
      then (ok (record { line_number = 1; ok_row = false; employee_id = none } ∷ []), db)
      else import_rows ctx company 2 rows db

  -- `csv_import_view`; the file is none where none was uploaded. The page shows the outcomes.
  unfoldable pub csv_import_view :
      Request → Option (List Text × List Row) → Db → Response (Option (List RowOutcome)) × Db
  csv_import_view r file db = elim r.user [
    | none ↦ (to_login, db)
    | some u ↦ elim r.tenant [
      | none ↦ (forbidden, db)
      | some t ↦ elim (is_employee u) [
        | true ↦ (forbidden, db)
        | false ↦ elim r.is_post [
          | false ↦ (rendered none, db)
          | true ↦ elim file [
            | none ↦ (rendered none, db)
            | some (headers, rows) ↦
                let (outcomes, db') = import_employees (context_of r) t headers rows db in
                (elim outcomes [ ok l ↦ rendered (some l) | err x ↦ server_error ], db')
          ]
        ]
      ]
    ]
  ]
