-- ===== src/Apps/Employees/Csv/Outcomes.antt =====
-- apps/employees/csv_import.py: what an import adds, and what it reports.
use payroll_software.Base.{ℕ, ◌≡◌, ◌⊎◌, List, ◌++◌, All, select, length}
use payroll_software.Base.Text.{Text}
use payroll_software.Base.Result.{Result, ok, err, attribute_error, data_error}
use payroll_software.Domain.Decimal.{Decimal}
use payroll_software.Database.{Company, Employee, Db}
use payroll_software.Apps.Employees.Csv.{RowOutcome}
use payroll_software.Apps.Employees.Csv.Rows.{IsImported}

-- What an import reports: one outcome for each row, of which as many are successes as employees were
-- added; or AttributeError, or DataError.
abbrev pub Reports : Result (List RowOutcome) → ℕ → ℕ → Type 0
Reports (ok l) rows added = (length l ≡ rows) × (length (select (λ o. o.ok_row) l) ≡ added)
Reports (err x) rows added = (x ≡ attribute_error) ⊎ (x ≡ data_error)

-- The employees that an import added to the table, each as imported, and its report.
abbrev pub Imports : Company → ℕ → Db → Result (List RowOutcome) × Db → Type 0
Imports company rows db out =
    (new : List Employee) × (out.1.employees ≡ db.employees ++ new)
    × All (IsImported company) new
    × Reports out.0 rows (length new)
