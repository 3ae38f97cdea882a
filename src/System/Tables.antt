-- ===== src/System/Tables.antt =====
-- The tables that belong to tenants, what it means that they are well formed, and what a request of
-- a tenant may do to them: the abstract specification of the views that change state in
-- apps/employees, apps/payroll and apps/compensation.
use payroll_software.Base.{
  ℕ, ◌≤◌, ◌+◌, Bool, true, false, not, ◌&&◌, ◌≡◌, ◌⊎◌, Option, none, some, List, [], ◌∷◌, ◌++◌, map,
  All, any, ◌==◌, select, Pairwise, Keyed,
}
use payroll_software.Database.{
  Company, Employee, employee_model, PayPeriod, pay_period_model, CompensationLine, Adjustments,
  Payslip, Db,
}
use payroll_software.Apps.Compensation.{Kind, append_line}

pub record Tables : Type 0 where
  pub employees : List Employee
  pub periods : List PayPeriod
  pub adjustments : Adjustments
  pub payslips : List Payslip
  pub next_employee : ℕ
  pub next_period : ℕ

abbrev pub tables : Db → Tables
tables db = record {
  employees = db.employees;
  periods = db.periods;
  adjustments = db.adjustments;
  payslips = db.payslips;
  next_employee = db.next_pk employee_model;
  next_period = db.next_pk pay_period_model;
}

-- The company has the employee; it has the period.
abbrev pub employs : List Employee → ℕ → ℕ → Bool
employs es company pk = any (λ e. e.pk == pk && e.company == company) es

abbrev pub covers : List PayPeriod → ℕ → ℕ → Bool
covers ps company pk = any (λ p. p.pk == pk && p.company == company) ps

-- A row of a company refers to an employee and a period of the same company.
abbrev pub Refers : List Employee → List PayPeriod → ℕ → ℕ → ℕ → Type 0
Refers es ps company employee period =
    (employs es company employee ≡ true) × (covers ps company period ≡ true)

-- Two payslips for one employee and one period.
abbrev pub same_slot : Payslip → Payslip → Bool
same_slot p q = p.employee == q.employee && p.period == q.period

-- Two periods of one company for one month.
abbrev pub same_month : PayPeriod → PayPeriod → Bool
same_month p q = p.company == q.company && (p.year == q.year && p.month == q.month)

-- The month of a period is one of the twelve.
abbrev pub IsMonth : PayPeriod → Type 0
IsMonth p = (1 ≤ p.month) × (p.month ≤ 12)

abbrev pub LinesRefer : List Employee → List PayPeriod → List CompensationLine → Type 0
LinesRefer es ps = All (λ l. Refers es ps l.company l.employee l.period)

abbrev pub PayslipsRefer : List Employee → List PayPeriod → List Payslip → Type 0
PayslipsRefer es ps = All (λ p. Refers es ps p.company p.employee p.period)

-- Every row that refers to an employee and a period.
pub record References (es : List Employee) (ps : List PayPeriod) (a : Adjustments)
    (rows : List Payslip) : Type 0 where
  pub bonuses : LinesRefer es ps a.bonuses
  pub deductions : LinesRefer es ps a.deductions
  pub reimbursements : LinesRefer es ps a.reimbursements
  pub payslips : PayslipsRefer es ps rows

-- Employees and periods have distinct primary keys, which the sequences have passed; every payslip
-- and every adjustment refers to an employee and a period of its own company; there is at most one
-- payslip for an employee and a period, and at most one period for a company and a month.
pub record WellFormed (s : Tables) : Type 0 where
  pub employees : Keyed (λ e. e.pk) s.next_employee s.employees
  pub periods : Keyed (λ p. p.pk) s.next_period s.periods
  pub references : References s.employees s.periods s.adjustments s.payslips
  pub slots : Pairwise same_slot s.payslips
  pub months : Pairwise same_month s.periods × All IsMonth s.periods

-- The tenant of the request is the company with this key.
abbrev pub Owns : Option Company → ℕ → Type 0
Owns none company = ⊥
Owns (some t) company = company ≡ t.pk

-- No row refers to the employee.
abbrev pub Unused : ℕ → Tables → Type 0
Unused pk s =
    (any (λ p. p.employee == pk) s.payslips ≡ false)
    × (any (λ l. l.employee == pk) s.adjustments.bonuses ≡ false)
    × (any (λ l. l.employee == pk) s.adjustments.deductions ≡ false)
    × (any (λ l. l.employee == pk) s.adjustments.reimbursements ≡ false)

-- An edit keeps the key and the company of each row, and changes rows of the tenant only.
abbrev pub Edits : Option Company → (Employee → Employee) → Employee → Type 0
Edits t f e = ((f e).pk ≡ e.pk) × ((f e).company ≡ e.company) × (Owns t e.company ⊎ (f e ≡ e))

abbrev pub Amends : Option Company → (PayPeriod → PayPeriod) → PayPeriod → Type 0
Amends t f p =
    ((f p).pk ≡ p.pk)
    × ((f p).company ≡ p.company)
    × (Owns t p.company ⊎ (f p ≡ p))
    × ((f p).year ≡ p.year)
    × ((f p).month ≡ p.month)

-- A payslip of a run: of the company and the period, for an employee of the company.
abbrev pub Slip : List Employee → ℕ → ℕ → Payslip → Type 0
Slip es company period p =
    (p.period ≡ period) × (p.company ≡ company) × (employs es company p.employee ≡ true)

-- One change by a request of the tenant.
pub data Change (t : Option Company) (s : Tables) : Tables → Type 0 where
  hire :
      (e : Employee)
      → e.pk ≡ s.next_employee
      → Owns t e.company
      → Change t s
          (record s { employees = s.employees ++ e ∷ []; next_employee = s.next_employee + 1 })
  edit :
      (f : Employee → Employee)
      → All (Edits t f) s.employees
      → Change t s (record s { employees = map f s.employees })
  dismiss :
      (pk : ℕ)
      → All (λ e. (e.pk == pk) ≡ true → Owns t e.company) s.employees
      → Unused pk s
      → Change t s (record s { employees = select (λ e. not (e.pk == pk)) s.employees })
  open_month :
      (p : PayPeriod)
      → p.pk ≡ s.next_period
      → Owns t p.company
      → IsMonth p
      → All (λ q. same_month q p ≡ false) s.periods
      → Change t s (record s { periods = s.periods ++ p ∷ []; next_period = s.next_period + 1 })
  amend :
      (f : PayPeriod → PayPeriod)
      → All (Amends t f) s.periods
      → Change t s (record s { periods = map f s.periods })
  adjust :
      (kind : Kind) (l : CompensationLine)
      → Owns t l.company
      → Refers s.employees s.periods l.company l.employee l.period
      → Change t s (record s { adjustments = append_line kind l s.adjustments })
  pay :
      (company period : ℕ) (ps : List Payslip)
      → Owns t company
      → covers s.periods company period ≡ true
      → All (Slip s.employees company period) ps
      → Pairwise same_slot ps
      → Change t s (record s { payslips = select (λ p. not (p.period == period)) s.payslips ++ ps })

-- Any number of changes by requests of one tenant.
pub data Changes (t : Option Company) (s : Tables) : Tables → Type 0 where
  none_yet : Changes t s s
  followed_by : {m n : Tables} → Changes t s m → Change t m n → Changes t s n

pub once : {t : Option Company} {s n : Tables} → Change t s n → Changes t s n
once c = followed_by none_yet c

pub Changes-trans :
    {t : Option Company} {s m n : Tables} → Changes t s m → Changes t m n → Changes t s n
Changes-trans h none_yet = h
Changes-trans h (followed_by k c) = followed_by (Changes-trans h k) c
