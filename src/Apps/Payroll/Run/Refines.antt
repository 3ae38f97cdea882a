-- ===== src/Apps/Payroll/Run/Refines.antt =====
-- apps/payroll/services.py: what a payroll run does to the database, against what is due.
use payroll_software.Base.{
  ℕ, Bool, true, false, not, ◌&&◌, ◌≡◌, refl, ap, ◌∙◌, List, [], ◌∷◌, ◌++◌, map, arith, All, ◌==◌,
  some, if◌then◌else◌, select, Bool-cases, inl, inr, All-select,
}
use payroll_software.Base.Result.{Result, ok, err}
use payroll_software.Domain.Decimal.{Decimal}
use payroll_software.Database.{Company, Employee, PayPeriod, Payslip, Db, Context}
use payroll_software.Apps.Payroll.Run.{
  insert_by, order_by, has_payslip, payroll_input, delete_payslips, atomic, active_employees,
  company_of, run_for_company, run_payroll_for_period,
}
use payroll_software.Apps.Payroll.Run.Due.{unkeyed, due, Distinct, Fresh, Kept, Pays}
use payroll_software.Apps.Payroll.Run.Loop.{Kept-trans, pay_all-Pays}

-- Sorting keeps what holds of every element.
module _ {ℓ κ} {A : Type ℓ} (P : A → Type κ) (before : A → A → Bool) where
  All-if_append : (b : Bool) (xs ys : List A) → All P xs → All P ys → All P (if b then xs else ys)
  All-if_append true xs ys hx hy = hx
  All-if_append false xs ys hx hy = hy

  pub All-insert_by : (a : A) (xs : List A) → P a → All P xs → All P (insert_by before a xs)
  unfolding insert_by
  All-insert_by a [] p h = (p, tt)
  All-insert_by a (b ∷ xs) p h =
      All-if_append (before a b) (a ∷ (b ∷ xs)) (b ∷ insert_by before a xs) (p, h)
        (h.0, All-insert_by a xs p h.1)

  pub All-order_by : (xs : List A) → All P xs → All P (order_by before xs)
  unfolding order_by
  All-order_by [] h = tt
  All-order_by (x ∷ xs) h = All-insert_by x (order_by before xs) h.0 (All-order_by xs h.1)

module _ (before : Employee → Employee → Bool) where
  pk_ne_sym : (e f : Employee) → (e.pk == f.pk) ≡ false → (f.pk == e.pk) ≡ false
  pk_ne_sym e f h = ground arith

  if_Distinct :
      (b : Bool) (xs ys : List Employee)
      → Distinct xs
      → Distinct ys
      → Distinct (if b then xs else ys)
  if_Distinct true xs ys hx hy = hx
  if_Distinct false xs ys hx hy = hy

  Distinct-insert_by :
      (e : Employee) (es : List Employee)
      → All (λ f. (e.pk == f.pk) ≡ false) es
      → Distinct es
      → Distinct (insert_by before e es)
  unfolding insert_by
  Distinct-insert_by e [] ne d = (tt, tt)
  Distinct-insert_by e (f ∷ es) ne d =
      if_Distinct (before e f) (e ∷ (f ∷ es)) (f ∷ insert_by before e es) (ne, d)
        (
          All-insert_by (λ g. (f.pk == g.pk) ≡ false) before e es (pk_ne_sym e f ne.0) d.0,
          Distinct-insert_by e es ne.1 d.1,
        )

  Distinct-order_by : (es : List Employee) → Distinct es → Distinct (order_by before es)
  unfolding order_by
  Distinct-order_by [] d = tt
  Distinct-order_by (e ∷ es) d =
      Distinct-insert_by e (order_by before es)
        (All-order_by (λ f. (e.pk == f.pk) ≡ false) before es d.0) (Distinct-order_by es d.1)

Distinct-select : (p : Employee → Bool) (es : List Employee) → Distinct es → Distinct (select p es)
Distinct-select p [] d = tt
Distinct-select p (e ∷ es) d = elim (Bool-cases (p e)) [
  | inl h ↦ rw h (All-select (λ f. (e.pk == f.pk) ≡ false) p es d.0, Distinct-select p es d.1)
  | inr h ↦ rw h (Distinct-select p es d.1)
]

pub active_employees-Distinct :
    (before : Employee → Employee → Bool) (company : ℕ) (es : List Employee)
    → Distinct es
    → Distinct (active_employees before company es)
unfolding active_employees
active_employees-Distinct before company es d =
    Distinct-order_by before (select (λ e. e.company == company && e.is_active) es)
      (Distinct-select (λ e. e.company == company && e.is_active) es d)

has_payslip-cleared :
    (emp period : ℕ) (rows : List Payslip)
    → has_payslip emp period (select (λ p. not (p.period == period)) rows) ≡ false
has_payslip-cleared emp period [] = refl
has_payslip-cleared emp period (p ∷ rows) = ground (arith, has_payslip-cleared emp period rows)

Fresh-cleared :
    (period : ℕ) (rows : List Payslip) (es : List Employee)
    → Fresh period (select (λ p. not (p.period == period)) rows) es
Fresh-cleared period rows [] = tt
Fresh-cleared period rows (e ∷ es) =
    (has_payslip-cleared e.pk period rows, Fresh-cleared period rows es)

-- The payslips of the other periods.
abbrev pub others : PayPeriod → List Payslip → List Payslip
others period = select (λ p. not (p.period == period.pk))

-- What a run for a company owes: its active employees, with their hours, units and adjustments.
abbrev pub owed :
    (Employee → Employee → Bool)
    → PayPeriod
    → List (ℕ × Decimal)
    → List (ℕ × Decimal)
    → Company
    → Db
    → Result (List Payslip)
owed before period hours units company db =
    due company.pk period (payroll_input company.currency period hours units db.adjustments)
      (active_employees before company.pk db.employees)

-- How a run ends from `db`, given what is owed. An exception leaves the database as it was. Else the
-- payslips of the period are those owed, but for their keys, in place of the former ones; those of
-- other periods stay, and so do companies, users, employees, periods and adjustments, and the next
-- keys of employees and periods.
abbrev pub Settles : PayPeriod → Db → Result (List Payslip) → Result (List Payslip) × Db → Type 0
Settles period db (err x) out = out ≡ (err x, db)
Settles period db (ok rows) out =
    (ps : List Payslip) × (out.0 ≡ ok ps)
    × (map unkeyed ps ≡ rows)
    × (out.1.payslips ≡ others period db.payslips ++ ps)
    × Kept db out.1

atomic-ok :
    (body : Db → Result (List Payslip) × Db) (db : Db) {ps : List Payslip}
    → (body db).0 ≡ ok ps
    → atomic body db ≡ (ok ps, (body db).1)
atomic-ok body db returned = rw (returned, atomic)

atomic-Settles :
    (period : PayPeriod) (db cleared : Db) (rows : Result (List Payslip))
    (body : Db → Result (List Payslip) × Db)
    → cleared.payslips ≡ others period db.payslips
    → Kept db cleared
    → Pays cleared rows (body db)
    → Settles period db rows (atomic body db)
atomic-Settles period db cleared (err x) body others_stay kept h = rw (h, atomic)
atomic-Settles period db cleared (ok rows) body others_stay kept (ps, returned, same, appended, k) =
    rw (atomic-ok body db returned)
      (ps, refl, same, appended ∙ ap (λ (l : List Payslip). l ++ ps) others_stay, Kept-trans kept k)

module _ (before : Employee → Employee → Bool) (ctx : Context) (period : PayPeriod) where
  delete_payslips-Kept : (db : Db) → Kept db (delete_payslips ctx period db)
  unfolding delete_payslips
  delete_payslips-Kept db = record {
    companies = refl;
    users = refl;
    employees = refl;
    periods = refl;
    adjustments = refl;
    next_employee = refl;
    next_period = refl;
  }

  run_for_company-Pays :
      (hours units : List (ℕ × Decimal)) (company : Company) (db : Db)
      → Distinct db.employees
      → Pays
          (delete_payslips ctx period db)
          (owed before period hours units company db)
          (run_for_company before ctx period hours units company db)
  unfolding run_for_company delete_payslips
  run_for_company-Pays hours units company db d =
      pay_all-Pays ctx company.pk period (payroll_input company.currency period hours units)
        (active_employees before company.pk db.employees) (delete_payslips ctx period db)
        (active_employees-Distinct before company.pk db.employees d)
        (Fresh-cleared period.pk db.payslips (active_employees before company.pk db.employees))

  run-atomic :
      (hours units : List (ℕ × Decimal)) {company : Company} (db : Db)
      → company_of period db ≡ some company
      → run_payroll_for_period before ctx period hours units db
        ≡ atomic (run_for_company before ctx period hours units company) db
  unfolding run_payroll_for_period
  run-atomic hours units db found = rw (found, run_payroll_for_period)

  -- Where the employees have distinct primary keys, a run for a period of a known company settles
  -- what is owed. If what is owed is an exception, the run raises it and the database is as it
  -- was. If it is a list of payslips, the run returns them, but for their keys, and they stand in
  -- the table after the payslips of the other periods and in place of the former ones of the
  -- period; companies, users, employees, periods and adjustments stay, and so do the next keys of
  -- employees and periods.
  pub run_payroll_for_period-Settles :
      (hours units : List (ℕ × Decimal)) {company : Company} (db : Db)
      → company_of period db ≡ some company
      → Distinct db.employees
      → Settles period db
          (owed before period hours units company db)
          (run_payroll_for_period before ctx period hours units db)
  run_payroll_for_period-Settles hours units {company} db found d =
      rw (run-atomic hours units db found) (
        atomic-Settles period db (delete_payslips ctx period db)
          (owed before period hours units company db)
          (run_for_company before ctx period hours units company) (unfold delete_payslips in refl)
          (delete_payslips-Kept db) (run_for_company-Pays hours units company db d))
