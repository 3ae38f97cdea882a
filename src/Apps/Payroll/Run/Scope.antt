-- ===== src/Apps/Payroll/Run/Scope.antt =====
-- apps/payroll/services.py: whom a run pays, and what it does when it is repeated.
use payroll_software.Base.{
  ℕ, Bool, true, false, ◌&&◌, ◌||◌, ◌≡◌, refl, ap, subst, List, [], ◌∷◌, map, arith, All, any, ◌==◌,
  ◌⊎◌, if◌then◌else◌, select, Bool-cases, inl, inr, All-select, All-map, All-both, All-selected,
  ==_refl, Member, All-Member,
}
use payroll_software.Base.Result.{Result, ok, err, value_error}
use payroll_software.Services.Payroll.{PayrollInput, PayslipResult, calculate_payslip}
use payroll_software.Database.{Employee, PayPeriod, Payslip}
use payroll_software.Apps.Payroll.Run.{insert_by, order_by, payslip_row, active_employees}
use payroll_software.Apps.Payroll.Run.Due.{unkeyed, due_step, due, Distinct}
use payroll_software.Apps.Payroll.Run.Refines.{All-order_by}

-- The calculation returns a payslip.
abbrev pub is_ok {ℓ} : {A : Type ℓ} → Result A → Bool
is_ok (ok a) = true
is_ok (err x) = false

-- There is a row for the employee.
abbrev pub is_paid : Employee → List Payslip → Bool
is_paid e = any (λ p. p.employee == e.pk)

abbrev pub OnOk : (List Payslip → Type 0) → Result (List Payslip) → Type 0
OnOk P (ok rows) = P rows
OnOk P (err x) = Unit

module _ (company : ℕ) (period : PayPeriod) (input : Employee → PayrollInput) where
  abbrev pub owes : List Employee → Result (List Payslip)
  owes = due company period input

  abbrev pub row : Employee → PayslipResult → Payslip
  row e = payslip_row 0 company period e (input e)

  step-unpaid :
      (e f : Employee) (result : Result PayslipResult) (rest : Result (List Payslip))
      → (e.pk == f.pk) ≡ false
      → OnOk (λ rows. is_paid f rows ≡ false) rest
      → OnOk (λ rows. is_paid f rows ≡ false) (due_step (row e) result rest)
  unfolding due_step
  step-unpaid e f (ok r) (ok rows) ne h = rw (ne, h)
  step-unpaid e f (ok r) (err x) ne h = tt
  step-unpaid e f (err value_error) rest ne h = h
  step-unpaid e f (err x) rest ne h = tt

  -- Nobody outside the list is paid.
  pub unpaid :
      (f : Employee) (es : List Employee)
      → All (λ e. (f.pk == e.pk) ≡ false) es
      → OnOk (λ rows. is_paid f rows ≡ false) (owes es)
  unfolding due
  unpaid f [] h = refl
  unpaid f (e ∷ es) h =
      step-unpaid e f (calculate_payslip (input e)) (owes es) (ground arith) (unpaid f es h.1)

  step-paid_self :
      (e : Employee) (result : Result PayslipResult) (rest : Result (List Payslip))
      → OnOk (λ rows. is_paid e rows ≡ false) rest
      → OnOk (λ rows. is_paid e rows ≡ is_ok result) (due_step (row e) result rest)
  unfolding due_step
  step-paid_self e (ok r) (ok rows) h = rw (==_refl e.pk)
  step-paid_self e (ok r) (err x) h = tt
  step-paid_self e (err value_error) rest h = h
  step-paid_self e (err x) rest h = tt

  step-paid_other :
      (e f : Employee) (b : Bool) (result : Result PayslipResult) (rest : Result (List Payslip))
      → (e.pk == f.pk) ≡ false
      → OnOk (λ rows. is_paid f rows ≡ b) rest
      → OnOk (λ rows. is_paid f rows ≡ b) (due_step (row e) result rest)
  unfolding due_step
  step-paid_other e f b (ok r) (ok rows) ne h = rw (ne, h)
  step-paid_other e f b (ok r) (err x) ne h = tt
  step-paid_other e f b (err value_error) rest ne h = h
  step-paid_other e f b (err x) rest ne h = tt

  -- An employee of the list is paid exactly if the calculation returns.
  pub paid_iff_ok :
      (f : Employee) (es : List Employee)
      → Distinct es
      → Member f es
      → OnOk (λ rows. is_paid f rows ≡ is_ok (calculate_payslip (input f))) (owes es)
  unfolding due
  paid_iff_ok f [] d m = absurd m
  paid_iff_ok f (e ∷ es) d (inl q) =
      subst
        (λ g. OnOk (λ rows. is_paid g rows ≡ is_ok (calculate_payslip (input g))) (owes (e ∷ es))) q
        (step-paid_self e (calculate_payslip (input e)) (owes es) (unpaid e es d.0))
  paid_iff_ok f (e ∷ es) d (inr m) =
      step-paid_other e f (is_ok (calculate_payslip (input f))) (calculate_payslip (input e))
        (owes es) (All-Member (λ g. (e.pk == g.pk) ≡ false) f es d.0 m) (paid_iff_ok f es d.1 m)

  -- Every row due is one of this period and company.
  step-scoped :
      (P : Payslip → Type 0) (e : Employee) (result : Result PayslipResult)
      (rest : Result (List Payslip))
      → ((r : PayslipResult) → P (row e r))
      → OnOk (All P) rest
      → OnOk (All P) (due_step (row e) result rest)
  unfolding due_step
  step-scoped P e (ok r) (ok rows) here h = (here r, h)
  step-scoped P e (ok r) (err x) here h = tt
  step-scoped P e (err value_error) rest here h = h
  step-scoped P e (err x) rest here h = tt

  pub due-All :
      (P : Payslip → Type 0) (es : List Employee)
      → All (λ e. (r : PayslipResult) → P (row e r)) es
      → OnOk (All P) (owes es)
  unfolding due
  due-All P [] h = tt
  due-All P (e ∷ es) h =
      step-scoped P e (calculate_payslip (input e)) (owes es) h.0 (due-All P es h.1)

-- What `unkeyed` keeps.
pub is_paid-unkeyed : (e : Employee) (ps : List Payslip) → is_paid e (map unkeyed ps) ≡ is_paid e ps
is_paid-unkeyed e [] = refl
is_paid-unkeyed e (p ∷ ps) = ap (λ (b : Bool). p.employee == e.pk || b) (is_paid-unkeyed e ps)

pub All-unmap :
    (P : Payslip → Type 0) (ps : List Payslip)
    → All P (map unkeyed ps)
    → All (λ p. P (unkeyed p)) ps
All-unmap P [] h = tt
All-unmap P (p ∷ ps) h = (h.0, All-unmap P ps h.1)

Member-if :
    (e : Employee) (b : Bool) (xs ys : List Employee)
    → Member e xs
    → Member e ys
    → Member e (if b then xs else ys)
Member-if e true xs ys hx hy = hx
Member-if e false xs ys hx hy = hy

Member-insert_by :
    (before : Employee → Employee → Bool) (e f : Employee) (es : List Employee)
    → ((f ≡ e) ⊎ Member e es)
    → Member e (insert_by before f es)
unfolding insert_by
Member-insert_by before e f [] h = h
Member-insert_by before e f (g ∷ es) (inl q) =
    Member-if e (before f g) _ _ (inl q) (inr (Member-insert_by before e f es (inl q)))
Member-insert_by before e f (g ∷ es) (inr (inl q)) =
    Member-if e (before f g) _ _ (inr (inl q)) (inl q)
Member-insert_by before e f (g ∷ es) (inr (inr m)) =
    Member-if e (before f g) _ _ (inr (inr m)) (inr (Member-insert_by before e f es (inr m)))

Member-order_by :
    (before : Employee → Employee → Bool) (e : Employee) (es : List Employee)
    → Member e es
    → Member e (order_by before es)
unfolding order_by
Member-order_by before e [] m = m
Member-order_by before e (f ∷ es) (inl q) = Member-insert_by before e f (order_by before es) (inl q)
Member-order_by before e (f ∷ es) (inr m) =
    Member-insert_by before e f (order_by before es) (inr (Member-order_by before e es m))

Member-select :
    (p : Employee → Bool) (e : Employee) (es : List Employee)
    → p e ≡ true
    → Member e es
    → Member e (select p es)
Member-select p e [] h m = m
Member-select p e (f ∷ es) h (inl q) = rw (q, h) (inl refl)
Member-select p e (f ∷ es) h (inr m) = elim (Bool-cases (p f)) [
  | inl k ↦ rw k (inr (Member-select p e es h m))
  | inr k ↦ rw k (Member-select p e es h m)
]

-- The active employees of a company are among those that a run for it reads.
pub Member-active_employees :
    (before : Employee → Employee → Bool) (company : ℕ) (e : Employee) (es : List Employee)
    → e.company ≡ company
    → e.is_active ≡ true
    → Member e es
    → Member e (active_employees before company es)
unfolding active_employees
Member-active_employees before company e es c active m =
    Member-order_by before e (select (λ f. f.company == company && f.is_active) es)
      (Member-select (λ f. f.company == company && f.is_active) e es (ground arith) m)

pub All-self : (es : List Employee) → All (λ e. Member e es) es
All-self [] = tt
All-self (e ∷ es) =
    (inl refl, All-map (λ f. Member f es) (λ f. Member f (e ∷ es)) es (λ f. inr) (All-self es))

any-Member :
    (p : Employee → Bool) (e : Employee) (es : List Employee)
    → Member e es
    → p e ≡ true
    → any p es ≡ true
any-Member p e [] m h = absurd m
any-Member p e (f ∷ es) (inl q) h = rw (q, h)
any-Member p e (f ∷ es) (inr m) h = ground (arith, any-Member p e es m h)

-- The row belongs to an active employee of the company.
abbrev pub is_active_member : ℕ → List Employee → ℕ → Bool
is_active_member company es pk = any (λ e. e.pk == pk && (e.company == company && e.is_active)) es

pub active_employees-is_active_member :
    (before : Employee → Employee → Bool) (company : ℕ) (es : List Employee)
    → All (λ e. is_active_member company es e.pk ≡ true) (active_employees before company es)
unfolding active_employees
active_employees-is_active_member before company es =
    let test = λ (f : Employee). f.company == company && f.is_active in
    All-order_by (λ e. is_active_member company es e.pk ≡ true) before (select test es)
      (All-map (λ e. Member e es × (test e ≡ true)) (λ e. is_active_member company es e.pk ≡ true)
        (select test es)
        (λ e h.
          any-Member (λ f. f.pk == e.pk && (f.company == company && f.is_active)) e es h.0
            (rw (==_refl e.pk) h.1))
        (All-both (λ e. Member e es) (λ e. test e ≡ true) (select test es)
          (All-select (λ e. Member e es) test es (All-self es)) (All-selected test es)))
