-- ===== src/Apps/Payroll/Run/Loop.antt =====
-- The loop of `run_payroll_for_period` (apps/payroll/services.py) pays what is due.
use mathlib.Core.List.{append_assoc, append-nil}
use payroll_software.Base.{
  ℕ, Bool, false, ◌&&◌, ◌||◌, ◌≡◌, refl, sym, ap, ◌∙◌, subst, List, [], ◌∷◌, ◌++◌, arith, All, any,
  ◌==◌,
}
use payroll_software.Base.Result.{Result, ok, err, value_error, ◌>>=◌}
use payroll_software.Services.Payroll.{PayrollInput, PayslipResult, calculate_payslip}
use payroll_software.Database.{
  Employee, PayPeriod, Payslip, Adjustments, Db, Context, payslip_model,
}
use payroll_software.Apps.Payroll.Run.{
  payslip_row, has_payslip, insert_payslip, create_payslip, pay_result, pay_employee, and_then,
  pay_all,
}
use payroll_software.Apps.Payroll.Run.Due.{unkeyed, due_step, due, Distinct, Fresh, Kept, Pays}

pub Kept-refl : (db : Db) → Kept db db
Kept-refl db = record {
  companies = refl;
  users = refl;
  employees = refl;
  periods = refl;
  adjustments = refl;
  next_employee = refl;
  next_period = refl;
}

pub Kept-trans : {a b c : Db} → Kept a b → Kept b c → Kept a c
Kept-trans h k = record {
  companies = k.companies ∙ h.companies;
  users = k.users ∙ h.users;
  employees = k.employees ∙ h.employees;
  periods = k.periods ∙ h.periods;
  adjustments = k.adjustments ∙ h.adjustments;
  next_employee = k.next_employee ∙ h.next_employee;
  next_period = k.next_period ∙ h.next_period;
}

any-append {ℓ} :
    {A : Type ℓ} (p : A → Bool) (xs ys : List A) → any p (xs ++ ys) ≡ (any p xs || any p ys)
any-append p [] ys = refl
any-append p (x ∷ xs) ys = ground (arith, any-append p xs ys)

-- A payslip in front of those that the rest of the loop pays.
cons-Pays :
    (db db' : Db) (p : Payslip) (rest : Result (List Payslip)) (out : Result (List Payslip) × Db)
    → db'.payslips ≡ db.payslips ++ p ∷ []
    → Kept db db'
    → Pays db' rest out
    → Pays db (rest >>= λ rows. ok (unkeyed p ∷ rows)) (out.0 >>= λ l. ok (p ∷ l), out.1)
cons-Pays db db' p (err x) out grown kept h = rw h
cons-Pays db db' p (ok rows) out grown kept (ps, returned, same, rows', k) = (
  p ∷ ps,
  rw returned,
  ap (λ (l : List Payslip). unkeyed p ∷ l) same,
  rows' ∙ ap (λ (l : List Payslip). l ++ ps) grown ∙ append_assoc db.payslips (p ∷ []) ps,
  Kept-trans kept k,
)

module _ (ctx : Context) (company : ℕ) (period : PayPeriod) where
  insert_payslip-Kept :
      (e : Employee) (i : PayrollInput) (r : PayslipResult) (db : Db)
      → Kept db (insert_payslip ctx company period e i r db)
  unfolding insert_payslip
  insert_payslip-Kept e i r db = record {
    companies = refl;
    users = refl;
    employees = refl;
    periods = refl;
    adjustments = refl;
    next_employee = refl;
    next_period = refl;
  }

  step-Pays :
      (e : Employee) (i : PayrollInput) (result : Result PayslipResult) (db : Db)
      (next : Db → Result (List Payslip) × Db) (rest : Result (List Payslip))
      → has_payslip e.pk period.pk db.payslips ≡ false
      → Pays db rest (next db)
      → ((r : PayslipResult)
          → let db' = insert_payslip ctx company period e i r db in Pays db' rest (next db'))
      → Pays db
          (due_step (payslip_row 0 company period e i) result rest)
          (and_then (pay_result ctx company period e i result db) next)
  unfolding due_step pay_result
  step-Pays e i (ok r) db next rest free skip paid =
      let db' = insert_payslip ctx company period e i r db in
      unfold create_payslip in
      rw free (
        cons-Pays db db' (payslip_row (db.next_pk payslip_model) company period e i r) rest
          (next db') (unfold insert_payslip in refl) (insert_payslip-Kept e i r db) (paid r))
  step-Pays e i (err value_error) db next rest free skip paid = skip
  step-Pays e i (err x) db next rest free skip paid = refl

  -- Another employee's payslip is no payslip of this one.
  has_payslip-insert :
      (e f : Employee) (i : PayrollInput) (r : PayslipResult) (db : Db)
      → (e.pk == f.pk) ≡ false
      → has_payslip f.pk period.pk db.payslips ≡ false
      → has_payslip f.pk period.pk (insert_payslip ctx company period e i r db).payslips ≡ false
  unfolding insert_payslip
  has_payslip-insert e f i r db ne free =
      any-append (λ p. p.employee == f.pk && p.period == period.pk) db.payslips
        (payslip_row (db.next_pk payslip_model) company period e i r ∷ [])
      ∙ rw (free, ne)

  Fresh-insert :
      (e : Employee) (es : List Employee) (i : PayrollInput) (r : PayslipResult) (db : Db)
      → All (λ f. (e.pk == f.pk) ≡ false) es
      → Fresh period.pk db.payslips es
      → Fresh period.pk (insert_payslip ctx company period e i r db).payslips es
  Fresh-insert e [] i r db ne free = tt
  Fresh-insert e (f ∷ es) i r db ne free =
      (has_payslip-insert e f i r db ne.0 free.0, Fresh-insert e es i r db ne.1 free.1)

  -- The inputs depend on the adjustments alone, which the loop leaves as they are.
  module _ (input : Adjustments → Employee → PayrollInput) where
    -- For distinct employees with no payslip yet the loop never meets the unique constraint: it
    -- pays what is due.
    pub pay_all-Pays :
        (es : List Employee) (db : Db)
        → Distinct es
        → Fresh period.pk db.payslips es
        → Pays db
            (due company period (input db.adjustments) es)
            (pay_all ctx company period input es db)
    unfolding pay_all due pay_employee
    pay_all-Pays [] db d free = ([], refl, refl, sym (append-nil db.payslips), Kept-refl db)
    pay_all-Pays (e ∷ es) db d free =
        step-Pays e (input db.adjustments e) (calculate_payslip (input db.adjustments e)) db
          (pay_all ctx company period input es) (due company period (input db.adjustments) es)
          free.0 (pay_all-Pays es db d.1 free.1)
          λ r.
            let db' = insert_payslip ctx company period e (input db.adjustments e) r db in
            subst
              (λ a.
                Pays db' (due company period (input a) es)
                  (pay_all ctx company period input es db'))
              (insert_payslip-Kept e (input db.adjustments e) r db).adjustments
              (pay_all-Pays es db' d.1 (Fresh-insert e es (input db.adjustments e) r db d.0 free.1))
