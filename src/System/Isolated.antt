-- ===== src/System/Isolated.antt =====
-- What a request of one tenant leaves alone: the rows of every other company.
use mathlib.Core.List.{append-nil}
use payroll_software.Base.{
  ℕ, true, false, not, ◌≡◌, refl, sym, subst, ◌∙◌, inl, inr, List, [], ◌∷◌, ◌++◌, arith, All, ◌==◌,
  Option, select, select-append, select-none, All-map, Bool-cases,
}
use payroll_software.Database.{Company, Employee, CompensationLine, Payslip}
use payroll_software.Apps.Compensation.{
  Kind, bonus_kind, deduction_kind, reimbursement_kind, append_line, table,
}
use payroll_software.System.Tables.{
  Tables, covers, Refers, WellFormed, Edits, Amends, Slip, Owns, Change, hire, edit, dismiss,
  open_month, amend, adjust, pay, Changes, none_yet, followed_by,
}
use payroll_software.System.Sound.{Changes-WellFormed}
use payroll_software.System.Owners.{
  owner_apart, select-added, select-spared, select-edited, covers_one,
}

-- The rows of a company are the same in two states of the tables.
pub record Untouched (c : ℕ) (s s' : Tables) : Type 0 where
  pub employees :
      select (λ e. e.company == c) s'.employees ≡ select (λ e. e.company == c) s.employees
  pub periods : select (λ p. p.company == c) s'.periods ≡ select (λ p. p.company == c) s.periods
  pub adjustments :
      (k : Kind)
      → select (λ l. l.company == c) (table k s'.adjustments)
        ≡ select (λ l. l.company == c) (table k s.adjustments)
  pub payslips : select (λ p. p.company == c) s'.payslips ≡ select (λ p. p.company == c) s.payslips

pub Untouched-refl : (c : ℕ) (s : Tables) → Untouched c s s
Untouched-refl c s = record {
  employees = refl;
  periods = refl;
  adjustments = λ k. refl;
  payslips = refl;
}

pub Untouched-trans : (c : ℕ) {s m n : Tables} → Untouched c s m → Untouched c m n → Untouched c s n
Untouched-trans c h k = record {
  employees = k.employees ∙ h.employees;
  periods = k.periods ∙ h.periods;
  adjustments = λ a. k.adjustments a ∙ h.adjustments a;
  payslips = k.payslips ∙ h.payslips;
}

module _ (t : Option Company) (c : ℕ) (other : ¬ Owns t c) (s : Tables) where
  added :
      (ls : List CompensationLine) (l : CompensationLine)
      → Owns t l.company
      → select (λ l. l.company == c) (ls ++ l ∷ []) ≡ select (λ l. l.company == c) ls
  added ls l own = select-added (λ l. l.company == c) ls l (owner_apart t l.company c own other)

  adjust-Untouched :
      (kind : Kind) (l : CompensationLine)
      → Owns t l.company
      → (k : Kind)
      → select (λ l. l.company == c) (table k (append_line kind l s.adjustments))
        ≡ select (λ l. l.company == c) (table k s.adjustments)
  adjust-Untouched bonus_kind l own bonus_kind = added s.adjustments.bonuses l own
  adjust-Untouched bonus_kind l own deduction_kind = refl
  adjust-Untouched bonus_kind l own reimbursement_kind = refl
  adjust-Untouched deduction_kind l own bonus_kind = refl
  adjust-Untouched deduction_kind l own deduction_kind = added s.adjustments.deductions l own
  adjust-Untouched deduction_kind l own reimbursement_kind = refl
  adjust-Untouched reimbursement_kind l own bonus_kind = refl
  adjust-Untouched reimbursement_kind l own deduction_kind = refl
  adjust-Untouched reimbursement_kind l own reimbursement_kind =
      added s.adjustments.reimbursements l own

  -- A run removes and adds payslips of the company of its period only.
  pay-Untouched :
      (company period : ℕ) (ps : List Payslip)
      → WellFormed s
      → Owns t company
      → covers s.periods company period ≡ true
      → All (Slip s.employees company period) ps
      → select (λ p. p.company == c) (select (λ p. not (p.period == period)) s.payslips ++ ps)
        ≡ select (λ p. p.company == c) s.payslips
  pay-Untouched company period ps h own covered slips =
      let apart : (company == c) ≡ false = owner_apart t company c own other in
      select-append (λ p. p.company == c) (select (λ p. not (p.period == period)) s.payslips) ps
      ∙ rw
          (
            select-spared (λ p. p.company == c) (λ p. not (p.period == period)) s.payslips
                (All-map (λ p. Refers s.employees s.periods p.company p.employee p.period)
                  (λ p. (p.company == c) ≡ true → not (p.period == period) ≡ true) s.payslips
                  (λ p r. spared p.company p.period r.1 apart) h.references.payslips),
            select-none (λ p. p.company == c) ps
                (All-map (Slip s.employees company period) (λ p. (p.company == c) ≡ false) ps
                  (λ p q. rw q.1 apart) slips),
          )
          (append-nil (select (λ p. p.company == c) s.payslips))
    where
      spared :
          (d k : ℕ)
          → covers s.periods d k ≡ true
          → (company == c) ≡ false
          → (d == c) ≡ true
          → not (k == period) ≡ true
      spared d k r ne e = elim (Bool-cases (k == period)) [
        | inr q ↦ rw q refl
        | inl q ↦
            let k_is : k ≡ period = equal k period q in
            let same : d ≡ company =
              covers_one s.periods d company k h.periods.1 r
                (subst (λ k. covers s.periods company k ≡ true) (sym k_is) covered) in
            absurd (clash d company same e ne)
      ]
        where
          equal : (a b : ℕ) → (a == b) ≡ true → a ≡ b
          equal a b e = ground arith

          clash : (d e : ℕ) → d ≡ e → (d == c) ≡ true → (e == c) ≡ false → ⊥
          clash d e q h k = ground arith

Change-Untouched :
    (t : Option Company) (c : ℕ)
    → ¬ Owns t c
    → (s : Tables) {s' : Tables} → WellFormed s
    → Change t s s'
    → Untouched c s s'
Change-Untouched t c other s h (hire e q own) = record {
  employees =
      select-added (λ e. e.company == c) s.employees e (owner_apart t e.company c own other);
  periods = refl;
  adjustments = λ k. refl;
  payslips = refl;
}
Change-Untouched t c other s h (edit f e) = record {
  employees =
      select-edited t (λ e. e.company) f c s.employees other
        (All-map (Edits t f) _ s.employees (λ _ k. (k.1, k.2)) e);
  periods = refl;
  adjustments = λ k. refl;
  payslips = refl;
}
Change-Untouched t c other s h (dismiss pk own unused) = record {
  employees =
      select-spared (λ e. e.company == c) (λ e. not (e.pk == pk)) s.employees
        (All-map (λ e. (e.pk == pk) ≡ true → Owns t e.company) _ s.employees (λ e. spared e) own);
  periods = refl;
  adjustments = λ k. refl;
  payslips = refl;
}
  where
    spared :
        (e : Employee)
        → ((e.pk == pk) ≡ true → Owns t e.company)
        → (e.company == c) ≡ true
        → not (e.pk == pk) ≡ true
    spared e own k = elim (Bool-cases (e.pk == pk)) [
      | inr q ↦ rw q refl
      | inl q ↦
          let ne : (e.company == c) ≡ false = owner_apart t e.company c (own q) other in absurd (cc)
    ]
Change-Untouched t c other s h (open_month p q own month free) = record {
  employees = refl;
  periods = select-added (λ p. p.company == c) s.periods p (owner_apart t p.company c own other);
  adjustments = λ k. refl;
  payslips = refl;
}
Change-Untouched t c other s h (amend f e) = record {
  employees = refl;
  periods =
      select-edited t (λ p. p.company) f c s.periods other
        (All-map (Amends t f) _ s.periods (λ _ k. (k.1, k.2)) e);
  adjustments = λ k. refl;
  payslips = refl;
}
Change-Untouched t c other s h (adjust kind l own r) = record {
  employees = refl;
  periods = refl;
  adjustments = adjust-Untouched t c other s kind l own;
  payslips = refl;
}
Change-Untouched t c other s h (pay company period ps own covered slips single) = record {
  employees = refl;
  periods = refl;
  adjustments = λ k. refl;
  payslips = pay-Untouched t c other s company period ps h own covered slips;
}

pub Changes-Untouched :
    (t : Option Company) (c : ℕ)
    → ¬ Owns t c
    → (s : Tables) {s' : Tables} → WellFormed s
    → Changes t s s'
    → Untouched c s s'
Changes-Untouched t c other s h none_yet = Untouched-refl c s
Changes-Untouched t c other s h (followed_by {m} {n} before d) =
    Untouched-trans c (Changes-Untouched t c other s h before)
      (Change-Untouched t c other m (Changes-WellFormed t s h before) d)
