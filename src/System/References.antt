-- ===== src/System/References.antt =====
-- Changes of the tables of tenants against the rows that refer to each other.
use payroll_software.Base.{
  ℕ, true, false, not, ◌&&◌, ◌≡◌, refl, sym, subst, ◌∙◌, List, [], ◌∷◌, ◌++◌, map, arith, All, any,
  ◌==◌, select, All-map, All-selected, All-append, All-select, All-both, Pairwise, Pairwise-append,
  Pairwise-select, any_mono, any-map, any-select, All-not_any,
}
use payroll_software.Database.{Employee, PayPeriod, CompensationLine, Adjustments, Payslip}
use payroll_software.Apps.Compensation.{
  Kind, bonus_kind, deduction_kind, reimbursement_kind, append_line,
}
use payroll_software.System.Tables.{
  Tables, employs, covers, Refers, same_slot, LinesRefer, PayslipsRefer, References, WellFormed,
  Unused, Slip,
}

-- References hold where the employees and periods that were there still are.
pub References-mono :
    (es es' : List Employee) (ps ps' : List PayPeriod) (a : Adjustments) (rows : List Payslip)
    → ((c k : ℕ) → employs es c k ≡ true → employs es' c k ≡ true)
    → ((c k : ℕ) → covers ps c k ≡ true → covers ps' c k ≡ true)
    → References es ps a rows
    → References es' ps' a rows
References-mono es es' ps ps' a rows f g h =
    let moved = λ (ls : List CompensationLine).
      All-map (λ l. Refers es ps l.company l.employee l.period)
        (λ l. Refers es' ps' l.company l.employee l.period) ls
        (λ l r. (f l.company l.employee r.0, g l.company l.period r.1)) in
    record {
      bonuses = moved a.bonuses h.bonuses;
      deductions = moved a.deductions h.deductions;
      reimbursements = moved a.reimbursements h.reimbursements;
      payslips =
          All-map (λ p. Refers es ps p.company p.employee p.period)
            (λ p. Refers es' ps' p.company p.employee p.period) rows
            (λ p r. (f p.company p.employee r.0, g p.company p.period r.1)) h.payslips;
    }

-- An employee stays when another one goes.
employs-select :
    (es : List Employee) (c k pk : ℕ)
    → (k == pk) ≡ false
    → employs es c k ≡ true
    → employs (select (λ e. not (e.pk == pk)) es) c k ≡ true
employs-select es c k pk ne h =
    any-select (λ e. e.pk == k && e.company == c) (λ e. not (e.pk == pk)) es
    ∙ any_mono (λ e. e.pk == k && e.company == c)
        (λ e. not (e.pk == pk) && (e.pk == k && e.company == c)) es (λ e q. ground arith) h

-- References to others stand when an unused employee goes.
module _ {A : Type 0} (company employee period : A → ℕ) where
  Refers-select :
      (es : List Employee) (ps : List PayPeriod) (pk : ℕ) (rows : List A)
      → any (λ r. employee r == pk) rows ≡ false
      → All (λ r. Refers es ps (company r) (employee r) (period r)) rows
      → All
          (λ r. Refers (select (λ e. not (e.pk == pk)) es) ps (company r) (employee r) (period r))
          rows
  Refers-select es ps pk rows unused h =
      All-map (λ r. ((employee r == pk) ≡ false) × Refers es ps (company r) (employee r) (period r))
        (λ r. Refers (select (λ e. not (e.pk == pk)) es) ps (company r) (employee r) (period r))
        rows (λ r k. (employs-select es (company r) (employee r) pk k.0 k.1.0, k.1.1))
        (All-both (λ r. (employee r == pk) ≡ false)
          (λ r. Refers es ps (company r) (employee r) (period r)) rows
          (All-not_any (λ r. employee r == pk) rows unused) h)

pub References-select :
    (s : Tables) (pk : ℕ)
    → Unused pk s
    → References s.employees s.periods s.adjustments s.payslips
    → References (select (λ e. not (e.pk == pk)) s.employees) s.periods s.adjustments s.payslips
References-select s pk unused h =
    let moved =
      Refers-select (λ (l : CompensationLine). l.company) (λ l. l.employee) (λ l. l.period)
        s.employees s.periods pk in
    record {
      bonuses = moved s.adjustments.bonuses unused.1 h.bonuses;
      deductions = moved s.adjustments.deductions unused.2 h.deductions;
      reimbursements = moved s.adjustments.reimbursements unused.3 h.reimbursements;
      payslips =
          Refers-select (λ (p : Payslip). p.company) (λ p. p.employee) (λ p. p.period) s.employees
            s.periods pk s.payslips unused.0 h.payslips;
    }

pub References-adjust :
    (es : List Employee) (ps : List PayPeriod) (a : Adjustments) (rows : List Payslip) (kind : Kind)
    (l : CompensationLine)
    → Refers es ps l.company l.employee l.period
    → References es ps a rows
    → References es ps (append_line kind l a) rows
References-adjust es ps a rows kind l r h =
    let grown = λ (ls : List CompensationLine) (k : LinesRefer es ps ls).
      All-append (λ l. Refers es ps l.company l.employee l.period) ls (l ∷ []) k (r, tt) in
    elim kind as (λ k. References es ps (append_line k l a) rows) [
      | bonus_kind ↦ record {
        bonuses = grown a.bonuses h.bonuses;
        deductions = h.deductions;
        reimbursements = h.reimbursements;
        payslips = h.payslips;
      }
      | deduction_kind ↦ record {
        bonuses = h.bonuses;
        deductions = grown a.deductions h.deductions;
        reimbursements = h.reimbursements;
        payslips = h.payslips;
      }
      | reimbursement_kind ↦ record {
        bonuses = h.bonuses;
        deductions = h.deductions;
        reimbursements = grown a.reimbursements h.reimbursements;
        payslips = h.payslips;
      }
    ]

-- The payslips of a run refer as they should, and share no slot with those of other periods.
module _ (s : Tables) (company period : ℕ) (ps : List Payslip)
    (covered : covers s.periods company period ≡ true)
    (slips : All (Slip s.employees company period) ps) where
  slips-Refers : PayslipsRefer s.employees s.periods ps
  slips-Refers =
      All-map (Slip s.employees company period)
        (λ p. Refers s.employees s.periods p.company p.employee p.period) ps
        (λ p h. (
          subst (λ c. employs s.employees c p.employee ≡ true) (sym h.1) h.2,
          rw (h.0, h.1) covered,
        ))
        slips

  apart :
      (p q : Payslip) → not (p.period == period) ≡ true → q.period ≡ period → same_slot p q ≡ false
  apart p q other here = rw here (ground arith)

  slots_apart :
      All
        (λ p. All (λ q. same_slot p q ≡ false) ps)
        (select (λ p. not (p.period == period)) s.payslips)
  slots_apart =
      All-map (λ p. not (p.period == period) ≡ true) (λ p. All (λ q. same_slot p q ≡ false) ps)
        (select (λ p. not (p.period == period)) s.payslips)
        (λ p other.
          All-map (Slip s.employees company period) (λ q. same_slot p q ≡ false) ps
            (λ q h. apart p q other h.0) slips)
        (All-selected (λ p. not (p.period == period)) s.payslips)

  pub pay-WellFormed :
      Pairwise same_slot ps
      → WellFormed s
      → WellFormed (record s { payslips = select (λ p. not (p.period == period)) s.payslips ++ ps })
  pay-WellFormed single h = record {
    employees = h.employees;
    periods = h.periods;
    months = h.months;
    references = record {
      bonuses = h.references.bonuses;
      deductions = h.references.deductions;
      reimbursements = h.references.reimbursements;
      payslips =
          All-append (λ p. Refers s.employees s.periods p.company p.employee p.period)
            (select (λ p. not (p.period == period)) s.payslips) ps
            (All-select (λ p. Refers s.employees s.periods p.company p.employee p.period)
              (λ p. not (p.period == period)) s.payslips h.references.payslips)
            slips-Refers;
    };
    slots =
        Pairwise-append same_slot (select (λ p. not (p.period == period)) s.payslips) ps
          (Pairwise-select same_slot (λ p. not (p.period == period)) s.payslips h.slots) single
          slots_apart;
  }

-- Whoever employs, or covers, before a change of rows does so after it.
pub employs-map :
    (f : Employee → Employee) (es : List Employee)
    → All (λ e. ((f e).pk ≡ e.pk) × ((f e).company ≡ e.company)) es
    → (c k : ℕ) → employs (map f es) c k ≡ employs es c k
employs-map f es h c k =
    any-map (λ e. e.pk == k && e.company == c) f es
      (All-map _ (λ e. ((f e).pk == k && (f e).company == c) ≡ (e.pk == k && e.company == c)) es
        (λ e q. rw (q.0, q.1) refl) h)

pub covers-map :
    (f : PayPeriod → PayPeriod) (ps : List PayPeriod)
    → All (λ p. ((f p).pk ≡ p.pk) × ((f p).company ≡ p.company)) ps
    → (c k : ℕ) → covers (map f ps) c k ≡ covers ps c k
covers-map f ps h c k =
    any-map (λ p. p.pk == k && p.company == c) f ps
      (All-map _ (λ p. ((f p).pk == k && (f p).company == c) ≡ (p.pk == k && p.company == c)) ps
        (λ p q. rw (q.0, q.1) refl) h)
