-- ===== src/System/Sound.antt =====
-- Every change by a request keeps the tables of the tenants well formed.
use payroll_software.Base.{
  List, [], ◌∷◌, arith, Pairwise-map, Pairwise-append, All-append, refl, false, ◌+◌, not, ◌&&◌, ◌≡◌,
  ◌∙◌, [], ◌∷◌, ◌++◌, map, All, ◌==◌, All-map, Keyed-append, Keyed-select, Keyed-map,
  any-append_left,
}
use payroll_software.Database.{Employee, PayPeriod}
use payroll_software.System.Tables.{
  same_month, IsMonth, Tables, WellFormed, Edits, Amends, Change, hire, edit, dismiss, open_month,
  amend, adjust, pay, Changes, none_yet, followed_by,
}
use payroll_software.System.References.{
  References-mono, References-select, References-adjust, pay-WellFormed, employs-map, covers-map,
}
use payroll_software.Base.{Option}
use payroll_software.Database.{Company}

module _ (t : Option Company) (s : Tables) (h : WellFormed s) where
  edit-WellFormed :
      (f : Employee → Employee)
      → All (Edits t f) s.employees
      → WellFormed (record s { employees = map f s.employees })
  edit-WellFormed f e =
      let same =
        All-map (Edits t f) (λ e. ((f e).pk ≡ e.pk) × ((f e).company ≡ e.company)) s.employees
          (λ _ k. (k.0, k.1)) e in
      record {
        employees =
            Keyed-map (λ e. e.pk) s.next_employee f s.employees
              (All-map (Edits t f) (λ e. (f e).pk ≡ e.pk) s.employees (λ _ k. k.0) e) h.employees;
        periods = h.periods;
        references =
            References-mono s.employees (map f s.employees) s.periods s.periods s.adjustments
              s.payslips (λ c k q. employs-map f s.employees same c k ∙ q) (λ c k q. q)
              h.references;
        slots = h.slots;
        months = h.months;
      }

  months_kept :
      (f : PayPeriod → PayPeriod) (ps : List PayPeriod)
      → All (Amends t f) ps
      → All IsMonth ps
      → All IsMonth (map f ps)
  months_kept f [] e k = tt
  months_kept f (p ∷ ps) e k =
      ((omega (arith, e.0.4, k.0.0), omega (arith, e.0.4, k.0.1)), months_kept f ps e.1 k.1)

  amend-WellFormed :
      (f : PayPeriod → PayPeriod)
      → All (Amends t f) s.periods
      → WellFormed (record s { periods = map f s.periods })
  amend-WellFormed f e =
      let same =
        All-map (Amends t f) (λ p. ((f p).pk ≡ p.pk) × ((f p).company ≡ p.company)) s.periods
          (λ _ k. (k.0, k.1)) e in
      record {
        employees = h.employees;
        periods =
            Keyed-map (λ p. p.pk) s.next_period f s.periods
              (All-map (Amends t f) (λ p. (f p).pk ≡ p.pk) s.periods (λ _ k. k.0) e) h.periods;
        references =
            References-mono s.employees s.employees s.periods (map f s.periods) s.adjustments
              s.payslips (λ c k q. q) (λ c k q. covers-map f s.periods same c k ∙ q) h.references;
        slots = h.slots;
        months = (
          Pairwise-map same_month f s.periods
              (All-map (Amends t f)
                (λ p.
                  (q : PayPeriod)
                  → (same_month (f p) q ≡ same_month p q) × (same_month q (f p) ≡ same_month q p))
                s.periods (λ p k q. (rw (k.1, k.3, k.4) refl, rw (k.1, k.3, k.4) refl)) e)
              h.months.0,
          months_kept f s.periods e h.months.1,
        );
      }

  hire-WellFormed :
      (e : Employee)
      → e.pk ≡ s.next_employee
      → WellFormed
          (record s { employees = s.employees ++ e ∷ []; next_employee = s.next_employee + 1 })
  hire-WellFormed e q = record {
    employees = Keyed-append (λ e. e.pk) s.next_employee s.employees e q h.employees;
    periods = h.periods;
    references =
        References-mono s.employees (s.employees ++ e ∷ []) s.periods s.periods s.adjustments
          s.payslips
          (λ c k. any-append_left (λ e. e.pk == k && e.company == c) s.employees (e ∷ []))
          (λ c k q. q) h.references;
    slots = h.slots;
    months = h.months;
  }

  open_month-WellFormed :
      (p : PayPeriod)
      → p.pk ≡ s.next_period
      → IsMonth p
      → All (λ q. same_month q p ≡ false) s.periods
      → WellFormed (record s { periods = s.periods ++ p ∷ []; next_period = s.next_period + 1 })
  open_month-WellFormed p q month free = record {
    employees = h.employees;
    periods = Keyed-append (λ p. p.pk) s.next_period s.periods p q h.periods;
    references =
        References-mono s.employees s.employees s.periods (s.periods ++ p ∷ []) s.adjustments
          s.payslips (λ c k q. q)
          (λ c k. any-append_left (λ p. p.pk == k && p.company == c) s.periods (p ∷ []))
          h.references;
    slots = h.slots;
    months = (
      Pairwise-append same_month s.periods (p ∷ []) h.months.0 (tt, tt)
          (All-map (λ q. same_month q p ≡ false) (λ q. All (λ r. same_month q r ≡ false) (p ∷ []))
            s.periods (λ q k. (k, tt)) free),
      All-append IsMonth s.periods (p ∷ []) h.months.1 (month, tt),
    );
  }

Change-WellFormed :
    (t : Option Company) (s : Tables) {s' : Tables} → WellFormed s → Change t s s' → WellFormed s'
Change-WellFormed t s h (hire e q own) = hire-WellFormed t s h e q
Change-WellFormed t s h (edit f e) = edit-WellFormed t s h f e
Change-WellFormed t s h (dismiss pk own unused) = record {
  employees =
      Keyed-select (λ e. e.pk) s.next_employee (λ e. not (e.pk == pk)) s.employees h.employees;
  periods = h.periods;
  references = References-select s pk unused h.references;
  slots = h.slots;
  months = h.months;
}
Change-WellFormed t s h (open_month p q own month free) = open_month-WellFormed t s h p q month free
Change-WellFormed t s h (amend f e) = amend-WellFormed t s h f e
Change-WellFormed t s h (adjust kind l own r) = record {
  employees = h.employees;
  periods = h.periods;
  references =
      References-adjust s.employees s.periods s.adjustments s.payslips kind l r h.references;
  slots = h.slots;
  months = h.months;
}
Change-WellFormed t s h (pay company period ps own covered slips single) =
    pay-WellFormed s company period ps covered slips single h

pub Changes-WellFormed :
    (t : Option Company) (s : Tables) {s' : Tables} → WellFormed s → Changes t s s' → WellFormed s'
Changes-WellFormed t s h none_yet = h
Changes-WellFormed t s h (followed_by {m} {n} before c) =
    Change-WellFormed t m (Changes-WellFormed t s h before) c
