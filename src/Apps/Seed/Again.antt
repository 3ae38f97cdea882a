-- ===== src/Apps/Seed/Again.antt =====
-- apps/tenants/management/commands/seed_demo.py: seeding employees again adds none.
use payroll_software.Base.{
  ℕ, Bool, true, ◌&&◌, ◌≡◌, refl, sym, ap, ◌∙◌, some, List, [], ◌∷◌, ◌++◌, any, ◌==◌, ==_refl, inl,
  inr, Bool-cases, All, any-append_left, any-select, if◌then◌else◌, arith,
}
use payroll_software.Base.Text.{text_eq, text_eq_refl}
use payroll_software.Database.{Company, Employee, employee_model, Db, Context}
use payroll_software.Apps.Tenants.{objects}
use payroll_software.Apps.Employees.Crud.{insert_employee, with_fields, blank}
use payroll_software.Apps.Seed.Rows.{Sample, is_listed, sample_fields, seed_employees}

any-added :
    {A : Type 0} (p : A → Bool) (xs : List A) (x : A) → p x ≡ true → any p (xs ++ x ∷ []) ≡ true
any-added p [] x h = rw h refl
any-added p (y ∷ xs) x h = ground (arith, any-added p xs x h)

module _ (hired : ℕ) (ctx : Context) (tenant : Company)
    (on : ctx.current_tenant ≡ some tenant) where
  -- The tenant has an employee of that name.
  abbrev pub named : Sample → Employee → Bool
  named s e =
      e.company == tenant.pk
      && (text_eq e.first_name s.first_name && text_eq e.last_name s.last_name)

  is_listed_lem : (s : Sample) (rows : List Employee) → is_listed ctx s rows ≡ any (named s) rows
  unfolding objects
  is_listed_lem s rows = rw on (
      any-select (λ e. text_eq e.first_name s.first_name && text_eq e.last_name s.last_name)
        (λ e. e.company == tenant.pk) rows)

  abbrev seeded : List Sample → Db → Db
  seeded = seed_employees hired ctx tenant

  abbrev step : Sample → Db → Db
  step s db =
      if is_listed ctx s db.employees
      then db
      else insert_employee ctx tenant.pk (sample_fields hired s) db

  step-named : (s : Sample) (db : Db) → any (named s) (step s db).employees ≡ true
  unfolding insert_employee sample_fields
  step-named s db = elim (Bool-cases (is_listed ctx s db.employees)) [
    | inl h ↦ rw h (sym (is_listed_lem s db.employees) ∙ h)
    | inr h ↦ rw h (
        any-added (named s) db.employees
          (with_fields (sample_fields hired s) (blank (db.next_pk employee_model) tenant.pk))
          (rw (==_refl tenant.pk, text_eq_refl s.first_name, text_eq_refl s.last_name) refl))
  ]

  step-keeps :
      (p : Employee → Bool) (s : Sample) (db : Db)
      → any p db.employees ≡ true
      → any p (step s db).employees ≡ true
  unfolding insert_employee
  step-keeps p s db k = elim (Bool-cases (is_listed ctx s db.employees)) [
    | inl h ↦ rw h k
    | inr h ↦ rw h (any-append_left p db.employees _ k)
  ]

  seeded-keeps :
      (p : Employee → Bool) (roster : List Sample) (db : Db)
      → any p db.employees ≡ true
      → any p (seeded roster db).employees ≡ true
  unfolding seed_employees
  seeded-keeps p [] db k = k
  seeded-keeps p (s ∷ roster) db k = seeded-keeps p roster (step s db) (step-keeps p s db k)

  seeded-named :
      (roster : List Sample) (db : Db)
      → All (λ s. any (named s) (seeded roster db).employees ≡ true) roster
  unfolding seed_employees
  seeded-named [] db = tt
  seeded-named (s ∷ roster) db =
      (seeded-keeps (named s) roster (step s db) (step-named s db), seeded-named roster (step s db))

  seeded_idle :
      (roster : List Sample) (db : Db)
      → All (λ s. any (named s) db.employees ≡ true) roster
      → seeded roster db ≡ db
  unfolding seed_employees
  seeded_idle [] db h = refl
  seeded_idle (s ∷ roster) db h =
      let there : is_listed ctx s db.employees ≡ true = is_listed_lem s db.employees ∙ h.0 in
      ap
        (λ (b : Bool).
          seeded roster
            (if b then db else insert_employee ctx tenant.pk (sample_fields hired s) db))
        there
      ∙ seeded_idle roster db h.1

  -- Seeding a tenant with a roster, within the tenant, leaves it with an employee of each name on the
  -- roster, and seeding again with the roster changes nothing in the database, the audit log
  -- included.
  pub seed_employees_again :
      (roster : List Sample) (db : Db)
      → let once = seed_employees hired ctx tenant roster db in
        All (λ s. any (named s) once.employees ≡ true) roster
        × (seed_employees hired ctx tenant roster once ≡ once)
  seed_employees_again roster db =
      (seeded-named roster db, seeded_idle roster (seeded roster db) (seeded-named roster db))
