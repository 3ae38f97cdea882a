-- ===== src/Apps/Seed.antt =====
-- apps/tenants/management/commands/seed_demo.py: the command that makes demonstration data. What it
-- prints, its passwords and the session variables that it sets are left out.
pub mod Rows
pub mod Again
use payroll_software.Base.{
  ℕ, ◌+◌, Bool, true, false, not, ◌&&◌, ◌||◌, Option, none, some, List, [], ◌∷◌, ◌++◌, map, any,
  select, first, ◌==◌, is_some, option_eq, if◌then◌else◌,
}
use payroll_software.Base.Int.{pos, negsuc}
use payroll_software.Base.Text.{Text, text, text_eq}
use payroll_software.Base.Result.{Result, ok, err, integrity_error}
use payroll_software.Domain.Decimal.{Decimal, finite}
use payroll_software.Services.Payroll.{fixed_basis, hourly_basis, unit_basis}
use payroll_software.Database.{
  Company, company_model, User, user_model, Role, super_admin, company_admin, employee, Employee,
  PayPeriod, Payslip, advance, Db, Context,
}
use payroll_software.Apps.Tenants.{objects}
use payroll_software.Apps.Accounts.Manager.{insert_user}
use payroll_software.Apps.Employees.{link_user}
use payroll_software.Apps.Employees.Crud.{EmployeeFields, insert_employee}
use payroll_software.Apps.Compensation.{Kind, bonus_kind, deduction_kind, Posted, save_line, table}
use payroll_software.Apps.Payroll.Period.{create_period}
use payroll_software.Apps.Payroll.Run.{order_by, atomic, run_payroll_for_period}
use payroll_software.Apps.Seed.Rows.{
  after, unbound, bound, get_or_create_company, is_listed, sample_fields, seed_employees, amount,
  acme_roster, beta_roster, get_or_create_period, seed_line, sample_line,
}

-- `before` is the order of employees.
module _ (before : Employee → Employee → Bool) where
  abbrev plain : Text → Text
  plain s = s

  -- `User.objects.get_or_create(email=email, defaults=...)`; the password that is set next, and the
  -- second save, are left out.
  unfoldable pub get_or_create_user : Text → Bool → Role → Option ℕ → Db → Result User × Db
  get_or_create_user email is_super role company db =
      elim (first (select (λ u. text_eq u.email email) db.users)) [
        | some u ↦ (ok u, db)
        | none ↦
            insert_user plain
              (record {
                pk = db.next_pk user_model;
                email = email;
                role = role;
                company = company;
                is_active = true;
                is_staff = is_super;
                is_superuser = is_super;
              })
              db
      ]

  -- `Employee.objects.filter(...).first()` in the order of the model.
  abbrev first_where : (Employee → Bool) → List Employee → Option Employee
  first_where test rows = first (order_by before (select test rows))

  -- Mira's bonus and deduction.
  unfoldable pub seed_lines : Context → ℕ → Company → PayPeriod → Db → Db
  unfolding order_by objects
  seed_lines ctx now t period db =
      elim (first_where
        (λ e. text_eq e.first_name (text "Mira") && text_eq e.last_name (text "Iqbal"))
        (objects (λ e. e.company) ctx db.employees)) [
          | none ↦ db
          | some mira ↦
              seed_line ctx now deduction_kind t
                (sample_line mira period (text "Provident fund") 3500)
                (seed_line ctx now bonus_kind t
                  (sample_line mira period (text "Performance bonus") 5000) db)
        ]

  -- The hours or units of the employee with the first name, if there is one.
  abbrev quantity_of : Context → Text → ℕ → Db → List (ℕ × Decimal)
  quantity_of ctx name n db =
      elim (first_where (λ e. text_eq e.first_name name)
        (objects (λ e. e.company) ctx db.employees)) [ none ↦ [] | some e ↦ (e.pk, amount n) ∷ [] ]

  -- The payroll run of the command.
  unfoldable pub seed_run : Context → PayPeriod → Db → Result (List Payslip) × Db
  unfolding order_by objects
  seed_run ctx period db =
      run_payroll_for_period before ctx period (quantity_of ctx (text "Sami") 168 db)
        (quantity_of ctx (text "Bilal") 3200 db) db

  -- `employee.user = portal_user`, saved under the one-to-one constraint.
  unfoldable pub link : Employee → User → Db → Result (Unit {0}) × Db
  link e u db =
      if any (λ f. not (f.pk == e.pk) && option_eq f.user (some u.pk)) db.employees
      then (err integrity_error, db)
      else (ok tt, link_user unbound e.pk u db)

  -- `_link_employee_user`
  unfoldable pub link_employee_user : Company → Text → Text → Text → Db → Result (Unit {0}) × Db
  unfolding order_by
  link_employee_user t given family email db =
      elim (first_where
        (λ e. e.company == t.pk && (text_eq e.first_name given && text_eq e.last_name family))
        db.employees) [
          | none ↦ (ok tt, db)
          | some e ↦ elim (is_some e.user) [
            | true ↦ (ok tt, db)
            | false ↦ after (get_or_create_user email false employee (some t.pk) db) (link e)
          ]
        ]

  -- `handle` from the employees on.
  unfoldable pub seed_rest :
      ℕ → ℕ → ℕ → ℕ → Company → Company → User → User → Db → Result (Unit {0}) × Db
  seed_rest hired now year month acme beta alice bob db =
      let staffed =
        seed_employees hired (bound beta bob) beta beta_roster
          (seed_employees hired (bound acme alice) acme acme_roster db) in
      after (get_or_create_period now acme year month staffed) λ period db.
        after
          (seed_run (bound acme alice) period (seed_lines (bound acme alice) now acme period db))
          λ ps db.
            after (link_employee_user acme (text "Mira") (text "Iqbal") (text "mira@acme.local") db)
              λ _ db.
                link_employee_user beta (text "Tigist") (text "Bekele") (text "tigist@beta.local")
                  db

  -- `handle`, without its transaction; today's year and month are given.
  unfoldable pub seed_body : ℕ → ℕ → ℕ → ℕ → Db → Result (Unit {0}) × Db
  seed_body hired now year month db =
      after (get_or_create_user (text "ali@platform.local") true super_admin none db) λ ali db.
        after
          (get_or_create_company (text "acme") (text "Acme Imports") (text "PK") (text "PKR") db)
          λ acme db.
            after
              (get_or_create_company (text "beta") (text "Beta Exports") (text "ET") (text "ETB")
                db)
              λ beta db.
                after
                  (get_or_create_user (text "alice@acme.local") false company_admin (some acme.pk)
                    db)
                  λ alice db.
                    after
                      (get_or_create_user (text "bob@beta.local") false company_admin (some beta.pk)
                        db)
                      λ bob db. seed_rest hired now year month acme beta alice bob db

  -- `handle`
  unfoldable pub seed_demo : ℕ → ℕ → ℕ → ℕ → Db → Result (Unit {0}) × Db
  seed_demo hired now year month = atomic (seed_body hired now year month)
