-- ===== src/System/Seed.antt =====
-- apps/tenants/management/commands/seed_demo.py keeps the tables of the tenants well formed.
pub mod Steps
use payroll_software.Base.{
  ℕ, Bool, true, false, not, ◌&&◌, ◌||◌, ◌==◌, ◌≡◌, refl, sym, ap, ◌∙◌, subst, inl, inr, Option,
  none, some, List, [], ◌∷◌, ◌++◌, map, any, select, first, first-select, Member, any-Member,
  Option-cases, Bool-cases, arith, if◌then◌else◌, All, All-always, is_some, option_eq,
}
use payroll_software.Base.Text.{Text, text, text_eq}
use payroll_software.Base.Result.{Result, ok, err, ok-injective, err≢ok}
use payroll_software.Domain.Decimal.{Decimal}
use payroll_software.Database.{
  status_open, Company, User, Role, Employee, PayPeriod, Payslip, employee_model, pay_period_model,
  Db, Context,
}
use payroll_software.Apps.Http.{Request}
use payroll_software.Apps.Tenants.{objects}
use payroll_software.Apps.Accounts.Manager.{insert_user}
use payroll_software.Apps.Employees.Crud.{EmployeeFields, with_fields, blank, insert_employee}
use payroll_software.Apps.Compensation.{bonus_kind, deduction_kind, Kind, Posted, save_line, table}
use payroll_software.Apps.Payroll.Period.{breaks_constraint, create_period}
use payroll_software.Apps.Seed.Rows.{
  after, unbound, bound, get_or_create_company, Sample, is_listed, sample_fields, seed_employees,
  get_or_create_period, seed_line, sample_line, acme_roster, beta_roster,
}
use payroll_software.Apps.Seed.{
  get_or_create_user, seed_lines, seed_run, link, link_employee_user, seed_rest, seed_body,
  seed_demo,
}
use mathlib.Core.Option.{some-injective, none-ne-some}
use payroll_software.Base.{Member-select, All-both, All-select, All-selected}
use payroll_software.Database.{employee, super_admin, company_admin}
use payroll_software.Apps.Payroll.Run.{order_by}
use payroll_software.Apps.Payroll.Run.Refines.{All-order_by}
use payroll_software.Apps.Payroll.Run.Scope.{All-self}
use payroll_software.System.Tables.{
  Tables, tables, WellFormed, Refers, Owns, Change, hire, Changes, none_yet, once, Changes-trans,
}
use payroll_software.System.Sound.{Changes-WellFormed}
use payroll_software.System.Imports.{insert_user-tables, link_user-Change}
use payroll_software.System.Periods.{create_period-Changes}
use payroll_software.System.Adjustments.{save_line-Change}
use payroll_software.System.Payroll.{run-Changes}
use payroll_software.System.Seed.Steps.{
  Sound, after-Sound, company-Sound, seed_employees-Changes, Opens, period-Sound, seed_line-Sound,
}

module _ (before : Employee → Employee → Bool) where
  user-tables :
      (email : Text) (is_super : Bool) (role : Role) (company : Option ℕ) (db : Db)
      → tables (get_or_create_user before email is_super role company db).1 ≡ tables db
  unfolding get_or_create_user
  user-tables email is_super role company db =
      elim (Option-cases (first (select (λ u. text_eq u.email email) db.users))) [
        | inl n ↦ rw (n, get_or_create_user) (insert_user-tables _ _ db)
        | inr (u, n) ↦ rw (n, get_or_create_user) refl
      ]

  user-Sound :
      (email : Text) (is_super : Bool) (role : Role) (company : Option ℕ) (db : Db)
      → WellFormed (tables db)
      → Sound (get_or_create_user before email is_super role company db)
  user-Sound email is_super role company db h =
      subst WellFormed (sym (user-tables email is_super role company db)) h

  -- The employee that a query of a company finds first is one of the company.
  first-Member :
      (test : Employee → Bool) (rows : List Employee) (e : Employee)
      → first (order_by before (select test rows)) ≡ some e
      → Member e rows × (test e ≡ true)
  first-Member test rows e h =
      head (order_by before (select test rows))
        (All-order_by (λ f. Member f rows × (test f ≡ true)) before (select test rows)
          (All-both (λ f. Member f rows) (λ f. test f ≡ true) (select test rows)
            (All-select (λ f. Member f rows) test rows (All-self rows)) (All-selected test rows)))
        h
    where
      head :
          (l : List Employee)
          → All (λ f. Member f rows × (test f ≡ true)) l
          → first l ≡ some e
          → Member e rows × (test e ≡ true)
      head [] a q = absurd (none-ne-some e q)
      head (x ∷ l) a q = subst (λ f. Member f rows × (test f ≡ true)) (some-injective x e q) a.0

  choice :
      (b : Bool) (x y : Result (Unit {0}) × Db)
      → Sound x
      → Sound y
      → let out : Result (Unit {0}) × Db = elim b [ true ↦ x | false ↦ y ] in Sound out
  choice true x y h k = h
  choice false x y h k = k

  link-Sound :
      (t : Company) (e : Employee) (u : User) (db : Db)
      → WellFormed (tables db)
      → Member e db.employees
      → e.company ≡ t.pk
      → Sound (link before e u db)
  unfolding link
  link-Sound t e u db h m own =
      elim (Bool-cases
        (any (λ f. not (f.pk == e.pk) && option_eq f.user (some u.pk)) db.employees)) [
          | inl c ↦ rw (c, link) h
          | inr c ↦
              rw (c, link)
                (Changes-WellFormed (some t) (tables db) h
                  (once (link_user-Change (λ s. s) unbound (some t) e u db h m own)))
        ]

  link_employee_user-Sound :
      (t : Company) (given family email : Text) (db : Db)
      → WellFormed (tables db)
      → Sound (link_employee_user before t given family email db)
  unfolding link_employee_user
  link_employee_user-Sound t given family email db h =
      let test = λ (e : Employee).
        e.company == t.pk && (text_eq e.first_name given && text_eq e.last_name family) in
      linked (first (order_by before (select test db.employees)))
        (λ e q. let (m, p) = first-Member test db.employees e q in (m, ground arith))
    where
      linked :
          (o : Option Employee)
          → ((e : Employee) → o ≡ some e → Member e db.employees × (e.company ≡ t.pk))
          → let out : Result (Unit {0}) × Db = elim o [
            | none ↦ (ok tt, db)
            | some e ↦ elim (is_some e.user) [
              | true ↦ (ok tt, db)
              | false ↦
                  after
                    (get_or_create_user before email false employee (some t.pk) db)
                    (link before e)
            ]
          ] in
            Sound out
      linked none f = h
      linked (some e) f = choice (is_some e.user) _ _ h (
          after-Sound (get_or_create_user before email false employee (some t.pk) db)
            (link before e) (user-Sound email false employee (some t.pk) db h)
            λ u made.
              let same = user-tables email false employee (some t.pk) db in
              link-Sound t e u (get_or_create_user before email false employee (some t.pk) db).1
                (user-Sound email false employee (some t.pk) db h)
                (subst (λ (s : Tables). Member e s.employees) (sym same) (f e refl).0) (f e refl).1)

  -- Mira's lines, where the period is one of the company.
  seed_lines-Sound :
      (u : User) (now : ℕ) (t : Company) (period : PayPeriod) (db : Db)
      → WellFormed (tables db)
      → Member period db.periods
      → period.company ≡ t.pk
      → let d = seed_lines before (bound t u) now t period db in
        WellFormed (tables d) × (d.periods ≡ db.periods)
  unfolding seed_lines objects
  seed_lines-Sound u now t period db h m own =
      let test = λ (e : Employee).
        text_eq e.first_name (text "Mira") && text_eq e.last_name (text "Iqbal") in
      let rows = select (λ (e : Employee). e.company == t.pk) db.employees in
      lines (first (order_by before (select test rows))) (λ e q.
        let (n, _) = first-Member test rows e q in
        let (k, p) = Member-select (λ e. e.company == t.pk) db.employees e n in
        (
          any-Member (λ f. f.pk == e.pk && f.company == t.pk) e db.employees k (ground arith),
          any-Member (λ q. q.pk == period.pk && q.company == t.pk) period db.periods m
              (ground arith),
        ))
    where
      lines :
          (o : Option Employee)
          → ((e : Employee) → o ≡ some e → Refers db.employees db.periods t.pk e.pk period.pk)
          → let d : Db = elim o [
            | none ↦ db
            | some mira ↦
                seed_line
                  (bound t u)
                  now
                  deduction_kind
                  t
                  (sample_line mira period (text "Provident fund") 3500)
                  (seed_line
                    (bound t u)
                    now
                    bonus_kind
                    t
                    (sample_line mira period (text "Performance bonus") 5000)
                    db)
          ] in
            WellFormed (tables d) × (d.periods ≡ db.periods)
      lines none f = (h, refl)
      lines (some e) f =
          let bonus = sample_line e period (text "Performance bonus") 5000 in
          let deduction = sample_line e period (text "Provident fund") 3500 in
          let (w, es, ps) = seed_line-Sound (bound t u) now bonus_kind t bonus db h (f e refl) in
          let d = seed_line (bound t u) now bonus_kind t bonus db in
          let refers : Refers d.employees d.periods t.pk e.pk period.pk =
            subst (λ l. Refers l d.periods t.pk e.pk period.pk) (sym es)
              (subst (λ l. Refers db.employees l t.pk e.pk period.pk) (sym ps) (f e refl)) in
          let (w', es', ps') =
            seed_line-Sound (bound t u) now deduction_kind t deduction d w refers in
          (w', ps' ∙ ps)

  seed_run-Sound :
      (u : User) (t : Company) (period : PayPeriod) (db : Db)
      → WellFormed (tables db)
      → Member period db.periods
      → period.company ≡ t.pk
      → Sound (seed_run before (bound t u) period db)
  unfolding seed_run
  seed_run-Sound u t period db h m own =
      let r : Request = record { is_post = true; user = some u; tenant = some t } in
      Changes-WellFormed (some t) (tables db) h (run-Changes before r period _ _ db h m own)

  seed_rest-Sound :
      (hired now year month : ℕ) (acme beta : Company) (alice bob : User) (db : Db)
      → WellFormed (tables db)
      → Sound (seed_rest before hired now year month acme beta alice bob db)
  unfolding seed_rest
  seed_rest-Sound hired now year month acme beta alice bob db h =
      let half = seed_employees hired (bound acme alice) acme acme_roster db in
      let staffed = seed_employees hired (bound beta bob) beta beta_roster half in
      let w =
        Changes-WellFormed (some beta) (tables half)
          (Changes-WellFormed (some acme) (tables db) h
            (seed_employees-Changes hired (bound acme alice) acme acme_roster db))
          (seed_employees-Changes hired (bound beta bob) beta beta_roster half) in
      let (opened, there) = period-Sound now acme year month staffed w in
      after-Sound (get_or_create_period now acme year month staffed) _ opened λ period made.
        let d = (get_or_create_period now acme year month staffed).1 in
        let (m, own) = there period made in
        let (lined, same) = seed_lines-Sound alice now acme period d opened m own in
        let ready = seed_lines before (bound acme alice) now acme period d in
        after-Sound (seed_run before (bound acme alice) period ready) _
          (seed_run-Sound alice acme period ready lined (subst (λ l. Member period l) (sym same) m)
            own)
          λ ps paid.
            let ran =
              seed_run-Sound alice acme period ready lined
                (subst (λ l. Member period l) (sym same) m) own in
            after-Sound
              (link_employee_user before acme (text "Mira") (text "Iqbal") (text "mira@acme.local")
                (seed_run before (bound acme alice) period ready).1)
              _ (link_employee_user-Sound acme _ _ _ _ ran)
              λ _ _.
                link_employee_user-Sound beta _ _ _ _ (link_employee_user-Sound acme _ _ _ _ ran)

  seed_body-Sound :
      (hired now year month : ℕ) (db : Db)
      → WellFormed (tables db)
      → Sound (seed_body before hired now year month db)
  unfolding seed_body
  seed_body-Sound hired now year month db h =
      let a = user-Sound (text "ali@platform.local") true super_admin none db h in
      after-Sound (get_or_create_user before (text "ali@platform.local") true super_admin none db) _
        a
        λ ali _.
          let b = company-Sound (text "acme") (text "Acme Imports") (text "PK") (text "PKR") _ a in
          after-Sound (get_or_create_company _ _ _ _ _) _ b λ acme _.
            let c =
              company-Sound (text "beta") (text "Beta Exports") (text "ET") (text "ETB") _ b in
            after-Sound (get_or_create_company _ _ _ _ _) _ c λ beta _.
              let d = user-Sound (text "alice@acme.local") false company_admin (some acme.pk) _ c in
              after-Sound (get_or_create_user before _ _ _ _ _) _ d λ alice _.
                let e = user-Sound (text "bob@beta.local") false company_admin (some beta.pk) _ d in
                after-Sound (get_or_create_user before _ _ _ _ _) _ e
                  λ bob _. seed_rest-Sound hired now year month acme beta alice bob _ e

  atomic-Sound :
      (out : Result (Unit {0}) × Db) (db : Db)
      → WellFormed (tables db)
      → Sound out
      → let end : Result (Unit {0}) × Db = elim out.0 [
        | ok a ↦ (ok a, out.1)
        | err x ↦ (err x, db)
      ] in
        Sound end
  atomic-Sound (ok a, d) db h k = k
  atomic-Sound (err x, d) db h k = h

  -- The command that makes demonstration data leaves well-formed tables well formed, whatever rows
  -- are there before, and whether it succeeds or raises.
  pub seed_demo-WellFormed :
      (hired now year month : ℕ) (db : Db)
      → WellFormed (tables db)
      → WellFormed (tables (seed_demo before hired now year month db).1)
  unfolding seed_demo
  seed_demo-WellFormed hired now year month db h =
      atomic-Sound (seed_body before hired now year month db) db h
        (seed_body-Sound hired now year month db h)
