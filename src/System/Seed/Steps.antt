-- ===== src/System/Seed/Steps.antt =====
-- apps/tenants/management/commands/seed_demo.py: the steps of the command that make rows of tenants.
use payroll_software.Base.{
  ℕ, Bool, true, false, ◌&&◌, ◌==◌, ◌≡◌, refl, sym, ap, ◌∙◌, subst, inl, inr, none, some, List, [],
  ◌∷◌, ◌++◌, any, select, first, first-select, Member, Option-cases, Bool-cases, arith,
  if◌then◌else◌,
}
use payroll_software.Base.Text.{Text, text_eq}
use payroll_software.Base.Result.{Result, ok, err, ok-injective, err≢ok}
use payroll_software.Database.{
  status_open, Company, PayPeriod, employee_model, pay_period_model, Db, Context,
}
use payroll_software.Apps.Http.{Request}
use payroll_software.Apps.Tenants.{objects}
use payroll_software.Apps.Employees.Crud.{EmployeeFields, with_fields, blank, insert_employee}
use payroll_software.Apps.Compensation.{Kind, Posted, save_line, table}
use payroll_software.Apps.Payroll.Period.{breaks_constraint, create_period}
use payroll_software.Apps.Seed.Rows.{
  after, unbound, get_or_create_company, Sample, is_listed, sample_fields, seed_employees,
  get_or_create_period, seed_line,
}
use payroll_software.System.Tables.{
  tables, WellFormed, Refers, Change, hire, Changes, none_yet, once, Changes-trans,
}
use payroll_software.System.Sound.{Changes-WellFormed}
use payroll_software.System.Periods.{create_period-Changes}
use payroll_software.System.Adjustments.{save_line-Change}

-- The tables are well formed after a step, however it ended.
abbrev pub Sound : {A : Type 0} → Result A × Db → Type 0
Sound out = WellFormed (tables out.1)

pub after-Sound :
    {A B : Type 0} (out : Result A × Db) (next : A → Db → Result B × Db)
    → Sound out
    → ((a : A) → out.0 ≡ ok a → Sound (next a out.1))
    → Sound (after out next)
after-Sound (ok a, db) next h k = k a refl
after-Sound (err x, db) next h k = h

pub company-Sound :
    (slug name country currency : Text) (db : Db)
    → WellFormed (tables db)
    → Sound (get_or_create_company slug name country currency db)
unfolding get_or_create_company
company-Sound slug name country currency db h =
    elim (Option-cases (first (select (λ c. text_eq c.slug slug) db.companies))) [
      | inl n ↦ rw (n, get_or_create_company) h
      | inr (c, n) ↦ rw (n, get_or_create_company) h
    ]

insert_employee-Change :
    (ctx : Context) (t : Company) (f : EmployeeFields) (db : Db)
    → Change (some t) (tables db) (tables (insert_employee ctx t.pk f db))
unfolding insert_employee
insert_employee-Change ctx t f db =
    hire (with_fields f (blank (db.next_pk employee_model) t.pk)) refl refl

either-Changes :
    (t : Company) (b : Bool) (db db' : Db)
    → Changes (some t) (tables db) (tables db')
    → Changes (some t) (tables db) (tables (if b then db else db'))
either-Changes t true db db' c = none_yet
either-Changes t false db db' c = c

pub seed_employees-Changes :
    (hired : ℕ) (ctx : Context) (t : Company) (roster : List Sample) (db : Db)
    → Changes (some t) (tables db) (tables (seed_employees hired ctx t roster db))
unfolding seed_employees
seed_employees-Changes hired ctx t [] db = none_yet
seed_employees-Changes hired ctx t (s ∷ roster) db =
    Changes-trans
      (either-Changes t (is_listed ctx s db.employees) db
        (insert_employee ctx t.pk (sample_fields hired s) db)
        (once (insert_employee-Change ctx t (sample_fields hired s) db)))
      (seed_employees-Changes hired ctx t roster _)

Member-added : {A : Type 0} (xs : List A) (x : A) → Member x (xs ++ x ∷ [])
Member-added [] x = inl refl
Member-added (y ∷ xs) x = inr (Member-added xs x)

-- The period that a step returns is there, and is one of the company.
abbrev pub Opens : Company → Result PayPeriod × Db → Type 0
Opens t out = (p : PayPeriod) → out.0 ≡ ok p → Member p out.1.periods × (p.company ≡ t.pk)

create_period-Opens :
    (now : ℕ) (t : Company) (year month : ℕ) (db : Db)
    → Opens t (create_period unbound now t.pk year month db)
unfolding create_period
create_period-Opens now t year month db =
    let p : PayPeriod = record {
      pk = db.next_pk pay_period_model;
      company = t.pk;
      year = year;
      month = month;
      status = status_open;
      closed_at = none;
      closed_by = none;
      created_at = now;
      updated_at = now;
    } in
    elim (Bool-cases (breaks_constraint p db.periods)) [
      | inl h ↦ rw h (λ q e. absurd (err≢ok e))
      | inr h ↦ rw h (λ q e. (
        subst (λ o. Member o (db.periods ++ p ∷ [])) (ok-injective e) (Member-added db.periods p),
        ap (λ (o : PayPeriod). o.company) (sym (ok-injective e)),
      ))
    ]

on_host : Company → Request
on_host t = record { is_post = true; user = none; tenant = some t }

pub period-Sound :
    (now : ℕ) (t : Company) (year month : ℕ) (db : Db)
    → WellFormed (tables db)
    → let out = get_or_create_period now t year month db in Sound out × Opens t out
unfolding get_or_create_period on_host
period-Sound now t year month db h =
    let test = λ (p : PayPeriod). p.company == t.pk && (p.year == year && p.month == month) in
    elim (Option-cases (first (select test db.periods))) [
      | inl n ↦
          rw (n, get_or_create_period)
            (
              Changes-WellFormed (some t) (tables db) h
                  (create_period-Changes (on_host t) db h unbound now year month t refl),
              create_period-Opens now t year month db,
            )
      | inr (p, n) ↦
          let (m, q) = first-select test db.periods p n in
          let own : p.company ≡ t.pk = ground arith in
          rw (n, get_or_create_period)
            (
              h,
              λ o e. (
                subst (λ o. Member o db.periods) (ok-injective e) m,
                ap (λ (o : PayPeriod). o.company) (sym (ok-injective e)) ∙ own,
              ),
            )
    ]

-- Adding a sample adjustment: the tables stay well formed, with the same employees and periods.
pub seed_line-Sound :
    (ctx : Context) (now : ℕ) (kind : Kind) (t : Company) (f : Posted) (db : Db)
    → WellFormed (tables db)
    → Refers db.employees db.periods t.pk f.employee f.period
    → let d = seed_line ctx now kind t f db in
      WellFormed (tables d) × (d.employees ≡ db.employees) × (d.periods ≡ db.periods)
unfolding seed_line save_line on_host
seed_line-Sound ctx now kind t f db h refers =
    elim (Bool-cases (
      any (λ l. l.employee == f.employee && l.period == f.period)
        (objects (λ l. l.company) ctx (table kind db.adjustments)))) [
          | inl e ↦ rw (e, seed_line) (h, refl, refl)
          | inr e ↦
              rw (e, seed_line)
                (
                  Changes-WellFormed (some t) (tables db) h
                      (once (save_line-Change (on_host t) db ctx now kind t f refl refers)),
                  refl,
                  refl,
                )
        ]
