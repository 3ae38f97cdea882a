-- ===== src/System/Imports.antt =====
-- The portal account of apps/employees/views.py and the import of apps/employees/csv_import.py
-- refine the specification.
use payroll_software.Base.{
  ℕ, ◌+◌, ◌||◌, ◌≡◌, refl, sym, subst, inl, inr, Option, none, some, List, [], ◌∷◌, ◌++◌,
  Bool-cases, is_some, not, any, if◌then◌else◌, ◌==◌, Member,
}
use payroll_software.Base.Text.{Text, text_eq, is_member}
use payroll_software.Base.Result.{Result, ok, err, value_error, integrity_error}
use payroll_software.Domain.Decimal.{Decimal}
use payroll_software.Database.{Context, Company, User, Role, Employee, employee_model, Db, employee}
use payroll_software.Apps.Accounts.Manager.{
  ExtraFields, create_user, create_row, insert_user, refuses_user,
}
use payroll_software.Apps.Http.{
  rendered, Request, Response, context_of, is_employee, redirected, server_error,
}
use payroll_software.Apps.Employees.{
  may_create_accounts, link_user, open_account, portal_found, create_portal_account_view,
}
use payroll_software.Apps.Employees.Csv.{
  Row, RowOutcome, create_employee, import_row, import_rows, import_employees, required_columns,
  csv_import_view,
}
use payroll_software.Apps.Employees.Csv.Rows.{Yields, Numbered, row_to_employee-Yields}
use payroll_software.System.Tables.{
  Tables, tables, WellFormed, Owns, Change, hire, edit, Changes, none_yet, once, Changes-trans,
}
use payroll_software.System.Branches.{after_ban, after_method, after_find, found_row}
use payroll_software.System.Employees.{edit_one}

module _ (normalize : Text → Text) where
  -- A new user is in none of the tables of the tenants.
  pub insert_user-tables : (u : User) (db : Db) → tables (insert_user normalize u db).1 ≡ tables db
  unfolding insert_user
  insert_user-tables u db = elim (Bool-cases (refuses_user normalize u db.users)) [
    | inl h ↦ rw h refl
    | inr h ↦ rw h refl
  ]

  create_user-tables :
      (email : Text) (extra : ExtraFields Role) (db : Db)
      → tables (create_user normalize email extra db).1 ≡ tables db
  unfolding create_user create_row
  create_user-tables email extra db = elim (Bool-cases (text_eq email [])) [
    | inl h ↦ rw h refl
    | inr h ↦ rw h (insert_user-tables _ db)
  ]

  pub link_user-Change :
      (ctx : Context) (t : Option Company) (e : Employee) (u : User) (db : Db)
      → WellFormed (tables db)
      → Member e db.employees
      → Owns t e.company
      → Change t (tables db) (tables (link_user ctx e.pk u db))
  unfolding link_user
  link_user-Change ctx t e u db h m own =
      edit (λ f. if f.pk == e.pk then record f { user = some (u.pk) } else f)
        (edit_one t (db.next_pk employee_model) db.employees (λ f. record f { user = some (u.pk) })
          e h.employees m own refl refl)

  module _ (r : Request) (db : Db) (h : WellFormed (tables db)) where
    abbrev Reached : Db → Type 0
    Reached after = Changes r.tenant (tables db) (tables after)

    -- Once the account was made, or not, in a state with the same tables.
    opened :
        (e : Employee) (made : Result User) (db' : Db)
        → Member e db.employees
        → Owns r.tenant e.company
        → tables db' ≡ tables db
        → let out : Response Unit × Db = elim made [
          | ok u ↦ (redirected, link_user (context_of r) e.pk u db')
          | err integrity_error ↦ (redirected, db')
          | err x ↦ (server_error, db')
        ] in
          Reached out.1
    opened e (ok u) db' m own same =
        subst (λ s. Changes r.tenant s (tables (link_user (context_of r) e.pk u db'))) same
          (once (
            link_user-Change (context_of r) r.tenant e u db' (subst WellFormed (sym same) h)
              (subst (λ (s : Tables). Member e s.employees) (sym same) m) own))
    opened e (err integrity_error) db' m own same =
        subst (λ s. Changes r.tenant (tables db) s) (sym same) none_yet
    opened e (err x) db' m own same =
        subst (λ s. Changes r.tenant (tables db) s) (sym same) none_yet

    account-Changes :
        (t : Company) (e : Employee)
        → Member e db.employees
        → Owns r.tenant e.company
        → Reached (open_account normalize r t e db).1
    unfolding open_account
    account-Changes t e m own =
        let extra : ExtraFields Role = record {
          is_staff = none;
          is_superuser = none;
          role = employee;
          company = some (t.pk);
        } in
        opened e (create_user normalize e.work_email extra db).0
          (create_user normalize e.work_email extra db).1 m own
          (create_user-tables e.work_email extra db)

    portal-Changes :
        (t : Company) (o : Option Employee)
        → ((e : Employee) → o ≡ some e → Member e db.employees × Owns r.tenant e.company)
        → Reached (portal_found normalize r t o db).1
    unfolding portal_found
    portal-Changes t none f = none_yet
    portal-Changes t (some e) f = elim (Bool-cases (is_some e.user || text_eq e.work_email [])) [
      | inl q ↦ rw q none_yet
      | inr q ↦ rw q (account-Changes t e (f e refl).0 (f e refl).1)
    ]

    pub create_portal_account_view-Changes :
        (pk : ℕ) → Reached (create_portal_account_view normalize r pk db).1
    unfolding create_portal_account_view
    create_portal_account_view-Changes pk = after_method Reached r.is_post _ _ none_yet λ _.
        after_find Reached r.user _ _ none_yet λ u _.
          after_find Reached r.tenant _ _ none_yet λ t _.
            after_method Reached (may_create_accounts u) _ _ none_yet λ _.
              portal-Changes t _ (λ e found.
                let (m, key, own) =
                  found_row (λ (e : Employee). e.company) (λ e. e.pk) (context_of r) pk db.employees
                    e found in
                (m, own))

module _ (strip lowered : Text → Text) (fromisoformat : Text → Option ℕ)
    (decimal : Text → Option Decimal) (r : Request) where
  abbrev Grows : Db → Db → Type 0
  Grows db after = Changes r.tenant (tables db) (tables after)

  create_employee-Change :
      (company : Company) (e : Employee) (db : Db)
      → r.tenant ≡ some company
      → e.pk ≡ db.next_pk employee_model
      → e.company ≡ company.pk
      → Change r.tenant
          (tables db)
          (tables (create_employee strip lowered fromisoformat decimal (context_of r) e db))
  unfolding create_employee
  create_employee-Change company e db on key own =
      subst
        (λ k.
          Change r.tenant (tables db)
            (record (tables db) { employees = db.employees ++ e ∷ []; next_employee = k + 1 }))
        (sym key) (hire e key (rw on own))

  row-Changes :
      (company : Company) (line : ℕ) (next : Db → Result (List RowOutcome) × Db)
      (result : Result Employee) (db : Db)
      → r.tenant ≡ some company
      → Yields (Numbered (db.next_pk employee_model) company) result
      → ((d : Db) → Grows d (next d).1)
      → Grows db
          (import_row strip lowered fromisoformat decimal
            (context_of r)
            line
            (db.next_pk employee_model)
            next
            result
            db).1
  unfolding import_row
  row-Changes company line next (ok e) db on h ih =
      Changes-trans (once (create_employee-Change company e db on h.0 h.1.0))
        (ih (create_employee strip lowered fromisoformat decimal (context_of r) e db))
  row-Changes company line next (err value_error) db on h ih = ih db
  row-Changes company line next (err x) db on h ih = none_yet

  import_rows-Changes :
      (company : Company) (line : ℕ) (rows : List Row) (db : Db)
      → r.tenant ≡ some company
      → Grows db
          (import_rows strip lowered fromisoformat decimal (context_of r) company line rows db).1
  unfolding import_rows
  import_rows-Changes company line [] db on = none_yet
  import_rows-Changes company line (row ∷ rows) db on =
      row-Changes company line _ _ db on
        (row_to_employee-Yields strip lowered fromisoformat decimal (db.next_pk employee_model)
          company row)
        (λ d. import_rows-Changes company (line + 1) rows d on)

  uploaded :
      (t : Company) (file : Option (List Text × List Row)) (db : Db)
      → r.tenant ≡ some t
      → let out : Response (Option (List RowOutcome)) × Db = elim file [
        | none ↦ (rendered none, db)
        | some (headers, rows) ↦
            let (outcomes, db') =
              import_employees strip lowered fromisoformat decimal
                (context_of r)
                t
                headers
                rows
                db in
            (elim outcomes [ ok l ↦ rendered (some l) | err x ↦ server_error ], db')
      ] in
        Grows db out.1
  unfolding import_employees
  uploaded t none db on = none_yet
  uploaded t (some (headers, rows)) db on =
      elim (Bool-cases (any (λ c. not (is_member c headers)) required_columns)) [
        | inl q ↦ rw q none_yet
        | inr q ↦ rw q (import_rows-Changes t 2 rows db on)
      ]

  pub csv_import_view-Changes :
      (file : Option (List Text × List Row)) (db : Db)
      → Grows db (csv_import_view strip lowered fromisoformat decimal r file db).1
  unfolding csv_import_view
  csv_import_view-Changes file db = after_find (Grows db) r.user _ _ none_yet λ u _.
      after_find (Grows db) r.tenant _ _ none_yet λ t on.
        after_ban (Grows db) (is_employee u) _ _ none_yet
          (after_method (Grows db) r.is_post _ _ none_yet λ _. uploaded t file db on)
