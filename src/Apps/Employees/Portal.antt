-- ===== src/Apps/Employees/Portal.antt =====
-- apps/employees/views.py, `create_portal_account_view`: whom it may make a user, and for whom.
use payroll_software.Base.{
  arith, ℕ, ◌+◌, true, false, ◌≡◌, refl, subst, ◌⊎◌, inl, inr, Option, none, some, [], ◌∷◌, ◌++◌,
  map, ◌==◌, first, select, Bool-cases, Option-cases, if◌then◌else◌,
}
use payroll_software.Base.Text.{Text, text_eq}
use payroll_software.Base.Result.{Result, ok, err, integrity_error}
use payroll_software.Database.{
  Company, User, employee, company_admin, payroll_manager, Employee, user_model, advance, Db,
}
use payroll_software.Apps.Tenants.{objects}
use payroll_software.Apps.Accounts.Manager.{
  refuses_user, new_user, insert_user, create_row, create_user,
}
use payroll_software.Apps.Http.{Request, Response, context_of}
use payroll_software.Apps.Employees.{
  may_create_accounts, link_user, open_account, portal_found, create_portal_account_view,
}

manages :
    (u : User)
    → may_create_accounts u ≡ true
    → (u.role ≡ company_admin) ⊎ (u.role ≡ payroll_manager)
manages u h = ground arith

module _ (normalize : Text → Text) where
  -- The account that a tenant opens for an address.
  abbrev pub account : Company → Text → Db → User
  account t email db =
      new_user normalize (db.next_pk user_model) email false false employee (some (t.pk))

  -- What the view did: nothing, or it added the account of an employee of the tenant and linked it.
  abbrev pub Granted : Request → ℕ → Db → Db → Type 0
  Granted r pk db after =
      (after ≡ db)
      ⊎ ((u : User) × (t : Company) × (e : Employee) × (r.user ≡ some u)
          × ((u.role ≡ company_admin) ⊎ (u.role ≡ payroll_manager))
          × (r.tenant ≡ some t)
          × (first (select (λ f. f.pk == pk) (objects (λ f. f.company) (context_of r) db.employees))
              ≡ some e)
          × (e.user ≡ none)
          × (after.users ≡ db.users ++ account t e.work_email db ∷ [])
          × (after.employees
              ≡ map
                  (λ f.
                    if f.pk == e.pk then record f { user = some (db.next_pk user_model) } else f)
                  db.employees))

  -- What opening the account did.
  abbrev Opened : Company → Employee → Db → Db → Type 0
  Opened t e db after =
      (after ≡ db)
      ⊎ ((after.users ≡ db.users ++ account t e.work_email db ∷ [])
          × (after.employees
              ≡ map
                  (λ f.
                    if f.pk == e.pk then record f { user = some (db.next_pk user_model) } else f)
                  db.employees))

  module _ (t : Company) (e : Employee) (db : Db) (given : text_eq e.work_email [] ≡ false) where
    abbrev creation : Result User × Db
    creation =
        create_user normalize e.work_email
          (record { is_staff = none; is_superuser = none; role = employee; company = some (t.pk) })
          db

    creation_refused :
        refuses_user normalize (account t e.work_email db) db.users ≡ true
        → creation ≡ (err integrity_error, db)
    unfolding create_user create_row insert_user
    creation_refused h = rw (given, h)

    creation_done :
        refuses_user normalize (account t e.work_email db) db.users ≡ false
        → creation ≡ (
          ok (account t e.work_email db),
          record db {
            users = db.users ++ account t e.work_email db ∷ [];
            next_pk = advance user_model (db.next_pk user_model + 1) db.next_pk;
          },
        )
    unfolding create_user create_row insert_user
    creation_done h = rw (given, h)

    open_account-Opened : (r : Request) → Opened t e db (open_account normalize r t e db).1
    unfolding open_account link_user
    open_account-Opened r =
        elim (Bool-cases (refuses_user normalize (account t e.work_email db) db.users)) [
          | inl h ↦ inl (rw (open_account, creation_refused h, creation_refused h))
          | inr h ↦ inr (
            rw (open_account, creation_done h, creation_done h),
            rw (open_account, creation_done h, creation_done h),
          )
        ]

  granted :
      (r : Request) (u : User) (t : Company) (pk : ℕ) (o : Option Employee) (db : Db)
      → r.user ≡ some u
      → may_create_accounts u ≡ true
      → r.tenant ≡ some t
      → first (select (λ f. f.pk == pk) (objects (λ f. f.company) (context_of r) db.employees)) ≡ o
      → Granted r pk db (portal_found normalize r t o db).1
  unfolding portal_found open_account
  granted r u t pk none db by may on found = inl refl
  granted r u t pk (some e) db by may on found = elim (Option-cases e.user) [
    | inr (k, linked) ↦ inl (rw (portal_found, linked))
    | inl free ↦ elim (Bool-cases (text_eq e.work_email [])) [
      | inl h ↦ inl (rw (portal_found, free, h))
      | inr h ↦ elim (open_account-Opened t e db h r) [
        | inl same ↦ inl (rw (portal_found, free, h) same)
        | inr (users, employees) ↦ inr (
          u,
          t,
          e,
          by,
          manages u may,
          on,
          found,
          free,
          rw (portal_found, free, h) users,
          rw (portal_found, free, h) employees,
        )
      ]
    ]
  ]

  view-step :
      (r : Request) (pk : ℕ) {u : User} {t : Company} (db : Db)
      → r.is_post ≡ true
      → r.user ≡ some u
      → r.tenant ≡ some t
      → may_create_accounts u ≡ true
      → portal_found normalize r t
          (first (select (λ f. f.pk == pk) (objects (λ f. f.company) (context_of r) db.employees)))
          db
        ≡ create_portal_account_view normalize r pk db
  unfolding create_portal_account_view
  view-step r pk db post by on may = simp (create_portal_account_view, post, by, on, may)

  -- The view changes nothing, or it adds one user and links it: then the request is by a company
  -- admin or a payroll manager on the host of a tenant, the employee asked for is one of that tenant
  -- without an account, and the user has the role employee in that company, without staff or
  -- superuser rights. All other users and employees stay as they are.
  pub create_portal_account_view-Granted :
      (r : Request) (pk : ℕ) (db : Db)
      → Granted r pk db (create_portal_account_view normalize r pk db).1
  unfolding create_portal_account_view
  create_portal_account_view-Granted r pk db = elim (Bool-cases r.is_post) [
    | inr get ↦ inl (rw (create_portal_account_view, get))
    | inl post ↦ elim (Option-cases r.user) [
      | inl anonymous ↦ inl (rw (create_portal_account_view, post, anonymous))
      | inr (u, by) ↦ elim (Option-cases r.tenant) [
        | inl bare ↦ inl (rw (create_portal_account_view, post, by, bare))
        | inr (t, on) ↦ elim (Bool-cases (may_create_accounts u)) [
          | inr barred ↦ inl (rw (create_portal_account_view, post, by, on, barred))
          | inl may ↦
              subst (λ (out : Response Unit × Db). Granted r pk db out.1)
                (view-step r pk db post by on may)
                (granted r u t pk
                  (first (
                    select (λ f. f.pk == pk)
                      (objects (λ f. f.company) (context_of r) db.employees)))
                  db by may on refl)
        ]
      ]
    ]
  ]
