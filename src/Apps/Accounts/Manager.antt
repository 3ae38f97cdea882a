-- ===== src/Apps/Accounts/Manager.antt =====
-- apps/accounts/models.py, `UserManager`: how users are made.
use payroll_software.Base.{
  ℕ, ◌+◌, Bool, true, false, not, ◌||◌, Option, none, some, List, [], ◌∷◌, ◌++◌, any, if◌then◌else◌,
}
use payroll_software.Base.Text.{Text, text_eq}
use payroll_software.Base.Result.{Result, ok, err, value_error, integrity_error}
use payroll_software.Database.{User, Role, super_admin, user_model, advance, Db}
use payroll_software.Apps.Accounts.{super_admin_xor_company}

-- `dict.setdefault`
abbrev pub set_default : {A : Type 0} → A → Option A → A
set_default d none = d
set_default d (some a) = a

-- The keyword arguments; none where the caller did not give one. Every caller of `create_user` in
-- the program gives a role.
pub record ExtraFields (R : Type 0) : Type 0 where
  pub is_staff : Option Bool
  pub is_superuser : Option Bool
  pub role : R
  pub company : Option ℕ

-- `normalize` is `normalize_email` of Django's manager.
module _ (normalize : Text → Text) where
  -- The constraints of the table: unique addresses, and super_admin_xor_company.
  unfoldable pub refuses_user : User → List User → Bool
  refuses_user u users =
      any (λ v. text_eq v.email u.email) users || not (super_admin_xor_company u.role u.company)

  abbrev pub new_user : ℕ → Text → Bool → Bool → Role → Option ℕ → User
  new_user pk email staff superuser role company = record {
    pk = pk;
    email = normalize email;
    role = role;
    company = company;
    is_active = true;
    is_staff = staff;
    is_superuser = superuser;
  }

  -- `user.save()` of a new row.
  unfoldable pub insert_user : User → Db → Result User × Db
  insert_user u db = if refuses_user u db.users then (err integrity_error, db) else (
    ok u,
    record db { users = db.users ++ u ∷ []; next_pk = advance user_model (u.pk + 1) db.next_pk },
  )

  -- `_create_user`; passwords are not modelled.
  unfoldable pub create_row : Text → Bool → Bool → Role → Option ℕ → Db → Result User × Db
  create_row email staff superuser role company db =
      if text_eq email []
      then (err value_error, db)
      else insert_user (new_user (db.next_pk user_model) email staff superuser role company) db

  -- `create_user`
  unfoldable pub create_user : Text → ExtraFields Role → Db → Result User × Db
  create_user email extra =
      create_row email (set_default false extra.is_staff) (set_default false extra.is_superuser)
        extra.role extra.company

  -- `create_superuser`
  unfoldable pub create_superuser : Text → ExtraFields (Option Role) → Db → Result User × Db
  create_superuser email extra db =
      let staff = set_default true extra.is_staff in
      let superuser = set_default true extra.is_superuser in
      if not staff || not superuser
      then (err value_error, db)
      else create_row email staff superuser (set_default super_admin extra.role) extra.company db
