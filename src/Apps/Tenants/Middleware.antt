-- ===== src/Apps/Tenants/Middleware.antt =====
-- apps/tenants/middleware.py and apps/accounts/middleware.py: what a request binds, and for how long.
use payroll_software.Base.{ℕ, Bool, true, false, Option, none, some, ◌≡◌, refl, if◌then◌else◌, List}
use payroll_software.Base.Text.{Text}
use payroll_software.Base.Result.{Result, err, runtime_error}
use payroll_software.Database.{Company, User, super_admin, Context}
use payroll_software.Apps.Tenants.{resolve_tenant}

-- The session variables `app.current_tenant_id` (none for the empty text) and `app.is_super_admin`.
pub record Guc : Type 0 where
  pub current_tenant_id : Option ℕ
  pub is_super_admin : Bool

-- What outlives a request: the two ContextVars, and the variables of the database session.
pub record World : Type 0 where
  pub context : Context
  pub guc : Guc

abbrev pub is_super : User → Bool
is_super u = elim u.role [ super_admin ↦ true | _ ↦ false ]

-- `_apply_rls_session_vars`: the values set for a signed-in user (none if anonymous) and a tenant.
unfoldable pub session_vars : Option User → Option Company → Guc
session_vars user (some t) = record { current_tenant_id = some t.pk; is_super_admin = false }
session_vars none none = record { current_tenant_id = none; is_super_admin = false }
session_vars (some u) none = record { current_tenant_id = none; is_super_admin = is_super u }

-- A view, under what the middleware bound.
abbrev pub Handler : Type 0 → Type 0
Handler A = Option Company → World → Result A × World

-- `TenantResolutionMiddleware.__call__`. `connected` is whether the database accepts the
-- `set_config` statement; where it does not, the exception leaves before the `try`. The lookup of
-- the company, which comes first, is taken to succeed.
unfoldable pub tenant_middleware :
    {A : Type 0}
    → Bool
    → Text
    → List Company
    → Text
    → Option User
    → Handler A
    → World
    → Result A × World
tenant_middleware connected base companies host user get_response w =
    let tenant = resolve_tenant host base companies in
    let bound = record w { context = record (w.context) { current_tenant = tenant } } in
    let (r, after) = get_response tenant (record bound { guc = session_vars user tenant }) in
    if connected
    then (
      r,
      record after {
        context = record (after.context) { current_tenant = w.context.current_tenant };
      },
    )
    else (err runtime_error, bound)

-- `UserContextMiddleware.__call__`, for the signed-in user (none if anonymous).
unfoldable pub user_middleware :
    {A : Type 0} → Option User → (World → Result A × World) → World → Result A × World
user_middleware user get_response w =
    let (r, after) =
      get_response (record w { context = record (w.context) { current_user = user } }) in
    (r, record after { context = record (after.context) { current_user = w.context.current_user } })

-- The middleware in the order of the setting MIDDLEWARE.
unfoldable pub serve :
    {A : Type 0}
    → Bool
    → Text
    → List Company
    → Text
    → Option User
    → Handler A
    → World
    → Result A × World
serve connected base companies host user view =
    user_middleware user (tenant_middleware connected base companies host user view)

-- However a request ends, it leaves the signed-in user's ContextVar as it found it, and so the
-- tenant's, except where the database refuses the session variables: then the request raises, and
-- the tenant of its host stays bound. Otherwise the result is the view's, which sees the signed-in
-- user, the tenant of the host, and the session variables for these two.
pub serve_restores :
    {A : Type 0} (connected : Bool) (base : Text) (companies : List Company) (host : Text)
    (user : Option User) (view : Handler A) (w : World)
    → let tenant = resolve_tenant host base companies in
      let (r, after) = serve connected base companies host user view w in
      (after.context.current_user ≡ w.context.current_user)
      × (after.context.current_tenant ≡ (if connected then w.context.current_tenant else tenant))
      × (r ≡ (
          if connected
          then (view tenant (record {
            context = record { current_tenant = tenant; current_user = user };
            guc = session_vars user tenant;
          })).0
          else err runtime_error))
unfolding serve user_middleware tenant_middleware
serve_restores true base companies host user view w = (refl, refl, refl)
serve_restores false base companies host user view w = (refl, refl, refl)
