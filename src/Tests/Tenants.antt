-- ===== src/Tests/Tenants.antt =====
-- apps/tenants and apps/accounts: hosts, middleware, row-level security and sign-in.
use payroll_software.Base.{
  ℕ, true, false, none, some, [], ◌∷◌, ◌++◌, ◌≡◌, ◌↔◌, refl, any, if◌then◌else◌, ◌==◌,
}
use payroll_software.Base.Text.{Text, text, text_eq}
use payroll_software.Base.Result.{ok, err, runtime_error}
use payroll_software.Apps.Tenants.{
  resolve_tenant, company_by_slug, lower, before_colon, without_suffix,
}
use payroll_software.Apps.Tenants.Hosts.{
  valid_slug, is_label_char, normal, resolve_tenant-slug, resolve_tenant_sound,
}
use payroll_software.Apps.Tenants.Middleware.{World, Handler, session_vars, serve, serve_restores}
use payroll_software.Apps.Accounts.{
  tenant_id, confirm_login_allowed, confirm_login_allowed_iff, super_admin_xor_company,
}
use payroll_software.Tests.Data.{acme, globex, boss}

abbrev host : Text
host = text "Acme.pay.example:8000"

abbrev base_domain : Text
base_domain = text "pay.example"

acme-valid_slug : valid_slug (text "acme") ≡ true
unfolding valid_slug is_label_char text_eq
acme-valid_slug = refl

host-normal : normal host ≡ text "acme" ++ (b'.' ∷ normal base_domain)
unfolding lower before_colon
host-normal = refl

resolve_tenant-slug_example :
    resolve_tenant host base_domain (acme ∷ globex ∷ [])
    ≡ company_by_slug (text "acme") (acme ∷ globex ∷ [])
resolve_tenant-slug_example =
    resolve_tenant-slug host base_domain (text "acme") (acme ∷ globex ∷ []) acme-valid_slug
      host-normal

host_resolves : resolve_tenant host base_domain (acme ∷ globex ∷ []) ≡ some acme
unfolding resolve_tenant lower before_colon without_suffix text_eq
host_resolves = refl

resolve_tenant_sound_example :
    (normal host ≡ acme.slug ++ (b'.' ∷ normal base_domain))
    × (acme.is_active ≡ true)
    × (any (λ d. d == b'.') acme.slug ≡ false)
resolve_tenant_sound_example =
    resolve_tenant_sound host base_domain (acme ∷ globex ∷ []) host_resolves

-- A view that binds another tenant and fails.
abbrev unruly : Handler ℕ
unruly tenant w = (
  err runtime_error,
  record w { context = record { current_tenant = some globex; current_user = none } },
)

abbrev idle : World
idle = record {
  context = record { current_tenant = none; current_user = none };
  guc = session_vars none none;
}

serve_restores_example :
    let companies = acme ∷ globex ∷ [] in
    let tenant = resolve_tenant host base_domain companies in
    let (r, after) = serve false base_domain companies host (some boss) unruly idle in
    (after.context.current_user ≡ idle.context.current_user)
    × (after.context.current_tenant ≡ (if false then idle.context.current_tenant else tenant))
    × (r ≡ (
        if false
        then (unruly tenant (record {
          context = record { current_tenant = tenant; current_user = some boss };
          guc = session_vars (some boss) tenant;
        })).0
        else err runtime_error))
serve_restores_example =
    serve_restores false base_domain (acme ∷ globex ∷ []) host (some boss) unruly idle

boss_fits : super_admin_xor_company boss.role boss.company ≡ true
unfolding super_admin_xor_company
boss_fits = refl

confirm_login_allowed_iff_example :
    (confirm_login_allowed (λ u. ok tt) (some globex) boss ≡ ok tt)
    ↔ (boss.company ≡ tenant_id (some globex))
confirm_login_allowed_iff_example =
    confirm_login_allowed_iff (λ u. ok tt) (some globex) boss boss_fits refl
