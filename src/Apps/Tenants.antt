-- ===== src/Apps/Tenants.antt =====
-- apps/tenants: the tenant binding of a request (context.py, middleware.py) and the scoped manager
-- (managers.py).
pub mod Hosts
pub mod Middleware
pub mod Rls
use payroll_software.Base.{
  ℕ, Bool, true, false, not, ◌&&◌, ◌||◌, Option, none, some, List, [], ◌∷◌, ◌++◌, map, ◌==◌, leb,
  ◌+◌, if◌then◌else◌, select, first, any,
}
use payroll_software.Base.Text.{Text, text, text_eq}
use payroll_software.Base.Result.{Result, ok, err, runtime_error}
use payroll_software.Database.{Company, User, Db, Context}

-- `str.lower` of a character; a host name has ASCII letters only (django checks it).
unfoldable pub lower : ℕ → ℕ
lower c = if leb b'A' c && leb c b'Z' then c + 32 else c

-- `s.split(":", 1)[0]`
unfoldable pub before_colon : Text → Text
before_colon [] = []
before_colon (c ∷ s) = if c == b':' then [] else c ∷ before_colon s

-- `s[:-len(suffix)]` where `s.endswith(suffix)`, and none where it does not.
unfoldable pub without_suffix : Text → Text → Option Text
without_suffix suffix [] = if text_eq [] suffix then some [] else none
without_suffix suffix (c ∷ s) =
    if text_eq (c ∷ s) suffix
    then some []
    else elim (without_suffix suffix s) [ none ↦ none | some t ↦ some (c ∷ t) ]

-- `Company.objects.filter(slug=slug, is_active=True).first()`
abbrev pub company_by_slug : Text → List Company → Option Company
company_by_slug slug companies = first (select (λ c. text_eq c.slug slug && c.is_active) companies)

-- `_resolve_tenant`, of the host and the setting TENANT_BASE_DOMAIN.
unfoldable pub resolve_tenant : Text → Text → List Company → Option Company
resolve_tenant raw_host base_domain companies =
    let host = map lower (before_colon raw_host) in
    let base = map lower (before_colon base_domain) in
    if text_eq host base then none else elim (without_suffix (b'.' ∷ base) host) [
      | none ↦ none
      | some slug ↦
          if text_eq slug [] || any (λ c. c == b'.') slug
          then none
          else company_by_slug slug companies
    ]

-- `TenantManager.get_queryset`, over the rows of a table and their company.
unfoldable pub objects {ℓ} : {A : Type ℓ} → (A → ℕ) → Context → List A → List A
objects company ctx rows = elim ctx.current_tenant [
  | none ↦ []
  | some t ↦ select (λ r. company r == t.pk) rows
]

-- `require_current_tenant`
unfoldable pub require_current_tenant : Context → Result Company
require_current_tenant ctx = elim ctx.current_tenant [ none ↦ err runtime_error | some t ↦ ok t ]

-- `with tenant_context(tenant): block`; the block may rebind the variable and may raise.
unfoldable pub tenant_context {ℓ} :
    {A : Type ℓ} → Option Company → (Context → Result A × Context) → Context → Result A × Context
tenant_context tenant block ctx =
    let (r, after) = block (record ctx { current_tenant = tenant }) in
    (r, record after { current_tenant = ctx.current_tenant })
