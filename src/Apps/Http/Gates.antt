-- ===== src/Apps/Http/Gates.antt =====
-- Whom the gates of apps/payroll/views.py and apps/employees/views.py let through.
use mathlib.Core.Option.{some-ne-none}
use payroll_software.Base.{none, some, ◌≡◌, ◌≢◌, ◌↔◌, arith, inl, inr, Option-cases}
use payroll_software.Database.{Company, User, employee}
use payroll_software.Apps.Http.{Request, tenant_required}

let_through :
    (r : Request)
    → tenant_required r ≡ none
    → (u : User) × (t : Company) × (r.user ≡ some u) × (r.tenant ≡ some t) × (u.role ≢ employee)
unfolding tenant_required
let_through r h = elim (Option-cases r.user) [
  | inl n ↦ absurd (some-ne-none _ (rw n at h))
  | inr (u, e) ↦ elim (Option-cases r.tenant) [
    | inl n ↦ absurd (some-ne-none _ (rw (e, n) at h))
    | inr (t, f) ↦ (u, t, e, f, ground arith)
  ]
]

-- The gate of the staff pages lets a request through exactly if its user is signed in with another
-- role than employee and its host has a tenant.
pub tenant_required_iff :
    (r : Request)
    → (tenant_required r ≡ none)
      ↔ ((u : User) × (t : Company) × (r.user ≡ some u) × (r.tenant ≡ some t) × (u.role ≢ employee))
unfolding tenant_required
tenant_required_iff r = (let_through r, λ h. ground arith)

-- The gate does not compare the user's company with the tenant: whoever is let through is let
-- through on the host of every other tenant too.
pub tenant_required_elsewhere :
    (r : Request) (other : Company)
    → tenant_required r ≡ none
    → tenant_required (record r { tenant = some other }) ≡ none
unfolding tenant_required
tenant_required_elsewhere r other h = ground arith
