-- ===== src/System/Branches.antt =====
-- The branches of a view of Django: what holds of the state at the end of each holds of the view's.
use payroll_software.Base.{
  ℕ, Bool, true, false, ◌≡◌, refl, Option, none, some, ◌==◌, select, first, first-select, Member,
  arith,
}
use payroll_software.Base.{List, [], Member-select}
use payroll_software.Database.{Company, Db, Context}
use payroll_software.Apps.Http.{Response, Denial, denied}
use payroll_software.Apps.Tenants.{objects}
use payroll_software.System.Tables.{Owns}

module _ {B : Type 0} (P : Db → Type 0) where
  pub after_gate :
      (d : Option Denial) (db : Db) (rest : Response B × Db)
      → P db
      → P rest.1
      → let out : Response B × Db = elim d [ some x ↦ (denied x, db) | none ↦ rest ] in P out.1
  after_gate none db rest h k = k
  after_gate (some x) db rest h k = h

  pub after_method :
      (post : Bool) (refused served : Response B × Db)
      → P refused.1
      → (post ≡ true → P served.1)
      → let out : Response B × Db = elim post [ false ↦ refused | true ↦ served ] in P out.1
  after_method false refused served h k = h
  after_method true refused served h k = k refl

  pub after_ban :
      (banned : Bool) (refused served : Response B × Db)
      → P refused.1
      → P served.1
      → let out : Response B × Db = elim banned [ true ↦ refused | false ↦ served ] in P out.1
  after_ban false refused served h k = k
  after_ban true refused served h k = h

  pub after_find :
      {A : Type 0} (o : Option A) (refused : Response B × Db) (served : A → Response B × Db)
      → P refused.1
      → ((a : A) → o ≡ some a → P (served a).1)
      → let out : Response B × Db = elim o [ none ↦ refused | some a ↦ served a ] in P out.1
  after_find none refused served h k = h
  after_find (some a) refused served h k = k a refl

module _ {A : Type 0} (company key : A → ℕ) where
  found_among :
      (t : Option Company) (k : ℕ) (rows : List A) (a : A)
      → let scoped : List A = elim t [
        | none ↦ []
        | some t ↦ select (λ r. company r == t.pk) rows
      ] in
        first (select (λ r. key r == k) scoped) ≡ some a
        → Member a rows × (key a ≡ k) × Owns t (company a)
  found_among none k rows a h = absurd (cc)
  found_among (some t) k rows a h =
      let (m, q) = first-select (λ r. key r == k) (select (λ r. company r == t.pk) rows) a h in
      let (m', own) = Member-select (λ r. company r == t.pk) rows a m in
      (m', ground arith, ground arith)

  -- What a manager scoped by the tenant finds is a row of the tenant.
  pub found_row :
      (ctx : Context) (k : ℕ) (rows : List A) (a : A)
      → first (select (λ r. key r == k) (objects company ctx rows)) ≡ some a
      → Member a rows × (key a ≡ k) × Owns ctx.current_tenant (company a)
  unfolding objects
  found_row ctx k rows a h = found_among ctx.current_tenant k rows a h
