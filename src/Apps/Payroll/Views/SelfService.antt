-- ===== src/Apps/Payroll/Views/SelfService.antt =====
-- apps/payroll/views.py: employee self-service shows an employee their own payslips alone.
use payroll_software.Base.{true, false, ◌≡◌, Option, none, some, List, ◌==◌, select, option_eq}
use payroll_software.Database.{Payslip, Db}
use payroll_software.Apps.Http.{Request, Response, rendered}
use payroll_software.Apps.Payroll.Views.{scoped_payslips, owner, user_pk}

-- A payslip of the user's own, in the tenant of the request.
abbrev pub IsOwn : Request → Db → Payslip → Type 0
IsOwn r db p =
    (owner p db ≡ user_pk r.user)
    × (elim r.tenant [ none ↦ false | some t ↦ p.company == t.pk ] ≡ true)

content : {A : Type 0} → A → Response A → A
content d (rendered a) = a
content d _ = d

-- The signed-in employee's payslips in the tenant of the request.
abbrev pub own_payslips : Request → Db → List Payslip
own_payslips r db = select (λ p. option_eq (owner p db) (user_pk r.user)) (scoped_payslips r db)
