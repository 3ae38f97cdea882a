-- ===== src/Apps/Payroll/Run/Logged.antt =====
-- apps/payroll/services.py with apps/audit: what a run leaves in the audit log.
use mathlib.Core.List.{append_assoc, append-nil, Perm}
use payroll_software.Base.{
  ℕ, Bool, ◌≡◌, refl, sym, ap, ◌∙◌, Option, none, some, List, [], ◌∷◌, ◌++◌, map, select, ◌==◌, inl,
  inr, Bool-cases, leb, subst, arith,
}
use payroll_software.Base.Result.{
  Result, ok, err, value_error, ok-injective, err≢ok, Exn, not_found, ◌>>=◌,
}
use payroll_software.Domain.Decimal.{Decimal}
use payroll_software.Services.Payroll.{PayrollInput, PayslipResult, calculate_payslip}
use payroll_software.Database.{
  Company, User, Employee, PayPeriod, Payslip, payslip_model, AuditAction, create, delete,
  AuditLogEntry, Adjustments, Db, Context,
}
use payroll_software.Apps.Audit.{
  register_audit, audited_models, user_pk, record_audit, audited, entries,
}
use payroll_software.Apps.Payroll.Run.{
  payroll_input, payslip_row, has_payslip, deleted_entries, delete_payslips, insert_payslip,
  create_payslip, pay_result, pay_employee, and_then, pay_all, atomic, active_employees, company_of,
  run_for_company, run_payroll_for_period, falling_pk, order_by,
}
use payroll_software.Apps.Payroll.Run.Order.{Ordered, order_by-Perm, order_by-Ordered}

-- The entry that says that the user did this to the payslip, in the tenant.
abbrev pub logged : Company → Option User → AuditAction → Payslip → AuditLogEntry
logged t u action p = record {
  company = t.pk;
  actor = user_pk u;
  action = action;
  target_model = payslip_model;
  target_id = p.pk;
}

module _ (ctx : Context) {t : Company} (on : ctx.current_tenant ≡ some t) where
  audited_payslip :
      (action : AuditAction) (p : Payslip)
      → audited ctx action payslip_model p.pk ≡ some (logged t ctx.current_user action p)
  unfolding audited audited_models register_audit record_audit
  audited_payslip action p = rw on refl

  deleted_entries_lem :
      (ps : List Payslip) → deleted_entries ctx ps ≡ map (logged t ctx.current_user delete) ps
  unfolding deleted_entries
  deleted_entries_lem [] = refl
  deleted_entries_lem (p ∷ ps) = rw (audited_payslip delete p, deleted_entries_lem ps) refl

  -- One round of the loop logs the payslip that it returns.
  abbrev Logs : Db → Result (Option Payslip) × Db → Type 0
  Logs db (err x, after) = Unit
  Logs db (ok none, after) = after.audit ≡ db.audit
  Logs db (ok (some p), after) = after.audit ≡ db.audit ++ logged t ctx.current_user create p ∷ []

  pay_result-Logs :
      (company : ℕ) (period : PayPeriod) (e : Employee) (i : PayrollInput)
      (result : Result PayslipResult) (db : Db)
      → Logs db (pay_result ctx company period e i result db)
  unfolding pay_result create_payslip insert_payslip
  pay_result-Logs company period e i (ok r) db =
      elim (Bool-cases (has_payslip e.pk period.pk db.payslips)) [
        | inl h ↦ rw h tt
        | inr h ↦ rw h (
            ap (λ (o : Option AuditLogEntry). db.audit ++ entries o)
              (audited_payslip create
                (payslip_row (db.next_pk payslip_model) company period e i r)))
      ]
  pay_result-Logs company period e i (err value_error) db = refl
  pay_result-Logs company period e i (err x) db = tt

  cons_ok :
      (p : Payslip) (r : Result (List Payslip)) (ps : List Payslip)
      → (r >>= λ l. ok (p ∷ l)) ≡ ok ps
      → (l : List Payslip) × (r ≡ ok l) × (p ∷ l ≡ ps)
  cons_ok p (ok l) ps h = (l, refl, ok-injective h)
  cons_ok p (err x) ps h = absurd (err≢ok h)

  abbrev Logged : Db → Result (List Payslip) × Db → Type 0
  Logged db out =
      (ps : List Payslip)
      → out.0 ≡ ok ps
      → out.1.audit ≡ db.audit ++ map (logged t ctx.current_user create) ps

  and_then-Logged :
      (db : Db) (step : Result (Option Payslip) × Db) (next : Db → Result (List Payslip) × Db)
      → Logs db step
      → ((d : Db) → Logged d (next d))
      → Logged db (and_then step next)
  and_then-Logged db (err x, d) next h ih ps returned = absurd (err≢ok returned)
  and_then-Logged db (ok none, d) next h ih ps returned =
      ih d ps returned
      ∙ ap (λ (l : List AuditLogEntry). l ++ map (logged t ctx.current_user create) ps) h
  and_then-Logged db (ok (some p), d) next h ih ps returned =
      let (l, rest, same) = cons_ok p (next d).0 ps returned in
      ih d l rest
      ∙ ap (λ (a : List AuditLogEntry). a ++ map (logged t ctx.current_user create) l) h
      ∙ append_assoc db.audit (logged t ctx.current_user create p ∷ [])
          (map (logged t ctx.current_user create) l)
      ∙ ap (λ (qs : List Payslip). db.audit ++ map (logged t ctx.current_user create) qs) same

  pay_all-Logged :
      (company : ℕ) (period : PayPeriod) (input : Adjustments → Employee → PayrollInput)
      (es : List Employee) (db : Db)
      → Logged db (pay_all ctx company period input es db)
  unfolding pay_all pay_employee
  pay_all-Logged company period input [] db = λ ps returned.
      sym (append-nil db.audit)
      ∙ ap (λ (qs : List Payslip). db.audit ++ map (logged t ctx.current_user create) qs)
          (ok-injective returned)
  pay_all-Logged company period input (e ∷ es) db =
      and_then-Logged db
        (pay_result ctx company period e (input db.adjustments e)
          (calculate_payslip (input db.adjustments e)) db)
        (pay_all ctx company period input es)
        (pay_result-Logs company period e (input db.adjustments e)
          (calculate_payslip (input db.adjustments e)) db)
        (pay_all-Logged company period input es)

  -- An atomic body that returned has left its state.
  atomic_returned :
      (body : Db → Result (List Payslip) × Db) (db : Db) (ps : List Payslip)
      → (atomic body db).0 ≡ ok ps
      → ((body db).0 ≡ ok ps) × ((atomic body db).1 ≡ (body db).1)
  atomic_returned body db ps h = inner (body db) h
    where
      inner :
          (out : Result (List Payslip) × Db)
          → (let end : Result (List Payslip) × Db = elim out.0 [
            | ok a ↦ (ok a, out.1)
            | err x ↦ (err x, db)
          ] in
              end.0 ≡ ok ps → (out.0 ≡ ok ps) × (end.1 ≡ out.1))
      inner (ok a, d) h = (h, refl)
      inner (err x, d) h = absurd (err≢ok h)

  atomic_raised :
      (body : Db → Result (List Payslip) × Db) (db : Db) (x : Exn)
      → (atomic body db).0 ≡ err x
      → (atomic body db).1 ≡ db
  atomic_raised body db x h = inner (body db) h
    where
      inner :
          (out : Result (List Payslip) × Db)
          → let end : Result (List Payslip) × Db = elim out.0 [
            | ok a ↦ (ok a, out.1)
            | err x ↦ (err x, db)
          ] in
            end.0 ≡ err x → end.1 ≡ db
      inner (ok a, d) h = absurd (err≢ok (sym h))
      inner (err y, d) h = refl

  module _ (before : Employee → Employee → Bool) (period : PayPeriod)
      (hours units : List (ℕ × Decimal)) (db : Db) where
    -- The payslips of the period before the run.
    abbrev pub former : List Payslip
    former = select (λ p. p.period == period.pk) db.payslips

    -- The log after a run that made the payslips: it grew by an entry of deletion for each former
    -- one, by falling primary key, and then by an entry of creation for each new one.
    abbrev pub IsLog : List Payslip → Db → Type 0
    IsLog ps after =
        (removed : List Payslip) × Perm removed former
        × Ordered (λ a b. leb b.pk a.pk) removed
        × (after.audit
            ≡ db.audit
              ++ (map (logged t ctx.current_user delete) removed
                  ++ map (logged t ctx.current_user create) ps))

    run_for_company-Logged :
        (company : Company) (ps : List Payslip)
        → (run_for_company before ctx period hours units company db).0 ≡ ok ps
        → IsLog ps (run_for_company before ctx period hours units company db).1
    unfolding run_for_company delete_payslips
    run_for_company-Logged company ps returned =
        let removed = order_by falling_pk former in
        (
          removed,
          order_by-Perm falling_pk former,
          order_by-Ordered falling_pk (λ a b h. ground arith) (λ a b c h k. ground arith) former,
          pay_all-Logged company.pk period (payroll_input company.currency period hours units)
                (active_employees before company.pk db.employees) (delete_payslips ctx period db) ps
                returned
              ∙ ap
                  (λ (l : List AuditLogEntry).
                    (db.audit ++ l) ++ map (logged t ctx.current_user create) ps)
                  (deleted_entries_lem removed)
              ∙ append_assoc db.audit (map (logged t ctx.current_user delete) removed)
                  (map (logged t ctx.current_user create) ps),
        )

    abbrev AsLogged : Result (List Payslip) × Db → Type 0
    AsLogged out =
        ((ps : List Payslip) → out.0 ≡ ok ps → IsLog ps out.1)
        × ((x : Exn) → out.0 ≡ err x → out.1.audit ≡ db.audit)

    run_in-AsLogged :
        (found : Option Company)
        → AsLogged (elim found [
          | none ↦ (err not_found, db)
          | some company ↦ atomic (run_for_company before ctx period hours units company) db
        ])
    run_in-AsLogged none = (λ ps h. absurd (err≢ok h), λ x h. refl)
    run_in-AsLogged (some company) =
        let body = run_for_company before ctx period hours units company in
        (
          λ ps h.
              let (returned, left) = atomic_returned body db ps h in
              subst (IsLog ps) (sym left) (run_for_company-Logged company ps returned),
          λ x h. ap (λ (d : Db). d.audit) (atomic_raised body db x h),
        )

    -- A run within a tenant that returned payslips has added to the audit log first one entry of
    -- deletion for each former payslip of the period, by falling primary key, and then one entry of
    -- creation for each payslip that it returned, in their order, and nothing else; each names the
    -- tenant, the user and the payslip. A run that raised has added none.
    pub run_is_logged :
        ((ps : List Payslip)
          → (run_payroll_for_period before ctx period hours units db).0 ≡ ok ps
          → IsLog ps (run_payroll_for_period before ctx period hours units db).1)
        × ((x : Exn)
            → (run_payroll_for_period before ctx period hours units db).0 ≡ err x
            → (run_payroll_for_period before ctx period hours units db).1.audit ≡ db.audit)
    unfolding run_payroll_for_period
    run_is_logged = run_in-AsLogged (company_of period db)
