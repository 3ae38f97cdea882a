-- ===== src/System/Employees.antt =====
-- apps/employees/views.py refines the specification: what each view that changes state does to the
-- tables, as changes by the tenant of the request.
use payroll_software.Base.{
  ℕ, true, false, ◌≡◌, refl, inl, inr, List, arith, All, ◌==◌, Option, none, some, Member, same_row,
  Keyed, All-map, Bool-cases, if◌then◌else◌,
}
use payroll_software.Database.{Company, Employee, employee_model, Db}
use payroll_software.Apps.Http.{Request, tenant_required, context_of}
use payroll_software.Apps.Employees.Crud.{
  EmployeeFields, valid_form, with_fields, blank, get_employee, insert_employee, update_employee,
  is_protected, delete_employee, create_posted, employee_create_view, update_posted,
  employee_update_view, delete_found, employee_delete_view,
}
use payroll_software.System.Tables.{
  tables, WellFormed, Owns, Edits, Unused, Change, hire, edit, dismiss, Changes, none_yet, once,
}
use payroll_software.System.Branches.{after_gate, after_method, after_find, found_row}

-- One row, found under its key, is replaced.
pub edit_one :
    (t : Option Company) (n : ℕ) (rows : List Employee) (g : Employee → Employee) (e : Employee)
    → Keyed (λ e. e.pk) n rows
    → Member e rows
    → Owns t e.company
    → (g e).pk ≡ e.pk
    → (g e).company ≡ e.company
    → All (Edits t (λ f. if f.pk == e.pk then g f else f)) rows
edit_one t n rows g e keyed m own key company =
    All-map (λ f. (f.pk == e.pk) ≡ true → f ≡ e) (Edits t (λ f. if f.pk == e.pk then g f else f))
      rows
      (λ f same. elim (Bool-cases (f.pk == e.pk)) [
        | inr q ↦ rw q (refl, refl, inr refl)
        | inl q ↦ rw (q, same q) (key, company, inl own)
      ])
      (same_row (λ e. e.pk) rows e keyed.1 m)

insert_employee-Change :
    (r : Request) (t : Company) (f : EmployeeFields) (db : Db)
    → r.tenant ≡ some t
    → Change r.tenant (tables db) (tables (insert_employee (context_of r) t.pk f db))
unfolding insert_employee
insert_employee-Change r t f db on =
    hire (with_fields f (blank (db.next_pk employee_model) t.pk)) refl (rw on refl)

update_employee-Change :
    (r : Request) (f : EmployeeFields) (e : Employee) (db : Db)
    → WellFormed (tables db)
    → Member e db.employees
    → Owns r.tenant e.company
    → Change r.tenant (tables db) (tables (update_employee (context_of r) (with_fields f e) db))
unfolding update_employee
update_employee-Change r f e db h m own =
    edit (λ g. if g.pk == e.pk then with_fields f e else g)
      (edit_one r.tenant (db.next_pk employee_model) db.employees (λ _. with_fields f e) e
        h.employees m own refl refl)

unprotected : (pk : ℕ) (db : Db) → is_protected pk db ≡ false → Unused pk (tables db)
unfolding is_protected
unprotected pk db h = ground arith

delete_employee-Change :
    (r : Request) (e : Employee) (db : Db)
    → WellFormed (tables db)
    → Member e db.employees
    → Owns r.tenant e.company
    → is_protected e.pk db ≡ false
    → Change r.tenant (tables db) (tables (delete_employee (context_of r) e.pk db))
unfolding delete_employee
delete_employee-Change r e db h m own free =
    dismiss e.pk
      (All-map (λ f. (f.pk == e.pk) ≡ true → f ≡ e)
        (λ f. (f.pk == e.pk) ≡ true → Owns r.tenant f.company) db.employees
        (λ f same q. rw (same q) own) (same_row (λ e. e.pk) db.employees e h.employees.1 m))
      (unprotected e.pk db free)

module _ (r : Request) (db : Db) (h : WellFormed (tables db)) where
  abbrev Reached : Db → Type 0
  Reached after = Changes r.tenant (tables db) (tables after)

  pub employee_create_view-Changes :
      (form : Option EmployeeFields) → Reached (employee_create_view r form db).1
  unfolding employee_create_view create_posted
  employee_create_view-Changes form = after_gate Reached (tenant_required r) db _ none_yet (
      after_method Reached r.is_post _ _ none_yet λ _.
        after_find Reached r.tenant _ (λ t. create_posted r t form db) none_yet
          λ t on. made t on form)
    where
      made :
          (t : Company)
          → r.tenant ≡ some t
          → (form : Option EmployeeFields) → Reached (create_posted r t form db).1
      made t on none = none_yet
      made t on (some f) =
          after_find Reached (valid_form f) _ _ none_yet
            λ g _. once (insert_employee-Change r t g db on)

  pub employee_update_view-Changes :
      (pk : ℕ) (form : Option EmployeeFields) → Reached (employee_update_view r pk form db).1
  unfolding employee_update_view update_posted
  employee_update_view-Changes pk form = after_gate Reached (tenant_required r) db _ none_yet (
      after_find Reached (get_employee r pk db) _ _ none_yet
        λ e found. after_method Reached r.is_post _ _ none_yet λ _. made e found form)
    where
      made :
          (e : Employee)
          → get_employee r pk db ≡ some e
          → (form : Option EmployeeFields) → Reached (update_posted r e form db).1
      made e found none = none_yet
      made e found (some f) =
          let (m, key, own) =
            found_row (λ (e : Employee). e.company) (λ e. e.pk) (context_of r) pk db.employees e
              found in
          after_find Reached (valid_form f) _ _ none_yet
            λ g _. once (update_employee-Change r g e db h m own)

  pub employee_delete_view-Changes : (pk : ℕ) → Reached (employee_delete_view r pk db).1
  unfolding employee_delete_view delete_found
  employee_delete_view-Changes pk = after_gate Reached (tenant_required r) db _ none_yet (
      after_find Reached (get_employee r pk db) _ _ none_yet
        λ e found. after_method Reached r.is_post _ _ none_yet λ _. made e found)
    where
      made : (e : Employee) → get_employee r pk db ≡ some e → Reached (delete_found r e db).1
      made e found =
          let (m, key, own) =
            found_row (λ (e : Employee). e.company) (λ e. e.pk) (context_of r) pk db.employees e
              found in
          elim (Bool-cases (is_protected e.pk db)) [
            | inl q ↦ rw (q, delete_found) none_yet
            | inr q ↦ rw (q, delete_found) (once (delete_employee-Change r e db h m own q))
          ]
