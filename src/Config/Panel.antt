-- ===== src/Config/Panel.antt =====
-- config/views.py, `_expiring_docs`: which documents the panel shows, and in which order.
use payroll_software.Base.{
  ℕ, ◌+◌, Bool, true, false, ◌&&◌, ◌||◌, ◌≡◌, refl, ap, ◌∙◌, Option, none, some, List, [], ◌∷◌,
  ◌++◌, if◌then◌else◌, select, any, any-select, fun_ext, ◌==◌, arith, Option-cases, leb, inl, inr,
}
use payroll_software.Database.{Employee, Db, Context}
use payroll_software.Apps.Tenants.{objects}
use payroll_software.Apps.Payroll.Run.{insert_by, order_by}
use payroll_software.Apps.Payroll.Run.Order.{Ordered, order_by-Ordered}
use payroll_software.Config.{
  expiry_window_days, DocType, passport, visa, ExpiringDoc, is_due, doc_rows, all_rows, candidates,
  sooner, expiring_docs,
}

sooner_total : (a b : ExpiringDoc) → sooner a b ≡ false → sooner b a ≡ true
sooner_total a b h = ground arith

sooner_trans : (a b c : ExpiringDoc) → sooner a b ≡ true → sooner b c ≡ true → sooner a c ≡ true
sooner_trans a b c h k = ground arith

module _ {A : Type 0} (p : A → Bool) (before : A → A → Bool) where
  any-if :
      (b : Bool) (x : A) (y : A) (ys zs : List A)
      → any p zs ≡ (p x || any p ys)
      → any p (if b then x ∷ (y ∷ ys) else y ∷ zs) ≡ (p x || (p y || any p ys))
  any-if true x y ys zs h = refl
  any-if false x y ys zs h = ground arith

  any-insert_by : (x : A) (xs : List A) → any p (insert_by before x xs) ≡ (p x || any p xs)
  unfolding insert_by
  any-insert_by x [] = refl
  any-insert_by x (y ∷ ys) = any-if (before x y) x y ys (insert_by before x ys) (any-insert_by x ys)

  any-order_by : (xs : List A) → any p (order_by before xs) ≡ any p xs
  unfolding order_by
  any-order_by [] = refl
  any-order_by (x ∷ xs) =
      any-insert_by x (order_by before xs) ∙ ap (λ b. p x || b) (any-order_by xs)

any-append :
    {A : Type 0} (p : A → Bool) (xs ys : List A) → any p (xs ++ ys) ≡ (any p xs || any p ys)
any-append p [] ys = refl
any-append p (x ∷ xs) ys = ground (arith, any-append p xs ys)

abbrev doc_eq : DocType → DocType → Bool
doc_eq passport passport = true
doc_eq visa visa = true
doc_eq passport visa = false
doc_eq visa passport = false

abbrev pub expiry_of : DocType → Employee → Option ℕ
expiry_of passport e = e.passport_expiry
expiry_of visa e = e.visa_expiry

-- A row is about the given document of the employee with the given key.
abbrev pub is_about : ℕ → DocType → ExpiringDoc → Bool
is_about pk t r = r.employee.pk == pk && doc_eq r.doc_type t

module _ (today pk : ℕ) (t : DocType) where
  about_doc :
      (e : Employee) (s : DocType) (o : Option ℕ)
      → any (is_about pk t) (doc_rows today e s o)
        ≡ ((e.pk == pk && doc_eq s t) && is_due (today + expiry_window_days) o)
  unfolding doc_rows is_due
  about_doc e s none = ground arith
  about_doc e s (some d) = ground arith

  abbrev counted : Employee → Bool
  counted e = e.pk == pk && is_due (today + expiry_window_days) (expiry_of t e)

  -- The employee has the key, and the document expires within sixty days or has expired.
  abbrev pub shows : Employee → Bool
  shows e =
      e.pk == pk && elim (expiry_of t e) [ none ↦ false | some expiry ↦ leb expiry (today + 60) ]

  counted-shows : (e : Employee) → counted e ≡ shows e
  unfolding is_due
  counted-shows e = elim (Option-cases (expiry_of t e)) [ inl h ↦ rw h | inr (d, h) ↦ rw h ]

  two_docs :
      (e : Employee)
      → (((e.pk == pk && doc_eq passport t)
            && is_due (today + expiry_window_days) e.passport_expiry)
          || ((e.pk == pk && doc_eq visa t) && is_due (today + expiry_window_days) e.visa_expiry))
        ≡ counted e
  two_docs e = elim t [ passport ↦ ground arith | visa ↦ ground arith ]

  about_all : (es : List Employee) → any (is_about pk t) (all_rows today es) ≡ any counted es
  unfolding all_rows
  about_all [] = refl
  about_all (e ∷ es) =
      rw
        (
          any-append (is_about pk t) (doc_rows today e passport e.passport_expiry)
              (doc_rows today e visa e.visa_expiry ++ all_rows today es),
          any-append (is_about pk t) (doc_rows today e visa e.visa_expiry) (all_rows today es),
          about_doc e passport e.passport_expiry,
          about_doc e visa e.visa_expiry,
          about_all es,
          ← two_docs e,
        )
        (ground arith)

  due_anyway :
      (e : Employee)
      → ((is_due (today + expiry_window_days) e.passport_expiry
            || is_due (today + expiry_window_days) e.visa_expiry)
          && counted e)
        ≡ counted e
  due_anyway e = elim t [ passport ↦ ground arith | visa ↦ ground arith ]

  about_candidates :
      (ctx : Context) (db : Db)
      → any counted (candidates (today + expiry_window_days) ctx db)
        ≡ any counted (select (λ e. e.is_active) (objects (λ e. e.company) ctx db.employees))
  unfolding candidates
  about_candidates ctx db =
      let active = select (λ e. e.is_active) (objects (λ e. e.company) ctx db.employees) in
      any-select counted
        (λ e.
          is_due (today + expiry_window_days) e.passport_expiry
          || is_due (today + expiry_window_days) e.visa_expiry)
        active
      ∙ ap (λ (f : Employee → Bool). any f active) (fun_ext due_anyway)

  -- The panel has a row for a document of an employee exactly if there is an active employee of the
  -- tenant with that key whose document expires at most sixty days after the day, or before it.
  pub expiring_docs-shows :
      (before : Employee → Employee → Bool) (ctx : Context) (db : Db)
      → any (is_about pk t) (expiring_docs before today ctx db)
        ≡ any shows (select (λ e. e.is_active) (objects (λ e. e.company) ctx db.employees))
  unfolding expiring_docs
  expiring_docs-shows before ctx db =
      let found = candidates (today + expiry_window_days) ctx db in
      any-order_by (is_about pk t) sooner (all_rows today (order_by before found))
      ∙ about_all (order_by before found)
      ∙ any-order_by counted before found
      ∙ about_candidates ctx db
      ∙ ap
          (λ (f : Employee → Bool).
            any f (select (λ e. e.is_active) (objects (λ e. e.company) ctx db.employees)))
          (fun_ext counted-shows)

-- The rows of the panel stand in the order of the days that remain.
expiring_docs-Ordered :
    (before : Employee → Employee → Bool) (today : ℕ) (ctx : Context) (db : Db)
    → Ordered sooner (expiring_docs before today ctx db)
unfolding expiring_docs
expiring_docs-Ordered before today ctx db = order_by-Ordered sooner sooner_total sooner_trans _
