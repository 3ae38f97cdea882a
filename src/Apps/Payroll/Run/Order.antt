-- ===== src/Apps/Payroll/Run/Order.antt =====
-- ORDER BY: what sorting the rows of a query gives, for an order that is total and transitive.
use mathlib.Core.List.{Perm}
use mathlib.Core.List.Perm
use payroll_software.Base.{Bool, true, false, ◌≡◌, List, [], ◌∷◌, All, Bool-cases, inl, inr}
use payroll_software.Apps.Payroll.Run.{insert_by, order_by}
use payroll_software.Apps.Payroll.Run.Refines.{All-insert_by}

-- Each row may stand in front of every row below it.
abbrev pub Ordered {ℓ} : {A : Type ℓ} → (A → A → Bool) → List A → Type 0
Ordered before [] = Unit
Ordered before (a ∷ rest) = All (λ b. before a b ≡ true) rest × Ordered before rest

module _ {ℓ} {A : Type ℓ} (before : A → A → Bool) where
  insert_by-Perm : (a : A) (xs : List A) → Perm (insert_by before a xs) (a ∷ xs)
  unfolding insert_by
  insert_by-Perm a [] = Perm.refl (a ∷ [])
  insert_by-Perm a (b ∷ xs) = elim (Bool-cases (before a b)) [
    | inl e ↦ rw e (Perm.refl (a ∷ (b ∷ xs)))
    | inr e ↦ rw e (Perm.trans (Perm.cons b (insert_by-Perm a xs)) (Perm.swap a b xs))
  ]

  -- Sorting keeps every row, as often as it is there.
  pub order_by-Perm : (xs : List A) → Perm (order_by before xs) xs
  unfolding order_by
  order_by-Perm [] = Perm.refl []
  order_by-Perm (a ∷ xs) =
      Perm.trans (insert_by-Perm a (order_by before xs)) (Perm.cons a (order_by-Perm xs))

  module _ (total : (a b : A) → before a b ≡ false → before b a ≡ true)
      (through : (a b c : A) → before a b ≡ true → before b c ≡ true → before a c ≡ true) where
    All-through :
        (a b : A) (xs : List A)
        → before a b ≡ true
        → All (λ c. before b c ≡ true) xs
        → All (λ c. before a c ≡ true) xs
    All-through a b [] h k = tt
    All-through a b (c ∷ xs) h k = (through a b c h k.0, All-through a b xs h k.1)

    insert_by-Ordered :
        (a : A) (xs : List A) → Ordered before xs → Ordered before (insert_by before a xs)
    unfolding insert_by
    insert_by-Ordered a [] h = (tt, tt)
    insert_by-Ordered a (b ∷ xs) h = elim (Bool-cases (before a b)) [
      | inl e ↦ rw e ((e, All-through a b xs e h.0), h)
      | inr e ↦ rw e (
        All-insert_by (λ c. before b c ≡ true) before a xs (total a b e) h.0,
        insert_by-Ordered a xs h.1,
      )
    ]

    -- Sorted rows stand in order.
    pub order_by-Ordered : (xs : List A) → Ordered before (order_by before xs)
    unfolding order_by
    order_by-Ordered [] = tt
    order_by-Ordered (a ∷ xs) = insert_by-Ordered a (order_by before xs) (order_by-Ordered xs)
