-- ===== src/Base/Pairs.antt =====
-- Lists whose elements differ pairwise, the rows of a table under a key, and tests on changed lists.
use Prim.Native.Nat.{ℕ, ◌+◌, ◌<◌}
use mathlib.Core.Path.{◌≡◌, refl, ◌∙◌, sym, ap, subst}
use mathlib.Core.Logic.{◌⊎◌, inl, inr}
use mathlib.Core.Bool.{Bool, true, false}
use mathlib.Core.Option.{some}
use mathlib.Core.List.{List, [], ◌∷◌, ◌++◌, map}
use native.Mathlib.Omega.{arith}
use payroll_software.Base.Tests.{◌==◌, Bool-cases}
use payroll_software.Base.Lists.{All, All-map, All-select, select, any, first}

-- No two elements of the list are the same.
abbrev pub Pairwise {ℓ} : {A : Type ℓ} → (A → A → Bool) → List A → Type 0
Pairwise same [] = Unit
Pairwise same (x ∷ xs) = All (λ y. same x y ≡ false) xs × Pairwise same xs

-- The element stands in the list.
abbrev pub Member : {A : Type 0} → A → List A → Type 0
Member a [] = ⊥
Member a (x ∷ xs) = (x ≡ a) ⊎ Member a xs

module _ {ℓ} {A : Type ℓ} where
  pub All-append {κ} : (P : A → Type κ) (xs ys : List A) → All P xs → All P ys → All P (xs ++ ys)
  All-append P [] ys h k = k
  All-append P (x ∷ xs) ys h k = (h.0, All-append P xs ys h.1 k)

  pub Pairwise-select :
      (same : A → A → Bool) (p : A → Bool) (xs : List A)
      → Pairwise same xs
      → Pairwise same (select p xs)
  Pairwise-select same p [] d = tt
  Pairwise-select same p (x ∷ xs) d = elim (Bool-cases (p x)) [
    | inl h ↦ rw h (All-select (λ y. same x y ≡ false) p xs d.0, Pairwise-select same p xs d.1)
    | inr h ↦ rw h (Pairwise-select same p xs d.1)
  ]

  pub Pairwise-append :
      (same : A → A → Bool) (xs ys : List A)
      → Pairwise same xs
      → Pairwise same ys
      → All (λ x. All (λ y. same x y ≡ false) ys) xs
      → Pairwise same (xs ++ ys)
  Pairwise-append same [] ys h k c = k
  Pairwise-append same (x ∷ xs) ys h k c =
      (All-append (λ y. same x y ≡ false) xs ys h.0 c.0, Pairwise-append same xs ys h.1 k c.1)

  apart-map :
      (same : A → A → Bool) (f : A → A) (a : A) (xs : List A)
      → All (λ x. (z : A) → (same (f x) z ≡ same x z) × (same z (f x) ≡ same z x)) xs
      → All (λ y. same a y ≡ false) xs
      → All (λ y. same a y ≡ false) (map f xs)
  apart-map same f a [] k h = tt
  apart-map same f a (x ∷ xs) k h = ((k.0 a).1 ∙ h.0, apart-map same f a xs k.1 h.1)

  -- What keeps how rows compare keeps them apart.
  pub Pairwise-map :
      (same : A → A → Bool) (f : A → A) (xs : List A)
      → All (λ x. (z : A) → (same (f x) z ≡ same x z) × (same z (f x) ≡ same z x)) xs
      → Pairwise same xs
      → Pairwise same (map f xs)
  Pairwise-map same f [] k d = tt
  Pairwise-map same f (x ∷ xs) k d = (
    apart-map same f (f x) xs k.1
        (All-map (λ y. same x y ≡ false) (λ y. same (f x) y ≡ false) xs (λ y h. (k.0 y).0 ∙ h) d.0),
    Pairwise-map same f xs k.1 d.1,
  )

  -- Tests that survive a change of the list.
  pub any_mono :
      (p q : A → Bool) (xs : List A)
      → ((x : A) → p x ≡ true → q x ≡ true)
      → any p xs ≡ true
      → any q xs ≡ true
  any_mono p q [] f h = h
  any_mono p q (x ∷ xs) f h = elim (Bool-cases (p x)) [
    | inl e ↦ rw (f x e) refl
    | inr e ↦ ground (arith, any_mono p q xs f (rw e at h))
  ]

  pub any-map :
      (p : A → Bool) (f : A → A) (xs : List A)
      → All (λ x. p (f x) ≡ p x) xs
      → any p (map f xs) ≡ any p xs
  any-map p f [] h = refl
  any-map p f (x ∷ xs) h = rw (h.0, any-map p f xs h.1) refl

  pub any-append_left : (p : A → Bool) (xs ys : List A) → any p xs ≡ true → any p (xs ++ ys) ≡ true
  any-append_left p [] ys h = ground (arith, h)
  any-append_left p (x ∷ xs) ys h = elim (Bool-cases (p x)) [
    | inl e ↦ rw e refl
    | inr e ↦ rw e (any-append_left p xs ys (rw e at h))
  ]

  pub All-not_any : (p : A → Bool) (xs : List A) → any p xs ≡ false → All (λ x. p x ≡ false) xs
  All-not_any p [] h = tt
  All-not_any p (x ∷ xs) h = (ground arith, All-not_any p xs (ground arith))

module _ {A : Type 0} where
  pub All-Member : (P : A → Type 0) (a : A) (xs : List A) → All P xs → Member a xs → P a
  All-Member P a [] h m = absurd m
  All-Member P a (x ∷ xs) h (inl q) = subst P q h.0
  All-Member P a (x ∷ xs) h (inr m) = All-Member P a xs h.1 m

  pub any-Member : (p : A → Bool) (a : A) (xs : List A) → Member a xs → p a ≡ true → any p xs ≡ true
  any-Member p a [] m h = absurd m
  any-Member p a (x ∷ xs) (inl q) h = rw (q, h) refl
  any-Member p a (x ∷ xs) (inr m) h = ground (arith, any-Member p a xs m h)

  -- What a query finds is a row that passes its test.
  pub first-select :
      (p : A → Bool) (xs : List A) (a : A)
      → first (select p xs) ≡ some a
      → Member a xs × (p a ≡ true)
  first-select p [] a h = absurd (cc)
  first-select p (x ∷ xs) a h = elim (Bool-cases (p x)) [
    | inl e ↦
        let q : some x ≡ some a = rw e at h in
        let q' : x ≡ a = cc in (inl q', subst (λ y. p y ≡ true) q' e)
    | inr e ↦ let (m, t) = first-select p xs a (rw e at h) in (inr m, t)
  ]

  pub Member-select :
      (p : A → Bool) (xs : List A) (a : A) → Member a (select p xs) → Member a xs × (p a ≡ true)
  Member-select p [] a m = absurd m
  Member-select p (x ∷ xs) a m = elim (Bool-cases (p x)) [
    | inl e ↦ elim (rw e at m) [
      | inl q ↦ (inl q, subst (λ y. p y ≡ true) q e)
      | inr k ↦ let (n, t) = Member-select p xs a k in (inr n, t)
    ]
    | inr e ↦ let (n, t) = Member-select p xs a (rw e at m) in (inr n, t)
  ]

  module _ (key : A → ℕ) where
    -- The keys of the rows are distinct, and below the next key.
    abbrev pub Keyed : ℕ → List A → Type 0
    Keyed n rows = All (λ r. key r < n) rows × Pairwise (λ a b. key a == key b) rows

    pub Keyed-append :
        (n : ℕ) (rows : List A) (a : A) → key a ≡ n → Keyed n rows → Keyed (n + 1) (rows ++ a ∷ [])
    Keyed-append n rows a e h = (
      All-append (λ r. key r < n + 1) rows (a ∷ [])
          (All-map (λ r. key r < n) (λ r. key r < n + 1) rows (λ r l. omega arith) h.0)
          (omega arith, tt),
      Pairwise-append (λ r s. key r == key s) rows (a ∷ []) h.1 (tt, tt)
          (All-map (λ r. key r < n) (λ r. All (λ s. (key r == key s) ≡ false) (a ∷ [])) rows
            (λ r l. (ground arith, tt)) h.0),
    )

    pub Keyed-select :
        (n : ℕ) (p : A → Bool) (rows : List A) → Keyed n rows → Keyed n (select p rows)
    Keyed-select n p rows h =
        (All-select (λ r. key r < n) p rows h.0, Pairwise-select (λ r s. key r == key s) p rows h.1)

    All-rekeyed :
        (P : ℕ → Type 0) (f : A → A) (rows : List A)
        → All (λ r. key (f r) ≡ key r) rows
        → All (λ r. P (key r)) rows
        → All (λ r. P (key r)) (map f rows)
    All-rekeyed P f [] e h = tt
    All-rekeyed P f (r ∷ rows) e h = (subst P (sym e.0) h.0, All-rekeyed P f rows e.1 h.1)

    Pairwise-rekeyed :
        (f : A → A) (rows : List A)
        → All (λ r. key (f r) ≡ key r) rows
        → Pairwise (λ a b. key a == key b) rows
        → Pairwise (λ a b. key a == key b) (map f rows)
    Pairwise-rekeyed f [] e d = tt
    Pairwise-rekeyed f (r ∷ rows) e d = (
      All-rekeyed (λ k. (key (f r) == k) ≡ false) f rows e.1 (rw e.0 d.0),
      Pairwise-rekeyed f rows e.1 d.1,
    )

    pub Keyed-map :
        (n : ℕ) (f : A → A) (rows : List A)
        → All (λ r. key (f r) ≡ key r) rows
        → Keyed n rows
        → Keyed n (map f rows)
    Keyed-map n f rows e h = (All-rekeyed (λ k. k < n) f rows e h.0, Pairwise-rekeyed f rows e h.1)

    -- Two rows under one key are one row.
    pub same_row :
        (rows : List A) (a : A)
        → Pairwise (λ r s. key r == key s) rows
        → Member a rows
        → All (λ r. (key r == key a) ≡ true → r ≡ a) rows
    same_row [] a d m = tt
    same_row (x ∷ rows) a d (inl q) = (
      λ _. q,
      All-map (λ r. (key x == key r) ≡ false) (λ r. (key r == key a) ≡ true → r ≡ a) rows
          (λ r ne e. absurd (apart r x a ne e (ap key q))) d.0,
    )
      where
        apart : (r x a : A) → (key x == key r) ≡ false → (key r == key a) ≡ true → key x ≡ key a → ⊥
        apart r x a ne e q = ground arith
    same_row (x ∷ rows) a d (inr m) = (
      λ e.
          let ne : (key x == key a) ≡ false =
            All-Member (λ r. (key x == key r) ≡ false) a rows d.0 m in
          absurd (ground arith),
      same_row rows a d.1 m,
    )
