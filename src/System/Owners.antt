-- ===== src/System/Owners.antt =====
-- Selections of the rows of one company, when rows of another one change.
use mathlib.Core.List.{append-nil}
use payroll_software.Base.{
  ℕ, Bool, true, false, ◌||◌, ◌≡◌, refl, sym, ap, ◌∙◌, ◌⊎◌, inl, inr, List, [], ◌∷◌, ◌++◌, map,
  arith, All, ◌==◌, Option, none, some, select, select-append, Bool-cases, Pairwise, if◌then◌else◌,
}
use payroll_software.Database.{Company, PayPeriod}
use payroll_software.System.Tables.{covers, Owns}

-- A company that the tenant does not own is another one than a company that it owns.
pub owner_apart : (t : Option Company) (a c : ℕ) → Owns t a → ¬ Owns t c → (a == c) ≡ false
owner_apart none a c own other = absurd own
owner_apart (some t) a c own other = elim (Bool-cases (a == c)) [
  | inl e ↦ absurd (other (omega (arith, own, equal a c e)))
  | inr e ↦ e
]
  where
    equal : (a c : ℕ) → (a == c) ≡ true → a ≡ c
    equal a c e = ground arith

module _ {A : Type 0} where
  pub select-added :
      (p : A → Bool) (xs : List A) (x : A) → p x ≡ false → select p (xs ++ x ∷ []) ≡ select p xs
  select-added p xs x h = select-append p xs (x ∷ []) ∙ rw h (append-nil (select p xs))

  -- A selection that spares what another keeps.
  pub select-spared :
      (p q : A → Bool) (xs : List A)
      → All (λ x. p x ≡ true → q x ≡ true) xs
      → select p (select q xs) ≡ select p xs
  select-spared p q [] h = refl
  select-spared p q (x ∷ xs) h = elim (Bool-cases (q x)) [
    | inl e ↦ rw (e, select-spared p q xs h.1) refl
    | inr e ↦ elim (Bool-cases (p x)) [
      | inl k ↦ absurd (conflict e (h.0 k))
      | inr k ↦ rw (e, k) (select-spared p q xs h.1)
    ]
  ]
    where
      conflict : {b : Bool} → b ≡ false → b ≡ true → ⊥
      conflict e k = cc

  -- Rows of another company stay in an edit.
  pub select-edited :
      (t : Option Company) (company : A → ℕ) (f : A → A) (c : ℕ) (xs : List A)
      → ¬ Owns t c
      → All (λ x. (company (f x) ≡ company x) × (Owns t (company x) ⊎ (f x ≡ x))) xs
      → select (λ x. company x == c) (map f xs) ≡ select (λ x. company x == c) xs
  select-edited t company f c [] other h = refl
  select-edited t company f c (x ∷ xs) other h =
      let ih = select-edited t company f c xs other h.1 in
      elim h.0.1 [
        | inl own ↦ rw (h.0.0, owner_apart t (company x) c own other) ih
        | inr q ↦ rw q (ap (λ (l : List A). if company x == c then x ∷ l else l) ih)
      ]

-- The company that covers a period is its company.
pub covers_one :
    (ps : List PayPeriod) (c d k : ℕ)
    → Pairwise (λ p q. p.pk == q.pk) ps
    → covers ps c k ≡ true
    → covers ps d k ≡ true
    → c ≡ d
covers_one [] c d k u h g = absurd (cc)
covers_one (p ∷ ps) c d k u h g = elim (Bool-cases (p.pk == k)) [
  | inl e ↦
      let rest : (b : ℕ) → covers ps b k ≡ false = λ b. nobody p k ps b e u.0 in
      let eq : (b : ℕ) → covers (p ∷ ps) b k ≡ true → b ≡ p.company =
        λ b a. here p.company b (covers ps b k) (rest b) (rw e at a) in
      eq c h ∙ sym (eq d g)
  | inr e ↦ covers_one ps c d k u.1 (rw e at h) (rw e at g)
]
  where
    here : (m b : ℕ) (r : Bool) → r ≡ false → ((m == b) || r) ≡ true → b ≡ m
    here m b r e h = ground arith

    nobody :
        (p : PayPeriod) (k : ℕ) (ps : List PayPeriod) (b : ℕ)
        → (p.pk == k) ≡ true
        → All (λ q. (p.pk == q.pk) ≡ false) ps
        → covers ps b k ≡ false
    nobody p k [] b e h = refl
    nobody p k (q ∷ ps) b e h =
        let ne : (q.pk == k) ≡ false = apart p.pk q.pk k e h.0 in rw ne (nobody p k ps b e h.1)
      where
        apart : (a b k : ℕ) → (a == k) ≡ true → (a == b) ≡ false → (b == k) ≡ false
        apart a b k e h = ground arith
