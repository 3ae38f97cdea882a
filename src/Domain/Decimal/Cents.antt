-- ===== src/Domain/Decimal/Cents.antt =====
-- Whole cents: what the program adds and subtracts. Below 10^28 cents the arithmetic is exact.
use payroll_software.Base.{◌^◌, ◌<◌, ◌≡◌, refl, ◌⊎◌, inl, inr, arith, ap, ◌∙◌}
use payroll_software.Base.Int.{
  ℤ, pos, mag, neg, neg_part, pos_part, ◌+ℤ◌, ◌-ℤ◌, *ℤ-one, zero-+ℤ, +ℤ-zero, int_laws,
}
use payroll_software.Base.Result.{Result, ok}
use payroll_software.Domain.Decimal.{
  Decimal, finite, precision, cents_exponent, zero_decimal, align, add, fix, subtract,
  quantize_cents, to_cents,
}
use payroll_software.Domain.Decimal.Rounding.{fix_small, quantize_cents_small}

-- `d` is `v` cents: written with two places, or the zero that a sum starts from.
abbrev pub IsCents : ℤ → Decimal → Type 0
IsCents v d = (d ≡ finite v cents_exponent) ⊎ ((d ≡ zero_decimal) × (v ≡ pos 0))

align_same : (c : ℤ) → align c cents_exponent cents_exponent ≡ c
unfolding align
align_same c = *ℤ-one c

align_zero : align (pos 0) (pos 0) cents_exponent ≡ pos 0
unfolding align
align_zero = refl

neg_parts : (a : ℤ) → (pos_part (neg a) ≡ neg_part a) × (neg_part (neg a) ≡ pos_part a)
unfolding neg
neg_parts a = ground arith

-ℤ-eq-+ℤ-neg : (u v : ℤ) → u +ℤ neg v ≡ u -ℤ v
-ℤ-eq-+ℤ-neg u v = omega (int_laws, neg_parts v)

pub to_cents_same : (v : ℤ) → to_cents v cents_exponent ≡ v
unfolding to_cents
to_cents_same v = *ℤ-one v

quantize_same :
    (v : ℤ)
    → mag v < 10 ^ precision
    → quantize_cents (finite v cents_exponent) ≡ ok (finite v cents_exponent)
quantize_same v h =
    quantize_cents_small v cents_exponent (rw (to_cents_same v) h)
    ∙ ap (λ (c : ℤ). ok (finite c cents_exponent)) (to_cents_same v)

add_exact :
    (u v : ℤ)
    → mag (u +ℤ v) < 10 ^ precision
    → add (finite u cents_exponent) (finite v cents_exponent) ≡ ok (finite (u +ℤ v) cents_exponent)
unfolding add
add_exact u v h = rw (align_same u, align_same v, fix_small (u +ℤ v) cents_exponent h)

-- The sum of two aligned coefficients, below the precision.
aligned : ℤ → ℤ → ℤ → ℤ → Result Decimal
aligned c e d f = ok (fix (align c e cents_exponent +ℤ align d f cents_exponent) cents_exponent)

add-aligned_zero :
    (u : ℤ) → add (finite u cents_exponent) zero_decimal ≡ aligned u cents_exponent (pos 0) (pos 0)
unfolding add aligned
add-aligned_zero u = refl

add_zero-aligned :
    (v : ℤ) → add zero_decimal (finite v cents_exponent) ≡ aligned (pos 0) (pos 0) v cents_exponent
unfolding add aligned
add_zero-aligned v = refl

add_exact_zero :
    (u : ℤ)
    → mag u < 10 ^ precision
    → add (finite u cents_exponent) zero_decimal ≡ ok (finite u cents_exponent)
unfolding aligned
add_exact_zero u h =
    rw (add-aligned_zero u, align_same u, align_zero, +ℤ-zero u, fix_small u cents_exponent h)

add_zero_exact :
    (v : ℤ)
    → mag v < 10 ^ precision
    → add zero_decimal (finite v cents_exponent) ≡ ok (finite v cents_exponent)
unfolding aligned
add_zero_exact v h =
    rw (add_zero-aligned v, align_same v, align_zero, zero-+ℤ v, fix_small v cents_exponent h)

-- The sum of whole cents is exact.
pub add-IsCents :
    (u v : ℤ) (a b : Decimal)
    → IsCents u a
    → IsCents v b
    → mag (u +ℤ v) < 10 ^ precision
    → (d : Decimal) × (add a b ≡ ok d) × IsCents (u +ℤ v) d
add-IsCents u v a b (inl p) (inl q) h =
    (finite (u +ℤ v) cents_exponent, rw (p, q, add_exact u v h), inl refl)
add-IsCents u v a b (inl p) (inr q) h =
    let e : u +ℤ v ≡ u = rw q.1 (+ℤ-zero u) in
    (finite u cents_exponent, rw (p, q.0, add_exact_zero u (rw e at h)), inl (rw e))
add-IsCents u v a b (inr p) (inl q) h =
    let e : u +ℤ v ≡ v = rw p.1 (zero-+ℤ v) in
    (finite v cents_exponent, rw (p.0, q, add_zero_exact v (rw e at h)), inl (rw e))
add-IsCents u v a b (inr p) (inr q) h =
    (zero_decimal, rw (p.0, q.0) (unfold add in refl), inr (refl, rw (p.1, q.1) (zero-+ℤ (pos 0))))

-- The negated subtrahend.
opposite : Decimal → Decimal
opposite (finite c e) = finite (neg c) e
opposite d = d

IsCents-opposite : (v : ℤ) (b : Decimal) → IsCents v b → IsCents (neg v) (opposite b)
unfolding opposite neg
IsCents-opposite v b (inl q) = inl (rw q)
IsCents-opposite v b (inr q) = inr (rw q.0, rw q.1)

subtract-add : (v : ℤ) (a b : Decimal) → IsCents v b → subtract a b ≡ add a (opposite b)
unfolding subtract opposite
subtract-add v a b (inl q) = rw q
subtract-add v a b (inr q) = rw q.0

-- The difference of whole cents is exact.
pub subtract-IsCents :
    (u v : ℤ) (a b : Decimal)
    → IsCents u a
    → IsCents v b
    → mag (u -ℤ v) < 10 ^ precision
    → (d : Decimal) × (subtract a b ≡ ok d) × IsCents (u -ℤ v) d
subtract-IsCents u v a b p q h =
    let e : u +ℤ neg v ≡ u -ℤ v = -ℤ-eq-+ℤ-neg u v in
    rw (subtract-add v a b q, ← e)
      (add-IsCents u (neg v) a (opposite b) p (IsCents-opposite v b q) (rw e h))

-- A whole number of cents is its own rounding.
pub quantize-IsCents :
    (v : ℤ) (d : Decimal)
    → IsCents v d
    → mag v < 10 ^ precision
    → quantize_cents d ≡ ok (finite v cents_exponent)
quantize-IsCents v d (inl p) h = rw (p, quantize_same v h)
quantize-IsCents v d (inr p) h = rw (p.0, p.1) (unfold quantize_cents in refl)
