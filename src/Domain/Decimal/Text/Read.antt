-- ===== src/Domain/Decimal/Text/Read.antt =====
-- How `Decimal(s)` reads digits with a point and an exponent.
use mathlib.Core.List.{append_assoc, append-nil}
use payroll_software.Base.{
  ℕ, zero, suc, ◌+◌, ◌-◌, ◌≤◌, ◌<◌, Bool, true, false, leb, ◌≡◌, refl, sym, ap, ◌∙◌, Option, some,
  [], ◌∷◌, ◌++◌, length, length-append, All-append, arith, Bool-cases, inl, inr,
}
use payroll_software.Base.Int.{ℤ, pos, negsuc, pos_part, neg_part, neg, ◌+ℤ◌, ◌-ℤ◌, int_laws}
use payroll_software.Base.Text.{Text}
use payroll_software.Domain.Decimal.{Decimal, finite}
use payroll_software.Domain.Decimal.Text.{digit_text, zeros, take, drop, point_at, exponent_text}
use payroll_software.Domain.Decimal.Text.Parse.{
  is_digit, scan, fraction, signed, whole, signed_whole, exponent, assembled, number,
}
use payroll_software.Domain.Decimal.Text.Digits.{
  Digits, value, value-append, Stops, scan-append, digit_text-Digits, value-digit_text,
  length-digit_text, zeros-Digits, value-zeros, length-zeros, take-drop, take-Digits, drop-Digits,
  length-drop, length-take,
}

whole_lem : (minus : Bool) (n k : ℕ) → 0 < k → whole minus ((n, k), []) ≡ some (signed minus n)
unfolding whole
whole_lem minus n zero l = absurd (omega (arith, l))
whole_lem minus n (suc k) l = refl

whole-digit_text :
    (minus : Bool) (n : ℕ) → whole minus (scan (digit_text n) 0 0) ≡ some (signed minus n)
whole-digit_text minus n =
    let read : scan (digit_text n) 0 0 ≡ ((value 0 (digit_text n), 0 + length (digit_text n)), []) =
      ap (λ (s : Text). scan s 0 0) (sym (append-nil (digit_text n)))
      ∙ scan-append (digit_text n) [] 0 0 (digit_text-Digits n) tt in
    ap (whole minus) read
    ∙ whole_lem minus (value 0 (digit_text n)) (0 + length (digit_text n))
        (omega (arith, length-digit_text n))
    ∙ ap (λ (m : ℕ). some (signed minus m)) (value-digit_text n)

pub neg-suc : (k : ℕ) → neg (pos (suc k)) ≡ negsuc k
unfolding neg
neg-suc k = ground arith

exponent-exponent_text : (x : ℤ) → exponent (exponent_text x) ≡ some x
unfolding exponent exponent_text signed_whole
exponent-exponent_text (pos zero) = refl
exponent-exponent_text (pos (suc k)) = whole-digit_text false (suc k)
exponent-exponent_text (negsuc k) = whole-digit_text true (suc k) ∙ ap some (neg-suc k)

exponent_text-Stops : (x : ℤ) → Stops (exponent_text x)
unfolding exponent_text
exponent_text-Stops (pos zero) = tt
exponent_text-Stops (pos (suc k)) = refl
exponent_text-Stops (negsuc k) = refl

fraction-exponent_text : (n : ℕ) (x : ℤ) → fraction n (exponent_text x) ≡ ((n, 0), exponent_text x)
unfolding fraction exponent_text
fraction-exponent_text n (pos zero) = refl
fraction-exponent_text n (pos (suc k)) = refl
fraction-exponent_text n (negsuc k) = refl

assembled_lem :
    (minus : Bool) (n k j : ℕ) (x : ℤ)
    → 0 < k
    → assembled minus n k j (some x) ≡ some (finite (signed minus n) (x -ℤ pos j))
unfolding assembled
assembled_lem minus n zero j x l = absurd (omega (arith, l))
assembled_lem minus n (suc k) j x l = refl

zero_plus : (k : ℕ) → 0 + k ≡ k
zero_plus k = omega arith

-- Digits, a point, digits and an exponent.
number_point :
    (minus : Bool) (ds fs : Text) (x : ℤ)
    → Digits ds
    → 0 < length ds
    → Digits fs
    → number minus (ds ++ (b'.' ∷ (fs ++ exponent_text x)))
      ≡ some (finite (signed minus (value 0 (ds ++ fs))) (x -ℤ pos (length fs)))
unfolding number fraction
number_point minus ds fs x d l f =
    rw
      (
        scan-append ds (b'.' ∷ (fs ++ exponent_text x)) 0 0 d refl,
        scan-append fs (exponent_text x) (value 0 ds) 0 f (exponent_text-Stops x),
        exponent-exponent_text x,
        assembled_lem minus (value (value 0 ds) fs) (0 + length ds) (0 + length fs) x
            (omega (arith, l)),
        value-append 0 ds fs,
      )
      (ap (λ (j : ℕ). some (finite (signed minus (value (value 0 ds) fs)) (x -ℤ pos j)))
        (zero_plus (length fs)))

-- Digits and an exponent.
number_whole :
    (minus : Bool) (ds : Text) (x : ℤ)
    → Digits ds
    → 0 < length ds
    → number minus (ds ++ exponent_text x) ≡ some (finite (signed minus (value 0 ds)) (x -ℤ pos 0))
unfolding number
number_whole minus ds x d l =
    rw
      (
        scan-append ds (exponent_text x) 0 0 d (exponent_text-Stops x),
        fraction-exponent_text (value 0 ds) x,
        exponent-exponent_text x,
        assembled_lem minus (value 0 ds) (0 + length ds) 0 x (omega (arith, l)),
      )
      refl

-- The exponent of a number with the point behind the first `dot` of its digits.
read_exponent :
    (dot x : ℤ) (l j : ℕ) → pos_part dot + j ≡ neg_part dot + l → x -ℤ pos j ≡ dot +ℤ x -ℤ pos l
read_exponent dot x l j h = omega int_laws

abbrev pub Reads : Bool → Text → ℤ → ℤ → Text → Type 0
Reads minus s dot x t =
    number minus t ≡ some (finite (signed minus (value 0 s)) (dot +ℤ x -ℤ pos (length s)))

pub same_number :
    (minus : Bool) (m n : ℕ) (a b : ℤ)
    → m ≡ n
    → a ≡ b
    → ◌≡◌ {A = Option Decimal} (some (finite (signed minus m) a)) (some (finite (signed minus n) b))
same_number minus m n a b p q = rw (p, q) refl

module _ (minus : Bool) (s : Text) (x : ℤ) (d : Digits s) (l : 0 < length s) where
  split_number :
      (k : ℕ)
      → suc k ≤ length s
      → Reads minus s
          (pos (suc k))
          x
          ((take (suc k) s ++ (b'.' ∷ drop (suc k) s)) ++ exponent_text x)
  split_number k h =
      ap (number minus) (append_assoc (take (suc k) s) (b'.' ∷ drop (suc k) s) (exponent_text x))
      ∙ number_point minus (take (suc k) s) (drop (suc k) s) x (take-Digits (suc k) s d)
          (omega (arith, length-take (suc k) s h)) (drop-Digits (suc k) s d)
      ∙ same_number minus (value 0 (take (suc k) s ++ drop (suc k) s)) (value 0 s)
          (x -ℤ pos (length (drop (suc k) s))) (pos (suc k) +ℤ x -ℤ pos (length s))
          (ap (value 0) (take-drop (suc k) s))
          (read_exponent (pos (suc k)) x (length s) (length (drop (suc k) s))
            (omega (arith, length-drop (suc k) s, h)))

  whole_number :
      (k : ℕ)
      → length s ≡ suc k
      → Reads minus s (pos (suc k)) x ((s ++ zeros (suc k - length s)) ++ exponent_text x)
  unfolding zeros
  whole_number k h =
      let none_left : suc k - length s ≡ 0 = omega (arith, h) in
      ap (λ (j : ℕ). number minus ((s ++ zeros j) ++ exponent_text x)) none_left
      ∙ ap (λ (t : Text). number minus (t ++ exponent_text x)) (append-nil s)
      ∙ number_whole minus s x d l
      ∙ same_number minus (value 0 s) (value 0 s) (x -ℤ pos 0) (pos (suc k) +ℤ x -ℤ pos (length s))
          refl (read_exponent (pos (suc k)) x (length s) 0 (omega (arith, h)))

  -- The digits with a point among or in front of them, and the exponent, are read.
  pub point_number :
      (dot : ℤ) → pos_part dot ≤ length s → Reads minus s dot x (point_at s dot ++ exponent_text x)
  unfolding point_at
  point_number (pos zero) h =
      number_point minus (b'0' ∷ []) s x (refl, tt) (omega arith) d
      ∙ same_number minus (value 0 s) (value 0 s) (x -ℤ pos (length s))
          (pos zero +ℤ x -ℤ pos (length s)) refl
          (read_exponent (pos zero) x (length s) (length s) (omega arith))
  point_number (negsuc k) h =
      let fs = zeros (suc k) ++ s in
      number_point minus (b'0' ∷ []) fs x (refl, tt) (omega arith)
        (All-append (λ c. is_digit c ≡ true) (zeros (suc k)) s (zeros-Digits (suc k)) d)
      ∙ same_number minus (value 0 fs) (value 0 s) (x -ℤ pos (length fs))
          (negsuc k +ℤ x -ℤ pos (length s))
          (value-append 0 (zeros (suc k)) s ∙ ap (λ (m : ℕ). value m s) (value-zeros (suc k)))
          (read_exponent (negsuc k) x (length s) (length fs)
            (omega (arith, length-append (zeros (suc k)) s, length-zeros (suc k))))
  point_number (pos (suc k)) h = elim (Bool-cases (leb (length s) (suc k))) [
    | inl e ↦ rw e (whole_number k (ground arith))
    | inr e ↦ rw e (split_number k h)
  ]
