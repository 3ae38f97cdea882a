-- ===== src/Domain/Decimal/Text/Digits.antt =====
-- The digits that `str` writes, and how they are read.
use payroll_software.Base.{
  ℕ, zero, suc, ◌+◌, ◌-◌, ◌*◌, ◌/◌, ◌%◌, ◌≤◌, ◌<◌, true, false, ltb, ◌≡◌, refl, ap, ◌∙◌, [], ◌∷◌,
  ◌++◌, length, All, arith, Bool-cases, inl, inr,
}
use payroll_software.Base.Text.{Text}
use payroll_software.Domain.Decimal.Text.{digit_text_from, digit_text, zeros, take, drop}
use payroll_software.Domain.Decimal.Text.Parse.{is_digit, scan}

-- Every character is a digit.
abbrev pub Digits : Text → Type 0
Digits = All (λ c. is_digit c ≡ true)

-- The number that digits spell behind `n`.
abbrev pub value : ℕ → Text → ℕ
value n [] = n
value n (c ∷ s) = value (n * 10 + (c - b'0')) s

pub value-append : (n : ℕ) (s t : Text) → value n (s ++ t) ≡ value (value n s) t
value-append n [] t = refl
value-append n (c ∷ s) t = value-append (n * 10 + (c - b'0')) s t

-- The text does not go on with a digit.
abbrev pub Stops : Text → Type 0
Stops [] = Unit
Stops (c ∷ s) = is_digit c ≡ false

stop : (s : Text) (n k : ℕ) → Stops s → scan s n k ≡ ((n, k), s)
unfolding scan
stop [] n k h = refl
stop (c ∷ s) n k h = rw (h, scan) refl

-- Digits are read up to where they stop.
pub scan-append :
    (ds s : Text) (n k : ℕ)
    → Digits ds
    → Stops s
    → scan (ds ++ s) n k ≡ ((value n ds, k + length ds), s)
unfolding scan
scan-append [] s n k d h = stop s n k h ∙ ap (λ (j : ℕ). ((n, j), s)) (omega arith)
scan-append (c ∷ ds) s n k d h =
    rw (d.0, scan)
      (scan-append ds s (n * 10 + (c - b'0')) (k + 1) d.1 h
        ∙ ap (λ (j : ℕ). ((value (n * 10 + (c - b'0')) ds, j), s)) (omega arith))

last_digit : (n : ℕ) → is_digit (b'0' + n % 10) ≡ true
last_digit n = ground arith

-- The loop puts the digits of the number in front of the digits that it has.
digit_text_from-Digits : (f n : ℕ) (acc : Text) → Digits acc → Digits (digit_text_from f n acc)
unfolding digit_text_from
digit_text_from-Digits zero n acc d = d
digit_text_from-Digits (suc f) n acc d = elim (Bool-cases (ltb n 10)) [
  | inl h ↦ rw (h, digit_text_from) (last_digit n, d)
  | inr h ↦
      rw (h, digit_text_from)
        (digit_text_from-Digits f (n / 10) ((b'0' + n % 10) ∷ acc) (last_digit n, d))
]

value-digit_text_from :
    (f n : ℕ) (acc : Text) → n < f → value 0 (digit_text_from f n acc) ≡ value n acc
unfolding digit_text_from
value-digit_text_from zero n acc l = absurd (omega arith)
value-digit_text_from (suc f) n acc l = elim (Bool-cases (ltb n 10)) [
  | inl h ↦ rw (h, digit_text_from) (ap (λ (m : ℕ). value m acc) (small n h))
  | inr h ↦
      rw (h, digit_text_from)
        (value-digit_text_from f (n / 10) ((b'0' + n % 10) ∷ acc) (ground arith)
          ∙ ap (λ (m : ℕ). value m acc) (large n))
]
  where
    small : (n : ℕ) → ltb n 10 ≡ true → 0 * 10 + (b'0' + n % 10 - b'0') ≡ n
    small n h = ground arith

    large : (n : ℕ) → n / 10 * 10 + (b'0' + n % 10 - b'0') ≡ n
    large n = omega arith

length-digit_text_from :
    (f n : ℕ) (acc : Text) → 0 < f → length acc < length (digit_text_from f n acc)
unfolding digit_text_from
length-digit_text_from zero n acc l = absurd (omega arith)
length-digit_text_from (suc zero) n acc l = elim (Bool-cases (ltb n 10)) [
  | inl h ↦ rw (h, digit_text_from) (omega arith)
  | inr h ↦ rw (h, digit_text_from) (omega arith)
]
length-digit_text_from (suc (suc f)) n acc l = elim (Bool-cases (ltb n 10)) [
  | inl h ↦ rw (h, digit_text_from) (omega arith)
  | inr h ↦
      rw (h, digit_text_from)
        (omega
          (arith, length-digit_text_from (suc f) (n / 10) ((b'0' + n % 10) ∷ acc) (omega arith)))
]

pub digit_text-Digits : (n : ℕ) → Digits (digit_text n)
unfolding digit_text
digit_text-Digits n = digit_text_from-Digits (suc n) n [] tt

pub value-digit_text : (n : ℕ) → value 0 (digit_text n) ≡ n
unfolding digit_text
value-digit_text n = value-digit_text_from (suc n) n [] (omega arith)

pub length-digit_text : (n : ℕ) → 0 < length (digit_text n)
unfolding digit_text
length-digit_text n = length-digit_text_from (suc n) n [] (omega arith)

pub zeros-Digits : (k : ℕ) → Digits (zeros k)
unfolding zeros
zeros-Digits zero = tt
zeros-Digits (suc k) = (refl, zeros-Digits k)

pub value-zeros : (k : ℕ) → value 0 (zeros k) ≡ 0
unfolding zeros
value-zeros zero = refl
value-zeros (suc k) = value-zeros k

pub length-zeros : (k : ℕ) → length (zeros k) ≡ k
unfolding zeros
length-zeros zero = refl
length-zeros (suc k) = ap suc (length-zeros k)

pub take-drop : (k : ℕ) (s : Text) → take k s ++ drop k s ≡ s
unfolding take drop
take-drop zero s = refl
take-drop (suc k) [] = refl
take-drop (suc k) (c ∷ s) = ap (λ (t : Text). c ∷ t) (take-drop k s)

pub take-Digits : (k : ℕ) (s : Text) → Digits s → Digits (take k s)
unfolding take
take-Digits zero s d = tt
take-Digits (suc k) [] d = tt
take-Digits (suc k) (c ∷ s) d = (d.0, take-Digits k s d.1)

pub drop-Digits : (k : ℕ) (s : Text) → Digits s → Digits (drop k s)
unfolding drop
drop-Digits zero s d = d
drop-Digits (suc k) [] d = tt
drop-Digits (suc k) (c ∷ s) d = drop-Digits k s d.1

pub length-drop : (k : ℕ) (s : Text) → length (drop k s) ≡ length s - k
unfolding drop
length-drop zero s = omega arith
length-drop (suc k) [] = omega arith
length-drop (suc k) (c ∷ s) = omega (arith, length-drop k s)

pub length-take : (k : ℕ) (s : Text) → k ≤ length s → length (take k s) ≡ k
unfolding take
length-take zero s l = refl
length-take (suc k) [] l = absurd (omega (arith, l))
length-take (suc k) (c ∷ s) l = ap suc (length-take k s (omega (arith, l)))
