-- ===== src/Domain/Decimal/Text/RoundTrip.antt =====
-- `Decimal(str(d))` is `d`, with its digits and its exponent.
use payroll_software.Base.{
  ℕ, zero, suc, ◌≤◌, ◌<◌, Bool, true, false, ◌&&◌, leb, ◌≡◌, refl, ap, ◌∙◌, some, [], ◌∷◌, ◌++◌,
  length, arith, Bool-cases, inl, inr, if◌then◌else◌, ◌==◌,
}
use payroll_software.Base.Int.{
  ℤ, pos, negsuc, pos_part, mag, neg, ◌+ℤ◌, ◌-ℤ◌, leb_ℤ, ltb_ℤ, int_laws,
}
use payroll_software.Base.Text.{Text, text_eq}
use payroll_software.Domain.Decimal.{Decimal, finite, infinity, nan, snan}
use payroll_software.Domain.Decimal.Text.{digit_text, take, point_at, exponent_text, sign_text, str}
use payroll_software.Domain.Decimal.Text.Parse.{
  is_digit, scan, fraction, signed, exponent, assembled, number, special, unsigned, parse,
}
use payroll_software.Domain.Decimal.Text.Digits.{
  Digits, value, digit_text-Digits, value-digit_text, length-digit_text,
}
use payroll_software.Domain.Decimal.Text.Read.{neg-suc, same_number, point_number}

-- The body of the text starts with a digit.
abbrev Starts : Text → Type 0
Starts [] = ⊥
Starts (c ∷ s) = is_digit c ≡ true

point_at-Starts : (s t : Text) (dot : ℤ) → Digits s → 0 < length s → Starts (point_at s dot ++ t)
unfolding point_at take
point_at-Starts [] t dot d l = absurd (omega (arith, l))
point_at-Starts (c ∷ s) t (pos zero) d l = refl
point_at-Starts (c ∷ s) t (negsuc k) d l = refl
point_at-Starts (c ∷ s) t (pos (suc k)) d l = elim (Bool-cases (leb (length (c ∷ s)) (suc k))) [
  | inl e ↦ rw e d.0
  | inr e ↦ rw e d.0
]

unsigned_lem :
    (minus : Bool) (s : Text) (a : Decimal) → number minus s ≡ some a → unsigned minus s ≡ some a
unfolding unsigned
unsigned_lem minus s a h = rw (h, unsigned) refl

parse-Starts : (s : Text) → Starts s → parse s ≡ unsigned false s
unfolding parse
parse-Starts [] h = absurd h
parse-Starts (c ∷ s) h =
    let a : (c == b'-') ≡ false = ground arith in
    let b : (c == b'+') ≡ false = ground arith in rw (a, b) refl

parse_minus : (s : Text) → parse (b'-' ∷ s) ≡ unsigned true s
unfolding parse
parse_minus s = refl

-- Where the point goes.
abbrev dot_of : ℤ → ℤ → ℤ
dot_of e left = if leb_ℤ e (pos 0) && ltb_ℤ (negsuc 5) left then left else pos 1

below : (e : ℤ) (l : ℕ) → leb_ℤ e (pos 0) ≡ true → pos_part (e +ℤ pos l) ≤ l
unfolding ◌+ℤ◌
below e l h = ground arith

dot_fits : (e : ℤ) (l : ℕ) → 0 < l → pos_part (dot_of e (e +ℤ pos l)) ≤ l
dot_fits e l h = elim (Bool-cases (leb_ℤ e (pos 0) && ltb_ℤ (negsuc 5) (e +ℤ pos l))) [
  | inl q ↦ rw q (below e l (ground arith))
  | inr q ↦ rw q (omega (arith, h))
]

exponent_back : (e dot : ℤ) (l : ℕ) → dot +ℤ (e +ℤ pos l -ℤ dot) -ℤ pos l ≡ e
exponent_back e dot l = omega int_laws

-- The text of a magnitude at an exponent, behind the sign.
abbrev body : ℕ → ℤ → Text
body m e =
    let s = digit_text m in
    let left = e +ℤ pos (length s) in
    point_at s (dot_of e left) ++ exponent_text (left -ℤ dot_of e left)

number-body :
    (minus : Bool) (m : ℕ) (e : ℤ) → number minus (body m e) ≡ some (finite (signed minus m) e)
number-body minus m e =
    let s = digit_text m in
    let left = e +ℤ pos (length s) in
    let dot = dot_of e left in
    point_number minus s (left -ℤ dot) (digit_text-Digits m) (length-digit_text m) dot
      (dot_fits e (length s) (length-digit_text m))
    ∙ same_number minus (value 0 s) m (dot +ℤ (left -ℤ dot) -ℤ pos (length s)) e
        (value-digit_text m) (exponent_back e dot (length s))

-- A decimal is read back from its text.
pub parse-str : (d : Decimal) → parse (str d) ≡ some d
unfolding str sign_text parse unsigned number scan fraction assembled exponent special text_eq
parse-str (finite (pos n) e) =
    parse-Starts (body (mag (pos n)) e) (
      point_at-Starts (digit_text (mag (pos n))) _ _ (digit_text-Digits (mag (pos n)))
        (length-digit_text (mag (pos n))))
    ∙ unsigned_lem false (body (mag (pos n)) e) _ (number-body false (mag (pos n)) e)
    ∙ ap (λ (c : ℕ). some (finite (pos c) e)) (omega arith)
parse-str (finite (negsuc n) e) =
    parse_minus (body (mag (negsuc n)) e)
    ∙ unsigned_lem true (body (mag (negsuc n)) e) _ (number-body true (mag (negsuc n)) e)
    ∙ ap (λ (c : ℕ). some (finite (neg (pos c)) e)) (omega arith)
    ∙ ap (λ (c : ℤ). some (finite c e)) (neg-suc n)
parse-str (infinity false) = refl
parse-str (infinity true) = refl
parse-str nan = refl
parse-str snan = refl
