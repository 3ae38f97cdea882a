-- ===== src/Domain/Decimal/Text.antt =====
-- `str(d)` of a decimal: plain notation, or an exponent where the number is large or tiny.
pub mod Parse
pub mod Digits
pub mod Read
pub mod RoundTrip
use payroll_software.Base.{
  ℕ, zero, suc, ◌+◌, ◌-◌, ◌/◌, ◌%◌, true, false, ◌&&◌, [], ◌∷◌, ◌++◌, ltb, leb, if◌then◌else◌,
  length, refl, ◌≡◌,
}
use payroll_software.Base.Int.{ℤ, pos, negsuc, mag, ◌+ℤ◌, ◌-ℤ◌, leb_ℤ, ltb_ℤ}
use payroll_software.Base.Text.{Text, text}
use payroll_software.Domain.Decimal.{Decimal, finite, infinity, nan, snan}

pub digit_text_from : ℕ → ℕ → Text → Text
digit_text_from zero n acc = acc
digit_text_from (suc f) n acc =
    let acc' = (b'0' + n % 10) ∷ acc in
    elim (ltb n 10) [ true ↦ acc' | false ↦ digit_text_from f (n / 10) acc' ]

-- The decimal digits of a number.
unfoldable pub digit_text : ℕ → Text
unfolding digit_text_from
digit_text n = digit_text_from (suc n) n []

pub zeros : ℕ → Text
zeros zero = []
zeros (suc n) = b'0' ∷ zeros n

pub take : ℕ → Text → Text
take zero s = []
take (suc n) [] = []
take (suc n) (c ∷ s) = c ∷ take n s

pub drop : ℕ → Text → Text
drop zero s = s
drop (suc n) [] = []
drop (suc n) (c ∷ s) = drop n s

-- The digits with the point behind the first `k` of them.
pub point_at : Text → ℤ → Text
unfolding zeros take drop
point_at s (pos zero) = text "0." ++ s
point_at s (negsuc k) = text "0." ++ (zeros (suc k) ++ s)
point_at s (pos (suc k)) =
    if leb (length s) (suc k)
    then s ++ zeros (suc k - length s)
    else take (suc k) s ++ (b'.' ∷ drop (suc k) s)

pub exponent_text : ℤ → Text
unfolding digit_text
exponent_text (pos zero) = []
exponent_text (pos (suc k)) = text "E+" ++ digit_text (suc k)
exponent_text (negsuc k) = text "E-" ++ digit_text (suc k)

pub sign_text : ℤ → Text
sign_text (pos _) = []
sign_text (negsuc _) = text "-"

-- `str(d)`
unfoldable pub str : Decimal → Text
unfolding digit_text point_at exponent_text sign_text ◌+ℤ◌ ◌-ℤ◌
str (finite c e) =
    let s = digit_text (mag c) in
    let left = e +ℤ pos (length s) in
    let dot = if leb_ℤ e (pos 0) && ltb_ℤ (negsuc 5) left then left else pos 1 in
    sign_text c ++ (point_at s dot ++ exponent_text (left -ℤ dot))
str (infinity false) = text "Infinity"
str (infinity true) = text "-Infinity"
str nan = text "NaN"
str snan = text "sNaN"

str_cents : str (finite (pos 1250) (negsuc 1)) ≡ text "12.50"
unfolding str
str_cents = refl

str_small : str (finite (negsuc 4) (negsuc 8)) ≡ text "-5E-9"
unfolding str
str_small = refl

str_large : str (finite (pos 12) (pos 3)) ≡ text "1.2E+4"
unfolding str
str_large = refl
