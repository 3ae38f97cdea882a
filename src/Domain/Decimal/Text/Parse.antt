-- ===== src/Domain/Decimal/Text/Parse.antt =====
-- `Decimal(s)` of a text. White space around the number, underscores, digits of other scripts and
-- the digits behind a NaN are left out.
use payroll_software.Base.{
  ℕ, zero, suc, ◌+◌, ◌-◌, ◌*◌, Bool, true, false, ◌&&◌, ◌||◌, ◌==◌, leb, if◌then◌else◌, Option,
  none, some, [], ◌∷◌, map, refl, ◌≡◌,
}
use payroll_software.Base.Int.{ℤ, pos, neg, ◌-ℤ◌}
use payroll_software.Base.Text.{Text, text, text_eq}
use payroll_software.Domain.Decimal.{Decimal, finite, infinity, nan, snan}

abbrev pub is_digit : ℕ → Bool
is_digit c = leb b'0' c && leb c b'9'

-- Digits read behind the number `n` and `k` digits: the number, how many, and the rest.
unfoldable pub scan : Text → ℕ → ℕ → (ℕ × ℕ) × Text
scan [] n k = ((n, k), [])
scan (c ∷ s) n k = elim (is_digit c) [
  | true ↦ scan s (n * 10 + (c - b'0')) (k + 1)
  | false ↦ ((n, k), c ∷ s)
]

-- The digits behind a point, if there is one.
unfoldable pub fraction : ℕ → Text → (ℕ × ℕ) × Text
fraction n [] = ((n, 0), [])
fraction n (c ∷ s) = elim (c == b'.') [ true ↦ scan s n 0 | false ↦ ((n, 0), c ∷ s) ]

abbrev pub signed : Bool → ℕ → ℤ
signed minus n = elim minus [ true ↦ neg (pos n) | false ↦ pos n ]

-- A whole number up to the end of the text.
unfoldable pub whole : Bool → (ℕ × ℕ) × Text → Option ℤ
whole minus ((n, zero), s) = none
whole minus ((n, suc k), []) = some (signed minus n)
whole minus ((n, suc k), c ∷ s) = none

unfoldable pub signed_whole : Text → Option ℤ
signed_whole [] = none
signed_whole (c ∷ s) =
    if c == b'-'
    then whole true (scan s 0 0)
    else if c == b'+'
    then whole false (scan s 0 0)
    else whole false (scan (c ∷ s) 0 0)

-- The exponent, if there is one, up to the end.
unfoldable pub exponent : Text → Option ℤ
exponent [] = some (pos 0)
exponent (c ∷ s) = if c == b'E' || c == b'e' then signed_whole s else none

-- A number of `k` digits with `j` of them behind the point.
unfoldable pub assembled : Bool → ℕ → ℕ → ℕ → Option ℤ → Option Decimal
assembled minus n zero zero x = none
assembled minus n k j none = none
assembled minus n k j (some x) = some (finite (signed minus n) (x -ℤ pos j))

unfoldable pub number : Bool → Text → Option Decimal
number minus s =
    let ((n, k), rest) = scan s 0 0 in
    let ((m, j), end) = fraction n rest in assembled minus m k j (exponent end)

abbrev lower : ℕ → ℕ
lower c = if leb b'A' c && leb c b'Z' then c + 32 else c

unfoldable pub special : Bool → Text → Option Decimal
special minus s =
    if text_eq s (text "inf") || text_eq s (text "infinity")
    then some (infinity minus)
    else if text_eq s (text "nan")
    then some nan
    else if text_eq s (text "snan")
    then some snan
    else none

-- What follows the sign.
unfoldable pub unsigned : Bool → Text → Option Decimal
unsigned minus s = elim (number minus s) [ some d ↦ some d | none ↦ special minus (map lower s) ]

-- `Decimal(s)`, or none where it raises InvalidOperation.
unfoldable pub parse : Text → Option Decimal
parse [] = none
parse (c ∷ s) =
    if c == b'-'
    then unsigned true s
    else if c == b'+'
    then unsigned false s
    else unsigned false (c ∷ s)

parse_plain : parse (text "-12.50") ≡ some (finite (neg (pos 1250)) (pos 0 -ℤ pos 2))
unfolding parse unsigned number scan fraction assembled exponent
parse_plain = refl

parse_exponent : parse (text "1.2E+4") ≡ some (finite (pos 12) (pos 4 -ℤ pos 1))
unfolding parse unsigned number scan fraction assembled exponent signed_whole whole
parse_exponent = refl

parse_special : (parse (text "-Infinity") ≡ some (infinity true)) × (parse (text "1.2.3") ≡ none)
unfolding parse unsigned number scan fraction assembled exponent signed_whole whole special text_eq
parse_special = (refl, refl)
