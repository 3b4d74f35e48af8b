-- ===== src/Text/Number.antt =====
-- `int(s)` and `str(n)`. A whole number of Python is a sign and a magnitude.
use mathlib.Core.List.{reverse}
use custom_network_proxy_ser.Base.{
  ℕ, zero, suc, ◌+◌, ◌-◌, ◌*◌, ◌/◌, ◌%◌, Bool, true, false, ◌&&◌, ◌||◌, Option, none, some, [], ◌∷◌,
  leb, ltb, ◌==◌, if◌then◌else◌,
}
use custom_network_proxy_ser.Text.{Text, strip}

-- `negsuc n` is -(n + 1).
pub data ℤ : Type 0 where
  pos : ℕ → ℤ
  negsuc : ℕ → ℤ

abbrev pub negate : ℕ → ℤ
negate zero = pos 0
negate (suc n) = negsuc n

-- `n > 0`
abbrev pub is_positive : ℤ → Bool
is_positive (pos zero) = false
is_positive (pos (suc n)) = true
is_positive (negsuc n) = false

abbrev pub to_nat : ℤ → ℕ
to_nat (pos n) = n
to_nat (negsuc n) = 0

unfoldable pub is_digit : ℕ → Bool
is_digit c = leb b'0' c && leb c b'9'

-- Digits, with single underscores between them; `seen` says that a digit came just before.
unfoldable pub digits_value : ℕ → Bool → Text → Option ℕ
unfolding is_digit
digits_value acc seen [] = if seen then some acc else none
digits_value acc seen (c ∷ s) =
    let rest = digits_value (if is_digit c then acc * 10 + (c - b'0') else acc) (is_digit c) s in
    if is_digit c || (c == b'_' && seen) then rest else none

unfoldable pub count_digits : Text → ℕ
unfolding is_digit
count_digits [] = 0
count_digits (c ∷ s) = if is_digit c then count_digits s + 1 else count_digits s

-- The magnitude; more than 4300 digits are refused.
unfoldable pub magnitude : Text → Option ℕ
unfolding digits_value count_digits
magnitude s = if ltb 4300 (count_digits s) then none else digits_value 0 false s

abbrev signed : Text → Option ℤ
signed [] = none
signed (c ∷ s) =
    if c == b'-'
    then elim (magnitude s) [ none ↦ none | some n ↦ some (negate n) ]
    else elim (magnitude (if c == b'+' then s else c ∷ s)) [ none ↦ none | some n ↦ some (pos n) ]

-- `int(s)`; `none` is the `ValueError`
unfoldable pub to_int : Text → Option ℤ
unfolding strip magnitude
to_int s = signed (strip s)

-- The decimal digits of a number, the last first; the fuel is above the number.
unfoldable pub digits_from : ℕ → ℕ → Text
digits_from zero n = []
digits_from (suc f) n =
    let rest = digits_from f (n / 10) in (b'0' + n % 10) ∷ (if n / 10 == 0 then [] else rest)

-- `str(n)`
unfoldable pub show : ℕ → Text
unfolding digits_from
show n = reverse (digits_from (n + 1) n)

unfoldable pub show_ℤ : ℤ → Text
unfolding show
show_ℤ (pos n) = show n
show_ℤ (negsuc n) = b'-' ∷ show (n + 1)
