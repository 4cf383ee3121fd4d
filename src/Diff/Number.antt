-- ===== src/Diff/Number.antt =====
-- The canonical form of a JSON number, `canonicalNumber` in internal/diff/diff.go. Whether
-- `strconv.ParseFloat` accepts a lexeme is a parameter.
pub mod Scale
pub mod Value
use zscalerctl.Prelude.{
  ℕ, zero, suc, ◌+◌, ◌-◌, ◌*◌, Bool, true, false, not, ◌&&◌, ◌||◌, Option, none, some, List, [],
  ◌∷◌, ◌++◌, Text, codes, has_prefix, is_empty, if◌then◌else◌, ◌==◌, leb, length, drop,
}
use zscalerctl.Prelude.Int.{ℤ, pos, negsuc, add_nat, sub_nat, int_text}

-- `strings.IndexAny` and the two parts around the byte found, if any.
unfoldable pub cut_at : (ℕ → Bool) → Text → Text × Option Text
cut_at is_separator [] = ([], none)
cut_at is_separator (c ∷ s) =
    let (before, after) = cut_at is_separator s in
    if is_separator c then ([], some s) else (c ∷ before, after)

abbrev pub is_exponent_mark : ℕ → Bool
is_exponent_mark c = c == b'e' || c == b'E'

abbrev pub is_point : ℕ → Bool
is_point c = c == b'.'

abbrev is_digit : ℕ → Bool
is_digit c = leb b'0' c && leb c b'9'

-- The value of decimal digits after `n`.
unfoldable pub read_digits : ℕ → Text → Option ℕ
read_digits n [] = some n
read_digits n (c ∷ s) =
    let rest = read_digits (n * 10 + (c - b'0')) s in if is_digit c then rest else none

abbrev unsigned : Text → Option ℕ
unfolding read_digits
unsigned [] = none
unsigned (c ∷ s) = read_digits 0 (c ∷ s)

abbrev negated : Option ℕ → Option ℤ
negated none = none
negated (some zero) = some (pos 0)
negated (some (suc n)) = some (negsuc n)

abbrev natural : Option ℕ → Option ℤ
natural none = none
natural (some n) = some (pos n)

-- `SetString(s, 10)` of `big.Int`.
unfoldable pub read_int : Text → Option ℤ
unfolding unsigned
read_int [] = none
read_int (c ∷ s) =
    if c == b'-'
    then negated (unsigned s)
    else if c == b'+'
    then natural (unsigned s)
    else natural (unsigned (c ∷ s))

-- A number as its sign, its digits without a point, and the power of ten that they are scaled by.
pub record Decimal : Type 0 where
  pub negative : Bool
  pub digits : Text
  pub exponent : ℤ

abbrev exponent_of : Option Text → Option ℤ
unfolding read_int
exponent_of none = some (pos 0)
exponent_of (some s) = read_int s

abbrev fraction_of : Option Text → Text
fraction_of none = []
fraction_of (some s) = s

abbrev decimal_of : Bool → Text × Option Text → Option ℤ → Option Decimal
decimal_of negative (before, after) none = none
decimal_of negative (before, after) (some exponent) = some (record {
  negative = negative;
  digits = before ++ fraction_of after;
  exponent = sub_nat exponent (length (fraction_of after));
})

unfoldable pub read_decimal : Text → Option Decimal
unfolding has_prefix cut_at read_int sub_nat
read_decimal lexeme =
    let negative = has_prefix lexeme (codes "-") in
    let (number, exponent) = cut_at is_exponent_mark (if negative then drop 1 lexeme else lexeme) in
    decimal_of negative (cut_at is_point number) (exponent_of exponent)

-- `strings.TrimLeft(s, "0")` and `strings.TrimRight(s, "0")`.
unfoldable pub trim_left_zeros : Text → Text
trim_left_zeros [] = []
trim_left_zeros (c ∷ s) = let rest = trim_left_zeros s in if c == b'0' then rest else c ∷ s

unfoldable pub trim_right_zeros : Text → Text
trim_right_zeros [] = []
trim_right_zeros (c ∷ s) =
    let rest = trim_right_zeros s in if is_empty rest && c == b'0' then [] else c ∷ rest

-- The canonical number before it is written: zero, or digits and the exponent of the first one.
pub data Canonical : Type 0 where
  zero_number : Canonical
  scaled : Bool → Text → ℤ → Canonical

unfoldable pub scaled_digits : Bool → Text → ℤ → Canonical
unfolding trim_right_zeros add_nat
scaled_digits negative [] exponent = zero_number
scaled_digits negative (c ∷ s) exponent =
    let digits = trim_right_zeros (c ∷ s) in
    let trailing_zeros = length (c ∷ s) - length digits in
    scaled negative digits (add_nat exponent (trailing_zeros + length digits - 1))

unfoldable pub canonical_decimal : Decimal → Canonical
unfolding trim_left_zeros scaled_digits
canonical_decimal d = scaled_digits d.negative (trim_left_zeros d.digits) d.exponent

abbrev mantissa : Text → Text
mantissa [] = []
mantissa (c ∷ []) = c ∷ []
mantissa (c ∷ d ∷ s) = c ∷ b'.' ∷ d ∷ s

unfoldable pub canonical_text : Canonical → Text
unfolding int_text
canonical_text zero_number = codes "0"
canonical_text (scaled negative digits exponent) =
    (if negative then codes "-" else []) ++ (mantissa digits ++ (codes "e" ++ int_text exponent))

abbrev written : Option Decimal → Option Text
unfolding canonical_decimal canonical_text
written none = none
written (some d) = some (canonical_text (canonical_decimal d))

unfoldable pub canonical_number : (Text → Bool) → Text → Option Text
unfolding read_decimal canonical_decimal canonical_text
canonical_number parses lexeme = if not (parses lexeme) then none else written (read_decimal lexeme)
