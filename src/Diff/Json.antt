-- ===== src/Diff/Json.antt =====
-- JSON values of loaded dumps and their comparison, in internal/diff/diff.go. A number is its lexeme,
-- since dumps are decoded with `UseNumber`; on such values `canonicalValue` is the identity.
use zscalerctl.Prelude.{
  ℕ, zero, suc, ◌+◌, ◌-◌, Bool, true, false, not, ◌&&◌, ◌||◌, Option, none, some, [], ◌∷◌, ◌++◌,
  Text, codes, text_beq, text_eq, if◌then◌else◌, ltb, leb, ◌==◌, length, drop, has_prefix,
}
use zscalerctl.Prelude.Int.{ℤ, pos, negsuc, sub_nat}
use zscalerctl.Diff.Number.{canonical_number, cut_at, read_int}

mutual
  pub data Value : Type 0 where
    null : Value
    flag : Bool → Value
    str : Text → Value
    number : Text → Value
    array : Items → Value
    object : Fields → Value

  pub data Items : Type 0 where
    no_items : Items
    item : Value → Items → Items

  pub data Fields : Type 0 where
    no_entries : Fields
    entry : Text → Value → Fields → Fields

unfoldable pub find_field : Fields → Text → Option Value
find_field no_entries key = none
find_field (entry k v fs) key = if text_beq k key then some v else find_field fs key

unfoldable pub count_fields : Fields → ℕ
count_fields no_entries = 0
count_fields (entry k v fs) = suc (count_fields fs)

abbrev pub same_canonical : Option Text → Option Text → Bool
same_canonical (some s) (some t) = text_beq s t
same_canonical _ _ = false

abbrev same_flag : Bool → Bool → Bool
same_flag true b = b
same_flag false b = not b

module _ (parses : Text → Bool) where
  -- `jsonValuesEqual`; `DeepEqual` compares what is neither a number, a map nor a list.
  unfoldable mutual
    unfolding canonical_number count_fields find_field

    pub json_values_equal : Value → Value → Bool
    json_values_equal (number s) (number t) =
        same_canonical (canonical_number parses s) (canonical_number parses t)
    json_values_equal (object fs) (object gs) =
        count_fields fs == count_fields gs && all_fields_equal fs gs
    json_values_equal (array vs) (array ws) = items_equal vs ws
    json_values_equal null null = true
    json_values_equal (flag a) (flag b) = same_flag a b
    json_values_equal (str s) (str t) = text_beq s t
    json_values_equal _ _ = false

    -- Every entry has an equal one under its key.
    pub all_fields_equal : Fields → Fields → Bool
    all_fields_equal no_entries gs = true
    all_fields_equal (entry k v fs) gs = elim (find_field gs k) [
      | none ↦ false
      | some w ↦ json_values_equal v w && all_fields_equal fs gs
    ]

    -- The lists have one length and equal elements.
    pub items_equal : Items → Items → Bool
    items_equal no_items no_items = true
    items_equal (item v vs) (item w ws) = json_values_equal v w && items_equal vs ws
    items_equal _ _ = false

  -- `canonicalHashValue`; `none` is an error.
  unfoldable mutual
    unfolding canonical_number

    pub canonical_hash_value : Value → Option Value
    canonical_hash_value (number s) = elim (canonical_number parses s) [
      | none ↦ none
      | some t ↦ some (number t)
    ]
    canonical_hash_value (object fs) = elim (canonical_hash_fields fs) [
      | none ↦ none
      | some gs ↦ some (object gs)
    ]
    canonical_hash_value (array vs) = elim (canonical_hash_items vs) [
      | none ↦ none
      | some ws ↦ some (array ws)
    ]
    canonical_hash_value v = some v

    pub canonical_hash_items : Items → Option Items
    canonical_hash_items no_items = some no_items
    canonical_hash_items (item v vs) = elim (canonical_hash_value v) [
      | none ↦ none
      | some w ↦ elim (canonical_hash_items vs) [ none ↦ none | some ws ↦ some (item w ws) ]
    ]

    pub canonical_hash_fields : Fields → Option Fields
    canonical_hash_fields no_entries = some no_entries
    canonical_hash_fields (entry k v fs) = elim (canonical_hash_value v) [
      | none ↦ none
      | some w ↦ elim (canonical_hash_fields fs) [ none ↦ none | some gs ↦ some (entry k w gs) ]
    ]

abbrev pub max_expanded_identity_bytes : ℕ
max_expanded_identity_bytes = 8192

abbrev repeat_zero : ℕ → Text
repeat_zero zero = []
repeat_zero (suc n) = b'0' ∷ repeat_zero n

abbrev is_e : ℕ → Bool
is_e c = c == b'e'

unfoldable pub without_points : Text → Text
without_points [] = []
without_points (c ∷ s) = let rest = without_points s in if c == b'.' then rest else c ∷ rest

abbrev in_range : ℤ → Bool
in_range (pos n) = leb n max_expanded_identity_bytes
in_range (negsuc n) = leb (suc n) max_expanded_identity_bytes

abbrev take_bytes : ℕ → Text → Text
take_bytes zero s = []
take_bytes (suc n) [] = []
take_bytes (suc n) (c ∷ s) = c ∷ take_bytes n s

-- The digits with the point in its place, or `none` where the expansion would be too long.
unfoldable pub plain_digits : Text → ℤ → Option Text
plain_digits digits (pos scale) =
    if ltb max_expanded_identity_bytes (length digits + scale)
    then none
    else some (digits ++ repeat_zero scale)
plain_digits digits (negsuc n) =
    if ltb (suc n) (length digits)
    then some
        (take_bytes (length digits - suc n) digits ++ (b'.' ∷ drop (length digits - suc n) digits))
    else if ltb max_expanded_identity_bytes (2 + (suc n - length digits) + length digits)
    then none
    else some (codes "0." ++ (repeat_zero (suc n - length digits) ++ digits))

abbrev with_sign : Bool → Text → Option Text → Text
with_sign negative canonical none = canonical
with_sign false canonical (some plain) = plain
with_sign true canonical (some plain) =
    if text_beq plain (codes "0")
    then plain
    else if ltb max_expanded_identity_bytes (length plain + 1)
    then canonical
    else b'-' ∷ plain

abbrev expanded : Text → Bool → Text → Option ℤ → Option Text
unfolding plain_digits without_points sub_nat
expanded canonical negative mantissa none = none
expanded canonical negative mantissa (some exponent) =
    let digits = without_points mantissa in
    if not (in_range exponent) || ltb max_expanded_identity_bytes (length digits)
    then some canonical
    else some
        (with_sign negative canonical (plain_digits digits (sub_nat exponent (length digits - 1))))

abbrev identity_parts : Text → Bool → Text × Option Text → Option Text
unfolding expanded read_int
identity_parts canonical negative (mantissa, none) = none
identity_parts canonical negative (mantissa, some exponent) =
    expanded canonical negative mantissa (read_int exponent)

-- `canonicalIdentityNumber` after its call of `canonicalNumber`.
unfoldable pub identity_of_canonical : Text → Option Text
unfolding identity_parts has_prefix cut_at
identity_of_canonical value =
    if text_beq value (codes "0")
    then some value
    else let negative = has_prefix value (codes "-") in
      identity_parts value negative (cut_at is_e (if negative then drop 1 value else value))

unfoldable pub canonical_identity_number : (Text → Bool) → Text → Option Text
unfolding canonical_number identity_of_canonical
canonical_identity_number parses lexeme = elim (canonical_number parses lexeme) [
  | none ↦ none
  | some value ↦ identity_of_canonical value
]

abbrev or_lexeme : Text → Option Text → Text
or_lexeme lexeme none = lexeme
or_lexeme lexeme (some s) = s

-- How `fmt.Sprint` prints a list or a map is a parameter.
unfoldable pub identity_string : (Text → Bool) → (Value → Text) → Value → Text
unfolding canonical_identity_number
identity_string parses sprint (str s) = s
identity_string parses sprint (number s) = or_lexeme s (canonical_identity_number parses s)
identity_string parses sprint (flag true) = codes "true"
identity_string parses sprint (flag false) = codes "false"
identity_string parses sprint v = sprint v
