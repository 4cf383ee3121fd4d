-- ===== src/Diff/Number/Scale.antt =====
-- The canonical form of a number is that of its value.
use zscalerctl.Prelude.{
  ℕ, suc, ◌+◌, ◌-◌, ◌≤◌, Bool, ◌≡◌, refl, sym, ap, ◌∙◌, inl, inr, [], ◌∷◌, ◌++◌, Text, is_empty,
  if◌then◌else◌, ◌==◌, length, length-append, arith, Bool-cases,
}
use zscalerctl.Prelude.Int.{ℤ, add_nat, sub_nat, sub_nat-add_nat}
use zscalerctl.Diff.Number.{
  Decimal, trim_left_zeros, trim_right_zeros, scaled, scaled_digits, canonical_decimal,
}

pub trim_right_zeros-zero : (s : Text) → trim_right_zeros (s ++ b'0' ∷ []) ≡ trim_right_zeros s
unfolding trim_right_zeros
trim_right_zeros-zero [] = refl
trim_right_zeros-zero (c ∷ s) = rw (trim_right_zeros-zero s) refl

pub length-trim_right_zeros : (s : Text) → length (trim_right_zeros s) ≤ length s
unfolding trim_right_zeros
length-trim_right_zeros [] = omega arith
length-trim_right_zeros (c ∷ s) = ground (arith, length-trim_right_zeros s)

pub scaled_digits-cons :
    (negative : Bool) (c : ℕ) (s : Text) (exponent : ℤ)
    → scaled_digits negative (c ∷ s) exponent
      ≡ scaled negative (trim_right_zeros (c ∷ s)) (add_nat exponent (length s))
unfolding scaled_digits
scaled_digits-cons negative c s exponent =
    let all : length (c ∷ s)
          - length (trim_right_zeros (c ∷ s))
          + length (trim_right_zeros (c ∷ s))
          - 1
        ≡ length s =
      omega (arith, length-trim_right_zeros (c ∷ s)) in
    ap (λ n. scaled negative (trim_right_zeros (c ∷ s)) (add_nat exponent n)) all

-- A zero behind the digits, with one power of ten less, changes nothing.
scaled_digits-zero :
    (negative : Bool) (c : ℕ) (s : Text) (exponent : ℤ)
    → scaled_digits negative (c ∷ s ++ b'0' ∷ []) (sub_nat exponent 1)
      ≡ scaled_digits negative (c ∷ s) exponent
scaled_digits-zero negative c s exponent =
    let more : length (s ++ b'0' ∷ []) ≡ suc (length s) =
      omega (arith, length-append s (b'0' ∷ [])) in
    scaled_digits-cons negative c (s ++ b'0' ∷ []) (sub_nat exponent 1)
    ∙ rw (trim_right_zeros-zero (c ∷ s), more, sub_nat-add_nat exponent (length s))
        (sym (scaled_digits-cons negative c s exponent))

trim_left_zeros-zero :
    (s : Text)
    → trim_left_zeros (s ++ b'0' ∷ [])
      ≡ (if is_empty (trim_left_zeros s) then [] else trim_left_zeros s ++ b'0' ∷ [])
unfolding trim_left_zeros
trim_left_zeros-zero [] = refl
trim_left_zeros-zero (c ∷ s) = elim (Bool-cases (c == b'0')) [
  | inl e ↦ rw e (trim_left_zeros-zero s)
  | inr e ↦ rw e refl
]

-- Two ways to write one number: with a leading zero more, with a trailing zero more and a power of
-- ten less, or zero with any exponent.
pub data IsSame : Decimal → Decimal → Type 0 where
  same : {d : Decimal} → IsSame d d
  other_way : {d e : Decimal} → IsSame d e → IsSame e d
  chained : {d e f : Decimal} → IsSame d e → IsSame e f → IsSame d f
  leading :
      {negative : Bool} {digits : Text} {exponent : ℤ}
      → IsSame
          (record { negative = negative; digits = b'0' ∷ digits; exponent = exponent })
          (record { negative = negative; digits = digits; exponent = exponent })
  trailing :
      {negative : Bool} {digits : Text} {exponent : ℤ}
      → IsSame
          (record {
            negative = negative;
            digits = digits ++ b'0' ∷ [];
            exponent = sub_nat exponent 1;
          })
          (record { negative = negative; digits = digits; exponent = exponent })
  nothing :
      {negative negative' : Bool} {exponent exponent' : ℤ}
      → IsSame
          (record { negative = negative; digits = []; exponent = exponent })
          (record { negative = negative'; digits = []; exponent = exponent' })

scaled_trailing :
    (negative : Bool) (s : Text) (exponent : ℤ)
    → scaled_digits negative (if is_empty s then [] else s ++ b'0' ∷ []) (sub_nat exponent 1)
      ≡ scaled_digits negative s exponent
unfolding scaled_digits
scaled_trailing negative [] exponent = refl
scaled_trailing negative (c ∷ s) exponent = scaled_digits-zero negative c s exponent

pub canonical_decimal-IsSame :
    (d e : Decimal) → IsSame d e → canonical_decimal d ≡ canonical_decimal e
unfolding canonical_decimal trim_left_zeros scaled_digits
canonical_decimal-IsSame _ _ same = refl
canonical_decimal-IsSame _ _ (other_way {d} {e} h) = sym (canonical_decimal-IsSame d e h)
canonical_decimal-IsSame _ _ (chained {d} {e} {f} h k) =
    canonical_decimal-IsSame d e h ∙ canonical_decimal-IsSame e f k
canonical_decimal-IsSame _ _ leading = refl
canonical_decimal-IsSame _ _ (trailing {negative} {digits} {exponent}) =
    rw (trim_left_zeros-zero digits) (scaled_trailing negative (trim_left_zeros digits) exponent)
canonical_decimal-IsSame _ _ nothing = refl
