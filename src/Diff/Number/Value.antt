-- ===== src/Diff/Number/Value.antt =====
-- Numbers with one canonical form have one value.
use zscalerctl.Prelude.{
  ℕ, zero, suc, ◌+◌, ◌-◌, ◌<◌, Bool, true, false, ◌&&◌, ◌≡◌, refl, sym, subst, ap, ◌∙◌, inl, inr,
  ◌↔◌, [], ◌∷◌, ◌++◌, Text, append_assoc, append-nil, is_empty, is_empty→nil, if◌then◌else◌, ◌==◌,
  ==_iff, length, arith, Bool-cases,
}
use zscalerctl.Prelude.Int.{
  ℤ, pos, add_nat, sub_nat, add_nat-zero, add_nat-add_nat, sub_nat-add_more,
}
use zscalerctl.Diff.Number.{
  Decimal, trim_left_zeros, trim_right_zeros, Canonical, zero_number, scaled, scaled_digits,
  canonical_decimal,
}
use zscalerctl.Diff.Number.Scale.{
  IsSame, same, other_way, chained, leading, trailing, nothing, length-trim_right_zeros,
  scaled_digits-cons, canonical_decimal-IsSame,
}

abbrev decimal : Bool → Text → ℤ → Decimal
decimal negative digits exponent = record {
  negative = negative;
  digits = digits;
  exponent = exponent;
}

abbrev zeros : ℕ → Text
zeros zero = []
zeros (suc n) = zeros n ++ b'0' ∷ []

zeros_front : (n : ℕ) → b'0' ∷ zeros n ≡ zeros (suc n)
zeros_front zero = refl
zeros_front (suc n) = ap (λ z. z ++ b'0' ∷ []) (zeros_front n)

trim_left-IsSame :
    (negative : Bool) (s : Text) (exponent : ℤ)
    → IsSame (decimal negative s exponent) (decimal negative (trim_left_zeros s) exponent)
unfolding trim_left_zeros
trim_left-IsSame negative [] exponent = same
trim_left-IsSame negative (c ∷ s) exponent = elim (Bool-cases (c == b'0')) [
  | inl e ↦
      let z : c ≡ b'0' = ground (arith, ==_iff c b'0') in
      rw e (
        subst
          (λ x.
            IsSame (decimal negative (x ∷ s) exponent)
              (decimal negative (trim_left_zeros s) exponent))
          (sym z) (chained leading (trim_left-IsSame negative s exponent)))
  | inr e ↦ rw e same
]

-- The zeros that `trim_right_zeros` takes away.
trim_cons :
    (b : Bool) (c : ℕ) (s rest : Text)
    → s ≡ rest ++ zeros (length s - length rest)
    → (b ≡ true → (c ≡ b'0') × (rest ≡ []))
    → c ∷ s
      ≡ (if b then [] else c ∷ rest) ++ zeros (suc (length s) - length (if b then [] else c ∷ rest))
trim_cons false c s rest h k =
    let same_count : length s - length rest ≡ suc (length s) - suc (length rest) = omega arith in
    ap (λ t. c ∷ t) (h ∙ ap (λ n. rest ++ zeros n) same_count)
trim_cons true c s rest h k =
    let (z, r) = k refl in
    let none_left : length s - 0 ≡ length s = omega arith in
    let one_more : suc (length s) ≡ suc (length s) - 0 = omega arith in
    let all : s ≡ zeros (length s) =
      subst (λ x. s ≡ x ++ zeros (length s - length x)) r h ∙ ap zeros none_left in
    ap (λ x. x ∷ s) z ∙ (ap (λ t. b'0' ∷ t) all ∙ (zeros_front (length s) ∙ ap zeros one_more))

trim_right_rest :
    (s : Text) → s ≡ trim_right_zeros s ++ zeros (length s - length (trim_right_zeros s))
unfolding trim_right_zeros
trim_right_rest [] = refl
trim_right_rest (c ∷ s) =
    trim_cons (is_empty (trim_right_zeros s) && c == b'0') c s (trim_right_zeros s)
      (trim_right_rest s)
      (λ e. (ground (arith, ==_iff c b'0'), is_empty→nil (trim_right_zeros s) (ground arith)))

trailing-IsSame :
    (negative : Bool) (s : Text) (k : ℕ) (exponent : ℤ)
    → IsSame (decimal negative (s ++ zeros k) exponent) (decimal negative s (add_nat exponent k))
trailing-IsSame negative s zero exponent = rw (append-nil s, add_nat-zero exponent) same
trailing-IsSame negative s (suc k) exponent =
    let back : sub_nat (add_nat exponent 1) 1 ≡ exponent =
      sub_nat-add_more exponent 0 1 ∙ add_nat-zero exponent in
    let on : add_nat (add_nat exponent 1) k ≡ add_nat exponent (suc k) =
      add_nat-add_nat exponent 1 k
      ∙ ap (λ n. add_nat exponent n) {x = 1 + k} {y = suc k} (omega arith) in
    let step : IsSame
        (decimal negative ((s ++ zeros k) ++ b'0' ∷ []) (sub_nat (add_nat exponent 1) 1))
        (decimal negative (s ++ zeros k) (add_nat exponent 1)) =
      trailing in
    subst (λ z. IsSame (decimal negative (s ++ zeros (suc k)) exponent) (decimal negative s z)) on
      (chained (rw (append_assoc s (zeros k) (b'0' ∷ []), back) at step)
        (trailing-IsSame negative s k (add_nat exponent 1)))

-- The decimal that a canonical form stands for.
abbrev standing_for : Canonical → Decimal
standing_for zero_number = decimal false [] (pos 0)
standing_for (scaled negative digits exponent) =
    decimal negative digits (sub_nat exponent (length digits - 1))

trim_left_head : (s : Text) (c : ℕ) (r : Text) → trim_left_zeros s ≡ c ∷ r → (c == b'0') ≡ false
unfolding trim_left_zeros
trim_left_head [] c r h = cc
trim_left_head (d ∷ s) c r h = elim (Bool-cases (d == b'0')) [
  | inl e ↦ trim_left_head s c r (rw e at h)
  | inr e ↦
      let split : d ∷ s ≡ c ∷ r = rw e at h in
      let first : d ≡ c = cc in subst (λ x. (x == b'0') ≡ false) first e
]

trim_right_keeps : (c : ℕ) (s : Text) → (c == b'0') ≡ false → 0 < length (trim_right_zeros (c ∷ s))
unfolding trim_right_zeros
trim_right_keeps c s h = ground arith

scaled-IsSame :
    (negative : Bool) (c : ℕ) (s : Text) (exponent : ℤ)
    → (c == b'0') ≡ false
    → IsSame
        (decimal negative (c ∷ s) exponent)
        (standing_for (scaled_digits negative (c ∷ s) exponent))
scaled-IsSame negative c s exponent h =
    let t = trim_right_zeros (c ∷ s) in
    let k = length (c ∷ s) - length t in
    let split : length s ≡ k + (length t - 1) =
      omega (arith, trim_right_keeps c s h, length-trim_right_zeros (c ∷ s)) in
    let shift : sub_nat (add_nat exponent (length s)) (length t - 1) ≡ add_nat exponent k =
      ap (λ n. sub_nat (add_nat exponent n) (length t - 1)) split
      ∙ sub_nat-add_more exponent k (length t - 1) in
    let here : IsSame (decimal negative (c ∷ s) exponent)
        (decimal negative t (add_nat exponent k)) =
      subst (λ x. IsSame (decimal negative x exponent) (decimal negative t (add_nat exponent k)))
        (sym (trim_right_rest (c ∷ s))) (trailing-IsSame negative t k exponent) in
    subst (λ x. IsSame (decimal negative (c ∷ s) exponent) (standing_for x))
      (sym (scaled_digits-cons negative c s exponent))
      (subst (λ z. IsSame (decimal negative (c ∷ s) exponent) (decimal negative t z)) (sym shift)
        here)

nonzero-IsSame :
    (negative : Bool) (s r : Text) (exponent : ℤ)
    → trim_left_zeros s ≡ r
    → IsSame (decimal negative r exponent) (standing_for (scaled_digits negative r exponent))
unfolding scaled_digits
nonzero-IsSame negative s [] exponent h = nothing
nonzero-IsSame negative s (c ∷ r) exponent h =
    scaled-IsSame negative c r exponent (trim_left_head s c r h)

canonical_decimal-stands : (d : Decimal) → IsSame d (standing_for (canonical_decimal d))
unfolding canonical_decimal
canonical_decimal-stands d =
    chained (trim_left-IsSame d.negative d.digits d.exponent)
      (nonzero-IsSame d.negative d.digits (trim_left_zeros d.digits) d.exponent refl)

-- Two decimals have the same canonical form exactly if one can be turned into the other by adding
-- or dropping leading zeros, by adding or dropping trailing zeros while the power of ten moves
-- along, and by changing the sign or the exponent of a number without digits.
pub canonical_decimal_iff :
    (d e : Decimal) → (canonical_decimal d ≡ canonical_decimal e) ↔ IsSame d e
canonical_decimal_iff d e = (
  λ h.
      chained (canonical_decimal-stands d)
        (subst (λ x. IsSame (standing_for x) e) (sym h) (other_way (canonical_decimal-stands e))),
  canonical_decimal-IsSame d e,
)
