-- ===== src/Prelude/Texts.antt =====
-- Go strings as lists of bytes, with the functions of `strings` and `strconv` that the code calls.
-- White space is that of Unicode, in UTF-8; case is that of ASCII.
use Prim.Native.Char.{code}
use Prim.Native.Nat.{ℕ, zero, suc, ◌+◌, ◌/◌, ◌%◌, ◌<◌}
use Prim.Native.String.{String}
use mathlib.Core.Path.{◌≡◌, refl, ap}
use native.Mathlib.Omega.{arith}
use zscalerctl.Prelude.Lists.{length, drop}
use mathlib.Core.Logic.{◌↔◌}
use mathlib.Core.Bool.{Bool, true, false, ◌&&◌, ◌||◌}
use mathlib.Core.List.{List, [], ◌∷◌, ◌++◌, reverse}
use mathlib.Core.Option.{Option, none, some}
use mathlib.Core.Logic.{inl, inr}
use zscalerctl.Prelude.Tests.{
  Bool-cases, ltb, leb, ◌==◌, if◌then◌else◌, Eq, nat_eq, list_beq, list_beq_iff,
}

abbrev pub Text : Type 0
Text = List ℕ

-- A literal.
abbrev pub codes : String → Text
codes String.[] = []
codes (String.◌∷◌ c s) = code c ∷ codes s

abbrev pub text_beq : Text → Text → Bool
text_beq = list_beq

pub text_beq_iff : (s t : Text) → (text_beq s t ≡ true) ↔ (s ≡ t)
text_beq_iff = list_beq_iff

instance abbrev pub text_eq : Eq Text
text_eq = record { beq = text_beq; beq_iff = text_beq_iff }

-- `s == ""`
abbrev pub is_empty {ℓ} : {A : Type ℓ} → List A → Bool
is_empty [] = true
is_empty (c ∷ s) = false

-- `unicode.IsSpace`, for characters of one, two and three bytes in UTF-8.
abbrev space_1 : ℕ → Bool
space_1 c = c == 32 || (leb 9 c && leb c 13)

abbrev space_2 : ℕ → ℕ → Bool
space_2 c d = c == 0xc2 && (d == 0x85 || d == 0xa0)

abbrev space_3 : ℕ → ℕ → ℕ → Bool
space_3 c d e =
    (c == 0xe1 && (d == 0x9a && e == 0x80))
    || ((c == 0xe2
          && ((d == 0x80 && ((leb 0x80 e && leb e 0x8a) || (e == 0xa8 || (e == 0xa9 || e == 0xaf))))
              || (d == 0x81 && e == 0x9f)))
        || (c == 0xe3 && (d == 0x80 && e == 0x80)))

-- A string without the characters of one, two or three bytes at its start that pass a test.
unfoldable trim_with : (ℕ → Bool) → (ℕ → ℕ → Bool) → (ℕ → ℕ → ℕ → Bool) → Text → Text
trim_with one two three [] = []
trim_with one two three (c ∷ []) = if one c then [] else c ∷ []
trim_with one two three (c ∷ d ∷ []) = elim (one c) [
  | true ↦ trim_with one two three (d ∷ [])
  | false ↦ if two c d then [] else c ∷ d ∷ []
]
trim_with one two three (c ∷ d ∷ e ∷ s) = elim (one c) [
  | true ↦ trim_with one two three (d ∷ e ∷ s)
  | false ↦ elim (two c d) [
    | true ↦ trim_with one two three (e ∷ s)
    | false ↦ elim (three c d e) [ true ↦ trim_with one two three s | false ↦ c ∷ d ∷ e ∷ s ]
  ]
]

-- `strings.TrimSpace`; from the end, the bytes of a character come last first.
unfoldable pub trim_space : Text → Text
unfolding trim_with
trim_space s = reverse (
    trim_with space_1 (λ d c. space_2 c d) (λ e d c. space_3 c d e)
      (reverse (trim_with space_1 space_2 space_3 s)))

-- `strings.ToLower`
abbrev pub lower_byte : ℕ → ℕ
lower_byte c = if leb b'A' c && leb c b'Z' then c + 32 else c

unfoldable pub to_lower : Text → Text
to_lower [] = []
to_lower (c ∷ s) = lower_byte c ∷ to_lower s

unfoldable pub has_prefix : Text → Text → Bool
has_prefix s [] = true
has_prefix [] (p ∷ ps) = false
has_prefix (c ∷ s) (p ∷ ps) = c == p && has_prefix s ps

-- `strings.HasSuffix(s, end)`
unfoldable pub has_suffix : Text → Text → Bool
unfolding has_prefix
has_suffix s end = has_prefix (reverse s) (reverse end)

-- A string without its last bytes.
abbrev pub drop_end : ℕ → Text → Text
drop_end n s = reverse (drop n (reverse s))

-- `strings.Contains(s, sub)`
unfoldable pub contains_text : Text → Text → Bool
unfolding has_prefix
contains_text [] sub = has_prefix [] sub
contains_text (c ∷ s) sub = if has_prefix (c ∷ s) sub then true else contains_text s sub

-- `strings.Split(s, sep)` for a separator of one byte, with the segment under way.
unfoldable pub split_from : ℕ → Text → Text → List Text
split_from sep acc [] = acc ∷ []
split_from sep acc (c ∷ s) =
    if c == sep then acc ∷ split_from sep [] s else split_from sep (acc ++ c ∷ []) s

unfoldable pub split : ℕ → Text → List Text
unfolding split_from
split sep s = split_from sep [] s

-- `strings.Join(parts, sep)`
unfoldable pub join : Text → List Text → Text
join sep [] = []
join sep (s ∷ []) = s
join sep (s ∷ t ∷ parts) = s ++ (sep ++ join sep (t ∷ parts))

-- The order of Go strings, `s < t`.
unfoldable pub text_lt : Text → Text → Bool
text_lt s [] = false
text_lt [] (d ∷ t) = true
text_lt (c ∷ s) (d ∷ t) = if ltb c d then true else if ltb d c then false else text_lt s t

-- `strconv.Itoa`, with as many rounds as the number has digits at most.
unfoldable pub digits_of : ℕ → ℕ → Text → Text
digits_of zero n acc = acc
digits_of (suc rounds) n acc =
    let more = digits_of rounds (n / 10) ((b'0' + n % 10) ∷ acc) in
    if ltb n 10 then (b'0' + n) ∷ acc else more

unfoldable pub itoa : ℕ → Text
unfolding digits_of
itoa n = digits_of (suc n) n []

-- An ideographic space, a no-break space and a tab around two letters.
trims :
    trim_space (0xe3 ∷ 0x80 ∷ 0x80 ∷ 0xc2 ∷ 0xa0 ∷ 97 ∷ 98 ∷ 0xc2 ∷ 0xa0 ∷ 9 ∷ []) ≡ 97 ∷ 98 ∷ []
unfolding trim_space
trims = refl

pub is_empty→nil {ℓ} : {A : Type ℓ} (xs : List A) → is_empty xs ≡ true → xs ≡ []
is_empty→nil [] h = refl
is_empty→nil (x ∷ xs) h = cc

pub length_pos {ℓ} : {A : Type ℓ} (xs : List A) → is_empty xs ≡ false → 0 < length xs
length_pos [] h = cc
length_pos (x ∷ xs) h = omega arith

-- Whether the byte occurs.
unfoldable pub has_byte : ℕ → Text → Bool
has_byte c [] = false
has_byte c (d ∷ s) = d == c || has_byte c s

abbrev cut_rest : ℕ → Option (Text × Text) → Option (Text × Text)
cut_rest d none = none
cut_rest d (some (before, after)) = some (d ∷ before, after)

-- `strings.Cut(s, sep)` for a separator of one byte; `none` if it does not occur.
unfoldable pub cut : ℕ → Text → Option (Text × Text)
cut c [] = none
cut c (d ∷ s) = if d == c then some ([], s) else cut_rest d (cut c s)

pub cut-append :
    (c : ℕ) (before after : Text)
    → has_byte c before ≡ false
    → cut c (before ++ (c ∷ after)) ≡ some (before, after)
unfolding cut has_byte
cut-append c [] after h = ground arith
cut-append c (d ∷ before) after h =
    let first : (d == c) ≡ false = ground arith in
    let later : has_byte c before ≡ false = ground arith in
    rw (first, cut-append c before after later) refl

cut_rest-some :
    (c d : ℕ) (s : Text)
    → (d == c) ≡ false
    → (o : Option (Text × Text)) (before after : Text)
    → ((b a : Text) → o ≡ some (b, a) → (s ≡ b ++ (c ∷ a)) × (has_byte c b ≡ false))
    → cut_rest d o ≡ some (before, after)
    → (d ∷ s ≡ before ++ (c ∷ after)) × (has_byte c before ≡ false)
unfolding has_byte
cut_rest-some c d s differ none before after found h = cc
cut_rest-some c d s differ (some (b, a)) before after found h =
    let (whole, free) = found b a refl in
    let first : before ≡ d ∷ b = cc in
    let second : after ≡ a = cc in
    (rw (first, second) (ap (λ t. d ∷ t) whole), rw (first, differ) free)

pub cut-some :
    (c : ℕ) (s before after : Text)
    → cut c s ≡ some (before, after)
    → (s ≡ before ++ (c ∷ after)) × (has_byte c before ≡ false)
unfolding cut has_byte
cut-some c [] before after h = cc
cut-some c (d ∷ s) before after h = elim (Bool-cases (d == c)) [
  | inl e ↦
      let taken = rw e at h in
      let same : d ≡ c = ground arith in
      let first : before ≡ [] = cc in
      let second : s ≡ after = cc in (rw (first, second, same) refl, rw first refl)
  | inr e ↦ cut_rest-some c d s e (cut c s) before after (cut-some c s) (rw e at h)
]
