-- ===== src/Diff/Records/Multiplicity.antt =====
-- How often a hash occurs in a list, and what the lists of keys of the comparison make of it.
use zscalerctl.Prelude.{
  ℕ, suc, ◌+◌, Bool, true, false, ◌≡◌, refl, ap, ◌∙◌, inl, inr, List, [], ◌∷◌, ◌++◌, Text, text_beq,
  text_beq_iff, text_eq, text_lt, contains, if◌then◌else◌, arith, Bool-cases,
}
use zscalerctl.Prelude.Sort.{insert_text, sort_texts}
use zscalerctl.Diff.Records.{others}

abbrev pub one_if : Bool → ℕ
one_if b = if b then 1 else 0

-- How often a hash occurs.
unfoldable pub multiplicity : Text → List Text → ℕ
multiplicity h [] = 0
multiplicity h (k ∷ ks) = let rest = multiplicity h ks in if text_beq k h then suc rest else rest

pub multiplicity-append :
    (h : Text) (xs ys : List Text)
    → multiplicity h (xs ++ ys) ≡ multiplicity h xs + multiplicity h ys
unfolding multiplicity
multiplicity-append h [] ys = omega arith
multiplicity-append h (x ∷ xs) ys = ground (arith, multiplicity-append h xs ys)

abbrev pub counted : Text → Text → ℕ → ℕ
counted h s n = if text_beq s h then suc n else n

counted_swap : (h s t : Text) (n : ℕ) → counted h t (counted h s n) ≡ counted h s (counted h t n)
counted_swap h s t n = ground arith

pub multiplicity-insert_text :
    (h s : Text) (ts : List Text)
    → multiplicity h (insert_text s ts) ≡ counted h s (multiplicity h ts)
unfolding multiplicity insert_text
multiplicity-insert_text h s [] = refl
multiplicity-insert_text h s (t ∷ ts) = elim (Bool-cases (text_lt t s)) [
  | inl e ↦
      rw e (
        ap (counted h t) (multiplicity-insert_text h s ts) ∙ counted_swap h s t (multiplicity h ts))
  | inr e ↦ rw e refl
]

pub multiplicity-sort_texts :
    (h : Text) (ts : List Text) → multiplicity h (sort_texts ts) ≡ multiplicity h ts
unfolding multiplicity sort_texts
multiplicity-sort_texts h [] = refl
multiplicity-sort_texts h (t ∷ ts) =
    multiplicity-insert_text h t (sort_texts ts) ∙ ap (counted h t) (multiplicity-sort_texts h ts)

-- Two spellings of one hash are contained alike.
pub same_contained :
    (ks : List Text) (k h : Text) → text_beq k h ≡ true → contains ks k ≡ contains ks h
same_contained ks k h e = ap (contains ks) ((text_beq_iff k h).0 e)

pub multiplicity-others :
    (h : Text) (a b : List Text)
    → multiplicity h (others a b) ≡ (if contains a h then 0 else multiplicity h b)
unfolding multiplicity others
multiplicity-others h a [] = ground arith
multiplicity-others h a (k ∷ b) =
    let ih = multiplicity-others h a b in
    elim (Bool-cases (text_beq k h)) [
      | inl e ↦
          let same = same_contained a k h e in
          elim (Bool-cases (contains a h)) [
            | inl c ↦ rw (same, c) (ih ∙ rw c refl)
            | inr c ↦ rw (same, c, e) (ap suc (ih ∙ rw c refl))
          ]
      | inr e ↦ elim (Bool-cases (contains a k)) [ inl c ↦ rw (c, e) ih | inr c ↦ rw (c, e) ih ]
    ]

pub contains-zero : (h : Text) (ks : List Text) → multiplicity h ks ≡ 0 → contains ks h ≡ false
unfolding multiplicity contains
contains-zero h [] e = refl
contains-zero h (k ∷ ks) e = elim (Bool-cases (text_beq k h)) [
  | inl f ↦ elim (positive (multiplicity h ks) (rw f at e)) [ ]
  | inr f ↦ rw f (contains-zero h ks (rw f at e))
]
  where
    positive : (n : ℕ) → suc n ≡ 0 → ⊥
    positive n e = omega (arith, e)

zero_one : ◌≡◌ {A = ℕ} 0 1 → ⊥
zero_one e = omega (arith, e)

pub contains-one : (h : Text) (ks : List Text) → multiplicity h ks ≡ 1 → contains ks h ≡ true
unfolding multiplicity contains
contains-one h [] e = elim (zero_one e) [ ]
contains-one h (k ∷ ks) e = elim (Bool-cases (text_beq k h)) [
  | inl f ↦ rw f refl
  | inr f ↦ rw f (contains-one h ks (rw f at e))
]
