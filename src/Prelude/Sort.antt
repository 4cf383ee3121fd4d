-- ===== src/Prelude/Sort.antt =====
-- `sort.Strings`: a list in increasing order. The result does not depend on the order of the input,
-- so the algorithm of the standard library is not part of the model.
use mathlib.Core.List.{Perm, Permᴰ}
use mathlib.Core.Logic.{∥∥₁_elim}
use native.Mathlib.Decide.{ℕ_discrete}
use zscalerctl.Prelude.{
  ◌≡◌, refl, ◌∙◌, true, false, List, [], ◌∷◌, if◌then◌else◌, Text, text_lt, arith, In, Bool-cases,
  ◌⊎◌, inl, inr,
}

pub text_lt_asym : (s t : Text) → text_lt s t ≡ true → text_lt t s ≡ false
unfolding text_lt
text_lt_asym [] [] h = refl
text_lt_asym (c ∷ s) [] h = cc
text_lt_asym [] (d ∷ t) h = refl
text_lt_asym (c ∷ s) (d ∷ t) h = ground (arith, text_lt_asym s t)

pub text_lt_total : (s t : Text) → text_lt s t ≡ false → text_lt t s ≡ false → s ≡ t
unfolding text_lt
text_lt_total [] [] h k = refl
text_lt_total (c ∷ s) [] h k = cc
text_lt_total [] (d ∷ t) h k = cc
text_lt_total (c ∷ s) (d ∷ t) h k = ground (arith, text_lt_total s t)

pub text_lt_trans : (r s t : Text) → text_lt r s ≡ true → text_lt s t ≡ true → text_lt r t ≡ true
unfolding text_lt
text_lt_trans [] [] t h k = cc
text_lt_trans (b ∷ r) [] t h k = cc
text_lt_trans r (c ∷ s) [] h k = cc
text_lt_trans [] (c ∷ s) (d ∷ t) h k = refl
text_lt_trans (b ∷ r) (c ∷ s) (d ∷ t) h k = ground (arith, text_lt_trans r s t)

unfoldable pub insert_text : Text → List Text → List Text
insert_text s [] = s ∷ []
insert_text s (t ∷ ts) = if text_lt t s then t ∷ insert_text s ts else s ∷ t ∷ ts

unfoldable pub sort_texts : List Text → List Text
unfolding insert_text
sort_texts [] = []
sort_texts (s ∷ ss) = insert_text s (sort_texts ss)

pub insert_text_comm :
    (r s : Text) (ts : List Text)
    → insert_text r (insert_text s ts) ≡ insert_text s (insert_text r ts)
unfolding insert_text
insert_text_comm r s [] = ground (arith, text_lt_asym r s, text_lt_total r s)
insert_text_comm r s (t ∷ ts) = ground (
  arith,
  insert_text_comm r s ts,
  text_lt_asym r s,
  text_lt_total r s,
  text_lt_asym r t,
  text_lt_asym s t,
  text_lt_total r t,
  text_lt_total s t,
  text_lt_trans r s t,
  text_lt_trans s r t,
  text_lt_trans t r s,
  text_lt_trans t s r,
  text_lt_trans r t s,
  text_lt_trans s t r,
)

Texts-set : IsSet (List Text)
Texts-set = hlevel ℕ_discrete

sort_texts-permᴰ : (ss ts : List Text) → Permᴰ ss ts → sort_texts ss ≡ sort_texts ts
unfolding sort_texts
sort_texts-permᴰ _ _ Permᴰ.nil = refl
sort_texts-permᴰ _ _ (Permᴰ.cons {a} {b} {l₁} {l₂} e p) = rw (e, sort_texts-permᴰ l₁ l₂ p) refl
sort_texts-permᴰ _ _ (Permᴰ.swap {a} {b} {a'} {b'} {l} p q) =
    rw (p, q) (insert_text_comm b' a' (sort_texts l))
sort_texts-permᴰ _ _ (Permᴰ.trans {l₁} {l₂} {l₃} p q) =
    sort_texts-permᴰ l₁ l₂ p ∙ sort_texts-permᴰ l₂ l₃ q

-- Two lists with the same elements, as often, are sorted to the same list.
pub sort_texts-perm : (ss ts : List Text) → Perm ss ts → sort_texts ss ≡ sort_texts ts
sort_texts-perm ss ts p = ∥∥₁_elim p (Texts-set _ _) (sort_texts-permᴰ ss ts)

pub In-insert_text : (s t : Text) (ts : List Text) → (s ≡ t) ⊎ In s ts → In s (insert_text t ts)
unfolding insert_text
In-insert_text s t [] h = h
In-insert_text s t (u ∷ ts) h = elim (Bool-cases (text_lt u t)) [
  | inl e ↦ rw e (elim h [
    | inl here ↦ inr (In-insert_text s t ts (inl here))
    | inr (inl first) ↦ inl first
    | inr (inr later) ↦ inr (In-insert_text s t ts (inr later))
  ])
  | inr e ↦ rw e h
]

pub In-sort_texts : (s : Text) (ts : List Text) → In s ts → In s (sort_texts ts)
unfolding sort_texts
In-sort_texts s [] h = elim h [ ]
In-sort_texts s (t ∷ ts) (inl e) = In-insert_text s t (sort_texts ts) (inl e)
In-sort_texts s (t ∷ ts) (inr h) = In-insert_text s t (sort_texts ts) (inr (In-sort_texts s ts h))
