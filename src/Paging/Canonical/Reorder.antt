-- ===== src/Paging/Canonical/Reorder.antt =====
-- A page and its reordered repeat have one summary.
use mathlib.Core.List.{Perm, Permᴰ}
use mathlib.Core.Logic.{∥∥₁_elim}
use native.Mathlib.Decide.{ℕ_discrete}
use zscalerctl.Prelude.{
  suc, ◌≡◌, refl, ap, ◌∙◌, sym, Option, none, some, List, [], ◌∷◌, Text, length, arith,
}
use zscalerctl.Prelude.Sort.{insert_text, sort_texts, insert_text_comm}
use zscalerctl.Paging.Canonical.{
  RecordEncoding, PageSummary, ◌>>=◌, canonical_record, canonical_records, summarize_page,
}

length-permᴰ {ℓ} : {A : Type ℓ} (xs ys : List A) → Permᴰ xs ys → length xs ≡ length ys
length-permᴰ _ _ Permᴰ.nil = refl
length-permᴰ _ _ (Permᴰ.cons {l₁} {l₂} e p) = ap suc (length-permᴰ l₁ l₂ p)
length-permᴰ _ _ (Permᴰ.swap p q) = refl
length-permᴰ _ _ (Permᴰ.trans {l₁} {l₂} {l₃} p q) = length-permᴰ l₁ l₂ p ∙ length-permᴰ l₂ l₃ q

PageSummary-set : IsSet (Option PageSummary)
PageSummary-set = hlevel ℕ_discrete

module _ {T : Type 0} (enc : RecordEncoding T) where
  -- The sorted renderings of a page, one record inserted after another.
  inserted : List T → Option (List Text)
  inserted [] = some []
  inserted (r ∷ rs) =
      canonical_record enc r >>= λ payload. inserted rs >>= λ ss. some (insert_text payload ss)

  inserted_step :
      (a : Option Text) (l : Option (List Text))
      → ((a >>= λ payload. l >>= λ ss. some (payload ∷ ss)) >>= λ ss. some (sort_texts ss)) ≡ (
          a >>= λ payload.
          (l >>= λ ss. some (sort_texts ss)) >>= λ ss. some (insert_text payload ss))
  unfolding sort_texts
  inserted_step none l = refl
  inserted_step (some x) none = refl
  inserted_step (some x) (some ss) = refl

  inserted_lem :
      (rs : List T) → (canonical_records enc rs >>= λ ss. some (sort_texts ss)) ≡ inserted rs
  unfolding inserted canonical_records sort_texts
  inserted_lem [] = refl
  inserted_lem (r ∷ rs) =
      inserted_step (canonical_record enc r) (canonical_records enc rs)
      ∙ ap (λ l. canonical_record enc r >>= λ payload. l >>= λ ss. some (insert_text payload ss))
          (inserted_lem rs)

  swapped :
      (a b : Option Text) (l : Option (List Text))
      → (a >>= λ x.
          (b >>= λ y. l >>= λ ss. some (insert_text y ss)) >>= λ ss. some (insert_text x ss))
        ≡ (b >>= λ y.
            (a >>= λ x. l >>= λ ss. some (insert_text x ss)) >>= λ ss. some (insert_text y ss))
  swapped none none l = refl
  swapped none (some y) l = refl
  swapped (some x) none l = refl
  swapped (some x) (some y) none = refl
  swapped (some x) (some y) (some ss) = ap some (insert_text_comm x y ss)

  inserted-permᴰ : (rs qs : List T) → Permᴰ rs qs → inserted rs ≡ inserted qs
  unfolding inserted
  inserted-permᴰ _ _ Permᴰ.nil = refl
  inserted-permᴰ _ _ (Permᴰ.cons {a} {b} {l₁} {l₂} e p) = rw (e, inserted-permᴰ l₁ l₂ p) refl
  inserted-permᴰ _ _ (Permᴰ.swap {a} {b} {a'} {b'} {l} p q) =
      rw (p, q) (swapped (canonical_record enc b') (canonical_record enc a') (inserted l))
  inserted-permᴰ _ _ (Permᴰ.trans {l₁} {l₂} {l₃} p q) =
      inserted-permᴰ l₁ l₂ p ∙ inserted-permᴰ l₂ l₃ q

  summarize_page-inserted :
      (rs : List T)
      → summarize_page enc rs ≡ (
          inserted rs >>= λ ss. enc.marshal_strings ss >>= λ payload.
          some (record { records = length rs; contents = enc.pages.sum256 payload }))
  unfolding summarize_page
  summarize_page-inserted rs = rw (← inserted_lem rs) (ground arith)

  -- Two pages with the same records in any order have the same summary.
  pub summarize_page-perm :
      (rs qs : List T) → Perm rs qs → summarize_page enc rs ≡ summarize_page enc qs
  summarize_page-perm rs qs p = ∥∥₁_elim p (PageSummary-set _ _) λ q.
      summarize_page-inserted rs
      ∙ rw (inserted-permᴰ rs qs q, length-permᴰ rs qs q) (sym (summarize_page-inserted qs))
