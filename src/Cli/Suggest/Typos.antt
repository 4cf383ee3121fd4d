-- ===== src/Cli/Suggest/Typos.antt =====
-- A near typo of a name of the product comes before every other suggestion.
use zscalerctl.Prelude.{
  ℕ, suc, true, false, ◌≡◌, refl, subst, inl, inr, List, [], ◌∷◌, Text, text_beq, text_beq_iff,
  text_eq, list_beq, is_empty, length, leb, ◌==◌, ◌&&◌, ◌≤◌, arith, In, length-sort_by, take,
  sort_by, Bool-cases,
}
use zscalerctl.Resources.Spec.{ResourceSpec}
use zscalerctl.Cli.Words.{resource_words, missing_words, typo_budget}
use zscalerctl.Cli.Suggest.{
  Typo, Tiers, query_key, distance_to, place, gather, choose, typo_names, resource_suggestions,
  typo_before, max_resource_suggestions,
}
use zscalerctl.Cli.Suggest.Listed.{IsTypo, Names, chosen_typos, gather-Gathered}

is_empty-sort_by :
    (ts : List Typo) → is_empty ts ≡ false → is_empty (sort_by typo_before ts) ≡ false
is_empty-sort_by ts h = from_length (sort_by typo_before ts) ts (length-sort_by typo_before ts) h
  where
    from_length :
        (xs ys : List Typo) → length xs ≡ length ys → is_empty ys ≡ false → is_empty xs ≡ false
    from_length (x ∷ xs) ys e k = refl
    from_length [] [] e k = k
    from_length [] (y ∷ ys) e k = elim (zero_suc (length ys) e) [ ]
      where
        zero_suc : (n : ℕ) → 0 ≡ suc n → ⊥
        zero_suc n e = omega arith

is_empty-typo_names :
    (ts : List Typo)
    → is_empty ts ≡ false
    → is_empty (typo_names (take max_resource_suggestions ts)) ≡ false
unfolding typo_names
is_empty-typo_names [] h = h
is_empty-typo_names (t ∷ ts) h = refl

module _ (product : Text) (query : List Text) where
  place_keeps :
      (spec : ResourceSpec) (rest : Tiers)
      → is_empty rest.typos ≡ false
      → is_empty (place product query spec rest).typos ≡ false
  unfolding place
  place_keeps spec rest h =
      let missing = missing_words query (resource_words spec.name) in
      elim (Bool-cases (text_beq spec.product product)) [
        | inr e ↦ rw e (elim (Bool-cases (list_beq (resource_words spec.name) query)) [
          | inl e ↦ rw e h
          | inr e ↦ rw e h
        ])
        | inl e ↦
            rw e (elim (Bool-cases (leb (distance_to query spec) (typo_budget (query_key query)))) [
              | inl e ↦ rw e refl
              | inr e ↦ rw e (elim (Bool-cases (missing == 0)) [
                | inl e ↦ rw e h
                | inr e ↦ rw e (elim (Bool-cases (missing == 1 && leb 2 (length query))) [
                  | inl e ↦ rw e h
                  | inr e ↦ rw e h
                ])
              ])
            ])
      ]

  place_adds :
      (spec : ResourceSpec) (rest : Tiers)
      → IsTypo product query spec
      → is_empty (place product query spec rest).typos ≡ false
  unfolding place
  place_adds spec rest (same, close) =
      let first : text_beq spec.product product ≡ true =
        (text_beq_iff spec.product product).1 same in
      let second : leb (distance_to query spec) (typo_budget (query_key query)) ≡ true =
        le-leb _ _ close in
      rw (first, second) refl
    where
      le-leb : (m n : ℕ) → m ≤ n → leb m n ≡ true
      le-leb m n h = ground arith

  gather_adds :
      (spec : ResourceSpec) (catalog : List ResourceSpec)
      → IsTypo product query spec
      → In spec catalog
      → is_empty (gather product query catalog).typos ≡ false
  unfolding gather
  gather_adds spec [] p h = elim h [ ]
  gather_adds spec (s ∷ catalog) p (inl e) =
      place_adds s (gather product query catalog) (subst (IsTypo product query) e p)
  gather_adds spec (s ∷ catalog) p (inr h) =
      place_keeps s (gather product query catalog) (gather_adds spec catalog p h)

-- If the name is a near typo of the name of a resource of the product, then there is a suggestion,
-- and each suggestion is such a resource.
pub resource_suggestions-IsTypo :
    (catalog : List ResourceSpec) (product name : Text) (spec : ResourceSpec)
    → is_empty (resource_words name) ≡ false
    → In spec catalog
    → IsTypo product (resource_words name) spec
    → (is_empty (resource_suggestions catalog product name) ≡ false)
      × ((x : Text)
          → In x (resource_suggestions catalog product name)
          → Names catalog (IsTypo product (resource_words name)) x)
unfolding resource_suggestions choose
resource_suggestions-IsTypo catalog product name spec asked there p =
    let query = resource_words name in
    let tiers = gather product query catalog in
    let some_typo : is_empty tiers.typos ≡ false = gather_adds product query spec catalog p there in
    rw (asked, some_typo)
      (
        is_empty-typo_names (sort_by typo_before tiers.typos)
            (is_empty-sort_by tiers.typos some_typo),
        λ x. chosen_typos product query catalog tiers x (gather-Gathered product query catalog),
      )
