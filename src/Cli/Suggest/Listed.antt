-- ===== src/Cli/Suggest/Listed.antt =====
-- What the suggestions can be.
use zscalerctl.Prelude.{
  ℕ, suc, true, false, ◌≡◌, ◌≢◌, refl, sym, ap, subst, inl, inr, List, [], ◌∷◌, Text, text_beq,
  text_beq_iff, text_eq, text_lt, list_beq, list_beq_iff, is_empty, length, ltb, leb, ◌==◌, ◌&&◌,
  ◌≤◌, arith, In, In-take, In-sort_by, length-take, length-sort_by, take, sort_by, Bool-cases,
}
use zscalerctl.Resources.Spec.{ResourceSpec}
use zscalerctl.Cli.Words.{resource_words, missing_words, typo_budget}
use zscalerctl.Cli.Suggest.{
  id_of, Typo, Tiers, query_key, distance_to, place, gather, few, choose, typo_names,
  known_products, resource_suggestions, typo_before, max_resource_suggestions, product_before,
}

module _ (product : Text) (query : List Text) where
  -- The resource is of the product and its name is close to the query.
  abbrev pub IsTypo : ResourceSpec → Type 0
  IsTypo spec = (spec.product ≡ product) × (distance_to query spec ≤ typo_budget (query_key query))

  -- The resource of another product has the name asked for, word by word.
  abbrev pub IsElsewhere : ResourceSpec → Type 0
  IsElsewhere spec = (spec.product ≢ product) × (resource_words spec.name ≡ query)

  abbrev pub LacksWords : ℕ → ResourceSpec → Type 0
  LacksWords n spec =
      (spec.product ≡ product) × (missing_words query (resource_words spec.name) ≡ n)

  -- The ways in which a resource can be the one that was meant.
  pub data IsMeant (spec : ResourceSpec) : Type 0 where
    typo : IsTypo spec → IsMeant spec
    elsewhere : IsElsewhere spec → IsMeant spec
    every_word : LacksWords 0 spec → IsMeant spec
    all_but_one : LacksWords 1 spec → 2 ≤ length query → IsMeant spec

-- The text is the id of a resource of the catalog that `P` holds of.
abbrev pub Names : List ResourceSpec → (ResourceSpec → Type 0) → Text → Type 0
Names catalog P x = (spec : ResourceSpec) × In spec catalog × (x ≡ id_of spec) × P spec

module _ (product : Text) (query : List Text) where
  pub record Gathered (catalog : List ResourceSpec) (tiers : Tiers) : Type 0 where
    typos : (t : Typo) → In t tiers.typos → Names catalog (IsTypo product query) t.name
    elsewhere : (x : Text) → In x tiers.elsewhere → Names catalog (IsElsewhere product query) x
    all_words : (x : Text) → In x tiers.all_words → Names catalog (LacksWords product query 0) x
    all_but_one :
        (x : Text)
        → In x tiers.all_but_one
        → Names catalog (λ spec. LacksWords product query 1 spec × (2 ≤ length query)) x

  wider :
      (P : ResourceSpec → Type 0) (catalog : List ResourceSpec) (spec : ResourceSpec) (x : Text)
      → Names catalog P x
      → Names (spec ∷ catalog) P x
  wider P catalog spec x (found, there, e, p) = (found, inr there, e, p)

  more :
      (catalog : List ResourceSpec) {tiers : Tiers} (spec : ResourceSpec)
      → Gathered catalog tiers
      → Gathered (spec ∷ catalog) tiers
  more catalog spec g = record {
    typos = λ t h. wider _ catalog spec t.name (g.typos t h);
    elsewhere = λ x h. wider _ catalog spec x (g.elsewhere x h);
    all_words = λ x h. wider _ catalog spec x (g.all_words x h);
    all_but_one = λ x h. wider _ catalog spec x (g.all_but_one x h);
  }

  -- One more text in front of those that name resources.
  ahead :
      (P : ResourceSpec → Type 0) (catalog : List ResourceSpec) (spec : ResourceSpec)
      (xs : List Text)
      → P spec
      → ((x : Text) → In x xs → Names (spec ∷ catalog) P x)
      → (x : Text) → In x (id_of spec ∷ xs)
      → Names (spec ∷ catalog) P x
  ahead P catalog spec xs p rest x (inl e) = (spec, inl refl, e, p)
  ahead P catalog spec xs p rest x (inr h) = rest x h

  other_product :
      (spec : ResourceSpec) → text_beq spec.product product ≡ false → spec.product ≢ product
  other_product spec h same = let t = (text_beq_iff spec.product product).1 same in cc

  leb-le : (m n : ℕ) → leb m n ≡ true → m ≤ n
  leb-le m n h = ground arith

  beq-eq : (m n : ℕ) → (m == n) ≡ true → m ≡ n
  beq-eq m n h = ground arith

  and_both : (m n : ℕ) → (m == 1 && leb 2 n) ≡ true → {P : Type 0} → P → (P × (m ≡ 1)) × (2 ≤ n)
  and_both m n h p = ((p, ground arith), ground arith)

  place-Gathered :
      (catalog : List ResourceSpec) (spec : ResourceSpec) (rest : Tiers)
      → Gathered catalog rest
      → Gathered (spec ∷ catalog) (place product query spec rest)
  unfolding place
  place-Gathered catalog spec rest before =
      let g : Gathered (spec ∷ catalog) rest = more catalog spec before in
      let words = resource_words spec.name in
      let missing = missing_words query words in
      elim (Bool-cases (text_beq spec.product product)) [
        | inr other ↦ rw other (elim (Bool-cases (list_beq words query)) [
          | inl e ↦ rw e (record {
            typos = g.typos;
            elsewhere =
                ahead (IsElsewhere product query) catalog spec rest.elsewhere
                  (λ same. other_product spec other same, (list_beq_iff words query).0 e)
                  g.elsewhere;
            all_words = g.all_words;
            all_but_one = g.all_but_one;
          })
          | inr e ↦ rw e g
        ])
        | inl same ↦
            let here : spec.product ≡ product = (text_beq_iff spec.product product).0 same in
            rw same
              (elim (Bool-cases (leb (distance_to query spec) (typo_budget (query_key query)))) [
                | inl e ↦ rw e (record {
                  typos = λ t h. elim h [
                    | inl first ↦ (spec, inl refl, ap (λ x. x.name) first, (here, leb-le _ _ e))
                    | inr later ↦ g.typos t later
                  ];
                  elsewhere = g.elsewhere;
                  all_words = g.all_words;
                  all_but_one = g.all_but_one;
                })
                | inr e ↦ rw e (elim (Bool-cases (missing == 0)) [
                  | inl none_missing ↦ rw none_missing (record {
                    typos = g.typos;
                    elsewhere = g.elsewhere;
                    all_words =
                        ahead (LacksWords product query 0) catalog spec rest.all_words
                          (here, beq-eq missing 0 none_missing) g.all_words;
                    all_but_one = g.all_but_one;
                  })
                  | inr some_missing ↦
                      rw some_missing (elim (Bool-cases (missing == 1 && leb 2 (length query))) [
                        | inl both ↦ rw both (record {
                          typos = g.typos;
                          elsewhere = g.elsewhere;
                          all_words = g.all_words;
                          all_but_one =
                              ahead (λ x. LacksWords product query 1 x × (2 ≤ length query)) catalog
                                spec rest.all_but_one (and_both missing (length query) both here)
                                g.all_but_one;
                        })
                        | inr not_both ↦ rw not_both g
                      ])
                ])
              ])
      ]

  pub gather-Gathered :
      (catalog : List ResourceSpec) → Gathered catalog (gather product query catalog)
  unfolding gather
  gather-Gathered [] = record {
    typos = λ t h. elim h [ ];
    elsewhere = λ x h. elim h [ ];
    all_words = λ x h. elim h [ ];
    all_but_one = λ x h. elim h [ ];
  }
  gather-Gathered (spec ∷ catalog) =
      place-Gathered catalog spec (gather product query catalog) (gather-Gathered catalog)

typo_names-In :
    (x : Text) (ts : List Typo) → In x (typo_names ts) → (t : Typo) × In t ts × (x ≡ t.name)
unfolding typo_names
typo_names-In x [] h = elim h [ ]
typo_names-In x (t ∷ ts) (inl e) = (t, inl refl, e)
typo_names-In x (t ∷ ts) (inr h) =
    let (found, there, e) = typo_names-In x ts h in (found, inr there, e)

few-In : (x : Text) (tier : List Text) → In x (few tier) → In x tier
few-In x tier h = elim (Bool-cases (ltb max_resource_suggestions (length tier))) [
  | inl e ↦ elim (rw e at h) [ ]
  | inr e ↦ In-sort_by text_lt x tier (rw e at h)
]

length-few : (tier : List Text) → length (few tier) ≤ max_resource_suggestions
length-few tier = elim (Bool-cases (ltb max_resource_suggestions (length tier))) [
  | inl e ↦ rw e (omega arith)
  | inr e ↦ rw e (ground (arith, length-sort_by text_lt tier))
]

-- A resource that is meant in one way is meant.
Names-map :
    {P Q : ResourceSpec → Type 0} (catalog : List ResourceSpec) (x : Text)
    → ((spec : ResourceSpec) → P spec → Q spec)
    → Names catalog P x
    → Names catalog Q x
Names-map catalog x f (spec, there, e, p) = (spec, there, e, f spec p)

module _ (product : Text) (query : List Text) (catalog : List ResourceSpec) where
  pub chosen_typos :
      (tiers : Tiers) (x : Text)
      → Gathered product query catalog tiers
      → In x (typo_names (take max_resource_suggestions (sort_by typo_before tiers.typos)))
      → Names catalog (IsTypo product query) x
  chosen_typos tiers x g h =
      let (t, there, e) = typo_names-In x _ h in
      let inside =
        In-sort_by typo_before t tiers.typos (In-take max_resource_suggestions t _ there) in
      subst (Names catalog (IsTypo product query)) (sym e) (g.typos t inside)

  choose-IsMeant :
      (products : List Text) (tiers : Tiers) (x : Text)
      → Gathered product query catalog tiers
      → In x (choose products tiers)
      → Names catalog (IsMeant product query) x
  unfolding choose
  choose-IsMeant products tiers x g h = elim (Bool-cases (is_empty tiers.typos)) [
    | inr e ↦ Names-map catalog x (λ spec p. typo p) (chosen_typos tiers x g (rw e at h))
    | inl e ↦
        let h1 = rw e at h in
        elim (Bool-cases (is_empty tiers.elsewhere)) [
          | inr e ↦
              Names-map catalog x (λ spec p. elsewhere p)
                (g.elsewhere x (
                  In-sort_by (product_before products) x tiers.elsewhere
                    (In-take max_resource_suggestions x _ (rw e at h1))))
          | inl e ↦
              let h2 = rw e at h1 in
              elim (Bool-cases (is_empty tiers.all_words)) [
                | inr e ↦
                    Names-map catalog x (λ spec p. every_word p)
                      (g.all_words x (few-In x tiers.all_words (rw e at h2)))
                | inl e ↦
                    Names-map catalog x (λ spec p. all_but_one p.0 p.1)
                      (g.all_but_one x (few-In x tiers.all_but_one (rw e at h2)))
              ]
        ]
  ]

length-typo_names : (ts : List Typo) → length (typo_names ts) ≡ length ts
unfolding typo_names
length-typo_names [] = refl
length-typo_names (t ∷ ts) = ap suc (length-typo_names ts)

length-choose :
    (products : List Text) (tiers : Tiers)
    → length (choose products tiers) ≤ max_resource_suggestions
unfolding choose
length-choose products tiers = elim (Bool-cases (is_empty tiers.typos)) [
  | inr e ↦ rw e (
      subst (λ n. n ≤ 3) (sym (length-typo_names _))
        (length-take max_resource_suggestions (sort_by typo_before tiers.typos)))
  | inl e ↦ rw e (elim (Bool-cases (is_empty tiers.elsewhere)) [
    | inr e ↦
        rw e
          (length-take max_resource_suggestions (sort_by (product_before products) tiers.elsewhere))
    | inl e ↦ rw e (elim (Bool-cases (is_empty tiers.all_words)) [
      | inr e ↦ rw e (length-few tiers.all_words)
      | inl e ↦ rw e (length-few tiers.all_but_one)
    ])
  ])
]

-- There are three suggestions at most. Each is the id of a resource of the catalog that is meant in
-- one of four ways: a name of the product within the typo budget, the same name in another product,
-- or a name of the product with every word of the query, or with all but one of two or more.
pub resource_suggestions-IsMeant :
    (catalog : List ResourceSpec) (product name : Text)
    → (length (resource_suggestions catalog product name) ≤ max_resource_suggestions)
      × ((x : Text)
          → In x (resource_suggestions catalog product name)
          → Names catalog (IsMeant product (resource_words name)) x)
unfolding resource_suggestions
resource_suggestions-IsMeant catalog product name =
    let query = resource_words name in
    elim (Bool-cases (is_empty query)) [
      | inl e ↦ rw e (omega arith, λ x h. elim h [ ])
      | inr e ↦ rw e (
        length-choose (known_products catalog) (gather product query catalog),
        λ x.
            choose-IsMeant product query catalog (known_products catalog)
              (gather product query catalog) x (gather-Gathered product query catalog),
      )
    ]
