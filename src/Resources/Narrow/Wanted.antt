-- ===== src/Resources/Narrow/Wanted.antt =====
-- Which requested names internal/resources/resources.go renders in a mode.
use zscalerctl.Prelude.{
  Bool, true, false, ◌≡◌, refl, sym, subst, ◌∙◌, inl, inr, ◌⊎◌, ◌↔◌, Option, none, some, List, [],
  ◌∷◌, codes, Text, text_beq, text_beq_iff, text_eq, contains, contains_text, All, Some, In,
  Bool-cases,
}
use zscalerctl.Resources.Spec.{Mode, FieldSpec, field_order, ResourceSpec}
use zscalerctl.Resources.Availability.{
  field_chain, availability_along, rendered_in, field_path_availability, or_unavailable,
}
use zscalerctl.Resources.Narrow.{renderable_names}
use zscalerctl.Resources.Narrow.Matches.{Contains, contains_text-Contains}
use zscalerctl.Resources.Narrow.Renders.{IsMode, IsAllowed, rendered_in-availability_along}

contains-In : (ks : List Text) (k : Text) → (contains ks k ≡ true) ↔ In k ks
unfolding contains
contains-In [] k = (λ h. cc, λ h. elim h [ ])
contains-In (x ∷ ks) k = elim (Bool-cases (text_beq x k)) [
  | inl e ↦ rw e (λ h. inl (sym ((text_beq_iff x k).0 e)), λ h. refl)
  | inr e ↦ rw e (
    λ h. inr ((contains-In ks k).0 h),
    λ h. elim h [
      | inl same ↦ let yes = (text_beq_iff x k).1 (sym same) in cc
      | inr later ↦ (contains-In ks k).1 later
    ],
  )
]

-- The path names a chain of fields, all of which the mode allows.
abbrev pub IsShown : ResourceSpec → Mode → Text → Type 0
IsShown spec mode name =
    (chain : List FieldSpec) × (field_chain spec.fields name ≡ some chain)
    × IsMode mode
    × All (IsAllowed mode) chain

shown_by : (mode : Mode) → Option (List FieldSpec) → Bool
shown_by mode none = false
shown_by mode (some chain) = rendered_in (availability_along chain) mode

rendered_in-shown :
    (spec : ResourceSpec) (mode : Mode) (name : Text)
    → rendered_in (or_unavailable (field_path_availability spec name)) mode
      ≡ shown_by mode (field_chain spec.fields name)
unfolding field_path_availability shown_by rendered_in contains
rendered_in-shown spec mode name = same (field_chain spec.fields name)
  where
    same :
        (o : Option (List FieldSpec))
        → rendered_in
            (or_unavailable (elim o [ none ↦ none | some chain ↦ some (availability_along chain) ]))
            mode
          ≡ shown_by mode o
    same none = refl
    same (some chain) = refl

shown_by-IsShown :
    (mode : Mode) (o : Option (List FieldSpec))
    → (shown_by mode o ≡ true)
      ↔ ((chain : List FieldSpec) × (o ≡ some chain) × IsMode mode × All (IsAllowed mode) chain)
unfolding shown_by
shown_by-IsShown mode none = (λ h. cc, λ (chain, e, known, allowed). cc)
shown_by-IsShown mode (some chain) =
    let one = rendered_in-availability_along chain mode in
    (
      λ h. let (known, allowed) = one.0 h in (chain, refl, known, allowed),
      λ (other, e, known, allowed).
          let same : other ≡ chain = cc in one.1 (known, subst (All (IsAllowed mode)) same allowed),
    )

pub rendered_in-IsShown :
    (spec : ResourceSpec) (mode : Mode) (name : Text)
    → (rendered_in (or_unavailable (field_path_availability spec name)) mode ≡ true)
      ↔ IsShown spec mode name
rendered_in-IsShown spec mode name =
    let same = rendered_in-shown spec mode name in
    let (f, g) = shown_by-IsShown mode (field_chain spec.fields name) in
    (λ h. f (sym same ∙ h), λ h. same ∙ g h)

-- A requested name that is rendered: a field of the resource in its order for the mode, or a dotted
-- path that the mode shows.
abbrev pub IsWanted : ResourceSpec → Mode → Text → Type 0
IsWanted spec mode name =
    In name (field_order spec.fields mode) ⊎ (Contains name (codes ".") × IsShown spec mode name)

module _ (spec : ResourceSpec) (mode : Mode) (P : Text → Type 0) where
  abbrev OneOf : List Text → Type 0
  OneOf names = Some (λ name. IsWanted spec mode name × P name) names

  take_one :
      (name : Text) (names more : List Text)
      → IsWanted spec mode name
      → Some P more ↔ OneOf names
      → Some P (name ∷ more) ↔ OneOf (name ∷ names)
  take_one name names more w (f, g) = (
    λ h. elim h [ inl p ↦ inl (w, p) | inr q ↦ inr (f q) ],
    λ h. elim h [ inl (x, p) ↦ inl p | inr q ↦ inr (g q) ],
  )

  leave_one :
      (name : Text) (names more : List Text)
      → (IsWanted spec mode name → ⊥)
      → Some P more ↔ OneOf names
      → Some P more ↔ OneOf (name ∷ names)
  leave_one name names more w (f, g) =
      (λ h. inr (f h), λ h. elim h [ inl (x, p) ↦ elim (w x) [ ] | inr q ↦ g q ])

  pub renderable_names-Some :
      (names : List Text) → Some P (renderable_names spec mode names) ↔ OneOf names
  unfolding renderable_names
  renderable_names-Some [] = (λ h. h, λ h. h)
  renderable_names-Some (name ∷ names) =
      let more = renderable_names spec mode names in
      let rest = renderable_names-Some names in
      let order = contains-In (field_order spec.fields mode) name in
      let dot = contains_text-Contains name (codes ".") in
      let shown = rendered_in-IsShown spec mode name in
      elim (Bool-cases (contains (field_order spec.fields mode) name)) [
        | inl e ↦ rw e (take_one name names more (inl (order.0 e)) rest)
        | inr e ↦ elim (Bool-cases (contains_text name (codes "."))) [
          | inr d ↦
              rw (e, d)
                (leave_one name names more
                  (λ w. elim w [
                    | inl h ↦ let yes = order.1 h in cc
                    | inr (h, k) ↦ let yes = dot.1 h in cc
                  ])
                  rest)
          | inl d ↦
              elim (Bool-cases
                (rendered_in (or_unavailable (field_path_availability spec name)) mode)) [
                  | inl s ↦ rw (e, d, s) (take_one name names more (inr (dot.0 d, shown.0 s)) rest)
                  | inr s ↦
                      rw (e, d, s)
                        (leave_one name names more
                          (λ w. elim w [
                            | inl h ↦ let yes = order.1 h in cc
                            | inr (h, k) ↦ let yes = shown.1 k in cc
                          ])
                          rest)
                ]
        ]
      ]
