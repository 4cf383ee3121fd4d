-- ===== src/Resources/Select/Kept.antt =====
-- What `Select` of internal/resources/resources.go keeps of a record.
use zscalerctl.Prelude.{
  Bool, true, false, ◌≡◌, refl, sym, subst, ◌∙◌, inl, inr, ◌⊎◌, ◌↔◌, none, some, List, [], ◌∷◌,
  Text, split, Option-cases, Some,
}
use zscalerctl.Resources.Value.{
  Value, null, str, strs, scalar, array, object, objects, unsupported, confirmed_empty, Items,
  no_items, item, Fields, no_entries, entry, Maps, no_maps, map_of,
}
use zscalerctl.Resources.Select.{
  Selection, SelectionTree, whole, under, subtree, select_value, select_items, select_maps,
  select_fields, select_fields-none, select_fields-some, new_selection_tree, select,
}
use zscalerctl.Resources.Select.Admits.{
  admits, admits_by, admits-subtree, admits-nil, IsComparable, new_selection_tree-Some,
}

-- The path starts with this key, and what follows it satisfies `P`.
abbrev pub AtKey : Text → (List Text → Type 0) → List Text → Type 0
AtKey key P [] = ⊥
AtKey key P (q ∷ path) = (key ≡ q) × P path

-- The leaf is the value itself, at the end of the path.
abbrev pub IsLeaf : Value → List Text → Value → Type 0
IsLeaf v [] leaf = v ≡ leaf
IsLeaf v (q ∷ path) leaf = ⊥

-- A value that is neither a map nor a list of values or maps occurs under the keys of the path,
-- which goes through every element of a list.
unfoldable mutual
  pub InValue : Value → List Text → Value → Type 0
  InValue (object fs) path leaf = InFields fs path leaf
  InValue (array vs) path leaf = InItems vs path leaf
  InValue (objects ms) path leaf = InMaps ms path leaf
  InValue null path leaf = IsLeaf null path leaf
  InValue (str s) path leaf = IsLeaf (str s) path leaf
  InValue (strs ss) path leaf = IsLeaf (strs ss) path leaf
  InValue (scalar s) path leaf = IsLeaf (scalar s) path leaf
  InValue unsupported path leaf = IsLeaf unsupported path leaf
  InValue confirmed_empty path leaf = IsLeaf confirmed_empty path leaf

  pub InItems : Items → List Text → Value → Type 0
  InItems no_items path leaf = ⊥
  InItems (item v vs) path leaf = InValue v path leaf ⊎ InItems vs path leaf

  pub InMaps : Maps → List Text → Value → Type 0
  InMaps no_maps path leaf = ⊥
  InMaps (map_of fs ms) path leaf = InFields fs path leaf ⊎ InMaps ms path leaf

  pub InFields : Fields → List Text → Value → Type 0
  InFields no_entries path leaf = ⊥
  InFields (entry key v fs) path leaf =
      AtKey key (λ rest. InValue v rest leaf) path ⊎ InFields fs path leaf

-- The leaf is in what is left exactly if it was there and the path is admitted.
abbrev Left : Type 0 → Type 0 → Bool → Type 0
Left after before admitted = after ↔ (before × (admitted ≡ true))

left_all : {P : Type 0} → Left P P true
left_all = (λ h. (h, refl), λ (h, k). h)

left_none : {b : Bool} → Left ⊥ ⊥ b
left_none = (λ h. elim h [ ], λ (h, k). h)

left_or : {P P' Q Q' : Type 0} {b : Bool} → Left P P' b → Left Q Q' b → Left (P ⊎ Q) (P' ⊎ Q') b
left_or (f, g) (h, k) = (
  λ x. elim x [
    | inl p ↦ let (p', e) = f p in (inl p', e)
    | inr q ↦ let (q', e) = h q in (inr q', e)
  ],
  λ (x, e). elim x [ inl p ↦ inl (g (p, e)) | inr q ↦ inr (k (q, e)) ],
)

left_end :
    (v : Value) (tree : SelectionTree) (path : List Text) (leaf : Value)
    → Left (IsLeaf v path leaf) (IsLeaf v path leaf) (admits tree path)
left_end v tree [] leaf = (λ h. (h, admits-nil tree), λ (h, k). h)
left_end v tree (q ∷ path) leaf = left_none

-- An entry that is left out has no admitted path.
left_out :
    (tree : SelectionTree) (key : Text) (P : List Text → Type 0) (path : List Text)
    → subtree tree key ≡ none
    → Left ⊥ (AtKey key P path) (admits tree path)
left_out tree key P [] e = left_none
left_out tree key P (q ∷ path) e = (
  λ h. elim h [ ],
  λ ((same, p), k).
      let no = admits-subtree tree q path none (subst (λ t. subtree tree t ≡ none) same e) in
      let absurd : false ≡ true = sym no ∙ k in cc,
)

left_in :
    (tree : SelectionTree) (key : Text) (sub : Selection) (P Q : List Text → Type 0)
    (path : List Text)
    → subtree tree key ≡ some sub
    → ((rest : List Text) → Left (P rest) (Q rest) (admits_by (some sub) rest))
    → Left (AtKey key P path) (AtKey key Q path) (admits tree path)
left_in tree key sub P Q [] e inner = left_none
left_in tree key sub P Q (q ∷ path) e inner =
    let (f, g) = inner path in
    let yes : key ≡ q → admits tree (q ∷ path) ≡ admits_by (some sub) path = λ same.
      admits-subtree tree q path (some sub) (subst (λ t. subtree tree t ≡ some sub) same e) in
    (
      λ (same, p). let (r, k) = f p in ((same, r), yes same ∙ k),
      λ ((same, r), k). (same, g (r, sym (yes same) ∙ k)),
    )

left_more : {P Q Q' : Type 0} {b : Bool} → Left ⊥ P b → Left Q Q' b → Left Q (P ⊎ Q') b
left_more (f, g) (h, k) = (
  λ q. let (q', e) = h q in (inr q', e),
  λ (x, e). elim x [ inl p ↦ elim (g (p, e)) [ ] | inr q ↦ k (q, e) ],
)

mutual
  unfolding select_value InValue

  value-Left :
      (v : Value) (sub : Selection) (path : List Text) (leaf : Value)
      → Left
          (InValue (select_value v sub) path leaf)
          (InValue v path leaf)
          (admits_by (some sub) path)
  value-Left (object fs) whole path leaf = left_all
  value-Left (array vs) whole path leaf = left_all
  value-Left (objects ms) whole path leaf = left_all
  value-Left (object fs) (under tree) path leaf = fields-Left fs tree path leaf
  value-Left (array vs) (under tree) path leaf = items-Left vs tree path leaf
  value-Left (objects ms) (under tree) path leaf = maps-Left ms tree path leaf
  value-Left null whole path leaf = left_all
  value-Left (str s) whole path leaf = left_all
  value-Left (strs ss) whole path leaf = left_all
  value-Left (scalar s) whole path leaf = left_all
  value-Left unsupported whole path leaf = left_all
  value-Left confirmed_empty whole path leaf = left_all
  value-Left null (under tree) path leaf = left_end null tree path leaf
  value-Left (str s) (under tree) path leaf = left_end (str s) tree path leaf
  value-Left (strs ss) (under tree) path leaf = left_end (strs ss) tree path leaf
  value-Left (scalar s) (under tree) path leaf = left_end (scalar s) tree path leaf
  value-Left unsupported (under tree) path leaf = left_end unsupported tree path leaf
  value-Left confirmed_empty (under tree) path leaf = left_end confirmed_empty tree path leaf

  items-Left :
      (vs : Items) (tree : SelectionTree) (path : List Text) (leaf : Value)
      → Left (InItems (select_items vs tree) path leaf) (InItems vs path leaf) (admits tree path)
  items-Left no_items tree path leaf = left_none
  items-Left (item v vs) tree path leaf =
      left_or (value-Left v (under tree) path leaf) (items-Left vs tree path leaf)

  maps-Left :
      (ms : Maps) (tree : SelectionTree) (path : List Text) (leaf : Value)
      → Left (InMaps (select_maps ms tree) path leaf) (InMaps ms path leaf) (admits tree path)
  maps-Left no_maps tree path leaf = left_none
  maps-Left (map_of fs ms) tree path leaf =
      left_or (fields-Left fs tree path leaf) (maps-Left ms tree path leaf)

  fields-Left :
      (fs : Fields) (tree : SelectionTree) (path : List Text) (leaf : Value)
      → Left (InFields (select_fields fs tree) path leaf) (InFields fs path leaf) (admits tree path)
  fields-Left no_entries tree path leaf = left_none
  fields-Left (entry key v fs) tree path leaf = elim (Option-cases (subtree tree key)) [
    | inl e ↦
        subst
          (λ gs.
            Left (InFields gs path leaf) (InFields (entry key v fs) path leaf) (admits tree path))
          (sym (select_fields-none key v fs tree e))
          (left_more (left_out tree key (λ rest. InValue v rest leaf) path e)
            (fields-Left fs tree path leaf))
    | inr (sub, e) ↦
        subst
          (λ gs.
            Left (InFields gs path leaf) (InFields (entry key v fs) path leaf) (admits tree path))
          (sym (select_fields-some key v fs tree sub e))
          (left_or
            (left_in tree key sub (λ rest. InValue (select_value v sub) rest leaf)
              (λ rest. InValue v rest leaf) path e (λ rest. value-Left v sub rest leaf))
            (fields-Left fs tree path leaf))
  ]

InFields-nil : (fs : Fields) (leaf : Value) → InFields fs [] leaf → ⊥
unfolding InFields
InFields-nil no_entries leaf h = h
InFields-nil (entry key v fs) leaf h = elim h [
  | inl here ↦ here
  | inr later ↦ InFields-nil fs leaf later
]

-- Of the values of a record that are neither maps nor lists of values or maps, `Select` keeps
-- exactly those whose path of keys begins with the segments of one of the dotted keys, or is a
-- beginning of them; and it adds none.
pub select-InFields :
    (keys : List Text) (fs : Fields) (path : List Text) (leaf : Value)
    → InFields (select keys fs) path leaf
      ↔ (InFields fs path leaf × Some (λ key. IsComparable (split b'.' key) path) keys)
unfolding select
select-InFields keys fs [] leaf =
    let (f, g) = fields-Left fs (new_selection_tree keys) [] leaf in
    (
      λ h. let (k, e) = f h in elim (InFields-nil fs leaf k) [ ],
      λ (h, k). elim (InFields-nil fs leaf h) [ ],
    )
select-InFields keys fs (q ∷ path) leaf =
    let (f, g) = fields-Left fs (new_selection_tree keys) (q ∷ path) leaf in
    let led = new_selection_tree-Some keys (q ∷ path) refl in
    (λ h. let (k, e) = f h in (k, led.0 e), λ (h, k). g (h, led.1 k))
