-- ===== src/Resources/Select.antt =====
-- `Select` and `ProjectedPathValue` of internal/resources/resources.go.
pub mod Kept
pub mod Admits
use zscalerctl.Prelude.{
  ◌≡◌, refl, sym, subst, ◌∙◌, Option, none, some, List, [], ◌∷◌, Text, text_beq, text_eq,
  if◌then◌else◌, split, Option-cases, inl, inr, ap,
}
use zscalerctl.Resources.Value.{
  Value, null, str, strs, scalar, array, object, objects, unsupported, confirmed_empty, Items,
  no_items, item, Fields, no_entries, entry, Maps, no_maps, map_of,
}

-- `selectionTree`: each key with what is selected beneath it, where a nil subtree keeps all.
mutual
  pub data Selection : Type 0 where
    whole : Selection
    under : SelectionTree → Selection

  pub data SelectionTree : Type 0 where
    no_keys : SelectionTree
    key_of : Text → Selection → SelectionTree → SelectionTree

unfoldable pub subtree : SelectionTree → Text → Option Selection
subtree no_keys key = none
subtree (key_of k sub tree) key = if text_beq k key then some sub else subtree tree key

-- `node[key] = sub`
unfoldable pub put : SelectionTree → Text → Selection → SelectionTree
put no_keys key sub = key_of key sub no_keys
put (key_of k old tree) key sub =
    let more = put tree key sub in if text_beq k key then key_of k sub tree else key_of k old more

-- One key of `newSelectionTree`, by its segments.
unfoldable pub add_path : List Text → SelectionTree → SelectionTree
unfolding subtree put
add_path [] node = node
add_path (segment ∷ []) node = put node segment whole
add_path (segment ∷ next ∷ segments) node = elim (subtree node segment) [
  | none ↦ put node segment (under (add_path (next ∷ segments) no_keys))
  | some whole ↦ node
  | some (under sub) ↦ put node segment (under (add_path (next ∷ segments) sub))
]

unfoldable pub add_keys : List Text → SelectionTree → SelectionTree
unfolding add_path split
add_keys [] root = root
add_keys (key ∷ keys) root = add_keys keys (add_path (split b'.' key) root)

unfoldable pub new_selection_tree : List Text → SelectionTree
unfolding add_keys
new_selection_tree keys = add_keys keys no_keys

abbrev pub beneath : Selection → Text → Option Selection
beneath whole key = some whole
beneath (under tree) key = subtree tree key

abbrev pub keep_entry : Text → Option Value → Fields → Fields
keep_entry key none fs = fs
keep_entry key (some v) fs = entry key v fs

-- `selectProjectedValue`; a map is narrowed entry by entry, which gives the same map.
unfoldable mutual
  unfolding subtree

  pub select_value : Value → Selection → Value
  select_value (object fs) (under tree) = object (select_fields fs tree)
  select_value (array vs) (under tree) = array (select_items vs tree)
  select_value (objects ms) (under tree) = objects (select_maps ms tree)
  select_value v sub = v

  pub select_items : Items → SelectionTree → Items
  select_items no_items tree = no_items
  select_items (item v vs) tree = item (select_value v (under tree)) (select_items vs tree)

  pub select_maps : Maps → SelectionTree → Maps
  select_maps no_maps tree = no_maps
  select_maps (map_of fs ms) tree = map_of (select_fields fs tree) (select_maps ms tree)

  pub select_fields : Fields → SelectionTree → Fields
  select_fields no_entries tree = no_entries
  select_fields (entry key v fs) tree = elim (subtree tree key) [
    | none ↦ select_fields fs tree
    | some sub ↦ entry key (select_value v sub) (select_fields fs tree)
  ]

-- `Select` of one record and of every record.
unfoldable pub select : List Text → Fields → Fields
unfolding select_fields new_selection_tree
select keys values = select_fields values (new_selection_tree keys)

unfoldable pub select_records : List Text → List Fields → List Fields
unfolding select
select_records keys [] = []
select_records keys (r ∷ rs) = select keys r ∷ select_records keys rs

pub select_fields-none :
    (key : Text) (v : Value) (fs : Fields) (tree : SelectionTree)
    → subtree tree key ≡ none
    → select_fields (entry key v fs) tree ≡ select_fields fs tree
unfolding select_fields
select_fields-none key v fs tree e =
    subst
      (λ o.
        (elim o as (λ _. Fields) [
          | none ↦ select_fields fs tree
          | some sub ↦ entry key (select_value v sub) (select_fields fs tree)
        ])
        ≡ select_fields fs tree)
      (sym e) refl

pub select_fields-some :
    (key : Text) (v : Value) (fs : Fields) (tree : SelectionTree) (sub : Selection)
    → subtree tree key ≡ some sub
    → select_fields (entry key v fs) tree ≡ entry key (select_value v sub) (select_fields fs tree)
unfolding select_fields
select_fields-some key v fs tree sub e =
    subst
      (λ o.
        (elim o as (λ _. Fields) [
          | none ↦ select_fields fs tree
          | some sub ↦ entry key (select_value v sub) (select_fields fs tree)
        ])
        ≡ entry key (select_value v sub) (select_fields fs tree))
      (sym e) refl
