-- ===== src/Resources/Filters.antt =====
-- The filters and the search on projected records, in internal/resources/resources.go. How
-- `fmt.Sprint` prints a map is a parameter.
use zscalerctl.Prelude.{
  ℕ, Bool, true, false, not, ◌&&◌, ◌||◌, none, some, List, [], ◌∷◌, ◌++◌, Text, codes, text_beq,
  text_eq, is_empty, if◌then◌else◌, ltb, ◌==◌, contains_text, split, join, to_lower,
}
use zscalerctl.Resources.Value.{
  Value, null, str, strs, scalar, array, object, Items, no_items, item, Fields, no_entries, entry,
  lookup,
}

pub record ProjectedFilter : Type 0 where
  pub path : Text
  pub value : Text
  pub substring : Bool

abbrev is_control : ℕ → Bool
is_control c = ltb c 32 || c == 127

unfoldable pub sanitize_projected_value : Text → Text
sanitize_projected_value [] = []
sanitize_projected_value (c ∷ s) = (if is_control c then 32 else c) ∷ sanitize_projected_value s

abbrev pub texts_of : List Text → List Value
texts_of [] = []
texts_of (s ∷ ss) = str s ∷ texts_of ss

abbrev pub values_of : Items → List Value
values_of no_items = []
values_of (item v vs) = v ∷ values_of vs

abbrev pub top_level_elements : Value → List Value
top_level_elements (array vs) = values_of vs
top_level_elements (strs ss) = texts_of ss
top_level_elements _ = []

-- `projectedPathValues`; the value at the end of the path is the value of the recursion.
unfoldable mutual
  pub path_values : Value → List Text → List Value
  path_values (array vs) path = items_values vs path
  path_values (strs ss) [] = texts_of ss
  path_values (strs ss) (s ∷ path) = []
  path_values (object fs) [] = object fs ∷ []
  path_values (object fs) (s ∷ path) = entry_values fs s path
  path_values v [] = v ∷ []
  path_values v (s ∷ path) = []

  pub items_values : Items → List Text → List Value
  items_values no_items path = []
  items_values (item v vs) path = path_values v path ++ items_values vs path

  pub entry_values : Fields → Text → List Text → List Value
  entry_values no_entries segment path = []
  entry_values (entry key v fs) segment path = elim (text_beq key segment) [
    | true ↦ path_values v path
    | false ↦ entry_values fs segment path
  ]

module _ (sprint : Value → Text) where
  unfoldable mutual
    unfolding join

    pub raw_projected_value : Value → Text
    raw_projected_value null = []
    raw_projected_value (str s) = s
    raw_projected_value (strs ss) = join (codes ",") ss
    raw_projected_value (array vs) = join (codes ",") (raw_parts vs)
    raw_projected_value (scalar s) = s
    raw_projected_value v = sprint v

    pub raw_parts : Items → List Text
    raw_parts no_items = []
    raw_parts (item v vs) = raw_projected_value v ∷ raw_parts vs

  unfoldable pub format_projected_value : Value → Text
  unfolding raw_projected_value sanitize_projected_value
  format_projected_value v = sanitize_projected_value (raw_projected_value v)

  unfoldable pub filter_values : Fields → ProjectedFilter → List Value
  unfolding contains_text split path_values
  filter_values values f = elim (lookup values f.path) [
    | some value ↦ value ∷ top_level_elements value
    | none ↦
        if contains_text f.path (codes ".")
        then path_values (object values) (split b'.' f.path)
        else []
  ]

  unfoldable pub any_matches : List Value → ProjectedFilter → Bool
  unfolding format_projected_value contains_text to_lower
  any_matches [] f = false
  any_matches (v ∷ vs) f =
      let rendered = format_projected_value v in
      if (if f.substring
        then contains_text (to_lower rendered) (to_lower f.value)
        else text_beq rendered f.value)
      then true
      else any_matches vs f

  unfoldable pub projected_filter_matches : Fields → ProjectedFilter → Bool
  unfolding filter_values any_matches
  projected_filter_matches values f = any_matches (filter_values values f) f

  unfoldable pub all_filters_match : Fields → List ProjectedFilter → Bool
  unfolding projected_filter_matches
  all_filters_match values [] = true
  all_filters_match values (f ∷ filters) =
      if not (projected_filter_matches values f) then false else all_filters_match values filters

  unfoldable pub any_entry_contains : Fields → Text → Bool
  unfolding format_projected_value contains_text to_lower
  any_entry_contains no_entries term = false
  any_entry_contains (entry key v fs) term =
      if contains_text (to_lower (format_projected_value v)) term
      then true
      else any_entry_contains fs term

  unfoldable pub projected_record_matches : Fields → List ProjectedFilter → Text → Bool
  unfolding all_filters_match any_entry_contains to_lower
  projected_record_matches values filters search =
      if not (all_filters_match values filters)
      then false
      else if is_empty search
      then true
      else any_entry_contains values (to_lower search)

  unfoldable pub kept_records : List Fields → List ProjectedFilter → Text → List Fields
  unfolding projected_record_matches
  kept_records [] filters search = []
  kept_records (r ∷ rs) filters search =
      let more = kept_records rs filters search in
      if projected_record_matches r filters search then r ∷ more else more

  unfoldable pub filter_projected_records : List Fields → List ProjectedFilter → Text → List Fields
  unfolding kept_records
  filter_projected_records records filters search =
      if is_empty filters && is_empty search then records else kept_records records filters search
