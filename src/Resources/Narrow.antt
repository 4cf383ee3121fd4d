-- ===== src/Resources/Narrow.antt =====
-- What narrows projected records, in internal/resources/resources.go. How `fmt.Sprint` prints a map is
-- a parameter.
pub mod Matches
pub mod Narrows
pub mod Renders
pub mod Wanted
use zscalerctl.Prelude.{
  ℕ, Bool, true, false, not, ◌&&◌, ◌||◌, Option, none, some, List, [], ◌∷◌, ◌++◌, Text, codes,
  text_beq, text_eq, is_empty, if◌then◌else◌, ltb, ◌==◌, Result, ok, err, ◌>>◌, ◌>>=◌, refuse_if,
  contains, contains_text, split, join, to_lower,
}
use zscalerctl.Resources.Spec.{
  Mode, mode_standard, mode_share, mode_paranoid, effective_mode, is_secret, FieldInfo, FieldSpec,
  FieldSpecs, no_fields, field, has_fields, json_field, allowed_in, field_by_json_name, field_order,
  ResourceSpec,
}
use zscalerctl.Resources.Value.{
  Value, null, str, strs, scalar, array, object, objects, unsupported, confirmed_empty, Items,
  no_items, item, Fields, no_entries, entry, Maps, no_maps, map_of, lookup,
}
use zscalerctl.Resources.Select.{select_records}
use zscalerctl.Resources.Availability.{
  chain_along, field_chain, PathAvailability, any_secret, all_allowed, renderable_modes, all_modes,
  availability_along, rendered_in, field_path_availability, no_availability, or_unavailable,
  leaf_path, valid_filter_path,
}
use zscalerctl.Resources.Filters.{
  ProjectedFilter, path_values, raw_projected_value, format_projected_value, filter_values,
  any_matches, projected_filter_matches, all_filters_match, any_entry_contains,
  projected_record_matches, kept_records, filter_projected_records,
}

pub record NarrowOptions : Type 0 where
  pub fields : List Text
  pub filters : List ProjectedFilter
  pub search : Text

pub data NarrowError : Type 0 where
  unknown_field unknown_filter : Text → NarrowError
  suppressed_field : Text → PathAvailability → NarrowError

abbrev pub is_unknown : Option PathAvailability → Bool
is_unknown none = true
is_unknown (some a) = false

unfoldable pub check_fields : ResourceSpec → List Text → Result NarrowError (Unit {0})
unfolding field_path_availability
check_fields spec [] = ok tt
check_fields spec (name ∷ names) =
    refuse_if (not (is_empty name) && is_unknown (field_path_availability spec name))
      (unknown_field name)
    >> check_fields spec names

unfoldable pub check_filters : ResourceSpec → List ProjectedFilter → Result NarrowError (Unit {0})
unfolding valid_filter_path
check_filters spec [] = ok tt
check_filters spec (f ∷ filters) =
    refuse_if (not (is_empty f.path) && not (valid_filter_path spec.fields f.path))
      (unknown_filter f.path)
    >> check_filters spec filters

unfoldable pub validate_narrow_options :
    ResourceSpec → NarrowOptions → Result NarrowError (Unit {0})
unfolding check_fields check_filters
validate_narrow_options spec opts = check_fields spec opts.fields >> check_filters spec opts.filters

unfoldable pub check_rendered :
    ResourceSpec → Mode → List ProjectedFilter → Result NarrowError (Unit {0})
unfolding field_path_availability rendered_in
check_rendered spec mode [] = ok tt
check_rendered spec mode (f ∷ filters) =
    let availability = or_unavailable (field_path_availability spec f.path) in
    refuse_if (not (is_empty f.path) && not (rendered_in availability mode))
      (suppressed_field f.path availability)
    >> check_rendered spec mode filters

unfoldable pub validate_narrow_options_in_mode :
    ResourceSpec → Mode → NarrowOptions → Result NarrowError (Unit {0})
unfolding validate_narrow_options check_rendered
validate_narrow_options_in_mode spec mode opts =
    validate_narrow_options spec opts >> check_rendered spec mode opts.filters

-- `omittedPaths`
unfoldable pub omitted_paths : FieldSpecs → Mode → Text → List Text
unfolding allowed_in
omitted_paths no_fields mode prefix = []
omitted_paths (field i nested rest) mode prefix =
    let path = prefix ++ json_field i in
    let beneath = omitted_paths nested mode (path ++ codes ".") in
    let more = omitted_paths rest mode prefix in
    if is_secret i.classification
    then more
    else if not (allowed_in i mode)
    then path ∷ more
    else beneath ++ more

unfoldable pub unique_from : List Text → List Text → List Text
unfolding contains
unique_from seen [] = []
unique_from seen (name ∷ names) = elim (contains seen name) [
  | true ↦ unique_from seen names
  | false ↦ name ∷ unique_from (name ∷ seen) names
]

-- The fields of the last element of a chain.
unfoldable pub last_fields : List FieldSpec → FieldSpecs
last_fields [] = no_fields
last_fields (f ∷ []) = f.fields
last_fields (f ∷ g ∷ chain) = last_fields (g ∷ chain)

-- The loop of `OmittedFields`: the omitted paths and the secret ones.
unfoldable pub omitted_requested : FieldSpecs → Mode → List Text → List Text × List Text
unfolding field_chain availability_along rendered_in omitted_paths last_fields
omitted_requested specs mode [] = ([], [])
omitted_requested specs mode (name ∷ names) =
    let (omitted, secret) = omitted_requested specs mode names in
    elim (field_chain specs name) [
      | none ↦ (omitted, secret)
      | some chain ↦
          let availability = availability_along chain in
          if availability.secret
          then (omitted, name ∷ secret)
          else if not (rendered_in availability mode)
          then (name ∷ omitted, secret)
          else (omitted_paths (last_fields chain) mode (name ++ codes ".") ++ omitted, secret)
    ]

unfoldable pub omitted_fields : ResourceSpec → Mode → List Text → List Text × List Text
unfolding omitted_paths omitted_requested unique_from
omitted_fields spec mode requested =
    if is_empty requested
    then (omitted_paths spec.fields mode [], [])
    else let (omitted, secret) = omitted_requested spec.fields mode requested in
      (unique_from [] omitted, unique_from [] secret)

unfoldable pub renderable_names : ResourceSpec → Mode → List Text → List Text
unfolding contains field_order contains_text field_path_availability rendered_in
renderable_names spec mode [] = []
renderable_names spec mode (name ∷ names) =
    let more = renderable_names spec mode names in
    if contains (field_order spec.fields mode) name
    then name ∷ more
    else if not (contains_text name (codes "."))
    then more
    else if rendered_in (or_unavailable (field_path_availability spec name)) mode
    then name ∷ more
    else more

unfoldable pub effective_fields : ResourceSpec → Mode → List Text → Result NarrowError (List Text)
unfolding field_order validate_narrow_options renderable_names
effective_fields spec mode requested =
    if is_empty requested
    then ok (field_order spec.fields mode)
    else validate_narrow_options spec (record { fields = requested; filters = []; search = [] })
      >> ok (renderable_names spec mode requested)

module _ (sprint : Value → Text) where
  -- `NarrowProjectedRecords`
  unfoldable pub narrow_projected_records :
      ResourceSpec → Mode → List Fields → NarrowOptions → Result NarrowError (List Fields)
  unfolding validate_narrow_options_in_mode effective_fields filter_projected_records select_records
  narrow_projected_records spec mode records opts =
      validate_narrow_options_in_mode spec mode opts
      >> (effective_fields spec mode opts.fields >>= λ names.
          let narrowed = filter_projected_records sprint records opts.filters opts.search in
          ok (if not (is_empty opts.fields) then select_records names narrowed else narrowed))
