-- ===== src/Resources/Project.antt =====
-- The projection of a record and its verification, in internal/resources/resources.go. The scanners of
-- internal/redact are a parameter.
use zscalerctl.Prelude.{
  ℕ, suc, Bool, true, false, not, ◌&&◌, ◌||◌, Option, none, some, List, [], ◌∷◌, ◌++◌, Text, codes,
  text_beq, text_eq, if◌then◌else◌, Result, ok, ◌>>◌, contains, itoa,
}
use zscalerctl.Prelude.Sort.{sort_texts}
use zscalerctl.Resources.Spec.{
  Mode, mode_standard, effective_mode, is_free_text, is_tenant_config, FieldInfo, FieldSpec,
  FieldSpecs, has_fields, json_field, allowed_field, ResourceSpec,
}
use zscalerctl.Resources.Validate.{SpecFault, validate, normalize_field_name}
use zscalerctl.Resources.Value.{
  Value, str, strs, array, object, objects, unsupported, confirmed_empty, Items, no_items, item,
  Fields, no_entries, entry, Maps, no_maps, map_of, is_unconfirmed_empty_list, has_structured_value,
  has_unsupported_value,
}

-- The scanners of a redactor in a mode: the text that may be shown, and whether it was changed.
pub record Scanners : Type 0 where
  pub scan_free_text : Mode → Text → Text × Bool
  pub scan_string : Mode → Text → Text × Bool
  pub scan_rendered_string : Mode → Text → Text × Bool

pub record ProjectionReport : Type 0 where
  pub included_fields : List Text
  pub dropped_fields : List Text
  pub redacted_fields : List Text

abbrev pub empty_report : ProjectionReport
empty_report = record { included_fields = []; dropped_fields = []; redacted_fields = [] }

abbrev pub dropped : Text → ProjectionReport → ProjectionReport
dropped path r = record r { dropped_fields = r.dropped_fields ++ path ∷ [] }

abbrev pub included : Text → ProjectionReport → ProjectionReport
included path r = record r { included_fields = r.included_fields ++ path ∷ [] }

abbrev pub redacted_if : Bool → Text → ProjectionReport → ProjectionReport
redacted_if false path r = r
redacted_if true path r = record r { redacted_fields = r.redacted_fields ++ path ∷ [] }

unfoldable pub sort_report : ProjectionReport → ProjectionReport
unfolding sort_texts
sort_report r = record {
  included_fields = sort_texts r.included_fields;
  dropped_fields = sort_texts r.dropped_fields;
  redacted_fields = sort_texts r.redacted_fields;
}

abbrev pub display_names : List Text
display_names = codes "name" ∷ codes "configuredname" ∷ codes "displayname" ∷ []

unfoldable pub is_structured_display_name_field : FieldInfo → Bool
unfolding normalize_field_name contains
is_structured_display_name_field f =
    if not (is_tenant_config f.classification)
    then false
    else contains display_names (normalize_field_name (json_field f))

abbrev pub item_path : Text → ℕ → Text
item_path path i = path ++ (codes "[" ++ (itoa i ++ codes "]"))

-- A value that is kept, with whether it was redacted; `none` is one that is not included.
abbrev pub Kept : Type 0
Kept = Option (Value × Bool)

abbrev pub keep_items : Option (Items × Bool) → Kept
keep_items none = none
keep_items (some (vs, redacted)) = some (array vs, redacted)

abbrev pub keep_list : Items → Bool → Kept
keep_list no_items redacted = none
keep_list (item v vs) redacted = some (array (item v vs), redacted)

abbrev pub keep_map : Fields → Bool → Kept
keep_map no_entries redacted = none
keep_map (entry k v fs) redacted = some (object (entry k v fs), redacted)

abbrev pub add_item : Value × Bool → Option (Items × Bool) → Option (Items × Bool)
add_item v none = none
add_item (v, redacted) (some (vs, others)) = some (item v vs, redacted || others)

module _ (scan : Scanners) (mode : Mode) where
  unfoldable pub scan_string_value : FieldInfo → Text → Text × Bool
  unfolding is_structured_display_name_field
  scan_string_value f value =
      if is_free_text f.classification
      then scan.scan_free_text (effective_mode mode) value
      else if text_beq (effective_mode mode) mode_standard && is_structured_display_name_field f
      then scan.scan_string (effective_mode mode) value
      else scan.scan_rendered_string (effective_mode mode) value

  unfoldable pub scan_strings : FieldInfo → List Text → List Text × Bool
  unfolding scan_string_value
  scan_strings f [] = ([], false)
  scan_strings f (s ∷ ss) =
      let (out, redacted) = scan_string_value f s in
      let (outs, others) = scan_strings f ss in (out ∷ outs, redacted || others)

  unfoldable mutual
    pub sanitize_scalar : FieldInfo → Value → Kept
    sanitize_scalar f (str s) =
        let (out, redacted) = scan_string_value f s in some (str out, redacted)
    sanitize_scalar f (strs ss) =
        let (out, redacted) = scan_strings f ss in some (strs out, redacted)
    sanitize_scalar f (array vs) = keep_items (sanitize_items f vs)
    sanitize_scalar f v = some (v, false)

    pub sanitize_items : FieldInfo → Items → Option (Items × Bool)
    sanitize_items f no_items = some (no_items, false)
    sanitize_items f (item v vs) = elim (sanitize_scalar f v) [
      | none ↦ none
      | some kept ↦ add_item kept (sanitize_items f vs)
    ]

  -- A field without nested fields.
  unfoldable pub project_leaf : FieldInfo → Value → Kept
  unfolding has_unsupported_value has_structured_value sanitize_scalar
  project_leaf f value =
      if has_unsupported_value value
      then some (unsupported, false)
      else if has_structured_value value
      then none
      else sanitize_scalar f value

  -- A field with nested fields is projected as what `projectNestedValue` makes of the value.
  unfoldable pub by_shape :
      FieldSpec → Value → ProjectionReport → Kept × ProjectionReport → Kept × ProjectionReport
  unfolding project_leaf
  by_shape f value r nested = if has_fields f.fields then nested else (project_leaf f.info value, r)

  -- The report is threaded through, as the pointer to it is in the code.
  unfoldable mutual
    unfolding by_shape

    pub project_value : FieldSpec → Value → Text → ProjectionReport → Kept × ProjectionReport
    project_value f unsupported path r = (some (unsupported, false), r)
    project_value f confirmed_empty path r = (some (array no_items, false), r)
    project_value f (object fs) path r =
        let (out, redacted, after) = project_nested_map f.fields fs path r in
        by_shape f (object fs) r (keep_map out redacted, after)
    project_value f (array vs) path r =
        let (out, redacted, after) = project_items f.fields vs path 0 r in
        by_shape f (array vs) r (keep_list out redacted, after)
    project_value f (objects ms) path r =
        let (out, redacted, after) = project_maps f.fields ms path 0 r in
        by_shape f (objects ms) r (keep_list out redacted, after)
    project_value f value path r = by_shape f value r (none, r)

    pub project_nested_value :
        FieldSpecs → Value → Text → ProjectionReport → Kept × ProjectionReport
    project_nested_value specs (object fs) path r =
        let (out, redacted, after) = project_nested_map specs fs path r in
        (keep_map out redacted, after)
    project_nested_value specs (array vs) path r =
        let (out, redacted, after) = project_items specs vs path 0 r in
        (keep_list out redacted, after)
    project_nested_value specs (objects ms) path r =
        let (out, redacted, after) = project_maps specs ms path 0 r in
        (keep_list out redacted, after)
    project_nested_value specs _ path r = (none, r)

    pub project_items :
        FieldSpecs → Items → Text → ℕ → ProjectionReport → Items × Bool × ProjectionReport
    project_items specs no_items path i r = (no_items, false, r)
    project_items specs (item v vs) path i r =
        let (kept, after) = project_nested_value specs v (item_path path i) r in
        elim kept [
          | none ↦ project_items specs vs path (suc i) (dropped (item_path path i) after)
          | some (out, redacted) ↦
              let (outs, others, end) = project_items specs vs path (suc i) after in
              (item out outs, redacted || others, end)
        ]

    pub project_maps :
        FieldSpecs → Maps → Text → ℕ → ProjectionReport → Items × Bool × ProjectionReport
    project_maps specs no_maps path i r = (no_items, false, r)
    project_maps specs (map_of fs ms) path i r =
        let (out, redacted, after) = project_nested_map specs fs (item_path path i) r in
        elim (keep_map out redacted) [
          | none ↦ project_maps specs ms path (suc i) (dropped (item_path path i) after)
          | some (kept, flag) ↦
              let (outs, others, end) = project_maps specs ms path (suc i) after in
              (item kept outs, flag || others, end)
        ]

    pub project_nested_map :
        FieldSpecs → Fields → Text → ProjectionReport → Fields × Bool × ProjectionReport
    project_nested_map specs no_entries path r = (no_entries, false, r)
    project_nested_map specs (entry key value fs) path r =
        let nested_path = path ++ (codes "." ++ key) in
        elim (is_unconfirmed_empty_list value) [
          | true ↦ project_nested_map specs fs path r
          | false ↦ elim (allowed_field specs mode key) [
            | none ↦ project_nested_map specs fs path (dropped nested_path r)
            | some f ↦
                let (kept, after) = project_value f value nested_path r in
                elim kept [
                  | none ↦ project_nested_map specs fs path (dropped nested_path after)
                  | some (out, redacted) ↦
                      let (outs, others, end) =
                        project_nested_map specs fs path
                          (redacted_if redacted nested_path (included nested_path after)) in
                      (entry key out outs, redacted || others, end)
                ]
          ]
        ]

  -- The loop of `projectRecordCore`.
  unfoldable pub project_fields : FieldSpecs → Fields → ProjectionReport → Fields × ProjectionReport
  unfolding project_value allowed_field
  project_fields specs no_entries r = (no_entries, r)
  project_fields specs (entry key value fs) r = elim (is_unconfirmed_empty_list value) [
    | true ↦ project_fields specs fs r
    | false ↦ elim (allowed_field specs mode key) [
      | none ↦ project_fields specs fs (dropped key r)
      | some f ↦
          let (kept, after) = project_value f value key r in
          elim kept [
            | none ↦ project_fields specs fs (dropped key after)
            | some (out, redacted) ↦
                let (outs, end) =
                  project_fields specs fs (included key (redacted_if redacted key after)) in
                (entry key out outs, end)
          ]
    ]
  ]

  unfoldable pub project_record_core : ResourceSpec → Fields → Fields × ProjectionReport
  unfolding project_fields sort_report
  project_record_core spec values =
      let (out, report) = project_fields spec.fields values empty_report in
      (out, sort_report report)

  -- `ProjectRecord`; the mode is made effective where it is used.
  unfoldable pub project_record :
      ResourceSpec → Fields → Result SpecFault (Fields × ProjectionReport)
  unfolding validate project_record_core
  project_record spec values = validate spec >> ok (project_record_core spec values)
