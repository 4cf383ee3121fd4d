-- ===== src/Resources/Tests.antt =====
-- Runs of the resource code on a small catalog entry.
use zscalerctl.Prelude.{
  Some, split, ◌↔◌, All, true, false, ◌≡◌, refl, List, [], ◌∷◌, Text, codes, ok, list_beq,
}
use zscalerctl.Resources.Spec.{
  mode_standard, mode_share, tenant_config, secret, sensitive_identifier, FieldInfo, FieldSpec,
  no_fields, field, capability_read, ResourceSpec,
}
use zscalerctl.Resources.Validate.{validate}
use zscalerctl.Resources.Value.{
  confirmed_empty, Value, str, array, object, no_items, item, Fields, no_entries, entry,
}
use zscalerctl.Resources.Encodable.{fields_encodable}
use zscalerctl.Resources.Project.{Scanners, project_record_core}
use zscalerctl.Resources.Verify.{project_record_and_verify}
use zscalerctl.Resources.Accepted.{project_record_and_verify-ok}
use zscalerctl.Resources.Rendered.{expected, project_record_and_verify-expected}
use zscalerctl.Resources.Select.{select}
use zscalerctl.Resources.Select.Admits.{IsComparable}
use zscalerctl.Resources.Select.Kept.{InFields, select-InFields}
use zscalerctl.Resources.Availability.{availability_along, rendered_in}
use zscalerctl.Resources.Filters.{ProjectedFilter, filter_projected_records}
use zscalerctl.Resources.Narrow.Renders.{
  IsMode, IsAllowed, rendered_in-availability_along, rendered_in-secret,
}
use zscalerctl.Resources.Narrow.{NarrowOptions, narrow_projected_records}
use zscalerctl.Resources.Narrow.Narrows.{IsNarrowed, narrow_projected_records-IsNarrowed}
use zscalerctl.Resources.Narrow.Matches.{IsKept, Matches, filter_projected_records-IsKept}

abbrev plain_scan : Scanners
plain_scan = record {
  scan_free_text = λ mode s. (s, false);
  scan_string = λ mode s. (s, false);
  scan_rendered_string = λ mode s. (s, false);
}

abbrev id_info : FieldInfo
id_info = record {
  name = codes "id";
  json_name = [];
  classification = sensitive_identifier;
  allowed_modes = mode_standard ∷ [];
  sensitive_name_reason = [];
  standard_free_text_reason = [];
  secret_reason = [];
}

abbrev groups_info : FieldInfo
groups_info = record id_info {
  name = codes "groups";
  classification = tenant_config;
  allowed_modes = mode_standard ∷ mode_share ∷ [];
}

abbrev key_info : FieldInfo
key_info = record id_info {
  name = codes "psk";
  classification = secret;
  allowed_modes = [];
  secret_reason = codes "credential";
}

abbrev sample_spec : ResourceSpec
sample_spec = record {
  product = codes "zia";
  name = codes "locations";
  shape = [];
  operations = record { name = codes "get"; capability = capability_read } ∷ [];
  get_key = [];
  fields =
      field id_info no_fields (
        field groups_info (field id_info no_fields no_fields) (field key_info no_fields no_fields));
}

abbrev group : Text → Value
group s = object (entry (codes "id") (str s) (entry (codes "extra") (str s) no_entries))

-- A record with a confirmed empty list beside a value of each kind of field.
abbrev confirmed_values : Fields
confirmed_values = entry (codes "id") confirmed_empty (
    entry (codes "groups") (array (item (group (codes "a")) no_items))
      (entry (codes "psk") (str (codes "hunter2")) no_entries))

confirmed_values-encodable : fields_encodable confirmed_values ≡ true
unfolding fields_encodable
confirmed_values-encodable = refl

abbrev sample_values : Fields
sample_values = entry (codes "id") (str (codes "7")) (
    entry (codes "groups") (array (item (group (codes "a")) (item (group (codes "b")) no_items)))
      (entry (codes "psk") (str (codes "hunter2")) no_entries))

sample_spec-valid : validate sample_spec ≡ ok tt
unfolding validate list_beq
sample_spec-valid = refl

project_record_and_verify-expected_example :
    expected (project_record_and_verify mode_standard plain_scan sample_spec sample_values) ≡ true
project_record_and_verify-expected_example =
    project_record_and_verify-expected plain_scan mode_standard sample_spec sample_values
      sample_spec-valid

project_record_and_verify-ok_example :
    project_record_and_verify mode_standard plain_scan sample_spec confirmed_values
    ≡ ok (project_record_core plain_scan mode_standard sample_spec confirmed_values)
project_record_and_verify-ok_example =
    project_record_and_verify-ok plain_scan mode_standard sample_spec confirmed_values
      sample_spec-valid confirmed_values-encodable

abbrev group_ids : List Text
group_ids = codes "groups.id" ∷ []

abbrev group_id : List Text
group_id = codes "groups" ∷ codes "id" ∷ []

select-InFields_example : InFields (select group_ids sample_values) group_id (str (codes "a")) ↔ (
    InFields sample_values group_id (str (codes "a"))
    × Some (λ key. IsComparable (split b'.' key) group_id) group_ids)
select-InFields_example = select-InFields group_ids sample_values group_id (str (codes "a"))

abbrev secret_chain : List FieldSpec
secret_chain = record { info = key_info; fields = no_fields } ∷ []

abbrev open_chain : List FieldSpec
open_chain = record { info = id_info; fields = no_fields } ∷ []

rendered_in-availability_along_example :
    (rendered_in (availability_along open_chain) mode_share ≡ true)
    ↔ (IsMode mode_share × All (IsAllowed mode_share) open_chain)
rendered_in-availability_along_example = rendered_in-availability_along open_chain mode_share

secret_chain-secret : (availability_along secret_chain).secret ≡ true
unfolding availability_along
secret_chain-secret = refl

rendered_in-secret_example : rendered_in (availability_along secret_chain) mode_standard ≡ false
rendered_in-secret_example = rendered_in-secret secret_chain mode_standard secret_chain-secret

abbrev no_print : Value → Text
no_print v = []

abbrev by_group : ProjectedFilter
by_group = record { path = codes "groups.id"; value = codes "b"; substring = false }

filter_projected_records-IsKept_example :
    IsKept
      (λ r. Matches no_print r (by_group ∷ []) [])
      (sample_values ∷ [])
      (filter_projected_records no_print (sample_values ∷ []) (by_group ∷ []) [])
filter_projected_records-IsKept_example =
    filter_projected_records-IsKept no_print (sample_values ∷ []) (by_group ∷ []) []

abbrev sample_options : NarrowOptions
sample_options = record { fields = group_ids; filters = by_group ∷ []; search = [] }

abbrev narrowed_values : Fields
narrowed_values =
    entry (codes "groups")
      (array (
        item (object (entry (codes "id") (str (codes "a")) no_entries))
          (item (object (entry (codes "id") (str (codes "b")) no_entries)) no_items)))
      no_entries

narrowed_run :
    narrow_projected_records no_print sample_spec mode_standard (sample_values ∷ []) sample_options
    ≡ ok (narrowed_values ∷ [])
unfolding narrow_projected_records list_beq
narrowed_run = refl

narrow_projected_records-IsNarrowed_example :
    IsNarrowed no_print sample_spec mode_standard sample_options
      (sample_values ∷ [])
      (narrowed_values ∷ [])
narrow_projected_records-IsNarrowed_example =
    narrow_projected_records-IsNarrowed no_print sample_spec mode_standard sample_options
      (sample_values ∷ []) (narrowed_values ∷ []) refl narrowed_run
