-- ===== src/Diff/Tests.antt =====
-- Runs of the comparison on small records.
use zscalerctl.Prelude.{
  ◌≡◌, refl, ◌↔◌, Bool, true, false, Option, none, some, List, [], ◌∷◌, Text, codes, ok, err,
  list_beq, text_lt, All,
}
use zscalerctl.Prelude.Int.{pos}
use zscalerctl.Resources.Spec.{
  capability_read, sensitive_identifier, tenant_config, FieldInfo, ResourceSpec, no_fields, field,
  effective_get_key,
}
use zscalerctl.Diff.Number.{Decimal, canonical_decimal, canonical_number}
use zscalerctl.Diff.Number.Scale.{IsSame}
use zscalerctl.Diff.Number.Value.{canonical_decimal_iff}
use zscalerctl.Diff.Json.{Value, str, number, Fields, no_entries, entry, canonical_identity_number}
use zscalerctl.Diff.Records.{ResourceDiff, duplicate_identity, Keyed, keyed_from, compare_keyed}
use zscalerctl.Diff.Records.{hashed_records, compare_content_hash}
use zscalerctl.Diff.Records.Hashed.{IsExcess, compare_content_hash-IsExcess}
use zscalerctl.Diff.Records.Keyed.{IsDiff, compare_keyed-IsDiff}
use zscalerctl.Diff.Compare.{succeeded, LoadedDump, Report, compare_dumps, resource_read_limit}
use zscalerctl.Diff.Compare.Limit.{IsLimitFor, resource_read_limit-IsLimitFor}
use zscalerctl.Diff.Compare.Totals.{IsTally, SameScope, compare_dumps-IsTally}

abbrev id_info : FieldInfo
id_info = record {
  name = codes "id";
  json_name = [];
  classification = sensitive_identifier;
  allowed_modes = [];
  sensitive_name_reason = [];
  standard_free_text_reason = [];
  secret_reason = [];
}

abbrev sample_spec : ResourceSpec
sample_spec = record {
  product = codes "zia";
  name = codes "rules";
  shape = [];
  operations = record { name = codes "get"; capability = capability_read } ∷ [];
  get_key = [];
  fields = field id_info no_fields (
      field (record id_info { name = codes "name"; classification = tenant_config }) no_fields
        no_fields);
}

abbrev rule : Text → Text → Fields
rule id name = entry (codes "id") (number id) (entry (codes "name") (str name) no_entries)

abbrev any_number : Text → Bool
any_number s = true

abbrev no_print : Value → Text
no_print v = []

abbrev old_rules : List Fields
old_rules = rule (codes "1") (codes "a") ∷ rule (codes "2") (codes "b") ∷ []

-- The second rule has the id 2 in another spelling.
abbrev new_rules : List Fields
new_rules = rule (codes "2e0") (codes "c") ∷ rule (codes "3") (codes "d") ∷ []

abbrev rules_diff : ResourceDiff
rules_diff = record {
  added = record { key = codes "3"; hash = []; content = rule (codes "3") (codes "d") } ∷ [];
  removed = record { key = codes "1"; hash = []; content = rule (codes "1") (codes "a") } ∷ [];
  changed =
      record {
        key = codes "2";
        changes = record { name = codes "name"; old = str (codes "b"); new = str (codes "c") } ∷ [];
      }
      ∷ [];
}

number_run : canonical_number any_number (codes "-0120.50e1") ≡ some (codes "-1.205e3")
unfolding canonical_number list_beq
number_run = refl

identity_run : canonical_identity_number any_number (codes "12.50e1") ≡ some (codes "125")
unfolding canonical_identity_number list_beq
identity_run = refl

keyed_run : compare_keyed any_number no_print sample_spec old_rules new_rules true ≡ ok rules_diff
unfolding compare_keyed effective_get_key list_beq text_lt
keyed_run = refl

twice_run :
    compare_keyed any_number no_print sample_spec old_rules
      (rule (codes "1") [] ∷ rule (codes "1.0") [] ∷ [])
      true
    ≡ err (duplicate_identity (codes "1"))
unfolding compare_keyed effective_get_key list_beq text_lt
twice_run = refl

abbrev a_decimal : Decimal
a_decimal = record { negative = false; digits = codes "120"; exponent = pos 0 }

abbrev b_decimal : Decimal
b_decimal = record { negative = false; digits = codes "012"; exponent = pos 1 }

canonical_decimal_iff_example :
    (canonical_decimal a_decimal ≡ canonical_decimal b_decimal) ↔ IsSame a_decimal b_decimal
canonical_decimal_iff_example = canonical_decimal_iff a_decimal b_decimal

compare_keyed-IsDiff_example :
    (old_by_key new_by_key : Keyed) × (keyed_from any_number no_print sample_spec.fields
        (effective_get_key sample_spec)
        true
        0
        []
        old_rules
      ≡ ok old_by_key)
    × (keyed_from any_number no_print sample_spec.fields
          (effective_get_key sample_spec)
          true
          0
          []
          new_rules
        ≡ ok new_by_key)
    × IsDiff any_number no_print old_by_key new_by_key rules_diff
compare_keyed-IsDiff_example =
    compare_keyed-IsDiff any_number no_print sample_spec old_rules new_rules true rules_diff
      keyed_run

abbrev dump_of : List Fields → LoadedDump
dump_of records = record {
  redaction = codes "standard";
  partial = false;
  state = λ product name. succeeded;
  records = λ product name. records;
}

abbrev no_digest : Value → Option Text
no_digest v = none

abbrev rules_report : Report
rules_report = record {
  summary = record {
    resources_compared = 1;
    resources_with_drift = 1;
    records_added = 1;
    records_removed = 1;
    records_changed = 1;
  };
  entries =
      record {
        product = codes "zia";
        resource = codes "rules";
        identity = record { mode = codes "get_key"; identity_field = codes "id" };
        note = [];
        skipped = false;
        diff = rules_diff;
      }
      ∷ [];
}

dumps_run :
    compare_dumps {E = Text} any_number no_digest no_print none
      (dump_of old_rules)
      (dump_of new_rules)
      (sample_spec ∷ [])
      false
      true
    ≡ ok rules_report
unfolding compare_dumps compare_keyed effective_get_key list_beq text_lt
dumps_run = refl

compare_dumps-IsTally_example :
    (codes "standard" ≡ codes "standard")
    × (false ≡ false → (false ≡ false) × (false ≡ false))
    × All
        (SameScope {E = Text} any_number no_digest no_print none
          (dump_of old_rules)
          (dump_of new_rules)
          true)
        (sample_spec ∷ [])
    × IsTally rules_report
compare_dumps-IsTally_example =
    compare_dumps-IsTally {E = Text} any_number no_digest no_print none (dump_of old_rules)
      (dump_of new_rules) true (sample_spec ∷ []) false rules_report dumps_run

resource_read_limit-IsLimitFor_example :
    IsLimitFor (pos 1000) 300 700 (resource_read_limit (pos 1000) 300)
resource_read_limit-IsLimitFor_example = resource_read_limit-IsLimitFor (pos 1000) 300 700

-- A digest that takes all records for equal.
abbrev one_digest : Value → Option Text
one_digest v = some (codes "h")

abbrev hashed_diff : ResourceDiff
hashed_diff = record {
  added = [];
  removed = record { key = []; hash = codes "h"; content = rule (codes "2") (codes "b") } ∷ [];
  changed = [];
}

hashed_run :
    compare_content_hash any_number one_digest no_fields old_rules (rule (codes "3") [] ∷ [])
    ≡ ok hashed_diff
unfolding compare_content_hash list_beq text_lt
hashed_run = refl

compare_content_hash-IsExcess_example :
    (old_by_hash new_by_hash : Keyed) × (hashed_records any_number one_digest no_fields old_rules
      ≡ ok old_by_hash)
    × (hashed_records any_number one_digest no_fields (rule (codes "3") [] ∷ []) ≡ ok new_by_hash)
    × IsExcess any_number one_digest old_by_hash new_by_hash hashed_diff
    × (hashed_diff.changed ≡ [])
compare_content_hash-IsExcess_example =
    compare_content_hash-IsExcess any_number one_digest no_fields old_rules
      (rule (codes "3") [] ∷ []) hashed_diff hashed_run
