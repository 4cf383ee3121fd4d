-- ===== src/Diff/Records.antt =====
-- The comparison of the records of one resource, in internal/diff/diff.go. A context that is never
-- cancelled is assumed; encoding/json with sha256 (`digest`) and `fmt.Sprint` are parameters.
pub mod Hashed
pub mod Keyed
pub mod Multiplicity
use zscalerctl.Prelude.{
  ℕ, zero, suc, ◌+◌, Bool, true, false, not, ◌&&◌, ◌||◌, Option, none, some, List, [], ◌∷◌, ◌++◌,
  Text, codes, text_beq, text_eq, text_lt, is_empty, if◌then◌else◌, contains, length, drop, Result,
  ok, err, ◌>>=◌, ◌>>◌, refuse_if, ltb, is_some,
}
use zscalerctl.Prelude.Sort.{sort_texts}
use zscalerctl.Resources.Spec.{
  FieldClassification, operational, FieldSpecs, no_fields, field, json_field, ResourceSpec,
  effective_shape, effective_get_key,
}
use zscalerctl.Diff.Json.{
  Value, null, object, Fields, no_entries, entry, find_field, json_values_equal,
  canonical_hash_value, identity_string,
}

-- `fieldClasses`, as a lookup: of two fields with one name the later one stays.
unfoldable pub field_class : FieldSpecs → Text → Option FieldClassification
field_class no_fields key = none
field_class (field i nested rest) key = elim (field_class rest key) [
  | some c ↦ some c
  | none ↦ if text_beq (json_field i) key then some i.classification else none
]

abbrev is_operational : Option FieldClassification → Bool
is_operational (some operational) = true
is_operational _ = false

-- `filterRecordContext`
unfoldable pub filter_record : FieldSpecs → Bool → Fields → Fields
unfolding field_class
filter_record specs ignore_operational no_entries = no_entries
filter_record specs ignore_operational (entry k v fs) =
    let rest = filter_record specs ignore_operational fs in
    if ignore_operational && is_operational (field_class specs k) then rest else entry k v rest

unfoldable pub field_names : Fields → List Text
field_names no_entries = []
field_names (entry k v fs) = k ∷ field_names fs

-- The elements of the second list that the first does not have.
unfoldable pub others : List Text → List Text → List Text
unfolding contains
others seen [] = []
others seen (k ∷ ks) = let rest = others seen ks in if contains seen k then rest else k ∷ rest

-- `sortedKeys`, and the field names of `diffFieldsContext`.
unfoldable pub sorted_keys : List Text → List Text → List Text
unfolding others sort_texts
sorted_keys a b = sort_texts (a ++ others a b)

pub record FieldChange : Type 0 where
  pub name : Text
  pub old : Value
  pub new : Value

-- A missing value is compared as null.
abbrev pub or_null : Option Value → Value
or_null none = null
or_null (some v) = v

pub record RecordRef : Type 0 where
  pub key : Text
  pub hash : Text
  pub content : Fields

pub record RecordChange : Type 0 where
  pub key : Text
  pub changes : List FieldChange

-- `ResourceDiff` without the fields that `compareResource` copies from the specification.
pub record ResourceDiff : Type 0 where
  pub added : List RecordRef
  pub removed : List RecordRef
  pub changed : List RecordChange

abbrev pub no_diff : ResourceDiff
no_diff = record { added = []; removed = []; changed = [] }

abbrev pub has_drift : ResourceDiff → Bool
has_drift d = not (is_empty d.added) || (not (is_empty d.removed) || not (is_empty d.changed))

pub data DiffError : Type 0 where
  missing_identity empty_identity : ℕ → DiffError
  duplicate_identity : Text → DiffError
  many_singletons hash_failed : DiffError

abbrev pub Keyed : Type 0
Keyed = List (Text × Fields)

unfoldable pub find_record : Keyed → Text → Option Fields
find_record [] key = none
find_record ((k, r) ∷ rs) key = if text_beq k key then some r else find_record rs key

unfoldable pub keys_of : Keyed → List Text
keys_of [] = []
keys_of ((k, r) ∷ rs) = k ∷ keys_of rs

abbrev identity_value : ℕ → Option Value → Result DiffError Value
identity_value i none = err (missing_identity i)
identity_value i (some null) = err (missing_identity i)
identity_value i (some v) = ok v

abbrev add_change : Text → List FieldChange → ResourceDiff → ResourceDiff
add_change key [] d = d
add_change key (c ∷ cs) d = record d {
  changed = record { key = key; changes = c ∷ cs } ∷ d.changed;
}

module _ (parses : Text → Bool) (sprint : Value → Text) where
  unfoldable pub changes_in : List Text → Fields → Fields → List FieldChange
  unfolding find_field json_values_equal
  changes_in [] old new = []
  changes_in (name ∷ names) old new =
      let rest = changes_in names old new in
      let before = or_null (find_field old name) in
      let after = or_null (find_field new name) in
      if json_values_equal parses before after
      then rest
      else record { name = name; old = before; new = after } ∷ rest

  -- `diffFieldsContext`
  unfoldable pub diff_fields : Fields → Fields → List FieldChange
  unfolding sorted_keys field_names changes_in
  diff_fields old new = changes_in (sorted_keys (field_names old) (field_names new)) old new

  -- `keyedRecords`, with the number of the record and the keys so far.
  unfoldable pub keyed_from :
      FieldSpecs → Text → Bool → ℕ → List Text → List Fields → Result DiffError Keyed
  unfolding find_field identity_string contains filter_record
  keyed_from specs key_field ignore_operational i seen [] = ok []
  keyed_from specs key_field ignore_operational i seen (r ∷ rs) =
      identity_value i (find_field r key_field) >>= λ raw.
      let key = identity_string parses sprint raw in
      refuse_if (is_empty key) (empty_identity i)
      >> refuse_if (contains seen key) (duplicate_identity key)
      >> keyed_from specs key_field ignore_operational (suc i) (key ∷ seen) rs
      >>= λ rest. ok ((key, filter_record specs ignore_operational r) ∷ rest)

  -- One key of `compareKeyed`, in front of what follows.
  unfoldable pub compare_key : Text → Option Fields → Option Fields → ResourceDiff → ResourceDiff
  unfolding diff_fields
  compare_key key none none rest = rest
  compare_key key none (some new) rest = record rest {
    added = record { key = key; hash = []; content = new } ∷ rest.added;
  }
  compare_key key (some old) none rest = record rest {
    removed = record { key = key; hash = []; content = old } ∷ rest.removed;
  }
  compare_key key (some old) (some new) rest = add_change key (diff_fields old new) rest

  unfoldable pub compare_keys : List Text → Keyed → Keyed → ResourceDiff
  unfolding find_record compare_key
  compare_keys [] old new = no_diff
  compare_keys (key ∷ keys) old new =
      compare_key key (find_record old key) (find_record new key) (compare_keys keys old new)

  unfoldable pub compare_keyed :
      ResourceSpec → List Fields → List Fields → Bool → Result DiffError ResourceDiff
  unfolding keyed_from effective_get_key sorted_keys keys_of compare_keys
  compare_keyed spec old new ignore_operational =
      keyed_from spec.fields (effective_get_key spec) ignore_operational 0 [] old >>= λ old_by_key.
      keyed_from spec.fields (effective_get_key spec) ignore_operational 0 [] new >>= λ new_by_key.
      ok
        (compare_keys (sorted_keys (keys_of old_by_key) (keys_of new_by_key)) old_by_key new_by_key)

  abbrev singleton_ref : FieldSpecs → Bool → Fields → RecordRef
  unfolding filter_record
  singleton_ref specs ignore_operational r = record {
    key = codes "singleton";
    hash = [];
    content = filter_record specs ignore_operational r;
  }

  unfoldable pub compare_singleton :
      FieldSpecs → List Fields → List Fields → Bool → Result DiffError ResourceDiff
  unfolding filter_record diff_fields
  compare_singleton specs [] [] ignore_operational = ok no_diff
  compare_singleton specs [] (new ∷ []) ignore_operational =
      ok (record no_diff { added = singleton_ref specs ignore_operational new ∷ [] })
  compare_singleton specs (old ∷ []) [] ignore_operational =
      ok (record no_diff { removed = singleton_ref specs ignore_operational old ∷ [] })
  compare_singleton specs (old ∷ []) (new ∷ []) ignore_operational = ok (
      add_change (codes "singleton")
        (diff_fields (filter_record specs ignore_operational old)
          (filter_record specs ignore_operational new))
        no_diff)
  compare_singleton specs _ _ ignore_operational = err many_singletons

module _ (parses : Text → Bool) (digest : Value → Option Text) where
  abbrev digest_option : Option Value → Option Text
  digest_option none = none
  digest_option (some v) = digest v

  -- `recordHash`; `none` is an error.
  unfoldable pub record_hash : Fields → Option Text
  unfolding canonical_hash_value
  record_hash r = digest_option (canonical_hash_value parses (object r))

  -- `hashedRecords`, as the records with their hashes.
  unfoldable pub hashed_records : FieldSpecs → List Fields → Result DiffError Keyed
  unfolding filter_record record_hash
  hashed_records specs [] = ok []
  hashed_records specs (r ∷ rs) =
      let filtered = filter_record specs true r in
      elim (record_hash filtered) [
        | none ↦ err hash_failed
        | some hash ↦ hashed_records specs rs >>= λ rest. ok ((hash, filtered) ∷ rest)
      ]

  -- The records under one hash, in their order.
  unfoldable pub bucket : Keyed → Text → List Fields
  bucket [] hash = []
  bucket ((h, r) ∷ rs) hash =
      let rest = bucket rs hash in if text_beq h hash then r ∷ rest else rest

  abbrev hash_refs : Text → List Fields → List RecordRef
  hash_refs hash [] = []
  hash_refs hash (r ∷ rs) = record { key = []; hash = hash; content = r } ∷ hash_refs hash rs

  -- The records that one bucket has beyond the number in the other.
  abbrev surplus : List Fields → List Fields → List Fields
  surplus rs qs = drop (length qs) rs

  unfoldable pub compare_hashes : List Text → Keyed → Keyed → ResourceDiff
  unfolding bucket
  compare_hashes [] old new = no_diff
  compare_hashes (hash ∷ hashes) old new =
      let rest = compare_hashes hashes old new in
      record rest {
        added = hash_refs hash (surplus (bucket new hash) (bucket old hash)) ++ rest.added;
        removed = hash_refs hash (surplus (bucket old hash) (bucket new hash)) ++ rest.removed;
      }

  unfoldable pub distinct_keys : List Text → List Text → List Text
  unfolding contains
  distinct_keys seen [] = []
  distinct_keys seen (k ∷ ks) = elim (contains seen k) [
    | true ↦ distinct_keys seen ks
    | false ↦ k ∷ distinct_keys (k ∷ seen) ks
  ]

  -- The hashes are visited in increasing order, which `sortRecordRefs` then finds.
  unfoldable pub compare_content_hash :
      FieldSpecs → List Fields → List Fields → Result DiffError ResourceDiff
  unfolding hashed_records sorted_keys keys_of distinct_keys compare_hashes
  compare_content_hash specs old new = hashed_records specs old >>= λ old_by_hash.
      hashed_records specs new >>= λ new_by_hash. ok (
        compare_hashes
          (sorted_keys (distinct_keys [] (keys_of old_by_hash))
            (distinct_keys [] (keys_of new_by_hash)))
          old_by_hash new_by_hash)

  unfoldable pub compare_resource :
      (Value → Text)
      → ResourceSpec
      → List Fields
      → List Fields
      → Bool
      → Result DiffError ResourceDiff
  unfolding compare_singleton compare_keyed compare_content_hash effective_get_key
  compare_resource sprint spec old new ignore_operational =
      if text_beq (effective_shape spec) (codes "singleton")
      then compare_singleton parses sprint spec.fields old new ignore_operational
      else if not (is_empty (effective_get_key spec))
      then compare_keyed parses sprint spec old new ignore_operational
      else compare_content_hash spec.fields old new
