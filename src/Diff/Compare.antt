-- ===== src/Diff/Compare.antt =====
-- The comparison of two dumps, in internal/diff/diff.go: `CompareContext` between the loading of the
-- dumps and its report, with a context that is never cancelled. A dump is given by what its maps
-- hold, nothing and not selected for a resource that they lack. `progress` answers with its error,
-- as a function of the event, since no two events of a comparison are equal.
pub mod Limit
pub mod Totals
use zscalerctl.Prelude.{
  ℕ, zero, suc, ◌+◌, ◌-◌, ◌*◌, Bool, true, false, not, ◌&&◌, ◌||◌, Option, none, some, List, [],
  ◌∷◌, ◌++◌, Text, codes, text_beq, text_eq, text_lt, is_empty, if◌then◌else◌, length, Result, ok,
  err, ◌>>=◌, ◌>>◌, refuse_if, leb, ltb, sort_by,
}
use zscalerctl.Prelude.Int.{ℤ, pos, negsuc, subtract, is_below}
use zscalerctl.Resources.Spec.{
  ResourceSpec, effective_shape, effective_get_key, supports_read_operation,
}
use zscalerctl.Diff.Json.{Value, Fields}
use zscalerctl.Diff.Records.{ResourceDiff, has_drift, DiffError, compare_resource}

pub data CollectionState : Type 0 where
  not_selected succeeded failed : CollectionState

abbrev pub is_selected : CollectionState → Bool
is_selected not_selected = false
is_selected _ = true

abbrev pub is_failed : CollectionState → Bool
is_failed failed = true
is_failed _ = false

abbrev pub failed_collection_note : CollectionState → CollectionState → Text
failed_collection_note failed failed = codes "not compared: collection failed in both dumps"
failed_collection_note failed _ = codes "not compared: collection failed in old dump"
failed_collection_note _ _ = codes "not compared: collection failed in new dump"

pub record LoadedDump : Type 0 where
  pub redaction : Text
  pub partial : Bool
  pub state : Text → Text → CollectionState
  pub records : Text → Text → List Fields

pub record Identity : Type 0 where
  pub mode : Text
  pub identity_field : Text

abbrev pub identity_of : ResourceSpec → Identity
identity_of spec =
    if text_beq (effective_shape spec) (codes "singleton")
    then record { mode = codes "singleton"; identity_field = [] }
    else if not (is_empty (effective_get_key spec))
    then record { mode = codes "get_key"; identity_field = effective_get_key spec }
    else record { mode = codes "content_hash"; identity_field = [] }

abbrev pub identity_note : ResourceSpec → Text
identity_note spec =
    if text_beq (effective_shape spec) (codes "singleton")
      || not (is_empty (effective_get_key spec))
    then []
    else codes "identity unavailable; compared by canonical content hash"

-- A resource of a report: what `compareResource` copies from the specification, and the difference.
pub record Entry : Type 0 where
  pub product : Text
  pub resource : Text
  pub identity : Identity
  pub note : Text
  pub skipped : Bool
  pub diff : ResourceDiff

pub record Summary : Type 0 where
  pub resources_compared : ℕ
  pub resources_with_drift : ℕ
  pub records_added : ℕ
  pub records_removed : ℕ
  pub records_changed : ℕ

abbrev pub no_summary : Summary
no_summary = record {
  resources_compared = 0;
  resources_with_drift = 0;
  records_added = 0;
  records_removed = 0;
  records_changed = 0;
}

pub record Report : Type 0 where
  pub summary : Summary
  pub entries : List Entry

abbrev pub report_has_drift : Report → Bool
report_has_drift r =
    ltb 0 r.summary.records_added
    || (ltb 0 r.summary.records_removed || ltb 0 r.summary.records_changed)

pub record Progress : Type 0 where
  pub product : Text
  pub resource : Text
  pub finished : ℕ
  pub total : ℕ

pub data CompareError (E : Type 0) : Type 0 where
  redaction_mismatch : Text → Text → CompareError E
  partial_input : CompareError E
  scope_mismatch : Text → Text → CompareError E
  not_comparable : DiffError → CompareError E
  progress_failed : E → CompareError E

abbrev pub differ : Bool → Bool → Bool
differ true b = not b
differ false b = b

abbrev pub count_drift : Bool → ℕ
count_drift true = 1
count_drift false = 0

-- The report with one more resource that was compared.
abbrev pub with_compared : Report → Entry → Report
with_compared r e = record {
  summary = record {
    resources_compared = r.summary.resources_compared + 1;
    resources_with_drift = r.summary.resources_with_drift + count_drift (has_drift e.diff);
    records_added = r.summary.records_added + length e.diff.added;
    records_removed = r.summary.records_removed + length e.diff.removed;
    records_changed = r.summary.records_changed + length e.diff.changed;
  };
  entries = r.entries ++ (e ∷ []);
}

abbrev pub with_skipped : Report → Entry → Report
with_skipped r e = record { summary = r.summary; entries = r.entries ++ (e ∷ []) }

module _ {E : Type 0} (parses : Text → Bool) (digest : Value → Option Text) (sprint : Value → Text)
    (progress : Option (Progress → Option E)) where
  abbrev pub failure : Option E → Result (CompareError E) (Unit {0})
  failure none = ok tt
  failure (some e) = err (progress_failed e)

  abbrev pub tell : Option (Progress → Option E) → Progress → Result (CompareError E) (Unit {0})
  tell none event = ok tt
  tell (some callback) event = failure (callback event)

  abbrev comparable : Result DiffError ResourceDiff → Result (CompareError E) ResourceDiff
  comparable (ok d) = ok d
  comparable (err e) = err (not_comparable e)

  -- `compareResource`, as this function calls it.
  unfoldable pub compare_one :
      ResourceSpec → List Fields → List Fields → Bool → Result (CompareError E) ResourceDiff
  unfolding compare_resource
  compare_one spec old new ignore_operational =
      comparable (compare_resource parses digest sprint spec old new ignore_operational)

  abbrev pub entry_of : ResourceSpec → Text → Bool → ResourceDiff → Entry
  entry_of spec note skipped d = record {
    product = spec.product;
    resource = spec.name;
    identity = identity_of spec;
    note = note;
    skipped = skipped;
    diff = d;
  }

  -- The end of a round, for the states of the resource in the dumps and its records.
  unfoldable pub compare_states :
      ResourceSpec
      → CollectionState
      → CollectionState
      → List Fields
      → List Fields
      → Bool
      → Report
      → Result (CompareError E) Report
  unfolding compare_one
  compare_states spec old_state new_state old new ignore_operational r =
      if not (is_selected old_state)
      then ok r
      else if is_failed old_state || is_failed new_state
      then (compare_one spec [] [] ignore_operational >>= λ d.
          ok (with_skipped r (entry_of spec (failed_collection_note old_state new_state) true d)))
      else (compare_one spec old new ignore_operational >>= λ d.
          if is_empty old && is_empty new
          then ok r
          else ok (with_compared r (entry_of spec (identity_note spec) false d)))

  unfoldable pub compare_round :
      LoadedDump
      → LoadedDump
      → Bool
      → ℕ
      → ℕ
      → ResourceSpec
      → Report
      → Result (CompareError E) Report
  unfolding compare_states
  compare_round old new ignore_operational i total spec r =
      let old_state = old.state spec.product spec.name in
      let new_state = new.state spec.product spec.name in
      refuse_if (differ (is_selected old_state) (is_selected new_state))
        (scope_mismatch spec.product spec.name)
      >> tell progress
          (record { product = spec.product; resource = spec.name; finished = suc i; total = total })
      >> compare_states spec old_state new_state (old.records spec.product spec.name)
          (new.records spec.product spec.name) ignore_operational r

  unfoldable pub compare_rounds :
      LoadedDump
      → LoadedDump
      → Bool
      → ℕ
      → ℕ
      → List ResourceSpec
      → Report
      → Result (CompareError E) Report
  unfolding compare_round
  compare_rounds old new ignore_operational i total [] r = ok r
  compare_rounds old new ignore_operational i total (spec ∷ specs) r =
      compare_round old new ignore_operational i total spec r >>= λ r'.
      compare_rounds old new ignore_operational (suc i) total specs r'

  -- `CompareContext` once the dumps are loaded.
  unfoldable pub compare_dumps :
      LoadedDump → LoadedDump → List ResourceSpec → Bool → Bool → Result (CompareError E) Report
  unfolding compare_rounds
  compare_dumps old new specs allow_partial ignore_operational =
      refuse_if (not (text_beq old.redaction new.redaction))
        (redaction_mismatch old.redaction new.redaction)
      >> refuse_if (not allow_partial && old.partial) partial_input
      >> refuse_if (not allow_partial && new.partial) partial_input
      >> compare_rounds old new ignore_operational 0 (length specs) specs
          (record { summary = no_summary; entries = [] })

-- The maps of `Options`.
pub record Selection : Type 0 where
  pub products : List (Text × Bool)
  pub resources : List ((Text × Text) × Bool)

abbrev pub resource_wanted : List ((Text × Text) × Bool) → ResourceSpec → Bool
resource_wanted [] spec = false
resource_wanted (((product, name), b) ∷ keys) spec =
    if text_beq product spec.product && text_beq name spec.name
    then b
    else resource_wanted keys spec

abbrev pub product_wanted : List (Text × Bool) → Text → Bool
product_wanted [] product = false
product_wanted ((p, b) ∷ products) product =
    if text_beq p product then b else product_wanted products product

abbrev pub is_wanted : Selection → ResourceSpec → Bool
is_wanted selection spec =
    (is_empty selection.products || product_wanted selection.products spec.product)
    && ((is_empty selection.resources || resource_wanted selection.resources spec)
        && (supports_read_operation spec (codes "list")
            || supports_read_operation spec (codes "show")))

unfoldable pub wanted : Selection → List ResourceSpec → List ResourceSpec
wanted selection [] = []
wanted selection (spec ∷ catalog) =
    let rest = wanted selection catalog in if is_wanted selection spec then spec ∷ rest else rest

abbrev pub spec_before : ResourceSpec → ResourceSpec → Bool
spec_before a b =
    if text_beq a.product b.product then text_lt a.name b.name else text_lt a.product b.product

-- `selectedSpecs`
unfoldable pub selected_specs : List ResourceSpec → Selection → List ResourceSpec
unfolding wanted sort_by
selected_specs catalog selection = sort_by spec_before (wanted selection catalog)

abbrev pub max_resource_bytes : ℕ
max_resource_bytes = 536870912

pub data LimitError : Type 0 where
  invalid_dump collection_too_large : LimitError

-- `resourceReadLimit`: the limit, and the error for what exceeds it. The loaded bytes are a sum of
-- lengths, so the difference of two int64 that are not negative is that of integers.
abbrev pub resource_read_limit : ℤ → ℕ → ℤ × LimitError
unfolding subtract
resource_read_limit (negsuc n) loaded_bytes = (pos max_resource_bytes, invalid_dump)
resource_read_limit (pos byte_budget) loaded_bytes =
    if leb byte_budget loaded_bytes
    then (pos 0, collection_too_large)
    else let remaining = subtract byte_budget loaded_bytes in
      if is_below remaining max_resource_bytes
      then (remaining, collection_too_large)
      else (pos max_resource_bytes, invalid_dump)
