-- ===== src/Machine/Executor.antt =====
-- `ExecuteStream` of internal/machine/executor.go. A context
-- is not modelled: the loader answers for it. The scanner of internal/redact, the texts of the errors
-- of internal/resources and of its gap table, and how `fmt.Sprint` prints a map are parameters.
pub mod Ends
pub mod Succeeds
mod Tests
use zscalerctl.Prelude.{
  ℕ, zero, suc, Bool, true, false, not, ◌&&◌, ◌||◌, Option, none, some, List, [], ◌∷◌, ◌++◌, Text,
  codes, text_beq, is_empty, if◌then◌else◌, is_some, length, join, trim_space, Result, ok, err,
  ◌>>=◌, ◌>>◌, refuse_if,
}
use zscalerctl.Prelude.Int.{ℤ, pos, negsuc, int_text}
use zscalerctl.Resources.Spec.{Mode, ResourceSpec, find_spec}
use zscalerctl.Resources.Value.{Value, Fields}
use zscalerctl.Resources.Filters.{ProjectedFilter}
use zscalerctl.Resources.Narrow.{
  NarrowError, NarrowOptions, validate_narrow_options_in_mode, narrow_projected_records,
}
use zscalerctl.Machine.Failure.{LoadError, failure_detail_of, attach_failure}
use zscalerctl.Machine.Request.{
  Filter, Input, Request, is_resource_read_operation, input_product, input_resource,
  input_record_id, error_at, missing_input, fields_from_input, filters_from_input,
}
use zscalerctl.Machine.Refusal.{
  narrow_wraps, is_unknown_resource, wrapping, unknown_resource_error,
  machine_error_from_load_error, usage_error, reads_fields, scanned, check_semantics,
}
use zscalerctl.Machine.Types.{
  FailureDetail, no_detail, Sentinel, canceled, deadline_exceeded, unknown_resource,
  record_not_found, invalid_resource_id, missing_id, unknown_field, suppressed_field,
  unsupported_load, mutating_operation, MachineError, error_of, kind_internal, kind_canceled,
  record_event, unset, Event, event_of,
}
use zscalerctl.Machine.Events.{Sink, EventStream}
use zscalerctl.Machine.Events.Stream.{
  Done, Started, stream_emit, stream_fail, stream_complete, start_event_stream,
}

abbrev pub Loaded : Type 0
Loaded = Result LoadError (List Fields)

-- The browser, with its method `GetProjectedByID` if it has one.
pub record Loader : Type 0 where
  pub list_projected : Text → Text → Loaded
  pub show_projected : Text → Text → Loaded
  pub get_projected_by_id : Option (Text → Text → Text → Loaded)

pub record Executor (M : Type 0) : Type 0 where
  pub browser : Option Loader
  pub catalog : List ResourceSpec
  pub redaction : Mode
  pub manifest : M

-- What a request asks for once it is accepted.
pub data Task : Type 0 where
  show_manifest : Task
  read_with : Loader → Task

module _ (sprint : Value → Text) (scan : Text → Text) (unread : Text → Text → Option Text)
    (narrow_text : NarrowError → Text) where
  abbrev options_of : Input → List ProjectedFilter → Text → NarrowOptions
  options_of input filters search = record {
    fields = fields_from_input input.fields;
    filters = filters;
    search = search;
  }

  abbrev narrow_error : Request → NarrowError → MachineError
  narrow_error req e =
      machine_error_from_load_error scan unread (wrapping (narrow_wraps e) (narrow_text e)) req

  abbrev narrowable : Request → Result NarrowError (Unit {0}) → Result MachineError (Unit {0})
  narrowable req (ok u) = ok u
  narrowable req (err e) = err (narrow_error req e)

  abbrev check_spec : Mode → Request → Input → Option ResourceSpec → Result MachineError (Unit {0})
  check_spec mode req input none = err (unknown_resource_error scan unread req)
  check_spec mode req input (some spec) =
      scanned scan unread req (filters_from_input input.filters) (λ filters.
        narrowable req (validate_narrow_options_in_mode spec mode (options_of input filters [])))

  abbrev narrows : Input → Bool
  narrows input = not (is_empty input.fields) || not (is_empty input.filters)

  -- `validateRequestNarrowing`
  abbrev check_narrowing :
      Mode → List ResourceSpec → Request → Option Input → Result MachineError (Unit {0})
  check_narrowing mode catalog req none = ok tt
  check_narrowing mode catalog req (some input) =
      if not (narrows input)
      then ok tt
      else check_spec mode req input (find_spec catalog (input_product req) (input_resource req))

  abbrev configured : Request → Option Loader → Result MachineError Loader
  configured req none = err (error_at kind_internal (codes "browser loader is not configured") req)
  configured req (some loader) = ok loader

  abbrev unsupported_capability : Request → MachineError
  unsupported_capability req =
      error_at (codes "unsupported_capability") (codes "unsupported capability") req

  abbrev capability_read : Text
  capability_read = codes "resources.read"

  abbrev preflight_manifest : Request → Result MachineError Task
  preflight_manifest req =
      refuse_if (not (is_empty req.capability) && not (text_beq req.capability capability_read))
        (unsupported_capability req)
      >> ok show_manifest

  abbrev preflight_read : {M : Type 0} → Executor M → Request → Result MachineError Task
  preflight_read e req =
      refuse_if (not (text_beq req.capability capability_read)) (unsupported_capability req)
      >> refuse_if (not (reads_fields scan unread req)) (
          error_at (codes "unsupported_operation")
            (codes "unsupported operation for resources.read") req)
      >> refuse_if (not (is_empty (missing_input req)))
          (record (usage_error scan unread
            (codes "missing required input: " ++ join (codes ", ") (missing_input req)) req) {
              missing = missing_input req;
            })
      >> check_narrowing e.redaction e.catalog req req.input
      >> configured req e.browser
      >>= λ loader. ok (read_with loader)

  -- The checks of `ExecuteStream` before it reads anything.
  unfoldable pub preflight : {M : Type 0} → Executor M → Request → Result MachineError Task
  unfolding find_spec validate_narrow_options_in_mode filters_from_input missing_input
      machine_error_from_load_error
  preflight e req =
      check_semantics scan unread req req.input
      >> (if text_beq req.operation (codes "manifest")
          then preflight_manifest req
          else preflight_read e req)

  abbrev by_id : Request → Option (Text → Text → Text → Loaded) → Loaded
  by_id req none = err (record (wrapping (λ s. false) []) {
    by_pointer =
        some (error_at kind_internal (codes "projected record getter is not configured") req);
  })
  by_id req (some get) = get (input_product req) (input_resource req) (input_record_id req)

  -- `loadProjected`
  abbrev load_projected : Loader → Request → Loaded
  load_projected loader req =
      if not (text_beq req.operation (codes "get"))
      then (if text_beq req.operation (codes "show")
          then loader.show_projected (input_product req) (input_resource req)
          else loader.list_projected (input_product req) (input_resource req))
      else by_id req loader.get_projected_by_id

  abbrev narrowed_by :
      Mode
      → Input
      → List Fields
      → Result Text (List ProjectedFilter)
      → Option ResourceSpec
      → Result LoadError (List Fields)
  narrowed_by mode input records filters none = err (wrapping is_unknown_resource [])
  narrowed_by mode input records (err message) (some spec) = err (wrapping (λ s. false) message)
  narrowed_by mode input records (ok filters) (some spec) =
      elim (narrow_projected_records sprint spec mode records
        (options_of input filters input.search)) [
          | ok narrowed ↦ ok narrowed
          | err e ↦ err (wrapping (narrow_wraps e) (narrow_text e))
        ]

  -- `narrowProjected`
  abbrev narrow_projected :
      Mode
      → List ResourceSpec
      → Request
      → Option Input
      → List Fields
      → Result LoadError (List Fields)
  narrow_projected mode catalog req none records = ok records
  narrow_projected mode catalog req (some input) records =
      if not (narrows input) && is_empty input.search
      then ok records
      else narrowed_by mode input records (filters_from_input input.filters)
          (find_spec catalog (input_product req) (input_resource req))

  -- The records that a request reads.
  unfoldable pub read_records : {M : Type 0} → Executor M → Request → Loader → Loaded
  unfolding find_spec narrow_projected_records filters_from_input
  read_records e req loader = load_projected loader req >>= λ records.
      narrow_projected e.redaction e.catalog req req.input records

  module _ {M : Type 0} (e : Executor M) (req : Request) where
    abbrev or_given : MachineError → Done Fields M → Done Fields M
    or_given given (none, s) = (some given, s)
    or_given given (some failure, s) = (some failure, s)

    -- `failEventStream`
    unfoldable pub fail_event_stream : EventStream Fields M → MachineError → Done Fields M
    unfolding stream_fail
    fail_event_stream s given = or_given given (stream_fail s given)

    -- What follows a delivery that the stream accepts.
    abbrev pub continue_with :
        (EventStream Fields M → Done Fields M) → Done Fields M → Done Fields M
    continue_with next (none, s) = next s
    continue_with next (some f, s) = (some f, s)

    -- The loop over the records, until the stream refuses one.
    unfoldable pub emit_records : List Fields → EventStream Fields M → Done Fields M
    unfolding stream_emit
    emit_records [] s = (none, s)
    emit_records (r ∷ records) s = continue_with (emit_records records) (
        stream_emit s (record (event_of record_event (input_product req) (input_resource req)) {
          payload = some r;
        }))

    abbrev pub completion : List Fields → Event Fields M
    completion records = record (event_of unset (input_product req) (input_resource req)) {
      records = pos (length records);
      resources = pos 1;
      resource_result = some records;
    }

    abbrev pub complete_after : List Fields → Done Fields M → Done Fields M
    complete_after records (some f, s) = (some f, s)
    complete_after records (none, s) = stream_complete s (completion records)

    abbrev pub run_read : Loaded → EventStream Fields M → Done Fields M
    run_read (err failure) s =
        fail_event_stream s (machine_error_from_load_error scan unread failure req)
    run_read (ok records) s = complete_after records (emit_records records s)

    abbrev pub run_task : Result MachineError Task → EventStream Fields M → Done Fields M
    run_task (err refused) s = fail_event_stream s refused
    run_task (ok show_manifest) s =
        stream_complete s (record (event_of unset (input_product req) (input_resource req)) {
          manifest = some e.manifest;
        })
    run_task (ok (read_with loader)) s = run_read (read_records e req loader) s

    abbrev pub outcome_of : Done Fields M → Option MachineError × List (Event Fields M)
    outcome_of (failure, s) = (failure, s.emitter.delivered)

    abbrev pub on_started :
        Option (EventStream Fields M)
        → Option MachineError
        → List (Event Fields M)
        → Option MachineError × List (Event Fields M)
    on_started none failure delivered = (failure, delivered)
    on_started (some s) failure delivered = outcome_of (run_task (preflight e req) s)

    abbrev pub run_started : Started Fields M → Option MachineError × List (Event Fields M)
    run_started started = on_started started.stream started.error started.delivered

    -- `ExecuteStream`: its error and the events that the sink was handed.
    unfoldable pub execute_stream : Sink Fields M → Option MachineError × List (Event Fields M)
    unfolding preflight read_records emit_records fail_event_stream stream_complete
        start_event_stream
    execute_stream sink =
        run_started
          (start_event_stream sink req.operation (input_product req) (input_resource req) (pos 0))
