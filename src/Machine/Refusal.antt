-- ===== src/Machine/Refusal.antt =====
-- The machine errors with which the executor refuses a request or reports a failed load.
use zscalerctl.Prelude.{
  Bool, true, false, not, ◌&&◌, ◌||◌, Option, none, some, List, Text, codes, text_beq, is_empty,
  if◌then◌else◌, Result, ok, err, ◌>>◌, refuse_if,
}
use zscalerctl.Resources.Filters.{ProjectedFilter}
use zscalerctl.Resources.Narrow.{NarrowError}
use zscalerctl.Machine.Failure.{LoadError, failure_detail_of, attach_failure}
use zscalerctl.Machine.Types.{
  Sentinel, canceled, deadline_exceeded, unknown_resource, record_not_found, invalid_resource_id,
  missing_id, unknown_field, suppressed_field, unsupported_load, mutating_operation, MachineError,
  kind_canceled,
}
use zscalerctl.Machine.Request.{
  Input, Request, is_resource_read_operation, input_product, input_resource, error_at,
  filters_from_input,
}

-- The sentinel that an error of the narrowing wraps.
abbrev pub narrow_wraps : NarrowError → Sentinel → Bool
narrow_wraps (NarrowError.suppressed_field path a) Sentinel.suppressed_field = true
narrow_wraps (NarrowError.suppressed_field path a) _ = false
narrow_wraps _ Sentinel.unknown_field = true
narrow_wraps _ _ = false

abbrev pub is_unknown_resource : Sentinel → Bool
is_unknown_resource Sentinel.unknown_resource = true
is_unknown_resource _ = false

abbrev pub wrapping : (Sentinel → Bool) → Text → LoadError
wrapping wraps text = record {
  by_pointer = none;
  by_value = none;
  wraps = wraps;
  detailer = none;
  text = text;
}

module _ (scan : Text → Text) (unread : Text → Text → Option Text) where
  -- `unknownResourceMessage`; `unread` is the message of a gap.
  abbrev pub or_unknown : Option Text → Text
  or_unknown none = codes "unknown resource"
  or_unknown (some message) = message

  abbrev pub unknown_resource_error : Request → MachineError
  unknown_resource_error req =
      error_at (codes "unknown_resource")
        (or_unknown (unread (input_product req) (input_resource req))) req

  abbrev pub by_sentinel : LoadError → Request → MachineError
  by_sentinel e req =
      if e.wraps canceled
      then error_at kind_canceled (codes "request canceled") req
      else if e.wraps deadline_exceeded
      then record (error_at (codes "deadline_exceeded") (codes "request deadline exceeded") req) {
        detail = failure_detail_of e;
      }
      else if e.wraps unknown_resource
      then unknown_resource_error req
      else if e.wraps record_not_found
      then error_at (codes "not_found") (codes "record not found") req
      else if e.wraps invalid_resource_id
      then record (error_at (codes "invalid_resource_id") (codes "invalid resource ID") req) {
        cause = some invalid_resource_id;
      }
      else if e.wraps missing_id || (e.wraps unknown_field || e.wraps suppressed_field)
      then error_at (codes "usage") (scan e.text) req
      else if e.wraps unsupported_load || e.wraps mutating_operation
      then error_at (codes "unsupported_operation") (codes "unsupported resource read operation")
          req
      else attach_failure (error_at (codes "live_access_failed") (codes "resource read failed") req)
          e

  abbrev pub from_load_error : LoadError → Option MachineError → Request → MachineError
  from_load_error e none req = by_sentinel e req
  from_load_error e (some m) req = record m { message = scan m.message }

  -- `machineErrorFromLoadError`
  unfoldable pub machine_error_from_load_error : LoadError → Request → MachineError
  unfolding failure_detail_of attach_failure
  machine_error_from_load_error e req = from_load_error e e.by_pointer req

  abbrev pub usage_error : Text → Request → MachineError
  usage_error message req = error_at (codes "usage") message req

  abbrev pub reads_fields : Request → Bool
  reads_fields req = is_resource_read_operation req.operation

  -- What follows the reading of filters, whose error is a usage error.
  abbrev pub scanned :
      {A : Type 0}
      → Request
      → Result Text (List ProjectedFilter)
      → (List ProjectedFilter → Result MachineError A)
      → Result MachineError A
  scanned req (err message) next = err (usage_error (scan message) req)
  scanned req (ok filters) next = next filters

  -- `validateRequestSemantics`
  abbrev pub check_semantics : Request → Option Input → Result MachineError (Unit {0})
  check_semantics req none = ok tt
  check_semantics req (some input) =
      let is_list = text_beq req.operation (codes "list") in
      refuse_if (not (is_empty input.fields) && not (reads_fields req))
        (usage_error (codes "input.fields applies to resource read operations only") req)
      >> refuse_if (not (is_empty input.filters) && not is_list)
          (usage_error (codes "input.filters applies to list operation only") req)
      >> refuse_if (not (is_empty input.search) && not is_list)
          (usage_error (codes "input.search applies to list operation only") req)
      >> scanned req (filters_from_input input.filters) (λ filters. ok tt)
