-- ===== src/Machine/Events.antt =====
-- The event lifecycle of internal/machine/events.go.
pub mod Stream
use zscalerctl.Prelude.{
  ℕ, Bool, true, false, not, ◌&&◌, ◌||◌, Option, none, some, List, [], ◌∷◌, ◌++◌, Text, codes,
  text_beq, is_empty, is_some, if◌then◌else◌, length, ltb, leb, ◌==◌,
}
use zscalerctl.Prelude.Int.{ℤ, pos, negsuc, is_negative, is_nat, to_nat}
use zscalerctl.Machine.Types.{
  MachineError, error_of, kind_internal, kind_canceled, EventKind, unset, started, progress,
  record_event, warning, completed, failed, canceled_event, other, Event, event_of, or_default,
}

-- The error of a sink, as `errors.AsType` sees it: a pointer to a machine error, which may be nil, a
-- machine error by value, or any other error.
pub data SinkError : Type 0 where
  by_pointer : Option MachineError → SinkError
  by_value : MachineError → SinkError
  foreign : SinkError

-- What a call of the sink does.
pub data Answer : Type 0 where
  accepted panicked : Answer
  returned : SinkError → Answer

-- The sink answers by what it was handed before; `none` is a nil sink.
abbrev pub Sink : Type 0 → Type 0 → Type 0
Sink R M = Option (List (Event R M) → Event R M → Answer)

-- `eventEmitter`, with the events that the sink was handed.
pub record Emitter (R M : Type 0) : Type 0 where
  pub sink : Sink R M
  pub is_started : Bool
  pub is_terminal : Bool
  pub delivered : List (Event R M)

abbrev pub is_terminal_event : EventKind → Bool
is_terminal_event completed = true
is_terminal_event failed = true
is_terminal_event canceled_event = true
is_terminal_event _ = false

abbrev pub is_started_event : EventKind → Bool
is_started_event started = true
is_started_event _ = false

abbrev sink_failed : MachineError
sink_failed = error_of kind_internal (codes "event sink failed")

abbrev pub machine_error_from_sink_error : SinkError → MachineError
machine_error_from_sink_error (by_pointer none) = sink_failed
machine_error_from_sink_error (by_pointer (some e)) = e
machine_error_from_sink_error (by_value e) = e
machine_error_from_sink_error foreign = sink_failed

pub machine_error_with_context : MachineError → Text → Text → Text → MachineError
machine_error_with_context e op product resource = record e {
  kind = or_default e.kind kind_internal;
  message = or_default e.message (codes "event sink failed");
  operation = or_default e.operation op;
  product = or_default e.product product;
  resource = or_default e.resource resource;
}

module _ {R M : Type 0} where
  abbrev pub answer_of : Sink R M → List (Event R M) → Event R M → Answer
  answer_of none before event = accepted
  answer_of (some sink) before event = sink before event

  -- The failure that `emit` returns for an answer.
  abbrev pub failure_of : Event R M → Answer → Option MachineError
  failure_of event accepted = none
  failure_of event panicked = some (record (error_of kind_internal (codes "event sink panicked")) {
    product = event.product;
    resource = event.resource;
  })
  failure_of event (returned error) =
      let e = machine_error_from_sink_error error in
      some (record e {
        product = or_default e.product event.product;
        resource = or_default e.resource event.resource;
      })

  abbrev pub reject : Emitter R M → Text → Option MachineError × Emitter R M
  reject e message = (some (error_of kind_internal message), e)

  -- The flags are set before the sink is called.
  pub deliver : Emitter R M → Event R M → Option MachineError × Emitter R M
  deliver e event = (
    failure_of event (answer_of e.sink e.delivered event),
    record e {
      is_started = e.is_started || is_started_event event.kind;
      is_terminal = e.is_terminal || is_terminal_event event.kind;
      delivered = e.delivered ++ event ∷ [];
    },
  )

  pub emit : Emitter R M → Event R M → Option MachineError × Emitter R M
  unfolding deliver
  emit e event =
      if not (is_some e.sink)
      then reject e (codes "event sink is not configured")
      else if e.is_terminal
      then reject e (codes "event emitted after terminal event")
      else if not e.is_started && not (is_started_event event.kind)
      then reject e (codes "first event is not started")
      else if e.is_started && is_started_event event.kind
      then reject e (codes "started event emitted more than once")
      else deliver e event

  abbrev pub with_context :
      MachineError → Option MachineError × Emitter R M → Option MachineError × Emitter R M
  with_context given (none, e) = (none, e)
  with_context given (some failure, e) =
      (some (machine_error_with_context failure given.operation given.product given.resource), e)

  pub emit_terminal_error :
      Emitter R M → EventKind → MachineError → Option MachineError × Emitter R M
  unfolding emit machine_error_with_context
  emit_terminal_error e kind given =
      with_context given
        (emit e (record (event_of kind given.product given.resource) { err = some given }))

  abbrev pub or_failure :
      MachineError → Option MachineError × Emitter R M → MachineError × Emitter R M
  or_failure failure (none, e) = (failure, e)
  or_failure failure (some delivery, e) = (delivery, e)

  pub fail_after_delivery :
      Emitter R M → MachineError → Text → Text → Text → MachineError × Emitter R M
  unfolding emit_terminal_error
  fail_after_delivery e given op product resource =
      let failure = machine_error_with_context given op product resource in
      if not e.is_started || e.is_terminal
      then (failure, e)
      else or_failure failure (emit_terminal_error e failed failure)

pub record EventStream (R M : Type 0) : Type 0 where
  pub emitter : Emitter R M
  pub operation : Text
  pub product : Text
  pub resource : Text

-- `event.Total > 0 && event.Done > event.Total`, for counters that are not negative.
abbrev done_exceeds : ℤ → ℤ → Bool
done_exceeds done total = ltb 0 (to_nat total) && ltb (to_nat total) (to_nat done)

module _ {R M : Type 0} where
  pub has_completion_counters : Event R M → Bool
  has_completion_counters event =
      not (is_nat event.records 0)
      || (not (is_nat event.resources 0) || not (is_nat event.warnings 0))

  check_progress : Event R M → Text
  unfolding has_completion_counters
  check_progress event =
      if is_negative event.done || (is_negative event.total || done_exceeds event.done event.total)
      then codes "progress event has invalid counters"
      else if is_some event.payload
          || (is_some event.manifest
              || (is_some event.err
                  || (is_some event.resource_result || has_completion_counters event)))
      then codes "progress event has a non-progress payload"
      else []

  check_record : Event R M → Text
  unfolding has_completion_counters
  check_record event =
      if not (is_some event.payload)
      then codes "record event has no record"
      else if is_some event.manifest
          || (is_some event.err
              || (is_some event.resource_result
                  || (not (is_nat event.done 0)
                      || (not (is_nat event.total 0) || has_completion_counters event))))
      then codes "record event has a non-record payload"
      else []

  check_warning : Event R M → Text
  unfolding has_completion_counters
  check_warning event =
      if not (is_some event.err)
      then codes "warning event has no machine error"
      else if is_some event.payload
          || (is_some event.manifest
              || (is_some event.resource_result
                  || (not (is_nat event.done 0)
                      || (not (is_nat event.total 0) || has_completion_counters event))))
      then codes "warning event has a non-warning payload"
      else []

  check_kind : EventKind → Event R M → Text
  unfolding check_progress check_record check_warning
  check_kind progress event = check_progress event
  check_kind record_event event = check_record event
  check_kind warning event = check_warning event
  check_kind _ event = codes "event stream received an invalid non-terminal event kind"

  pub invalid_non_terminal_event : Event R M → Text
  unfolding check_kind
  invalid_non_terminal_event event = check_kind event.kind event
