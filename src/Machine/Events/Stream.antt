-- ===== src/Machine/Events/Stream.antt =====
-- The methods of `EventStream` in internal/machine/events.go. A nil stream delivers nothing.
pub mod Accept
pub mod Lifecycle
pub mod Order
pub mod Settle
mod Tests
use zscalerctl.Prelude.{
  ℕ, Bool, true, false, not, ◌&&◌, ◌||◌, Option, none, some, List, [], ◌∷◌, Text, codes, text_beq,
  is_empty, is_some, if◌then◌else◌, length, ◌==◌,
}
use zscalerctl.Prelude.Int.{ℤ, pos, is_negative, is_nat}
use zscalerctl.Machine.Types.{
  MachineError, error_of, kind_internal, kind_canceled, EventKind, unset, started, completed,
  failed, canceled_event, Event, event_of, or_default,
}
use zscalerctl.Machine.Events.{
  Sink, Emitter, machine_error_with_context, emit, emit_terminal_error, fail_after_delivery,
  EventStream, has_completion_counters, invalid_non_terminal_event,
}

abbrev pub nil_stream : MachineError
nil_stream = error_of kind_internal (codes "event stream is nil")

-- An operation on a stream returns its error, if any, and the stream after it.
abbrev pub Done : Type 0 → Type 0 → Type 0
Done R M = Option MachineError × EventStream R M

abbrev is_unset : EventKind → Bool
is_unset unset = true
is_unset _ = false

abbrev is_completed : EventKind → Bool
is_completed completed = true
is_completed _ = false

-- The kind of the terminal event for an error.
abbrev pub failure_kind : MachineError → EventKind
failure_kind e = if text_beq e.kind kind_canceled then canceled_event else failed

module _ {R M : Type 0} where
  abbrev pub with_emitter : EventStream R M → Emitter R M → EventStream R M
  with_emitter s e = record s { emitter = e }

  -- What becomes of a delivery: nothing, or a failed event.
  pub after_emit : EventStream R M → Event R M → Option MachineError × Emitter R M → Done R M
  after_emit s event (none, e) = (none, with_emitter s e)
  after_emit s event (some failure, e) =
      let (result, e') = fail_after_delivery e failure s.operation event.product event.resource in
      (some result, with_emitter s e')

  pub apply_default_scope : EventStream R M → Event R M → Event R M
  apply_default_scope s event = record event {
    product = or_default event.product s.product;
    resource = or_default event.resource s.resource;
  }

  unfoldable pub stream_fail : EventStream R M → MachineError → Done R M
  unfolding machine_error_with_context emit_terminal_error
  stream_fail s given =
      let e = machine_error_with_context given s.operation s.product s.resource in
      let (failure, emitter) = emit_terminal_error s.emitter (failure_kind e) e in
      (failure, with_emitter s emitter)

  abbrev or_producer : MachineError → Done R M → Done R M
  or_producer given (none, s) = (some given, s)
  or_producer given (some failure, s) = (some failure, s)

  pub fail_producer : EventStream R M → Text → Done R M
  unfolding stream_fail
  fail_producer s message =
      let e = record (error_of kind_internal message) {
        operation = s.operation;
        product = s.product;
        resource = s.resource;
      } in
      or_producer e (stream_fail s e)

  -- `Emit`
  unfoldable pub stream_emit : EventStream R M → Event R M → Done R M
  unfolding after_emit apply_default_scope fail_producer invalid_non_terminal_event emit
      fail_after_delivery
  stream_emit s event =
      let message = invalid_non_terminal_event event in
      if not (is_empty message)
      then fail_producer s message
      else let scoped = apply_default_scope s event in after_emit s scoped (emit s.emitter scoped)

  -- Whether the counters of a typed result disagree with its records.
  abbrev inconsistent : Event R M → Option (List R) → Bool
  inconsistent event none = false
  inconsistent event (some result) =
      not (is_nat event.records (length result))
      || (not (is_nat event.resources 1) || not (is_nat event.warnings 0))

  -- The message of the first check that a completion fails.
  pub invalid_completion : Event R M → Text
  unfolding has_completion_counters
  invalid_completion event =
      if not (is_unset event.kind) && not (is_completed event.kind)
      then codes "completion has a non-completed event kind"
      else if is_some event.payload
          || (is_some event.err || (not (is_nat event.done 0) || not (is_nat event.total 0)))
      then codes "completion has a non-completion payload"
      else if is_negative event.records
          || (is_negative event.resources || is_negative event.warnings)
      then codes "completion has a negative count"
      else if is_some event.manifest && has_completion_counters event
      then codes "manifest completion has resource counters"
      else if is_some event.manifest && is_some event.resource_result
      then codes "manifest completion has typed resource result"
      else if inconsistent event event.resource_result
      then codes "typed result completion has inconsistent counters"
      else []

  -- `Complete`
  unfoldable pub stream_complete : EventStream R M → Event R M → Done R M
  unfolding after_emit apply_default_scope fail_producer invalid_completion emit fail_after_delivery
  stream_complete s event =
      let message = invalid_completion event in
      if not (is_empty message)
      then fail_producer s message
      else let scoped = apply_default_scope s (record event { kind = completed }) in
        after_emit s scoped (emit s.emitter scoped)

-- `StartEventStream` returns a nil stream with an error; what the sink was handed stays handed.
pub record Started (R M : Type 0) : Type 0 where
  pub stream : Option (EventStream R M)
  pub error : Option MachineError
  pub delivered : List (Event R M)

module _ {R M : Type 0} where
  abbrev pub fresh : Sink R M → Text → Text → Text → EventStream R M
  fresh sink operation product resource = record {
    emitter = record { sink = sink; is_started = false; is_terminal = false; delivered = [] };
    operation = operation;
    product = product;
    resource = resource;
  }

  pub started_with : EventStream R M → Option MachineError × Emitter R M → Started R M
  started_with s (none, e) = record {
    stream = some (with_emitter s e);
    error = none;
    delivered = e.delivered;
  }
  started_with s (some failure, e) =
      let (result, e') = fail_after_delivery e failure s.operation s.product s.resource in
      record { stream = none; error = some result; delivered = e'.delivered }

  unfoldable pub start_event_stream : Sink R M → Text → Text → Text → ℤ → Started R M
  unfolding started_with emit fail_after_delivery
  start_event_stream sink operation product resource total =
      let s = fresh sink operation product resource in
      started_with s (emit s.emitter (record (event_of started product resource) { total = total }))

  abbrev pub on_stream :
      (EventStream R M → Done R M)
      → Option (EventStream R M)
      → Option MachineError × Option (EventStream R M)
  on_stream method none = (some nil_stream, none)
  on_stream method (some s) = let (e, s') = method s in (e, some s')
