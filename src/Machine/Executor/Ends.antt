-- ===== src/Machine/Executor/Ends.antt =====
-- Every request ends with a terminal event.
use zscalerctl.Prelude.{
  true, ◌≡◌, refl, Option, none, some, List, [], ◌∷◌, Text, is_some, Result, ok, err,
}
use zscalerctl.Prelude.Int.{pos}
use zscalerctl.Resources.Value.{Value, Fields}
use zscalerctl.Resources.Narrow.{NarrowError}
use zscalerctl.Machine.Types.{MachineError, record_event, Event, event_of}
use zscalerctl.Machine.Events.{Sink, EventStream}
use zscalerctl.Machine.Events.Stream.{
  Done, stream_emit, stream_fail, stream_complete, start_event_stream,
}
use zscalerctl.Machine.Events.Stream.Lifecycle.{IsBegun, IsClosed}
use zscalerctl.Machine.Events.Stream.Order.{
  emit_op, complete_op, fail_op, apply, apply_lem, terminal-IsClosed, started-IsBegun,
}
use zscalerctl.Machine.Request.{Request, input_product, input_resource}
use zscalerctl.Machine.Refusal.{machine_error_from_load_error}
use zscalerctl.Machine.Executor.{
  Executor, Task, show_manifest, read_with, Loaded, preflight, read_records, or_given,
  fail_event_stream, continue_with, emit_records, completion, complete_after, run_read, run_task,
  execute_stream,
}

-- The stream is terminal, and its last event is its only terminal one.
abbrev pub IsOver : {R M : Type 0} → EventStream R M → Type 0
IsOver s = (s.emitter.is_terminal ≡ true) × IsClosed s.emitter.delivered

module _ {R M : Type 0} (s : EventStream R M) (b : IsBegun s.emitter) where
  stream_complete-IsOver : (event : Event R M) → IsOver (stream_complete s event).1
  unfolding apply
  stream_complete-IsOver event =
      let (settled, ended) = apply_lem s (complete_op event) b in
      terminal-IsClosed _ settled.begun (ended refl)

  stream_fail-IsOver : (e : MachineError) → IsOver (stream_fail s e).1
  unfolding apply
  stream_fail-IsOver e =
      let (settled, ended) = apply_lem s (fail_op e) b in
      terminal-IsClosed _ settled.begun (ended refl)

module _ {M : Type 0} (sprint : Value → Text) (scan : Text → Text)
    (unread : Text → Text → Option Text) (narrow_text : NarrowError → Text) (e : Executor M)
    (req : Request) where
  or_given-IsOver :
      (given : MachineError) (r : Done Fields M)
      → IsOver r.1
      → IsOver (or_given sprint scan unread narrow_text e req given r).1
  or_given-IsOver given (none, s) over = over
  or_given-IsOver given (some failure, s) over = over

  fail-IsOver :
      (s : EventStream Fields M) (given : MachineError)
      → IsBegun s.emitter
      → IsOver (fail_event_stream sprint scan unread narrow_text e req s given).1
  unfolding fail_event_stream
  fail-IsOver s given b = or_given-IsOver given (stream_fail s given) (stream_fail-IsOver s b given)

  -- A stream that goes on, or one that refused a record and is over.
  abbrev Emitted : Done Fields M → Type 0
  Emitted r = IsBegun r.1.emitter × (is_some r.0 ≡ true → IsOver r.1)

  after_record :
      (next : EventStream Fields M → Done Fields M) (d : Done Fields M)
      → ((s : EventStream Fields M) → IsBegun s.emitter → Emitted (next s))
      → IsBegun d.1.emitter
      → (is_some d.0 ≡ true → IsOver d.1)
      → Emitted (continue_with sprint scan unread narrow_text e req next d)
  after_record next (none, s) rest b over = rest s b
  after_record next (some f, s) rest b over = (b, over)

  emit_records-Emitted :
      (records : List Fields) (s : EventStream Fields M)
      → IsBegun s.emitter
      → Emitted (emit_records sprint scan unread narrow_text e req records s)
  unfolding emit_records apply
  emit_records-Emitted [] s b = (b, λ h. cc)
  emit_records-Emitted (r ∷ records) s b =
      let event : Event Fields M =
        record (event_of record_event (input_product req) (input_resource req)) {
          payload = some r;
        } in
      let (settled, _) = apply_lem s (emit_op event) b in
      after_record (emit_records sprint scan unread narrow_text e req records) (stream_emit s event)
        (emit_records-Emitted records) settled.begun
        (λ h. terminal-IsClosed _ settled.begun (settled.settles h))

  complete_after-IsOver :
      (records : List Fields) (d : Done Fields M)
      → Emitted d
      → IsOver (complete_after sprint scan unread narrow_text e req records d).1
  complete_after-IsOver records (some f, s) (b, over) = over refl
  complete_after-IsOver records (none, s) (b, over) =
      stream_complete-IsOver s b (completion sprint scan unread narrow_text e req records)

  run_read-IsOver :
      (loaded : Loaded) (s : EventStream Fields M)
      → IsBegun s.emitter
      → IsOver (run_read sprint scan unread narrow_text e req loaded s).1
  run_read-IsOver (err failure) s b =
      fail-IsOver s (machine_error_from_load_error scan unread failure req) b
  run_read-IsOver (ok records) s b =
      complete_after-IsOver records (emit_records sprint scan unread narrow_text e req records s)
        (emit_records-Emitted records s b)

  run_task-IsOver :
      (task : Result MachineError Task) (s : EventStream Fields M)
      → IsBegun s.emitter
      → IsOver (run_task sprint scan unread narrow_text e req task s).1
  run_task-IsOver (err refused) s b = fail-IsOver s refused b
  run_task-IsOver (ok show_manifest) s b = stream_complete-IsOver s b _
  run_task-IsOver (ok (read_with loader)) s b =
      run_read-IsOver (read_records sprint scan unread narrow_text e req loader) s b

  -- Whatever the request, the browser and the sink: if the stream starts, the events handed to the
  -- sink when `ExecuteStream` returns are a started event, then events neither started nor terminal,
  -- and one terminal event at the end.
  pub execute_stream-IsClosed :
      (sink : Sink Fields M) (s : EventStream Fields M)
      → (start_event_stream sink req.operation
          (input_product req)
          (input_resource req)
          (pos 0)).stream
        ≡ some s
      → IsClosed (execute_stream sprint scan unread narrow_text e req sink).1
  unfolding execute_stream
  execute_stream-IsClosed sink s h =
      let b =
        started-IsBegun sink req.operation (input_product req) (input_resource req) (pos 0) s h in
      rw h ((run_task-IsOver (preflight sprint scan unread narrow_text e req) s b).1)
