-- ===== src/Machine/Executor/Succeeds.antt =====
-- A request that returns no error has delivered all of its events.
use zscalerctl.Prelude.{
  ◌≡◌, refl, sym, ap, ◌∙◌, subst, Option, none, some, List, [], ◌∷◌, ◌++◌, Text, Result, ok, err,
  append-nil, append_assoc,
}
use zscalerctl.Prelude.Int.{pos}
use zscalerctl.Resources.Value.{Value, Fields}
use zscalerctl.Resources.Narrow.{NarrowError}
use zscalerctl.Machine.Types.{MachineError, record_event, unset, completed, Event, event_of}
use zscalerctl.Machine.Events.{Sink, EventStream}
use zscalerctl.Machine.Events.Stream.{
  Done, stream_emit, stream_fail, stream_complete, start_event_stream,
}
use zscalerctl.Machine.Events.Stream.Accept.{
  Accepts, Accepts-append, IsFor, IsGone, start_event, stream_emit-IsGone, stream_complete-IsGone,
  start_event_stream-IsGone,
}
use zscalerctl.Machine.Request.{Request, input_product, input_resource}
use zscalerctl.Machine.Refusal.{machine_error_from_load_error}
use zscalerctl.Machine.Executor.{
  Executor, Task, Loader, show_manifest, read_with, Loaded, preflight, read_records, or_given,
  fail_event_stream, continue_with, emit_records, completion, complete_after, run_read, run_task,
  execute_stream,
}

module _ {M : Type 0} (sprint : Value → Text) (scan : Text → Text)
    (unread : Text → Text → Option Text) (narrow_text : NarrowError → Text) (e : Executor M)
    (req : Request) where
  -- The event of a record that is read.
  abbrev pub event_of_record : Fields → Event Fields M
  event_of_record r = record (event_of record_event (input_product req) (input_resource req)) {
    payload = some r;
  }

  abbrev pub record_events : List Fields → List (Event Fields M)
  record_events [] = []
  record_events (r ∷ records) = event_of_record r ∷ record_events records

  abbrev pub completed_with : List Fields → Event Fields M
  completed_with records = record (completion sprint scan unread narrow_text e req records) {
    kind = completed;
  }

  abbrev pub completed_manifest : Event Fields M
  completed_manifest = record (event_of completed (input_product req) (input_resource req)) {
    manifest = some e.manifest;
  }

  -- The events of a request that succeeds, after the started one.
  abbrev pub Tail : Result MachineError Task → List (Event Fields M) → Type 0
  Tail (err refused) events = ⊥
  Tail (ok show_manifest) events = events ≡ completed_manifest ∷ []
  Tail (ok (read_with loader)) events =
      (records : List Fields) × (read_records sprint scan unread narrow_text e req loader
        ≡ ok records)
      × (events ≡ record_events records ++ completed_with records ∷ [])

  module _ (sink : Sink Fields M) where
    -- After `before`, the sink was handed `events`, and accepted each.
    record IsGiven (before events : List (Event Fields M)) (s : EventStream Fields M) : Type 0 where
      for : IsFor sink (input_product req) (input_resource req) s
      delivered_is : s.emitter.delivered ≡ before ++ events
      taken : Accepts sink before events

    one_event :
        (before : List (Event Fields M)) (event : Event Fields M) (s : EventStream Fields M)
        → IsGone sink (input_product req) (input_resource req) before event s
        → IsGiven before (event ∷ []) s
    one_event before event s g = record {
      for = g.still;
      delivered_is = g.delivered_is;
      taken = (g.taken, tt);
    }

    both_parts :
        (before xs ys : List (Event Fields M)) (s s' : EventStream Fields M)
        → IsGiven before xs s
        → IsGiven s.emitter.delivered ys s'
        → IsGiven before (xs ++ ys) s'
    both_parts before xs ys s s' g h = record {
      for = h.for;
      delivered_is = h.delivered_is ∙ ap (λ d. d ++ ys) g.delivered_is ∙ append_assoc before xs ys;
      taken =
          Accepts-append sink before xs ys g.taken
            (subst (λ d. Accepts sink d ys) g.delivered_is h.taken);
    }

    after_record :
        (next : EventStream Fields M → Done Fields M) (before : List (Event Fields M))
        (event : Event Fields M) (rest : List (Event Fields M)) (d : Done Fields M)
        → (d.0 ≡ none → IsGiven before (event ∷ []) d.1)
        → ((s : EventStream Fields M)
            → IsFor sink (input_product req) (input_resource req) s
            → (next s).0 ≡ none
            → IsGiven s.emitter.delivered rest (next s).1)
        → (continue_with sprint scan unread narrow_text e req next d).0 ≡ none
        → IsGiven before
            (event ∷ rest)
            (continue_with sprint scan unread narrow_text e req next d).1
    after_record next before event rest (none, s) one more quiet =
        both_parts before (event ∷ []) rest s (next s).1 (one refl) (more s (one refl).for quiet)
    after_record next before event rest (some f, s) one more quiet = cc

    emit_records-IsGiven :
        (records : List Fields) (s : EventStream Fields M)
        → IsFor sink (input_product req) (input_resource req) s
        → (emit_records sprint scan unread narrow_text e req records s).0 ≡ none
        → IsGiven s.emitter.delivered
            (record_events records)
            (emit_records sprint scan unread narrow_text e req records s).1
    unfolding emit_records
    emit_records-IsGiven [] s for quiet = record {
      for = for;
      delivered_is = sym (append-nil s.emitter.delivered);
      taken = tt;
    }
    emit_records-IsGiven (r ∷ records) s for quiet =
        after_record (emit_records sprint scan unread narrow_text e req records) s.emitter.delivered
          (event_of_record r) (record_events records) (stream_emit s (event_of_record r))
          (λ calm.
            one_event s.emitter.delivered (event_of_record r) (stream_emit s (event_of_record r)).1
              (stream_emit-IsGone sink (input_product req) (input_resource req) s for
                (event_of_record r) refl refl calm))
          (λ s' for' quiet'. emit_records-IsGiven records s' for' quiet') quiet

    complete_after-IsGiven :
        (records : List Fields) (before events : List (Event Fields M)) (d : Done Fields M)
        → (d.0 ≡ none → IsGiven before events d.1)
        → (complete_after sprint scan unread narrow_text e req records d).0 ≡ none
        → IsGiven before
            (events ++ completed_with records ∷ [])
            (complete_after sprint scan unread narrow_text e req records d).1
    complete_after-IsGiven records before events (some f, s) given quiet = cc
    complete_after-IsGiven records before events (none, s) given quiet =
        let event = completion sprint scan unread narrow_text e req records in
        both_parts before events (completed_with records ∷ []) s (stream_complete s event).1
          (given refl)
          (one_event s.emitter.delivered (completed_with records) (stream_complete s event).1 (
            stream_complete-IsGone sink (input_product req) (input_resource req) s (given refl).for
              event refl refl quiet))

  fail-some :
      (s : EventStream Fields M) (given : MachineError)
      → (fail_event_stream sprint scan unread narrow_text e req s given).0 ≡ none
      → ⊥
  unfolding fail_event_stream
  fail-some s given h = given_some (stream_fail s given) h
    where
      given_some :
          (r : Done Fields M) → (or_given sprint scan unread narrow_text e req given r).0 ≡ none → ⊥
      given_some (none, s) h = cc
      given_some (some failure, s) h = cc

  -- What the sink was handed when a stream that had delivered `before` ends well.
  abbrev pub EndsWell :
      Sink Fields M
      → Result MachineError Task
      → List (Event Fields M)
      → List (Event Fields M)
      → Type 0
  EndsWell sink task before delivered =
      (events : List (Event Fields M)) × Tail task events
      × (delivered ≡ before ++ events)
      × Accepts sink before events

  module _ (sink : Sink Fields M) (s : EventStream Fields M)
      (for : IsFor sink (input_product req) (input_resource req) s) where
    run_read-EndsWell :
        (loader : Loader) (loaded : Loaded)
        → read_records sprint scan unread narrow_text e req loader ≡ loaded
        → (run_read sprint scan unread narrow_text e req loaded s).0 ≡ none
        → EndsWell sink
            (ok (read_with loader))
            s.emitter.delivered
            (run_read sprint scan unread narrow_text e req loaded s).1.emitter.delivered
    run_read-EndsWell loader (err failure) h quiet =
        elim (fail-some s (machine_error_from_load_error scan unread failure req) quiet) [ ]
    run_read-EndsWell loader (ok records) h quiet =
        let given =
          complete_after-IsGiven sink records s.emitter.delivered (record_events records)
            (emit_records sprint scan unread narrow_text e req records s)
            (emit_records-IsGiven sink records s for) quiet in
        (
          record_events records ++ completed_with records ∷ [],
          (records, h, refl),
          given.delivered_is,
          given.taken,
        )

    run_task-EndsWell :
        (task : Result MachineError Task)
        → (run_task sprint scan unread narrow_text e req task s).0 ≡ none
        → EndsWell sink task s.emitter.delivered
            (run_task sprint scan unread narrow_text e req task s).1.emitter.delivered
    run_task-EndsWell (err refused) quiet = elim (fail-some s refused quiet) [ ]
    run_task-EndsWell (ok show_manifest) quiet =
        let event : Event Fields M =
          record (event_of unset (input_product req) (input_resource req)) {
            manifest = some e.manifest;
          } in
        let g =
          stream_complete-IsGone sink (input_product req) (input_resource req) s for event refl refl
            quiet in
        (completed_manifest ∷ [], refl, g.delivered_is, (g.taken, tt))
    run_task-EndsWell (ok (read_with loader)) quiet =
        run_read-EndsWell loader (read_records sprint scan unread narrow_text e req loader) refl
          quiet

  -- The events of a request that succeeds: the started one, and those after it.
  abbrev pub Succeeded : Sink Fields M → Result MachineError Task → List (Event Fields M) → Type 0
  Succeeded sink task delivered =
      (events : List (Event Fields M)) × Tail task events
      × (delivered ≡ start_event (input_product req) (input_resource req) (pos 0) ∷ events)
      × Accepts sink [] (start_event (input_product req) (input_resource req) (pos 0) ∷ events)

  -- If the stream starts and `ExecuteStream` returns no error, then every check accepted the
  -- request; for a read, its records were loaded and narrowed without an error; and the sink was
  -- handed exactly a started event, then one event for each of those records, in order, and a
  -- completion with their number and the records, or for a manifest a completion with it; and the
  -- sink accepted every one of these events.
  pub execute_stream-Succeeded :
      (sink : Sink Fields M) (s : EventStream Fields M)
      → (start_event_stream sink req.operation
          (input_product req)
          (input_resource req)
          (pos 0)).stream
        ≡ some s
      → (execute_stream sprint scan unread narrow_text e req sink).0 ≡ none
      → Succeeded sink
          (preflight sprint scan unread narrow_text e req)
          (execute_stream sprint scan unread narrow_text e req sink).1
  unfolding execute_stream
  execute_stream-Succeeded sink s h = rw h (λ quiet.
      let g =
        start_event_stream-IsGone sink req.operation (input_product req) (input_resource req)
          (pos 0) s h in
      let (events, tail, delivered, taken) =
        run_task-EndsWell sink s g.still (preflight sprint scan unread narrow_text e req) quiet in
      (
        events,
        tail,
        delivered ∙ ap (λ d. d ++ events) g.delivered_is,
        (g.taken, subst (λ d. Accepts sink d events) g.delivered_is taken),
      ))
