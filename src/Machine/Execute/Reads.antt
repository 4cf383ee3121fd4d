-- ===== src/Machine/Execute/Reads.antt =====
-- What a request that reads records makes of its events.
use zscalerctl.Prelude.{
  ℕ, true, false, ◌≡◌, refl, sym, ap, ◌∙◌, Option, none, some, List, [], ◌∷◌, ◌++◌, Text, length,
  ok, append-nil, append_assoc, ◌==◌, arith,
}
use zscalerctl.Resources.Value.{Value, Fields}
use zscalerctl.Resources.Narrow.{NarrowError}
use zscalerctl.Machine.Types.{or_default, started, completed, record_event, Event, event_of}
use zscalerctl.Machine.Events.{EventStream}
use zscalerctl.Machine.Events.Stream.{stream_emit, stream_complete}
use zscalerctl.Machine.Request.{Request, input_product, input_resource}
use zscalerctl.Machine.Executor.{
  Executor, Loader, read_with, preflight, read_records, emit_records, completion, execute_stream,
}
use zscalerctl.Machine.Execute.{
  Response, no_response, or_empty, add_record, add_completion, accumulate_kind, accumulate,
  accumulator, respond, execute,
}

module _ {M : Type 0} (capabilities : M → ℕ) (sprint : Value → Text) (scan : Text → Text)
    (unread : Text → Text → Option Text) (narrow_text : NarrowError → Text) (e : Executor M)
    (req : Request) where
  -- The stream while the events are accepted.
  abbrev going : List (Event Fields M) → EventStream Fields M
  going events = record {
    emitter = record {
      sink = some (accumulator req.operation);
      is_started = true;
      is_terminal = false;
      delivered = events;
    };
    operation = req.operation;
    product = input_product req;
    resource = input_resource req;
  }

  abbrev record_event_of : Fields → Event Fields M
  record_event_of r =
      record (event_of record_event (or_default (input_product req) (input_product req))
        (or_default (input_resource req) (input_resource req))) { payload = some r }

  abbrev events_after : List (Event Fields M) → List Fields → List (Event Fields M)
  events_after events [] = events
  events_after events (r ∷ records) = events_after (events ++ (record_event_of r ∷ [])) records

  emit_records-going :
      (records : List Fields) (events : List (Event Fields M))
      → emit_records sprint scan unread narrow_text e req records (going events)
        ≡ (none, going (events_after events records))
  unfolding emit_records stream_emit
  emit_records-going [] events = refl
  emit_records-going (r ∷ records) events =
      emit_records-going records (events ++ (record_event_of r ∷ []))

  abbrev start_of : Event Fields M
  start_of = event_of started (input_product req) (input_resource req)

  beq_refl : (n : ℕ) → (n == n) ≡ true
  beq_refl n = ground arith

  abbrev completed_of : List Fields → Event Fields M
  completed_of records = record (completion sprint scan unread narrow_text e req records) {
    kind = completed;
    product = or_default (input_product req) (input_product req);
    resource = or_default (input_resource req) (input_resource req);
  }

  -- The completion is accepted, and is the last event.
  complete-going :
      (records : List Fields) (events : List (Event Fields M))
      → ((stream_complete
            (going events)
            (completion sprint scan unread narrow_text e req records)).0
          ≡ none)
        × ((stream_complete
              (going events)
              (completion sprint scan unread narrow_text e req records)).1.emitter.delivered
            ≡ events ++ (completed_of records ∷ []))
  unfolding stream_complete
  complete-going records events = rw (beq_refl (length records)) (refl, refl)

  -- The events of a read whose records were loaded.
  execute_stream-read :
      (loader : Loader) (records : List Fields)
      → preflight sprint scan unread narrow_text e req ≡ ok (read_with loader)
      → read_records sprint scan unread narrow_text e req loader ≡ ok records
      → execute_stream sprint scan unread narrow_text e req (some (accumulator req.operation))
        ≡ (none, events_after (start_of ∷ []) records ++ (completed_of records ∷ []))
  unfolding execute_stream
  execute_stream-read loader records accepted loaded =
      let (quiet, delivered) = complete-going records (events_after (start_of ∷ []) records) in
      rw (accepted, loaded, emit_records-going records (start_of ∷ [])) (pair quiet delivered)
    where
      pair :
          {A B : Type 0} {a a' : A} {b b' : B} → a ≡ a' → b ≡ b' → ◌≡◌ {A = A × B} (a, b) (a', b')
      pair first second = cc

  accumulate-append :
      (xs ys : List (Event Fields M)) (r : Response M)
      → accumulate capabilities (xs ++ ys) r
        ≡ accumulate capabilities ys (accumulate capabilities xs r)
  unfolding accumulate
  accumulate-append [] ys r = refl
  accumulate-append (x ∷ xs) ys r =
      accumulate-append xs ys (accumulate_kind capabilities x.kind x r)

  abbrev push_all : List Fields → Response M → Response M
  push_all [] r = r
  push_all (x ∷ xs) r = push_all xs (add_record capabilities (some x) r)

  accumulate-events :
      (records : List Fields) (events : List (Event Fields M)) (r : Response M)
      → accumulate capabilities (events_after events records) r
        ≡ push_all records (accumulate capabilities events r)
  unfolding accumulate
  accumulate-events [] events r = refl
  accumulate-events (x ∷ records) events r =
      accumulate-events records (events ++ (record_event_of x ∷ [])) r
      ∙ ap (push_all records) (accumulate-append events (record_event_of x ∷ []) r)

  pushed :
      (xs : List Fields) (r : Response M)
      → (or_empty (push_all xs r).records ≡ or_empty r.records ++ xs)
        × ((push_all xs r).manifest ≡ r.manifest)
        × ((push_all xs r).error ≡ r.error)
  pushed [] r = (sym (append-nil (or_empty r.records)), refl, refl)
  pushed (x ∷ xs) r =
      let (a, b, c) = pushed xs (add_record capabilities (some x) r) in
      (a ∙ append_assoc (or_empty r.records) (x ∷ []) xs, b, c)

  -- The response that holds these records and nothing else.
  abbrev pub response_of : List Fields → Response M
  response_of records = record {
    records = some records;
    manifest = none;
    error = none;
    count = length records;
  }

  completed-response_of :
      (records : List Fields) (r : Response M)
      → or_empty r.records ≡ records
      → r.manifest ≡ none
      → r.error ≡ none
      → add_completion capabilities none r ≡ response_of records
  completed-response_of records r a b c = rw (a, b, c) refl

  accumulated :
      (records : List Fields)
      → accumulate capabilities
          (events_after (start_of ∷ []) records ++ (completed_of records ∷ []))
          no_response
        ≡ response_of records
  unfolding accumulate
  accumulated records =
      let (a, b, c) = pushed records no_response in
      accumulate-append (events_after (start_of ∷ []) records) (completed_of records ∷ [])
        no_response
      ∙ (ap (add_completion capabilities none)
            (accumulate-events records (start_of ∷ []) no_response)
          ∙ completed-response_of records (push_all records no_response) a b c)

  -- If the checks accept a read, and its records are loaded and narrowed without an error, then
  -- `Execute` returns no error and a response with exactly those records, in order, their number,
  -- and neither a manifest nor an error.
  pub execute-read :
      (loader : Loader) (records : List Fields)
      → preflight sprint scan unread narrow_text e req ≡ ok (read_with loader)
      → read_records sprint scan unread narrow_text e req loader ≡ ok records
      → execute capabilities sprint scan unread narrow_text e req ≡ (response_of records, none)
  unfolding execute
  execute-read loader records accepted loaded =
      ap (respond capabilities req) (execute_stream-read loader records accepted loaded)
      ∙ answered records
    where
      answered :
          (records : List Fields)
          → respond capabilities req
              (none, events_after (start_of ∷ []) records ++ (completed_of records ∷ []))
            ≡ (response_of records, none)
      answered records = rw (accumulated records) refl
