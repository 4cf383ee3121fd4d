-- ===== src/Machine/Events/Stream/Settle.antt =====
-- What the methods of a stream make of its emitter, once it has begun.
use zscalerctl.Prelude.{
  Bool, true, false, not, ◌||◌, ◌≡◌, refl, ◌∙◌, Option, none, some, Text, text_beq, is_some,
  if◌then◌else◌,
}
use zscalerctl.Machine.Types.{
  MachineError, error_of, kind_internal, kind_canceled, EventKind, failed, canceled_event, Event,
}
use zscalerctl.Machine.Events.{
  Emitter, is_started_event, is_terminal_event, deliver, emit, with_context, emit_terminal_error,
  or_failure, fail_after_delivery, machine_error_with_context, EventStream,
}
use zscalerctl.Machine.Events.Stream.{
  Done, failure_kind, after_emit, stream_fail, fail_producer, or_producer,
}
use zscalerctl.Machine.Events.Stream.Lifecycle.{gate, either, IsBegun, emit-IsBegun}

or_true : (a b : Bool) → b ≡ true → (a || b) ≡ true
or_true true b h = refl
or_true false b h = h

is_some-with_context :
    {R M : Type 0} (given : MachineError) (r : Option MachineError × Emitter R M)
    → is_some (with_context given r).0 ≡ is_some r.0
is_some-with_context given (none, e) = refl
is_some-with_context given (some failure, e) = refl

guarded {ℓ} :
    {A : Type ℓ} (P : A → Type 0) {x y : A} (began over : Bool)
    → began ≡ true
    → (over ≡ true → P x)
    → P y
    → P (if not began || over then x else y)
guarded P true true h hx hy = hx refl
guarded P true false h hx hy = hy
guarded P false over h hx hy = cc

failure_kind-ends :
    (given : MachineError)
    → (is_terminal_event (failure_kind given) ≡ true)
      × (is_started_event (failure_kind given) ≡ false)
failure_kind-ends given =
    either (λ k. (is_terminal_event k ≡ true) × (is_started_event k ≡ false)) {x = canceled_event}
      {y = failed} (text_beq given.kind kind_canceled) (refl, refl) (refl, refl)

module _ {R M : Type 0} where
  -- What a method makes of the emitter `e`: an error leaves it terminal, and a terminal emitter
  -- delivers nothing and answers with an error.
  pub record IsSettled (e : Emitter R M) (error : Option MachineError) (e' : Emitter R M)
      : Type 0 where
    pub begun : IsBegun e'
    pub settles : is_some error ≡ true → e'.is_terminal ≡ true
    pub refuses : e.is_terminal ≡ true → (is_some error ≡ true) × (e'.delivered ≡ e.delivered)

  -- After a failure: the emitter is terminal, and a terminal one is as before.
  record IsFailed (e e' : Emitter R M) : Type 0 where
    begun : IsBegun e'
    pub over : e'.is_terminal ≡ true
    same : e.is_terminal ≡ true → e'.delivered ≡ e.delivered

  abbrev pub IsEnded : Emitter R M → Option MachineError × Emitter R M → Type 0
  IsEnded e r =
      (r.1.is_terminal ≡ true)
      × (e.is_terminal ≡ true → (is_some r.0 ≡ true) × (r.1.delivered ≡ e.delivered))

  pub emit-IsEnded :
      (e : Emitter R M) (event : Event R M)
      → IsBegun e
      → is_terminal_event event.kind ≡ true
      → is_started_event event.kind ≡ false
      → IsEnded e (emit e event)
  unfolding emit deliver
  emit-IsEnded e event b ends later =
      gate {A = Option MachineError × Emitter R M} (IsEnded e) (is_some e.sink) e.is_terminal
        e.is_started (is_started_event event.kind) (λ h. cc) (λ h. (h, λ _. (refl, refl))) (λ h. cc)
        (λ h. cc)
        (λ live order. (or_true e.is_terminal (is_terminal_event event.kind) ends, λ over. cc))

  pub emit-refuses :
      (e : Emitter R M) (event : Event R M)
      → IsBegun e
      → e.is_terminal ≡ true
      → (is_some (emit e event).0 ≡ true)
        × (((emit e event).1.delivered ≡ e.delivered) × ((emit e event).1.is_terminal ≡ true))
  unfolding emit
  emit-refuses e event b over =
      gate {A = Option MachineError × Emitter R M}
        (λ r. (is_some r.0 ≡ true) × ((r.1.delivered ≡ e.delivered) × (r.1.is_terminal ≡ true)))
        (is_some e.sink) e.is_terminal e.is_started (is_started_event event.kind)
        (λ _. (refl, (refl, over))) (λ _. (refl, (refl, over))) (λ _. (refl, (refl, over)))
        (λ _. (refl, (refl, over))) (λ live _. cc)

  with_context-IsFailed :
      (e : Emitter R M) (given : MachineError) (r : Option MachineError × Emitter R M)
      → IsBegun r.1
      → IsEnded e r
      → IsFailed e (with_context given r).1
        × (e.is_terminal ≡ true → is_some (with_context given r).0 ≡ true)
  with_context-IsFailed e given (none, e') b (over, h) =
      (record { begun = b; over = over; same = λ t. (h t).1 }, λ t. (h t).0)
  with_context-IsFailed e given (some failure, e') b (over, h) =
      (record { begun = b; over = over; same = λ t. (h t).1 }, λ t. refl)

  emit_terminal_error-IsFailed :
      (e : Emitter R M) (k : EventKind) (given : MachineError)
      → IsBegun e
      → is_terminal_event k ≡ true
      → is_started_event k ≡ false
      → IsFailed e (emit_terminal_error e k given).1
        × (e.is_terminal ≡ true → is_some (emit_terminal_error e k given).0 ≡ true)
  unfolding emit_terminal_error
  emit_terminal_error-IsFailed e k given b ends later =
      with_context-IsFailed e given _ (emit-IsBegun e _ b) (emit-IsEnded e _ b ends later)

  or_failure-IsFailed :
      (e : Emitter R M) (failure : MachineError) (r : Option MachineError × Emitter R M)
      → IsFailed e r.1
      → IsFailed e (or_failure failure r).1
  or_failure-IsFailed e failure (none, e') h = h
  or_failure-IsFailed e failure (some delivery, e') h = h

  fail_after_delivery-IsFailed :
      (e : Emitter R M) (given : MachineError) (op product resource : Text)
      → IsBegun e
      → IsFailed e (fail_after_delivery e given op product resource).1
  unfolding fail_after_delivery
  fail_after_delivery-IsFailed e given op product resource b =
      guarded {A = MachineError × Emitter R M} (λ r. IsFailed e r.1) e.is_started e.is_terminal
        b.began (λ over. record { begun = b; over = over; same = λ _. refl })
        (or_failure-IsFailed e _ _ (emit_terminal_error-IsFailed e failed _ b refl refl).0)

  -- After a method that ends the stream.
  pub record IsFinal (e : Emitter R M) (error : Option MachineError) (e' : Emitter R M)
      : Type 0 where
    pub settled : IsSettled e error e'
    pub over : e'.is_terminal ≡ true

  pub stream_fail-IsFinal :
      (s : EventStream R M) (given : MachineError)
      → IsBegun s.emitter
      → IsFinal s.emitter (stream_fail s given).0 (stream_fail s given).1.emitter
  unfolding stream_fail
  stream_fail-IsFinal s given b =
      let e = machine_error_with_context given s.operation s.product s.resource in
      let (ends, later) = failure_kind-ends e in
      let (f, h) = emit_terminal_error-IsFailed s.emitter (failure_kind e) e b ends later in
      record {
        settled = record { begun = f.begun; settles = λ _. f.over; refuses = λ t. (h t, f.same t) };
        over = f.over;
      }

  or_producer-IsFinal :
      (e : Emitter R M) (given : MachineError) (r : Done R M)
      → IsFinal e r.0 r.1.emitter
      → IsFinal e (or_producer given r).0 (or_producer given r).1.emitter
  or_producer-IsFinal e given (none, s) f = record {
    settled = record {
      begun = f.settled.begun;
      settles = λ _. f.over;
      refuses = λ t. (refl, (f.settled.refuses t).1);
    };
    over = f.over;
  }
  or_producer-IsFinal e given (some failure, s) f = f

  pub fail_producer-IsFinal :
      (s : EventStream R M) (message : Text)
      → IsBegun s.emitter
      → IsFinal s.emitter (fail_producer s message).0 (fail_producer s message).1.emitter
  unfolding fail_producer
  fail_producer-IsFinal s message b =
      let e = record (error_of kind_internal message) {
        operation = s.operation;
        product = s.product;
        resource = s.resource;
      } in
      or_producer-IsFinal s.emitter e (stream_fail s e) (stream_fail-IsFinal s e b)

  pub after_emit-IsSettled :
      (s : EventStream R M) (event : Event R M) (r : Option MachineError × Emitter R M)
      → IsBegun r.1
      → (s.emitter.is_terminal ≡ true
          → (is_some r.0 ≡ true)
            × ((r.1.delivered ≡ s.emitter.delivered) × (r.1.is_terminal ≡ true)))
      → IsSettled s.emitter (after_emit s event r).0 (after_emit s event r).1.emitter
  unfolding after_emit
  after_emit-IsSettled s event (none, e) b h = record {
    begun = b;
    settles = λ x. cc;
    refuses = λ t. ((h t).0, (h t).1.0);
  }
  after_emit-IsSettled s event (some failure, e) b h =
      let f = fail_after_delivery-IsFailed e failure s.operation event.product event.resource b in
      record {
        begun = f.begun;
        settles = λ _. f.over;
        refuses = λ t. (refl, f.same (h t).1.1 ∙ (h t).1.0);
      }

  pub after_emit-over :
      (s : EventStream R M) (event : Event R M) (r : Option MachineError × Emitter R M)
      → IsBegun r.1
      → r.1.is_terminal ≡ true
      → (after_emit s event r).1.emitter.is_terminal ≡ true
  unfolding after_emit
  after_emit-over s event (none, e) b over = over
  after_emit-over s event (some failure, e) b over =
      (fail_after_delivery-IsFailed e failure s.operation event.product event.resource b).over
