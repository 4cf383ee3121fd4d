-- ===== src/Machine/Events/Stream/Accept.antt =====
-- What a call on a stream that returns no error has handed to the sink of internal/machine/events.go.
use zscalerctl.Prelude.{
  not, ◌≡◌, refl, sym, ap, ◌∙◌, Option, none, some, List, [], ◌∷◌, ◌++◌, Text, is_empty, is_some,
  append_assoc, append-nil, subst,
}
use zscalerctl.Prelude.Int.{ℤ}
use zscalerctl.Machine.Types.{
  MachineError, error_of, kind_internal, Event, event_of, or_default, completed, started,
}
use zscalerctl.Machine.Events.{
  Sink, Answer, accepted, panicked, returned, answer_of, failure_of, Emitter, is_started_event,
  deliver, emit, EventStream, invalid_non_terminal_event,
}
use zscalerctl.Machine.Events.Stream.{
  Done, after_emit, apply_default_scope, stream_fail, fail_producer, or_producer, stream_emit,
  invalid_completion, stream_complete, fresh, started_with, start_event_stream,
}
use zscalerctl.Machine.Events.Stream.Lifecycle.{gate, either}

or_default_same : (t : Text) → or_default t t ≡ t
or_default_same t = either (λ x. x ≡ t) (is_empty t) refl refl

module _ {R M : Type 0} where
  -- The sink accepts each of the events, given those before it.
  abbrev pub Accepts : Sink R M → List (Event R M) → List (Event R M) → Type 0
  Accepts sink before [] = Unit
  Accepts sink before (x ∷ xs) =
      (answer_of sink before x ≡ accepted) × Accepts sink (before ++ x ∷ []) xs

  pub Accepts-append :
      (sink : Sink R M) (before xs ys : List (Event R M))
      → Accepts sink before xs
      → Accepts sink (before ++ xs) ys
      → Accepts sink before (xs ++ ys)
  Accepts-append sink before [] ys h k = subst (λ b. Accepts sink b ys) (append-nil before) k
  Accepts-append sink before (x ∷ xs) ys (first, rest) k = (
    first,
    Accepts-append sink (before ++ x ∷ []) xs ys rest
        (subst (λ b. Accepts sink b ys) (sym (append_assoc before (x ∷ []) xs)) k),
  )

  -- The event was handed to the sink, which accepted it.
  abbrev pub IsHanded : Emitter R M → Event R M → Emitter R M → Type 0
  IsHanded e event e' =
      (answer_of e.sink e.delivered event ≡ accepted)
      × (e'.delivered ≡ e.delivered ++ event ∷ [])
      × (e'.sink ≡ e.sink)

  failure_of-none : (event : Event R M) (a : Answer) → failure_of event a ≡ none → a ≡ accepted
  failure_of-none event accepted h = refl
  failure_of-none event panicked h = cc
  failure_of-none event (returned error) h = cc

  emit-IsHanded :
      (e : Emitter R M) (event : Event R M)
      → (emit e event).0 ≡ none
      → IsHanded e event (emit e event).1
  unfolding emit deliver
  emit-IsHanded e event =
      gate {A = Option MachineError × Emitter R M} (λ r. r.0 ≡ none → IsHanded e event r.1)
        (is_some e.sink) e.is_terminal e.is_started (is_started_event event.kind) (λ h k. cc)
        (λ h k. cc) (λ h k. cc) (λ h k. cc)
        (λ live order k. (failure_of-none event _ k, refl, refl))

  -- The stream delivers to this sink, with this scope.
  pub record IsFor (sink : Sink R M) (product resource : Text) (s : EventStream R M) : Type 0 where
    pub sink_is : s.emitter.sink ≡ sink
    pub product_is : s.product ≡ product
    pub resource_is : s.resource ≡ resource

  -- The call has delivered the event, and returns a stream for the same sink and scope.
  pub record IsGone (sink : Sink R M) (product resource : Text) (before : List (Event R M))
      (event : Event R M) (s' : EventStream R M) : Type 0 where
    pub taken : answer_of sink before event ≡ accepted
    pub delivered_is : s'.emitter.delivered ≡ before ++ event ∷ []
    pub still : IsFor sink product resource s'

  after_emit-IsGone :
      (s : EventStream R M) (event scoped : Event R M) (r : Option MachineError × Emitter R M)
      → (r.0 ≡ none → IsHanded s.emitter scoped r.1)
      → (after_emit s event r).0 ≡ none
      → IsGone s.emitter.sink s.product s.resource s.emitter.delivered scoped
          (after_emit s event r).1
  unfolding after_emit
  after_emit-IsGone s event scoped (none, e) handed h =
      let (taken, delivered, same) = handed refl in
      record {
        taken = taken;
        delivered_is = delivered;
        still = record { sink_is = same; product_is = refl; resource_is = refl };
      }
  after_emit-IsGone s event scoped (some failure, e) handed h = cc

  or_producer-some : (given : MachineError) (d : Done R M) → (or_producer given d).0 ≡ none → ⊥
  or_producer-some given (none, s) h = cc
  or_producer-some given (some failure, s) h = cc

  fail_producer-some :
      (s : EventStream R M) (message : Text) → (fail_producer s message).0 ≡ none → ⊥
  unfolding fail_producer
  fail_producer-some s message h =
      let given = record (error_of kind_internal message) {
        operation = s.operation;
        product = s.product;
        resource = s.resource;
      } in
      or_producer-some given (stream_fail s given) h

  -- An event of the scope of its stream is delivered as it is.
  scope_same :
      (s : EventStream R M) (event : Event R M)
      → event.product ≡ s.product
      → event.resource ≡ s.resource
      → apply_default_scope s event ≡ event
  unfolding apply_default_scope
  scope_same s event h k =
      ap (λ t. record event { product = t; resource = or_default event.resource s.resource })
        (ap (or_default event.product) (sym h) ∙ or_default_same event.product)
      ∙ ap (λ t. record event { resource = t })
          (ap (or_default event.resource) (sym k) ∙ or_default_same event.resource)

  module _ (sink : Sink R M) (product resource : Text) (s : EventStream R M)
      (for : IsFor sink product resource s) where
    rescoped :
        (event : Event R M) (s' : EventStream R M)
        → IsGone s.emitter.sink s.product s.resource s.emitter.delivered
            (apply_default_scope s event)
            s'
        → event.product ≡ product
        → event.resource ≡ resource
        → IsGone sink product resource s.emitter.delivered event s'
    rescoped event s' g h k =
        let scope : apply_default_scope s event ≡ event =
          scope_same s event (h ∙ sym for.product_is) (k ∙ sym for.resource_is) in
        record {
          taken =
              subst (λ x. answer_of sink s.emitter.delivered x ≡ accepted) scope
                (subst
                  (λ x. answer_of x s.emitter.delivered (apply_default_scope s event) ≡ accepted)
                  for.sink_is g.taken);
          delivered_is = g.delivered_is ∙ ap (λ x. s.emitter.delivered ++ x ∷ []) scope;
          still = record {
            sink_is = g.still.sink_is ∙ for.sink_is;
            product_is = g.still.product_is ∙ for.product_is;
            resource_is = g.still.resource_is ∙ for.resource_is;
          };
        }

    emitted-IsGone :
        (event : Event R M)
        → event.product ≡ product
        → event.resource ≡ resource
        → (after_emit s
            (apply_default_scope s event)
            (emit s.emitter (apply_default_scope s event))).0
          ≡ none
        → IsGone sink product resource s.emitter.delivered event
            (after_emit s
              (apply_default_scope s event)
              (emit s.emitter (apply_default_scope s event))).1
    emitted-IsGone event h k quiet =
        let scoped = apply_default_scope s event in
        rescoped event (after_emit s scoped (emit s.emitter scoped)).1
          (after_emit-IsGone s scoped scoped (emit s.emitter scoped)
            (emit-IsHanded s.emitter scoped) quiet)
          h k

    -- If `Emit` returns no error, its event was accepted.
    pub stream_emit-IsGone :
        (event : Event R M)
        → event.product ≡ product
        → event.resource ≡ resource
        → (stream_emit s event).0 ≡ none
        → IsGone sink product resource s.emitter.delivered event (stream_emit s event).1
    unfolding stream_emit fail_producer
    stream_emit-IsGone event h k =
        either {A = Done R M}
          (λ d. d.0 ≡ none → IsGone sink product resource s.emitter.delivered event d.1)
          (not (is_empty (invalid_non_terminal_event event)))
          (λ quiet. elim (fail_producer-some s (invalid_non_terminal_event event) quiet) [ ])
          (emitted-IsGone event h k)

    -- If `Complete` returns no error, its completion was accepted.
    pub stream_complete-IsGone :
        (event : Event R M)
        → event.product ≡ product
        → event.resource ≡ resource
        → (stream_complete s event).0 ≡ none
        → IsGone sink product resource s.emitter.delivered
            (record event { kind = completed })
            (stream_complete s event).1
    unfolding stream_complete fail_producer
    stream_complete-IsGone event h k =
        either {A = Done R M}
          (λ d.
            d.0 ≡ none
            → IsGone sink product resource s.emitter.delivered (record event { kind = completed })
                d.1)
          (not (is_empty (invalid_completion event)))
          (λ quiet. elim (fail_producer-some s (invalid_completion event) quiet) [ ])
          (emitted-IsGone (record event { kind = completed }) h k)

  abbrev pub start_event : Text → Text → ℤ → Event R M
  start_event product resource total = record (event_of started product resource) { total = total }

  started_with-IsGone :
      (s : EventStream R M) (event : Event R M) (r : Option MachineError × Emitter R M)
      (s' : EventStream R M)
      → (r.0 ≡ none → IsHanded s.emitter event r.1)
      → (started_with s r).stream ≡ some s'
      → IsGone s.emitter.sink s.product s.resource s.emitter.delivered event s'
  unfolding started_with
  started_with-IsGone s event (none, e) s' handed h =
      let (taken, delivered, same) = handed refl in
      subst (IsGone s.emitter.sink s.product s.resource s.emitter.delivered event)
        (some_injective _ _ h)
        (record {
          taken = taken;
          delivered_is = delivered;
          still = record { sink_is = same; product_is = refl; resource_is = refl };
        })
    where
      some_injective : (x y : EventStream R M) → some x ≡ some y → x ≡ y
      some_injective x y h = cc
  started_with-IsGone s event (some failure, e) s' handed h = cc

  -- If a stream starts, its started event was accepted.
  pub start_event_stream-IsGone :
      (sink : Sink R M) (operation product resource : Text) (total : ℤ) (s : EventStream R M)
      → (start_event_stream sink operation product resource total).stream ≡ some s
      → IsGone sink product resource [] (start_event product resource total) s
  unfolding start_event_stream
  start_event_stream-IsGone sink operation product resource total s h =
      started_with-IsGone (fresh sink operation product resource) _ _ s
        (emit-IsHanded (fresh sink operation product resource).emitter
          (start_event product resource total))
        h
