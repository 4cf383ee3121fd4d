-- ===== src/Machine/Events/Stream/Order.antt =====
-- Every sequence of calls keeps the order of the events of a stream.
use zscalerctl.Prelude.{
  subst, Bool, true, false, not, ◌≡◌, refl, ◌⊎◌, inl, inr, Option, none, some, List, [], ◌∷◌, Text,
  is_empty, is_some,
}
use zscalerctl.Prelude.Int.{ℤ}
use zscalerctl.Machine.Types.{MachineError, started, completed, Event, event_of}
use zscalerctl.Machine.Events.{
  Sink, Emitter, deliver, emit, EventStream, invalid_non_terminal_event,
}
use zscalerctl.Machine.Events.Stream.{
  Done, with_emitter, apply_default_scope, stream_fail, stream_emit, invalid_completion,
  stream_complete, started_with, start_event_stream, fresh,
}
use zscalerctl.Machine.Events.Stream.Settle.{
  IsSettled, fail_producer-IsFinal, stream_fail-IsFinal, after_emit-IsSettled, after_emit-over,
  emit-refuses, emit-IsEnded,
}
use zscalerctl.Machine.Events.Stream.Lifecycle.{
  either, IsBegun, IsTrace, idle, running, finished, IsOpen, IsClosed, emit-IsBegun,
  deliver-IsBegun,
}

-- The methods that a producer calls on a stream.
pub data Op (R M : Type 0) : Type 0 where
  emit_op complete_op : Event R M → Op R M
  fail_op : MachineError → Op R M

module _ {R M : Type 0} where
  unfoldable pub apply : Op R M → EventStream R M → Done R M
  unfolding stream_emit stream_complete stream_fail
  apply (emit_op event) s = stream_emit s event
  apply (complete_op event) s = stream_complete s event
  apply (fail_op e) s = stream_fail s e

  -- The stream after a sequence of calls.
  unfoldable pub apply_all : List (Op R M) → EventStream R M → EventStream R M
  unfolding apply
  apply_all [] s = s
  apply_all (op ∷ ops) s = apply_all ops (apply op s).1

  -- The calls after which a stream is terminal.
  abbrev pub ends_stream : Op R M → Bool
  ends_stream (emit_op event) = false
  ends_stream (complete_op event) = true
  ends_stream (fail_op e) = true

  abbrev pub AfterCall : EventStream R M → Op R M → Type 0
  AfterCall s op =
      IsSettled s.emitter (apply op s).0 (apply op s).1.emitter
      × (ends_stream op ≡ true → (apply op s).1.emitter.is_terminal ≡ true)

  apply-emit :
      (s : EventStream R M) (event : Event R M) → IsBegun s.emitter → AfterCall s (emit_op event)
  unfolding apply stream_emit
  apply-emit s event b =
      either {A = Done R M}
        (λ r. IsSettled s.emitter r.0 r.1.emitter × (false ≡ true → r.1.emitter.is_terminal ≡ true))
        (not (is_empty (invalid_non_terminal_event event)))
        ((fail_producer-IsFinal s (invalid_non_terminal_event event) b).settled, λ h. cc)
        (let scoped = apply_default_scope s event in
          (
            after_emit-IsSettled s scoped (emit s.emitter scoped) (emit-IsBegun s.emitter scoped b)
                (emit-refuses s.emitter scoped b),
            λ h. cc,
          ))

  apply_complete :
      (s : EventStream R M) (event : Event R M)
      → IsBegun s.emitter
      → AfterCall s (complete_op event)
  unfolding apply stream_complete
  apply_complete s event b =
      let f = fail_producer-IsFinal s (invalid_completion event) b in
      either {A = Done R M}
        (λ r. IsSettled s.emitter r.0 r.1.emitter × (true ≡ true → r.1.emitter.is_terminal ≡ true))
        (not (is_empty (invalid_completion event))) (f.settled, λ h. f.over)
        (let scoped = apply_default_scope s (record event { kind = completed }) in
          let begun = emit-IsBegun s.emitter scoped b in
          let (over, _) = emit-IsEnded s.emitter scoped b refl refl in
          (
            after_emit-IsSettled s scoped (emit s.emitter scoped) begun
                (emit-refuses s.emitter scoped b),
            λ h. after_emit-over s scoped (emit s.emitter scoped) begun over,
          ))

  apply-fail :
      (s : EventStream R M) (e : MachineError) → IsBegun s.emitter → AfterCall s (fail_op e)
  unfolding apply
  apply-fail s e b = let f = stream_fail-IsFinal s e b in (f.settled, λ h. f.over)

  pub apply_lem : (s : EventStream R M) (op : Op R M) → IsBegun s.emitter → AfterCall s op
  apply_lem s (emit_op event) b = apply-emit s event b
  apply_lem s (complete_op event) b = apply_complete s event b
  apply_lem s (fail_op e) b = apply-fail s e b

  apply_all-IsBegun :
      (ops : List (Op R M)) (s : EventStream R M)
      → IsBegun s.emitter
      → IsBegun (apply_all ops s).emitter
  unfolding apply_all
  apply_all-IsBegun [] s b = b
  apply_all-IsBegun (op ∷ ops) s b = apply_all-IsBegun ops (apply op s).1 (apply_lem s op b).0.begun

  started_with-IsBegun :
      (s₀ : EventStream R M) (r : Option MachineError × Emitter R M) (s : EventStream R M)
      → IsBegun r.1
      → (started_with s₀ r).stream ≡ some s
      → IsBegun s.emitter
  unfolding started_with
  started_with-IsBegun s₀ (none, e) s b h =
      let same : with_emitter s₀ e ≡ s = cc in subst (λ x. IsBegun x.emitter) same b
  started_with-IsBegun s₀ (some failure, e) s b h = cc

  pub started-IsBegun :
      (sink : Sink R M) (operation product resource : Text) (total : ℤ) (s : EventStream R M)
      → (start_event_stream sink operation product resource total).stream ≡ some s
      → IsBegun s.emitter
  unfolding start_event_stream emit
  started-IsBegun none operation product resource total s h = let absurd : none ≡ some s = h in cc
  started-IsBegun (some sink) operation product resource total s h =
      let s₀ = fresh (some sink) operation product resource in
      let event = record (event_of started product resource) { total = total } in
      started_with-IsBegun s₀ (deliver s₀.emitter event) s
        (deliver-IsBegun s₀.emitter event refl (idle refl refl refl) refl (inl (refl, refl))) h

  -- One started event first, at most one terminal event, and that last.
  abbrev pub IsLifecycle : List (Event R M) → Type 0
  IsLifecycle events = IsOpen events ⊎ IsClosed events

  IsTrace-cases : (e : Emitter R M) → e.is_started ≡ true → IsTrace e → IsLifecycle e.delivered
  IsTrace-cases e b (idle s m d) = cc
  IsTrace-cases e b (running s m o) = inl o
  IsTrace-cases e b (finished s m c) = inr c

  IsTrace-IsClosed : (e : Emitter R M) → e.is_terminal ≡ true → IsTrace e → IsClosed e.delivered
  IsTrace-IsClosed e b (idle s m d) = cc
  IsTrace-IsClosed e b (running s m o) = cc
  IsTrace-IsClosed e b (finished s m c) = c

  pub terminal-IsClosed :
      (e : Emitter R M)
      → IsBegun e
      → e.is_terminal ≡ true
      → (e.is_terminal ≡ true) × IsClosed e.delivered
  terminal-IsClosed e b t = (t, IsTrace-IsClosed e t b.trace)

  IsTrace→IsLifecycle : (e : Emitter R M) → IsBegun e → IsLifecycle e.delivered
  IsTrace→IsLifecycle e b = IsTrace-cases e b.began b.trace

  -- What one more call makes of a stream.
  pub record IsCall (op : Op R M) (s : EventStream R M) : Type 0 where
    pub refused :
        s.emitter.is_terminal ≡ true
        → (is_some (apply op s).0 ≡ true) × ((apply op s).1.emitter.delivered ≡ s.emitter.delivered)
    pub closes :
        (is_some (apply op s).0 ≡ true) ⊎ (ends_stream op ≡ true)
        → ((apply op s).1.emitter.is_terminal ≡ true) × IsClosed (apply op s).1.emitter.delivered

  -- A stream that `StartEventStream` returned, after any sequence of calls with any sink, has handed
  -- the sink a started event, then events that are neither started nor terminal, and then at most
  -- one terminal event.
  pub stream_events-IsLifecycle :
      (sink : Sink R M) (operation product resource : Text) (total : ℤ) (ops : List (Op R M))
      (s : EventStream R M)
      → (start_event_stream sink operation product resource total).stream ≡ some s
      → IsLifecycle (apply_all ops s).emitter.delivered
  stream_events-IsLifecycle sink operation product resource total ops s h =
      IsTrace→IsLifecycle (apply_all ops s).emitter
        (apply_all-IsBegun ops s (started-IsBegun sink operation product resource total s h))

  -- On such a stream one more call delivers nothing and returns an error if the stream is terminal;
  -- and a call that returns an error, and each call of Complete and Fail, leaves the stream terminal
  -- with a terminal event as the last of its events.
  pub stream_calls-IsCall :
      (sink : Sink R M) (operation product resource : Text) (total : ℤ) (ops : List (Op R M))
      (s : EventStream R M) (op : Op R M)
      → (start_event_stream sink operation product resource total).stream ≡ some s
      → IsCall op (apply_all ops s)
  stream_calls-IsCall sink operation product resource total ops s op h =
      let b = apply_all-IsBegun ops s (started-IsBegun sink operation product resource total s h) in
      let (settled, ended) = apply_lem (apply_all ops s) op b in
      record {
        refused = settled.refuses;
        closes = λ c.
            terminal-IsClosed _ settled.begun
              (elim c [ inl f ↦ settled.settles f | inr t ↦ ended t ]);
      }
