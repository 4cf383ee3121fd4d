-- ===== src/Machine/Events/Stream/Tests.antt =====
-- Runs of an event stream.
use zscalerctl.Prelude.{ℕ, true, ◌≡◌, refl, some, List, [], ◌∷◌, codes}
use zscalerctl.Prelude.Int.{pos}
use zscalerctl.Machine.Types.{error_of, kind_internal, started, progress, unset, Event, event_of}
use zscalerctl.Machine.Events.{Answer, accepted, returned, foreign, EventStream}
use zscalerctl.Machine.Events.Stream.{start_event_stream, fresh, with_emitter}
use zscalerctl.Machine.Events.Stream.Order.{
  Op, emit_op, complete_op, fail_op, apply_all, IsLifecycle, IsCall, stream_events-IsLifecycle,
  stream_calls-IsCall,
}

-- Refuses the third event.
abbrev third_refused : List (Event ℕ ℕ) → Event ℕ ℕ → Answer
third_refused (e ∷ f ∷ []) event = returned foreign
third_refused _ event = accepted

abbrev step : Op ℕ ℕ
step = emit_op (record (event_of progress [] []) { done = pos 1; total = pos 2 })

abbrev calls : List (Op ℕ ℕ)
calls = step ∷ step ∷ step ∷ complete_op (event_of unset [] []) ∷ []

abbrev opened : EventStream ℕ ℕ
opened =
    let s = fresh (some third_refused) (codes "list") (codes "zia") (codes "locations") in
    with_emitter s (record s.emitter {
      is_started = true;
      delivered =
          record (event_of started (codes "zia") (codes "locations")) { total = pos 2 } ∷ [];
    })

opened-started :
    (start_event_stream
      (some third_refused)
      (codes "list")
      (codes "zia")
      (codes "locations")
      (pos 2)).stream
    ≡ some opened
unfolding start_event_stream
opened-started = refl

stream_events-IsLifecycle_example : IsLifecycle (apply_all calls opened).emitter.delivered
stream_events-IsLifecycle_example =
    stream_events-IsLifecycle (some third_refused) (codes "list") (codes "zia") (codes "locations")
      (pos 2) calls opened opened-started

stream_calls-IsCall_example :
    IsCall (fail_op (error_of kind_internal (codes "read failed"))) (apply_all calls opened)
stream_calls-IsCall_example =
    stream_calls-IsCall (some third_refused) (codes "list") (codes "zia") (codes "locations")
      (pos 2) calls opened (fail_op (error_of kind_internal (codes "read failed"))) opened-started
