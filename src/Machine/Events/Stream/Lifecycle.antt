-- ===== src/Machine/Events/Stream/Lifecycle.antt =====
-- The order of the events that a stream hands to its sink: what `emit` keeps.
use zscalerctl.Prelude.{
  Bool, true, false, not, ◌&&◌, ◌||◌, ◌≡◌, refl, ap, ◌⊎◌, inl, inr, Option, List, [], ◌∷◌, ◌++◌,
  is_some, if◌then◌else◌, All, All-append, arith, Bool-cases,
}
use zscalerctl.Machine.Types.{MachineError, EventKind, started, Event}
use zscalerctl.Machine.Events.{Emitter, is_started_event, is_terminal_event, deliver, emit}

is_started→started : (k : EventKind) → is_started_event k ≡ true → k ≡ started
is_started→started started h = refl
is_started→started _ h = cc

-- The tests of `emit`, in order.
pub gate {ℓ} :
    {A : Type ℓ} (P : A → Type 0) {r₁ r₂ r₃ r₄ d : A} (sink over began starts : Bool)
    → (sink ≡ false → P r₁)
    → (over ≡ true → P r₂)
    → (began ≡ false → P r₃)
    → (starts ≡ true → P r₄)
    → (over ≡ false
        → ((began ≡ false) × (starts ≡ true)) ⊎ ((began ≡ true) × (starts ≡ false))
        → P d)
    → P (
        if not sink
        then r₁
        else if over
        then r₂
        else if not began && not starts
        then r₃
        else if began && starts
        then r₄
        else d)
gate P false over began starts h₁ h₂ h₃ h₄ k = h₁ refl
gate P true true began starts h₁ h₂ h₃ h₄ k = h₂ refl
gate P true false false false h₁ h₂ h₃ h₄ k = h₃ refl
gate P true false false true h₁ h₂ h₃ h₄ k = k refl (inl (refl, refl))
gate P true false true false h₁ h₂ h₃ h₄ k = k refl (inr (refl, refl))
gate P true false true true h₁ h₂ h₃ h₄ k = h₄ refl

began-order :
    (began starts : Bool)
    → ((began ≡ false) × (starts ≡ true)) ⊎ ((began ≡ true) × (starts ≡ false))
    → (began || starts) ≡ true
began-order true starts h = refl
began-order false starts (inl (_, h)) = h
began-order false starts (inr (h, _)) = cc

pub either {ℓ} :
    {A : Type ℓ} (P : A → Type 0) {x y : A} (b : Bool) → P x → P y → P (if b then x else y)
either P true hx hy = hx
either P false hx hy = hy

module _ {R M : Type 0} where
  abbrev pub IsMiddle : Event R M → Type 0
  IsMiddle event = (is_started_event event.kind ≡ false) × (is_terminal_event event.kind ≡ false)

  -- A started event and then neither started nor terminal ones.
  pub record IsOpen (events : List (Event R M)) : Type 0 where
    pub first : Event R M
    pub rest : List (Event R M)
    pub splits : events ≡ first ∷ rest
    pub starts : first.kind ≡ started
    pub middles : All IsMiddle rest

  -- Such a list with one terminal event behind it.
  pub record IsClosed (events : List (Event R M)) : Type 0 where
    pub before : List (Event R M)
    pub last : Event R M
    pub splits : events ≡ before ++ last ∷ []
    pub opened : IsOpen before
    pub ends : is_terminal_event last.kind ≡ true

  -- What the emitter's flags say of the events that it has delivered.
  pub data IsTrace (e : Emitter R M) : Type 0 where
    idle : e.is_started ≡ false → e.is_terminal ≡ false → e.delivered ≡ [] → IsTrace e
    running : e.is_started ≡ true → e.is_terminal ≡ false → IsOpen e.delivered → IsTrace e
    finished : e.is_started ≡ true → e.is_terminal ≡ true → IsClosed e.delivered → IsTrace e

  -- The event may be delivered: it is started exactly if nothing was.
  abbrev InOrder : Emitter R M → Event R M → Type 0
  InOrder e event =
      ((e.is_started ≡ false) × (is_started_event event.kind ≡ true))
      ⊎ ((e.is_started ≡ true) × (is_started_event event.kind ≡ false))

  IsOpen-append :
      (es : List (Event R M)) (event : Event R M)
      → IsOpen es
      → IsMiddle event
      → IsOpen (es ++ event ∷ [])
  IsOpen-append es event o m = record {
    first = o.first;
    rest = o.rest ++ event ∷ [];
    splits = ap (λ l. l ++ event ∷ []) o.splits;
    starts = o.starts;
    middles = All-append IsMiddle o.rest (event ∷ []) o.middles (m, tt);
  }

  deliver-IsTrace :
      (e : Emitter R M) (event : Event R M)
      → IsTrace e
      → e.is_terminal ≡ false
      → InOrder e event
      → IsTrace (deliver e event).1
  unfolding deliver
  deliver-IsTrace e event (idle s m d) live (inl (_, first)) =
      let k : event.kind ≡ started = is_started→started event.kind first in
      running (ground arith) (ground arith) (record {
        first = event;
        rest = [];
        splits = ap (λ l. l ++ event ∷ []) d;
        starts = k;
        middles = tt;
      })
  deliver-IsTrace e event (idle s m d) live (inr (s', _)) = cc
  deliver-IsTrace e event (running s m o) live (inl (s', _)) = cc
  deliver-IsTrace e event (running s m o) live (inr (_, later)) =
      elim (Bool-cases (is_terminal_event event.kind)) [
        | inl ends ↦
            finished (ground arith) (ground arith) (record {
              before = e.delivered;
              last = event;
              splits = refl;
              opened = o;
              ends = ends;
            })
        | inr goes_on ↦
            running (ground arith) (ground arith)
              (IsOpen-append e.delivered event o (later, goes_on))
      ]
  deliver-IsTrace e event (finished s m c) live order = cc

  -- An emitter with a sink, whose started event is delivered.
  pub record IsBegun (e : Emitter R M) : Type 0 where
    pub has_sink : is_some e.sink ≡ true
    pub began : e.is_started ≡ true
    pub trace : IsTrace e

  pub deliver-IsBegun :
      (e : Emitter R M) (event : Event R M)
      → is_some e.sink ≡ true
      → IsTrace e
      → e.is_terminal ≡ false
      → InOrder e event
      → IsBegun (deliver e event).1
  unfolding deliver
  deliver-IsBegun e event h t live order = record {
    has_sink = h;
    began = began-order e.is_started (is_started_event event.kind) order;
    trace = deliver-IsTrace e event t live order;
  }

  pub emit-IsBegun : (e : Emitter R M) (event : Event R M) → IsBegun e → IsBegun (emit e event).1
  unfolding emit
  emit-IsBegun e event b =
      gate {A = Option MachineError × Emitter R M} (λ r. IsBegun r.1) (is_some e.sink) e.is_terminal
        e.is_started (is_started_event event.kind) (λ _. b) (λ _. b) (λ _. b) (λ _. b)
        (λ live order. deliver-IsBegun e event b.has_sink b.trace live order)
