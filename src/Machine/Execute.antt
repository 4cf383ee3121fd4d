-- ===== src/Machine/Execute.antt =====
-- `Execute` of internal/machine/executor.go: a response built from the events of `ExecuteStream`. Of a
-- response the parts that the events set are modelled; the rest is copied from the request. The
-- number of capabilities of a manifest is the parameter `capabilities`.
pub mod Reads
use zscalerctl.Prelude.{ℕ, Option, none, some, List, [], ◌∷◌, ◌++◌, Text, codes, length}
use zscalerctl.Resources.Value.{Value, Fields}
use zscalerctl.Resources.Narrow.{NarrowError}
use zscalerctl.Machine.Types.{
  MachineError, error_of, kind_internal, EventKind, record_event, warning, completed, failed,
  canceled_event, Event,
}
use zscalerctl.Machine.Events.{
  Answer, accepted, returned, by_pointer, Sink, machine_error_with_context,
}
use zscalerctl.Machine.Request.{Request, input_product, input_resource}
use zscalerctl.Machine.Executor.{Executor, execute_stream}

pub record Response (M : Type 0) : Type 0 where
  pub records : Option (List Fields)
  pub manifest : Option M
  pub error : Option MachineError
  pub count : ℕ

-- `responseForRequest`
abbrev pub no_response : {M : Type 0} → Response M
no_response = record { records = none; manifest = none; error = none; count = 0 }

abbrev pub or_empty : Option (List Fields) → List Fields
or_empty none = []
or_empty (some records) = records

module _ {M : Type 0} (capabilities : M → ℕ) where
  abbrev pub add_record : Option Fields → Response M → Response M
  add_record none r = r
  add_record (some content) r = record r { records = some (or_empty r.records ++ (content ∷ [])) }

  abbrev pub add_completion : Option M → Response M → Response M
  add_completion none r = record r {
    records = some (or_empty r.records);
    count = length (or_empty r.records);
  }
  add_completion (some m) r = record r { manifest = some m; count = capabilities m }

  abbrev pub add_error : Option MachineError → Response M → Response M
  add_error none r = r
  add_error (some e) r = record r { error = some e }

  abbrev pub accumulate_kind : EventKind → Event Fields M → Response M → Response M
  accumulate_kind record_event event r = add_record event.payload r
  accumulate_kind completed event r = add_completion event.manifest r
  accumulate_kind failed event r = add_error event.err r
  accumulate_kind canceled_event event r = add_error event.err r
  accumulate_kind _ event r = r

  -- What `accumulateResponseEvent` makes of the response, for each event in turn.
  unfoldable pub accumulate : List (Event Fields M) → Response M → Response M
  accumulate [] r = r
  accumulate (event ∷ events) r = accumulate events (accumulate_kind event.kind event r)

abbrev unrepresentable : {M : Type 0} → Text → Text → Event Fields M → Answer
unrepresentable operation message event = returned (
    by_pointer (
      some (record (error_of kind_internal message) {
        operation = operation;
        product = event.product;
        resource = event.resource;
      })))

abbrev required : {A : Type 0} → Option A → Answer → Answer
required none refusal = refusal
required (some a) refusal = accepted

abbrev answer_kind : {M : Type 0} → Text → EventKind → Event Fields M → Answer
answer_kind operation record_event event =
    required event.payload (unrepresentable operation (codes "record event has no record") event)
answer_kind operation warning event =
    unrepresentable operation (codes "one-shot response cannot represent warning event") event
answer_kind operation failed event =
    required event.err
      (unrepresentable operation (codes "terminal event has no machine error") event)
answer_kind operation canceled_event event =
    required event.err
      (unrepresentable operation (codes "terminal event has no machine error") event)
answer_kind operation _ event = accepted

-- What `accumulateResponseEvent` returns.
abbrev pub accumulator : {M : Type 0} → Text → List (Event Fields M) → Event Fields M → Answer
accumulator operation before event = answer_kind operation event.kind event

abbrev pub with_failure :
    {M : Type 0}
    → Request
    → Option MachineError
    → Option MachineError
    → Response M
    → Response M × Option MachineError
with_failure req (some e) failure r = (r, some e)
with_failure req none none r = (r, none)
with_failure req none (some failure) r =
    let e =
      machine_error_with_context failure req.operation (input_product req) (input_resource req) in
    (record r { error = some e }, some e)

abbrev pub respond :
    {M : Type 0}
    → (M → ℕ)
    → Request
    → Option MachineError × List (Event Fields M)
    → Response M × Option MachineError
respond capabilities req (failure, events) =
    let r = accumulate capabilities events no_response in with_failure req r.error failure r

module _ {M : Type 0} (capabilities : M → ℕ) (sprint : Value → Text) (scan : Text → Text)
    (unread : Text → Text → Option Text) (narrow_text : NarrowError → Text) where
  unfoldable pub execute : Executor M → Request → Response M × Option MachineError
  unfolding execute_stream accumulate
  execute e req =
      respond capabilities req
        (execute_stream sprint scan unread narrow_text e req (some (accumulator req.operation)))
