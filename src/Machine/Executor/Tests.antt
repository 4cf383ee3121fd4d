-- ===== src/Machine/Executor/Tests.antt =====
-- Runs of the executor on one record.
use zscalerctl.Prelude.{
  ℕ, true, ◌≡◌, refl, Option, none, some, List, [], ◌∷◌, Text, codes, ok, list_beq, length,
  trim_space,
}
use zscalerctl.Prelude.Int.{pos}
use zscalerctl.Resources.Spec.{mode_standard}
use zscalerctl.Resources.Value.{Value, str, Fields, no_entries, entry}
use zscalerctl.Resources.Narrow.{NarrowError}
use zscalerctl.Machine.Types.{Event, event_of, started}
use zscalerctl.Machine.Events.{Answer, accepted, EventStream}
use zscalerctl.Machine.Events.Stream.{start_event_stream, fresh, with_emitter}
use zscalerctl.Machine.Events.Stream.Lifecycle.{IsClosed}
use zscalerctl.Machine.Request.{Request, input_product, input_resource}
use zscalerctl.Machine.Executor.{Loader, Executor, preflight, execute_stream}
use zscalerctl.Machine.Executor.{read_with, read_records}
use zscalerctl.Machine.Execute.{execute}
use zscalerctl.Machine.Execute.Reads.{response_of, execute-read}
use zscalerctl.Machine.Executor.Ends.{execute_stream-IsClosed}
use zscalerctl.Machine.Executor.Succeeds.{Succeeded, execute_stream-Succeeded}

abbrev one_record : Loader
one_record = record {
  list_projected = λ product resource. ok (entry (codes "id") (str (codes "7")) no_entries ∷ []);
  show_projected = λ product resource. ok [];
  get_projected_by_id = none;
}

abbrev executor : Executor ℕ
executor = record {
  browser = some one_record;
  catalog = [];
  redaction = mode_standard;
  manifest = 0;
}

abbrev list_request : Request
list_request = record {
  capability = codes "resources.read";
  operation = codes "list";
  input = some (record {
    product = codes " zia";
    resource = codes "locations";
    record_id = [];
    fields = [];
    filters = [];
    search = [];
  });
}

abbrev same_text : Text → Text
same_text s = s

abbrev no_print : Value → Text
no_print v = []

abbrev no_gap : Text → Text → Option Text
no_gap product resource = none

abbrev no_narrow_text : NarrowError → Text
no_narrow_text e = []

abbrev accepting : List (Event Fields ℕ) → Event Fields ℕ → Answer
accepting events event = accepted

abbrev opened : EventStream Fields ℕ
opened =
    let s = fresh (some accepting) (codes "list") (codes "zia") (codes "locations") in
    with_emitter s (record s.emitter {
      is_started = true;
      delivered = event_of started (codes "zia") (codes "locations") ∷ [];
    })

opened-started :
    (start_event_stream
      (some accepting)
      list_request.operation
      (input_product list_request)
      (input_resource list_request)
      (pos 0)).stream
    ≡ some opened
unfolding start_event_stream trim_space
opened-started = refl

quiet_run :
    (execute_stream no_print same_text no_gap no_narrow_text executor list_request
      (some accepting)).0
    ≡ none
unfolding execute_stream list_beq trim_space
quiet_run = refl

-- A started event, the record, and the completion.
events_run :
    length
      (execute_stream no_print same_text no_gap no_narrow_text executor list_request
        (some accepting)).1
    ≡ 3
unfolding execute_stream list_beq trim_space
events_run = refl

execute_stream-IsClosed_example :
    IsClosed
      (execute_stream no_print same_text no_gap no_narrow_text executor list_request
        (some accepting)).1
execute_stream-IsClosed_example =
    execute_stream-IsClosed no_print same_text no_gap no_narrow_text executor list_request
      (some accepting) opened opened-started

execute_stream-Succeeded_example :
    Succeeded no_print same_text no_gap no_narrow_text executor list_request
      (some accepting)
      (preflight no_print same_text no_gap no_narrow_text executor list_request)
      (execute_stream no_print same_text no_gap no_narrow_text executor list_request
        (some accepting)).1
execute_stream-Succeeded_example =
    execute_stream-Succeeded no_print same_text no_gap no_narrow_text executor list_request
      (some accepting) opened opened-started quiet_run

abbrev read_list : List Fields
read_list = entry (codes "id") (str (codes "7")) no_entries ∷ []

accepted_run :
    preflight no_print same_text no_gap no_narrow_text executor list_request
    ≡ ok (read_with one_record)
unfolding preflight list_beq trim_space
accepted_run = refl

loaded_run :
    read_records no_print same_text no_gap no_narrow_text executor list_request one_record
    ≡ ok read_list
unfolding read_records list_beq
loaded_run = refl

abbrev no_capabilities : ℕ → ℕ
no_capabilities m = 0

execute-read_example :
    execute no_capabilities no_print same_text no_gap no_narrow_text executor list_request ≡ (
      response_of no_capabilities no_print same_text no_gap no_narrow_text executor list_request
          read_list,
      none,
    )
execute-read_example =
    execute-read no_capabilities no_print same_text no_gap no_narrow_text executor list_request
      one_record read_list accepted_run loaded_run
