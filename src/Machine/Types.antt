-- ===== src/Machine/Types.antt =====
-- internal/machine/types.go, the event type of events.go, and the failure detail of failure.go.
use zscalerctl.Prelude.{Bool, false, Option, none, List, [], Text, codes, is_empty, if◌then◌else◌}
use zscalerctl.Prelude.Int.{ℤ, pos}

pub record FailureDetail : Type 0 where
  pub reason : Text
  pub status : ℤ
  pub retryable : Bool
  pub note : Text

abbrev pub no_detail : FailureDetail
no_detail = record { reason = []; status = pos 0; retryable = false; note = [] }

-- The sentinel errors that a load error can wrap.
pub data Sentinel : Type 0 where
  canceled deadline_exceeded unknown_resource record_not_found invalid_resource_id : Sentinel
  missing_id unknown_field suppressed_field unsupported_load mutating_operation : Sentinel

pub record MachineError : Type 0 where
  pub kind : Text
  pub message : Text
  pub missing : List Text
  pub operation : Text
  pub product : Text
  pub resource : Text
  pub detail : FailureDetail
  pub cause : Option Sentinel

-- A literal that sets the kind and the message only.
abbrev pub error_of : Text → Text → MachineError
error_of kind message = record {
  kind = kind;
  message = message;
  missing = [];
  operation = [];
  product = [];
  resource = [];
  detail = no_detail;
  cause = none;
}

abbrev pub kind_internal : Text
kind_internal = codes "internal"

abbrev pub kind_canceled : Text
kind_canceled = codes "canceled"

-- `EventKind` is a string: `unset` is the empty one, and `other` any that the code does not name.
pub data EventKind : Type 0 where
  unset started progress record_event warning completed failed canceled_event : EventKind
  other : Text → EventKind

-- `R` stands for a projected record and `M` for a manifest. A typed result is its records. Values are
-- immutable here, so `copyEventForSink` and `copyMachineError` are the identity.
pub record Event (R M : Type 0) : Type 0 where
  pub kind : EventKind
  pub product : Text
  pub resource : Text
  pub done : ℤ
  pub total : ℤ
  pub payload : Option R
  pub manifest : Option M
  pub err : Option MachineError
  pub records : ℤ
  pub resources : ℤ
  pub warnings : ℤ
  pub resource_result : Option (List R)

-- A literal that sets the kind and the scope only.
abbrev pub event_of : {R M : Type 0} → EventKind → Text → Text → Event R M
event_of kind product resource = record {
  kind = kind;
  product = product;
  resource = resource;
  done = pos 0;
  total = pos 0;
  payload = none;
  manifest = none;
  err = none;
  records = pos 0;
  resources = pos 0;
  warnings = pos 0;
  resource_result = none;
}

abbrev pub or_default : Text → Text → Text
or_default s d = if is_empty s then d else s
