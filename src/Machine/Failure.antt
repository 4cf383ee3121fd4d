-- ===== src/Machine/Failure.antt =====
-- The detail of a failed load, in internal/machine/failure.go.
use zscalerctl.Prelude.{
  ℕ, zero, suc, Bool, true, false, not, ◌&&◌, Option, none, some, ◌++◌, Text, codes, text_beq,
  is_empty, if◌then◌else◌,
}
use zscalerctl.Prelude.Int.{ℤ, pos, negsuc, int_text}
use zscalerctl.Machine.Types.{FailureDetail, no_detail, Sentinel, deadline_exceeded, MachineError}

-- What the code asks of the error of a load: whether it holds a MachineError, by pointer or by value,
-- which sentinels it wraps, its own failure detail, and its text.
pub record LoadError : Type 0 where
  pub by_pointer : Option MachineError
  pub by_value : Option MachineError
  pub wraps : Sentinel → Bool
  pub detailer : Option FailureDetail
  pub text : Text

abbrev detail_in : Option MachineError → Option FailureDetail
detail_in none = none
detail_in (some e) = if is_empty e.detail.reason then none else some e.detail

abbrev or_detail : Option FailureDetail → FailureDetail → FailureDetail
or_detail none d = d
or_detail (some d) _ = d

-- `FailureDetailOf`
unfoldable pub failure_detail_of : LoadError → FailureDetail
failure_detail_of e = or_detail (detail_in e.by_pointer) (
    or_detail (detail_in e.by_value) (
      if e.wraps deadline_exceeded
      then record no_detail { reason = codes "timeout"; retryable = true }
      else or_detail e.detailer no_detail))

abbrev is_positive : ℤ → Bool
is_positive (pos zero) = false
is_positive (pos (suc n)) = true
  where
    is_zero : ℕ → Bool
    is_zero ℕ.zero = true
    is_zero (ℕ.suc n) = false
is_positive (negsuc n) = false

-- `Describe`
unfoldable pub describe : FailureDetail → Text → Text
unfolding int_text
describe d message =
    if is_empty d.reason
    then message
    else let base = message ++ (codes ": " ++ d.reason) in
      let full =
        if is_positive d.status
        then base ++ (codes " (HTTP " ++ (int_text d.status ++ codes ")"))
        else base in
      if is_empty d.note then full else full ++ (codes ": " ++ d.note)

-- `AttachFailure`
unfoldable pub attach_failure : MachineError → LoadError → MachineError
unfolding failure_detail_of describe
attach_failure e cause =
    let live = text_beq e.kind (codes "live_access_failed") in
    let detail = failure_detail_of cause in
    if not live && not (text_beq e.kind (codes "deadline_exceeded"))
    then e
    else if not (is_empty e.detail.reason)
    then e
    else if live
    then record e { detail = detail; message = describe detail e.message }
    else record e { detail = detail }
