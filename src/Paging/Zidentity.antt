-- ===== src/Paging/Zidentity.antt =====
-- `readAllZidentityPages` of internal/zscaler/reader_zidentity_pagination.go. The offsets of one
-- walk increase, so what the server answers is a function of the offset and the limit.
pub mod Complete
mod Tests
use zscalerctl.Prelude.{
  ℕ, suc, ◌+◌, Bool, true, not, ◌&&◌, Option, none, some, List, [], ◌∷◌, ◌++◌, Text, Result, ok,
  err, ◌>>=◌, ◌>>◌, refuse_if, ltb, leb, ◌==◌, if◌then◌else◌, is_empty, trim_space, contains,
  text_eq, length,
}
use zscalerctl.Prelude.Int.{ℤ, is_negative, is_nat, to_nat}
use zscalerctl.Prelude.Loop.{Turn, continue, stop, rounds}
use zscalerctl.Paging.{Encoding, fingerprint_page}

abbrev pub zidentity_page_limit : ℕ
zidentity_page_limit = 1000

abbrev pub zidentity_max_pages : ℕ
zidentity_max_pages = 1000

pub record Page (T : Type 0) : Type 0 where
  pub records : List T
  pub results_total : ℤ
  pub page_offset : ℤ
  pub page_size : ℤ
  pub next_link : Text

-- Each refusal with the numbers of its message.
pub data Failure (E : Type 0) : Type 0 where
  over_ceiling : ℕ → Failure E
  fetch_failed : ℕ → E → Failure E
  wrong_offset : ℕ → ℤ → Failure E
  invalid_total : ℤ → ℕ → Failure E
  invalid_page_size : ℤ → ℕ → Failure E
  over_page_size : ℕ → ℕ → ℤ → Failure E
  fingerprint_failed : ℕ → Failure E
  repeated_content : ℕ → Failure E
  total_changed : ℕ → ℤ → ℕ → Failure E
  over_total : ℕ → ℕ → Failure E
  link_after_total : ℕ → ℕ → Failure E
  ended_short : ℕ → ℕ → ℤ → ℕ → Failure E
  no_progress : ℕ → Failure E
  not_advanced : ℕ → ℕ → Failure E

-- The variables of the loop.
pub record Walk (T : Type 0) : Type 0 where
  pub all : List T
  pub offset : ℕ
  pub declared_total : ℕ
  pub seen : List Text

abbrev pub start : {T : Type 0} → Walk T
start = record { all = []; offset = 0; declared_total = 0; seen = [] }

abbrev pub or_fail : {E : Type 0} → Option Text → E → Result E Text
or_fail none failure = err failure
or_fail (some fingerprint) failure = ok fingerprint

-- `hasNext`
abbrev pub has_next : {T : Type 0} → Page T → Bool
has_next p = not (is_empty (trim_space p.next_link))

module _ {T E : Type 0} where
  -- The checks of one page, and the variables after it was collected.
  pub collect : Encoding T → Walk T → Page T → Result (Failure E) (Walk T)
  collect enc w p = do
    let total = to_nat p.results_total
    refuse_if (not (is_nat p.page_offset w.offset)) (wrong_offset w.offset p.page_offset)
    refuse_if (is_negative p.results_total) (invalid_total p.results_total w.offset)
    refuse_if (is_negative p.page_size) (invalid_page_size p.page_size w.offset)
    refuse_if (ltb 0 (to_nat p.page_size) && ltb (to_nat p.page_size) (length p.records))
        (over_page_size (length p.records) w.offset p.page_size)
    fingerprint ← or_fail (fingerprint_page enc p.records) (fingerprint_failed w.offset)
    refuse_if (contains w.seen fingerprint) (repeated_content w.offset)
    refuse_if (ltb 0 total && (ltb 0 w.declared_total && not (total == w.declared_total)))
        (total_changed w.declared_total p.results_total w.offset)
    let declared = if ltb 0 total then total else w.declared_total
    refuse_if (ltb 0 declared && ltb declared (length (w.all ++ p.records)))
        (over_total (length (w.all ++ p.records)) declared)
    ok (record w {
      all = w.all ++ p.records;
      declared_total = declared;
      seen = fingerprint ∷ w.seen;
    })

  pub advance : Walk T → Page T → Turn (Walk T) (Result (Failure E) (List T))
  advance w p =
      if is_empty p.records
      then stop (err (no_progress w.offset))
      else if leb (w.offset + length p.records) w.offset
      then stop (err (not_advanced w.offset (length p.records)))
      else continue (record w { offset = w.offset + length p.records })

  -- Whether the walk is over, once the page is collected.
  pub proceed : Page T → Result (Failure E) (Walk T) → Turn (Walk T) (Result (Failure E) (List T))
  unfolding advance
  proceed p (err failure) = stop (err failure)
  proceed p (ok w) =
      if ltb 0 w.declared_total
      then if length w.all == w.declared_total
        then stop
            (if has_next p then err (link_after_total w.declared_total w.offset) else ok w.all)
        else if not (has_next p)
        then stop (err (ended_short (length w.all) w.offset p.page_size w.declared_total))
        else advance w p
      else if not (has_next p)
      then stop (ok w.all)
      else advance w p

  pub page : Encoding T → Walk T → Result E (Page T) → Turn (Walk T) (Result (Failure E) (List T))
  unfolding collect proceed
  page enc w (err e) = stop (err (fetch_failed w.offset e))
  page enc w (ok p) = proceed p (collect enc w p)

  pub turn :
      Encoding T
      → (ℕ → ℕ → Result E (Page T))
      → ℕ
      → Walk T
      → Turn (Walk T) (Result (Failure E) (List T))
  unfolding page
  turn enc fetch k w = page enc w (fetch w.offset zidentity_page_limit)

  abbrev pub at_ceiling : ℕ → Walk T → Result (Failure E) (List T)
  at_ceiling k w = err (over_ceiling w.offset)

  pub read_all_zidentity_pages :
      Encoding T → (ℕ → ℕ → Result E (Page T)) → Result (Failure E) (List T)
  unfolding turn
  read_all_zidentity_pages enc fetch =
      rounds (turn enc fetch) at_ceiling zidentity_max_pages 0 start
