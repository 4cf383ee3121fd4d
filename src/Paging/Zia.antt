-- ===== src/Paging/Zia.antt =====
-- `ziaWalkPages`, `ziaIgnoresPaging` and `ziaPaginate` of internal/zscaler/reader_zia.go. A page is
-- asked for once with the walk's size, and page 1 once more with a smaller one, so what the server
-- answers is a function of the page number and the size.

pub mod Complete
pub mod Identities
mod Tests
use zscalerctl.Prelude.{
  ℕ, suc, ◌+◌, ◌-◌, Bool, true, false, ◌&&◌, Option, none, some, List, [], ◌∷◌, ◌++◌, Text, Result,
  ok, err, ltb, leb, ◌==◌, if◌then◌else◌, is_empty, contains, text_eq, length,
}
use zscalerctl.Prelude.Loop.{Turn, continue, stop, rounds}
use zscalerctl.Paging.{Encoding, fingerprint_page}
use zscalerctl.Paging.Canonical.{
  RecordEncoding, pagination_record_identity, PageSummary, same_records, summarize_page,
}

abbrev pub zia_max_pages : ℕ
zia_max_pages = 1000

-- Each refusal with the numbers of its message.
pub data Failure (E : Type 0) : Type 0 where
  bad_page_size : ℕ → Failure E
  over_ceiling : ℕ → Failure E
  fetch_failed : E → Failure E
  width_changed : ℕ → ℕ → ℕ → Failure E
  fingerprint_failed : ℕ → Failure E
  summary_failed : ℕ → Failure E
  probe_failed : Failure E
  may_be_capped : Failure E
  repeated_content : ℕ → Failure E
  identity_failed : ℕ → Failure E
  duplicate_identity : ℕ → ℕ → ℕ → ℕ → Failure E

-- The variables of the loop, and `V` for what the callback `visitPage` has collected. `first_page`
-- is the zero summary in the source before page 1 sets it.
pub record Walk (V : Type 0) : Type 0 where
  pub effective_page_size : ℕ
  pub records_seen : ℕ
  pub page_fingerprints : List Text
  pub record_identities : List Text
  pub first_page : PageSummary
  pub visited : V

-- The error, if any, and what the callback has collected.
abbrev pub Outcome : Type 0 → Type 0 → Type 0
Outcome V E = Option (Failure E) × V

module _ {V E : Type 0} where
  abbrev pub fail : Walk V → Failure E → Turn (Walk V) (Outcome V E)
  fail w failure = stop (some failure, w.visited)

  abbrev pub done : Walk V → Turn (Walk V) (Outcome V E)
  done w = stop (none, w.visited)

pub record Scan : Type 0 where
  pub identities : List Text
  pub repeated : ℕ

abbrev note_identity : Option Text → Scan → Scan
note_identity none s = s
note_identity (some identity) s =
    if contains s.identities identity
    then record s { repeated = s.repeated + 1 }
    else record s { identities = identity ∷ s.identities }

abbrev continue_scan : Option (Option Text) → Scan → (Scan → Option Scan) → Option Scan
continue_scan none s rest = none
continue_scan (some identity) s rest = rest (note_identity identity s)

module _ {T : Type 0} (enc : RecordEncoding T) where
  -- The loop over the identities of a page; `none` is an error.
  pub scan_identities : List T → Scan → Option Scan
  scan_identities [] s = some s
  scan_identities (item ∷ items) s =
      continue_scan (pagination_record_identity enc item) s (scan_identities items)

module _ {T E : Type 0} (enc : RecordEncoding T) (fetch : ℕ → ℕ → Result E (List T)) where
  probed : PageSummary → Option PageSummary → Result (Failure E) Bool
  probed first_page none = err probe_failed
  probed first_page (some summary) = ok (same_records summary first_page)

  probe : PageSummary → Result E (List T) → Result (Failure E) Bool
  unfolding probed
  probe first_page (err e) = err (fetch_failed e)
  probe first_page (ok items) = probed first_page (summarize_page enc items)

  pub zia_ignores_paging : PageSummary → Result (Failure E) Bool
  unfolding probe
  zia_ignores_paging first_page =
      if leb first_page.records 1
      then ok true
      else probe first_page (fetch 1 (first_page.records - 1))

module _ {T V E : Type 0} (enc : RecordEncoding T) (fetch : ℕ → ℕ → Result E (List T))
    (visit_page : V → List T → V × Bool) (page_size : ℕ) where
  pub after_visit : ℕ → List T → Walk V → Bool → Turn (Walk V) (Outcome V E)
  after_visit page items w true = done w
  after_visit page items w false =
      if ltb 1 page && ltb (length items) w.effective_page_size then done w else continue w

  pub visit : ℕ → List T → Walk V → Option Scan → Turn (Walk V) (Outcome V E)
  unfolding after_visit
  visit page items w none = fail w (identity_failed page)
  visit page items w (some s) =
      if ltb 0 s.repeated
      then fail w (duplicate_identity page s.repeated (length items) w.first_page.records)
      else let (visited, stops) = visit_page w.visited items in
        after_visit page items
          (record w {
            record_identities = s.identities;
            records_seen = w.records_seen + length items;
            visited = visited;
          })
          stops

  pub accept : ℕ → List T → Walk V → Text → Turn (Walk V) (Outcome V E)
  unfolding visit scan_identities
  accept page items w fingerprint =
      if contains w.page_fingerprints fingerprint
      then fail w (repeated_content page)
      else visit page items (record w { page_fingerprints = fingerprint ∷ w.page_fingerprints })
          (scan_identities enc items (record { identities = w.record_identities; repeated = 0 }))

  ignored : Walk V → Result (Failure E) Bool → Turn (Walk V) (Outcome V E)
  ignored w (err failure) = fail w failure
  ignored w (ok complete) = if complete then done w else fail w may_be_capped

  pub compare_first : ℕ → List T → Walk V → Text → Option PageSummary → Turn (Walk V) (Outcome V E)
  unfolding accept ignored zia_ignores_paging
  compare_first page items w fingerprint none = fail w (summary_failed page)
  compare_first page items w fingerprint (some summary) =
      if page == 1
      then accept page items (record w { first_page = summary }) fingerprint
      else if page == 2 && (ltb w.first_page.records page_size && same_records summary w.first_page)
      then ignored w (zia_ignores_paging enc fetch w.first_page)
      else accept page items w fingerprint

  pub inspect : ℕ → List T → Walk V → Option Text → Turn (Walk V) (Outcome V E)
  unfolding compare_first
  inspect page items w none = fail w (fingerprint_failed page)
  inspect page items w (some fingerprint) =
      compare_first page items w fingerprint (summarize_page enc items)

  pub receive : ℕ → Walk V → Result E (List T) → Turn (Walk V) (Outcome V E)
  unfolding inspect
  receive page w (err e) = fail w (fetch_failed e)
  receive page w (ok items) =
      if is_empty items
      then done w
      else if w.effective_page_size == 0
      then inspect page items (record w { effective_page_size = length items })
          (fingerprint_page enc.pages items)
      else if ltb w.effective_page_size (length items)
      then fail w (width_changed w.effective_page_size (length items) page)
      else inspect page items w (fingerprint_page enc.pages items)

  -- One round; the loop's index is one below the page number.
  pub turn : ℕ → Walk V → Turn (Walk V) (Outcome V E)
  unfolding receive
  turn k w = receive (suc k) w (fetch (suc k) page_size)

  abbrev pub at_ceiling : ℕ → Walk V → Outcome V E
  at_ceiling k w = (some (over_ceiling w.records_seen), w.visited)

  abbrev pub start : V → Walk V
  start v = record {
    effective_page_size = 0;
    records_seen = 0;
    page_fingerprints = [];
    record_identities = [];
    first_page = record { records = 0; contents = [] };
    visited = v;
  }

  pub zia_walk_pages : V → Outcome V E
  unfolding turn
  zia_walk_pages v =
      if page_size == 0
      then (some (bad_page_size page_size), v)
      else rounds turn at_ceiling zia_max_pages 0 (start v)

abbrev pub collect : {T : Type 0} → List T → List T → List T × Bool
collect all items = (all ++ items, false)

abbrev pub collected : {T E : Type 0} → Outcome (List T) E → Result (Failure E) (List T)
collected (some failure, all) = err failure
collected (none, all) = ok all

pub zia_paginate :
    {T E : Type 0}
    → RecordEncoding T
    → ℕ
    → (ℕ → ℕ → Result E (List T))
    → Result (Failure E) (List T)
unfolding zia_walk_pages
zia_paginate enc page_size fetch = collected (zia_walk_pages enc fetch collect page_size [])
