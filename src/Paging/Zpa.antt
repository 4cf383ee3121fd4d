-- ===== src/Paging/Zpa.antt =====
-- `zpaPaginate` of internal/zscaler/reader_zpa_pagination.go. Each page number is asked for once,
-- so what the server answers is a function of the page number and the size.
pub mod Complete
pub mod Progress
mod Tests
use zscalerctl.Prelude.{
  ℕ, suc, Bool, ◌&&◌, Option, none, some, List, [], ◌∷◌, ◌++◌, Text, Result, ok, err, ltb, leb,
  ◌==◌, if◌then◌else◌, is_empty, contains, text_eq, length,
}
use zscalerctl.Prelude.Loop.{Turn, continue, stop, rounds}
use zscalerctl.Paging.{Encoding, fingerprint_page}

abbrev pub zpa_page_size : ℕ
zpa_page_size = 500

abbrev pub zpa_max_pages : ℕ
zpa_max_pages = 1000

-- `R` stands for `*http.Response`. `total_pages` has passed `parseZPATotalPages`, which refuses
-- what is negative.
pub record Page (T R : Type 0) : Type 0 where
  pub records : List T
  pub total_pages : ℕ
  pub response : Option R

-- The answer of `fetchPage`.
pub data Fetched (T R E : Type 0) : Type 0 where
  served : Page T R → Fetched T R E
  refused : Option R → E → Fetched T R E

-- Each refusal with the numbers of its message.
pub data Failure (E : Type 0) : Type 0 where
  over_ceiling : ℕ → Failure E
  fetch_failed : E → Failure E
  declared_over_ceiling : ℕ → Failure E
  zero_pages_with_records : ℕ → Failure E
  total_changed : ℕ → ℕ → ℕ → Failure E
  empty_page : ℕ → ℕ → Failure E
  fingerprint_failed : ℕ → Failure E
  repeated_content : ℕ → ℕ → Failure E

abbrev pub Outcome : Type 0 → Type 0 → Type 0 → Type 0
Outcome T R E = Result (Failure E) (List T) × Option R

-- The variables of the loop. `expected` is -1 in the source before the first page sets it.
pub record Walk (T R : Type 0) : Type 0 where
  pub expected : ℕ
  pub seen : List Text
  pub all : List T
  pub last : Option R

abbrev pub start : {T R : Type 0} → Walk T R
start = record { expected = 0; seen = []; all = []; last = none }

module _ {T R E : Type 0} where
  -- The checks of `totalPages`, on the first page and on later ones.
  pub declared : ℕ → Walk T R → Page T R → Turn ℕ (Result (Failure E) (List T))
  declared n w p =
      if n == 1
      then if ltb zpa_max_pages p.total_pages
        then stop (err (declared_over_ceiling p.total_pages))
        else if p.total_pages == 0
        then stop (
            if is_empty p.records
            then ok w.all
            else err (zero_pages_with_records (length p.records)))
        else continue p.total_pages
      else if p.total_pages == w.expected
      then continue w.expected
      else stop (err (total_changed w.expected p.total_pages n))

  pub keep : ℕ → Walk T R → Page T R → ℕ → Option Text → Turn (Walk T R) (Outcome T R E)
  keep n w p expected none = stop (err (fingerprint_failed n), p.response)
  keep n w p expected (some fingerprint) =
      if contains w.seen fingerprint
      then stop (err (repeated_content n expected), p.response)
      else if leb expected n
      then stop (ok (w.all ++ p.records), p.response)
      else continue (record {
        expected = expected;
        seen = fingerprint ∷ w.seen;
        all = w.all ++ p.records;
        last = p.response;
      })

  pub admit :
      Encoding T
      → ℕ
      → Walk T R
      → Page T R
      → Turn ℕ (Result (Failure E) (List T))
      → Turn (Walk T R) (Outcome T R E)
  unfolding keep
  admit enc n w p (stop r) = stop (r, p.response)
  admit enc n w p (continue expected) =
      if is_empty p.records && ltb 1 expected
      then stop (err (empty_page n expected), p.response)
      else keep n w p expected (fingerprint_page enc p.records)

  pub page : Encoding T → ℕ → Walk T R → Fetched T R E → Turn (Walk T R) (Outcome T R E)
  unfolding declared admit
  page enc n w (refused response e) = stop (err (fetch_failed e), response)
  page enc n w (served p) = admit enc n w p (declared n w p)

  -- One round; the loop's index is one below the page number.
  pub turn : Encoding T → (ℕ → ℕ → Fetched T R E) → ℕ → Walk T R → Turn (Walk T R) (Outcome T R E)
  unfolding page
  turn enc fetch k w = page enc (suc k) w (fetch (suc k) zpa_page_size)

  abbrev pub at_ceiling : ℕ → Walk T R → Outcome T R E
  at_ceiling k w = (err (over_ceiling (length w.all)), w.last)

  pub zpa_paginate : Encoding T → (ℕ → ℕ → Fetched T R E) → Outcome T R E
  unfolding turn
  zpa_paginate enc fetch = rounds (turn enc fetch) at_ceiling zpa_max_pages 0 start
