-- ===== src/Paging/Zia/Complete.antt =====
-- What a successful `ziaPaginate` has read.
use zscalerctl.Prelude.{
  is_empty→nil, length_pos, ℕ, zero, suc, ◌+◌, ◌≤◌, ◌<◌, ◌≡◌, refl, ◌∙◌, sym, ap, subst, ◌⊎◌, inl,
  inr, Bool, true, false, ◌&&◌, Option, none, some, List, [], ◌∷◌, ◌++◌, Text, Result, ok, err, ltb,
  ◌==◌, is_empty, contains, text_eq, length, arith, Bool-cases, Option-cases, lt-suc_cases,
}
use zscalerctl.Prelude.Loop.{Keeps, rounds_inv}
use zscalerctl.Paging.Canonical.{RecordEncoding, PageSummary, same_records, summarize_page}
use zscalerctl.Paging.Zia.{
  Failure, Walk, Outcome, Scan, zia_ignores_paging, after_visit, visit, accept, ignored,
  compare_first, inspect, receive, turn, at_ceiling, start, zia_walk_pages, collect, collected,
  zia_paginate, zia_max_pages,
}
use zscalerctl.Paging.Zia.Identities.{Scanned, Identities, nil, IsUnique, scan_identities-Scanned}

abbrev pub items_of : {T E : Type 0} → Result E (List T) → List T
items_of (ok items) = items
items_of (err e) = []

module _ {T E : Type 0} (enc : RecordEncoding T) (page_size : ℕ)
    (fetch : ℕ → ℕ → Result E (List T)) where
  abbrev pub page_items : ℕ → List T
  page_items n = items_of (fetch n page_size)

  -- The records of the pages 1 to `n`, in order.
  abbrev pub read_upto : ℕ → List T
  read_upto zero = []
  read_upto (suc n) = read_upto n ++ page_items (suc n)

  -- Either the pages 1 to `n`, none of them empty or wider than the first, and then an empty page or
  -- a last one that is shorter than the first, with no identity twice; or page 1 alone, where page 2
  -- repeats it and the probe shows that the server ignores paging.
  pub data IsComplete (all : List T) : Type 0 where
    ended :
        (n : ℕ) (ids : List Text)
        → all ≡ read_upto n
        → ((j : ℕ) → j < n → is_empty (page_items (suc j)) ≡ false)
        → ((j : ℕ) → j < n → length (page_items (suc j)) ≤ length (page_items 1))
        → Identities enc all ids
        → IsUnique ids
        → (fetch (suc n) page_size ≡ ok [])
          ⊎ ((1 < n) × (length (page_items n) < length (page_items 1)))
        → IsComplete all
    unpaged :
        (first second : PageSummary)
        → all ≡ page_items 1
        → summarize_page enc (page_items 1) ≡ some first
        → summarize_page enc (page_items 2) ≡ some second
        → same_records second first ≡ true
        → first.records < page_size
        → zia_ignores_paging enc fetch first ≡ ok true
        → IsComplete all

  -- What holds before the round of page `suc k`, and still after the page was received.
  record Common (k : ℕ) (w : Walk (List T)) : Type 0 where
    visited_is : w.visited ≡ read_upto k
    nonempty : (j : ℕ) → j < k → is_empty (page_items (suc j)) ≡ false
    narrow : (j : ℕ) → j < k → length (page_items (suc j)) ≤ length (page_items 1)
    ids : Identities enc (read_upto k) w.record_identities
    unique : IsUnique w.record_identities
    first : 0 < k → summarize_page enc (page_items 1) ≡ some w.first_page

  record Inv (k : ℕ) (w : Walk (List T)) : Type 0 where
    common : Common k w
    width : (k ≡ 0) ⊎ ((0 < k) × (w.effective_page_size ≡ length (page_items 1)))
    unset : k ≡ 0 → w.effective_page_size ≡ 0

  abbrev Ends : Outcome (List T) E → Type 0
  Ends (some failure, all) = Unit
  Ends (none, all) = IsComplete all

  visited-IsComplete :
      (n : ℕ) (w : Walk (List T))
      → Common n w
      → (fetch (suc n) page_size ≡ ok [])
        ⊎ ((1 < n) × (length (page_items n) < length (page_items 1)))
      → IsComplete w.visited
  visited-IsComplete n w c ends =
      ended n w.record_identities c.visited_is c.nonempty c.narrow
        (subst (λ l. Identities enc l w.record_identities) (sym c.visited_is) c.ids) c.unique ends

  -- Page `suc k` was received as `items`, and is not wider than the first.
  record At (k : ℕ) (items : List T) (w : Walk (List T)) : Type 0 where
    common : Common k w
    asked : fetch (suc k) page_size ≡ ok items
    some_items : is_empty items ≡ false
    width : w.effective_page_size ≡ length (page_items 1)
    fits : length items ≤ w.effective_page_size

  module _ (k : ℕ) (items : List T) where
    abbrev items_here : (w : Walk (List T)) → At k items w → page_items (suc k) ≡ items
    items_here w a = ap items_of a.asked

    nonempty_upto :
        (w : Walk (List T))
        → At k items w
        → (j : ℕ) → j < suc k
        → is_empty (page_items (suc j)) ≡ false
    nonempty_upto w a j h = elim (lt-suc_cases j k h) [
      | inl before ↦ a.common.nonempty j before
      | inr here ↦ rw (here, a.asked) a.some_items
    ]

    narrow_upto :
        (w : Walk (List T))
        → At k items w
        → (j : ℕ) → j < suc k
        → length (page_items (suc j)) ≤ length (page_items 1)
    narrow_upto w a j h = elim (lt-suc_cases j k h) [
      | inl before ↦ a.common.narrow j before
      | inr here ↦ rw (here, ← a.width, a.asked) a.fits
    ]

    -- The walk after the page was collected.
    record Visited (w : Walk (List T)) : Type 0 where
      common : Common (suc k) w
      width : w.effective_page_size ≡ length (page_items 1)
      asked : fetch (suc k) page_size ≡ ok items

    after_visit-Keeps :
        (w : Walk (List T))
        → Visited w
        → Keeps Inv Ends k (after_visit enc fetch collect page_size (suc k) items w false)
    unfolding after_visit
    after_visit-Keeps w v =
        elim (Bool-cases (ltb 1 (suc k) && ltb (length items) w.effective_page_size)) [
          | inl short ↦ rw short (
              visited-IsComplete (suc k) w v.common
                (inr (ground arith, rw (v.asked, ← v.width) (ground arith))))
          | inr more ↦ rw more (record {
            common = v.common;
            width = inr (omega arith, v.width);
            unset = λ z. absurd (omega arith);
          })
        ]

    -- What a scan without a repeated identity establishes.
    abbrev Scans : Walk (List T) → Option Scan → Type 0
    Scans w none = Unit
    Scans w (some s) =
        s.repeated ≡ 0
        → IsUnique w.record_identities
        → IsUnique s.identities
          × ((all : List T)
              → Identities enc all w.record_identities
              → Identities enc (all ++ items) s.identities)

    abbrev visited : Walk (List T) → Scan → Walk (List T)
    visited w s = record w {
      record_identities = s.identities;
      records_seen = w.records_seen + length items;
      visited = w.visited ++ items;
    }

    visit-Keeps :
        (w : Walk (List T)) (s : Option Scan)
        → (a : At k items w) → summarize_page enc (page_items 1) ≡ some w.first_page
        → Scans w s
        → Keeps Inv Ends k (visit enc fetch collect page_size (suc k) items w s)
    unfolding visit
    visit-Keeps w none a first scanned = tt
    visit-Keeps w (some s) a first scanned = elim (Bool-cases (ltb 0 s.repeated)) [
      | inl twice ↦ rw twice tt
      | inr once ↦
          let (unique, ids) = scanned (ground arith) a.common.unique in
          rw once (
            after_visit-Keeps (visited w s) (record {
              common = record {
                visited_is = rw (items_here w a, a.common.visited_is) refl;
                nonempty = nonempty_upto w a;
                narrow = narrow_upto w a;
                ids = rw (items_here w a) (ids (read_upto k) a.common.ids);
                unique = unique;
                first = λ _. first;
              };
              width = a.width;
              asked = a.asked;
            }))
    ]

    noted : Text → Walk (List T) → Walk (List T)
    noted fingerprint w = record w { page_fingerprints = fingerprint ∷ w.page_fingerprints }

    At-noted :
        (w : Walk (List T)) (fingerprint : Text) → At k items w → At k items (noted fingerprint w)
    unfolding noted
    At-noted w fingerprint a = record {
      common = record {
        visited_is = a.common.visited_is;
        nonempty = a.common.nonempty;
        narrow = a.common.narrow;
        ids = a.common.ids;
        unique = a.common.unique;
        first = a.common.first;
      };
      asked = a.asked;
      some_items = a.some_items;
      width = a.width;
      fits = a.fits;
    }

    Scans-scan_identities :
        (w : Walk (List T)) (s : Option Scan)
        → Scanned enc items (record { identities = w.record_identities; repeated = 0 }) s
        → Scans w s
    Scans-scan_identities w none h = tt
    Scans-scan_identities w (some s) h = h.1

    accept-Keeps :
        (w : Walk (List T)) (fingerprint : Text)
        → At k items w
        → summarize_page enc (page_items 1) ≡ some w.first_page
        → Keeps Inv Ends k (accept enc fetch collect page_size (suc k) items w fingerprint)
    unfolding accept noted
    accept-Keeps w fingerprint a first =
        elim (Bool-cases (contains w.page_fingerprints fingerprint)) [
          | inl old ↦ rw old tt
          | inr new ↦ rw new (
              visit-Keeps (noted fingerprint w) _ (At-noted w fingerprint a) first
                (Scans-scan_identities w _ (scan_identities-Scanned enc items _)))
        ]

    with_first : PageSummary → Walk (List T) → Walk (List T)
    with_first summary w = record w { first_page = summary }

    At-with_first :
        (w : Walk (List T)) (summary : PageSummary)
        → k ≡ 0
        → At k items w
        → At k items (with_first summary w)
    unfolding with_first
    At-with_first w summary z a = record {
      common = record {
        visited_is = a.common.visited_is;
        nonempty = a.common.nonempty;
        narrow = a.common.narrow;
        ids = a.common.ids;
        unique = a.common.unique;
        first = λ h. absurd (omega arith);
      };
      asked = a.asked;
      some_items = a.some_items;
      width = a.width;
      fits = a.fits;
    }

    -- Page 2 repeats page 1, and the probe decides.
    ignored-Keeps :
        (w : Walk (List T)) (second : PageSummary) (r : Result (Failure E) Bool)
        → At k items w
        → suc k ≡ 2
        → summarize_page enc items ≡ some second
        → w.first_page.records < page_size
        → same_records second w.first_page ≡ true
        → zia_ignores_paging enc fetch w.first_page ≡ r
        → Keeps Inv Ends k (ignored enc fetch collect page_size w r)
    unfolding ignored
    ignored-Keeps w second (err x) a two summed less same probed = tt
    ignored-Keeps w second (ok false) a two summed less same probed = tt
    ignored-Keeps w second (ok true) a two summed less same probed =
        let one : k ≡ 1 = omega arith in
        unpaged w.first_page second (a.common.visited_is ∙ rw one refl)
          (a.common.first (omega arith))
          (ap (λ n. summarize_page enc (page_items n)) (sym two)
            ∙ ap (summarize_page enc) (items_here w a)
            ∙ summed)
          same less probed

    compare_first-Keeps :
        (w : Walk (List T)) (fingerprint : Text)
        → At k items w
        → Keeps Inv Ends k (
            compare_first enc fetch collect page_size
              (suc k)
              items
              w
              fingerprint
              (summarize_page enc items))
    unfolding compare_first with_first
    compare_first-Keeps w fingerprint a = elim (Option-cases (summarize_page enc items)) [
      | inl failed ↦ rw failed tt
      | inr (summary, summed) ↦ rw summed (elim (Bool-cases (suc k == 1)) [
        | inl one ↦ rw one (
            accept-Keeps (with_first summary w) fingerprint
              (At-with_first w summary (ground arith) a)
              (ap (λ n. summarize_page enc (page_items (suc n))) {y = k} (ground arith)
                ∙ ap (summarize_page enc) (items_here w a)
                ∙ summed))
        | inr later ↦
            rw later
              (elim (Bool-cases (
                suc k == 2
                && (ltb w.first_page.records page_size && same_records summary w.first_page))) [
                  | inl repeats ↦ rw repeats (
                      ignored-Keeps w summary (zia_ignores_paging enc fetch w.first_page) a
                        (ground arith) summed (ground arith) (ground arith) refl)
                  | inr differs ↦
                      rw differs (accept-Keeps w fingerprint a (a.common.first (ground arith)))
                ])
      ])
    ]

    inspect-Keeps :
        (w : Walk (List T)) (f : Option Text)
        → At k items w
        → Keeps Inv Ends k (inspect enc fetch collect page_size (suc k) items w f)
    unfolding inspect
    inspect-Keeps w none a = tt
    inspect-Keeps w (some fingerprint) a = compare_first-Keeps w fingerprint a

  -- The width is set on the first page, and on no other.
  is_first : (k : ℕ) (w : Walk (List T)) → Inv k w → w.effective_page_size ≡ 0 → k ≡ 0
  is_first k w inv unset = elim inv.width [
    | inl z ↦ z
    | inr (later, set) ↦
        absurd (omega (arith, length_pos (page_items 1) (inv.common.nonempty 0 later)))
  ]

  module _ (k : ℕ) (w : Walk (List T)) (items : List T) (inv : Inv k w)
      (asked : fetch (suc k) page_size ≡ ok items) (some_items : is_empty items ≡ false) where
    At-unset :
        w.effective_page_size ≡ 0 → At k items (record w { effective_page_size = length items })
    At-unset unset = record {
      common = record {
        visited_is = inv.common.visited_is;
        nonempty = inv.common.nonempty;
        narrow = inv.common.narrow;
        ids = inv.common.ids;
        unique = inv.common.unique;
        first = inv.common.first;
      };
      asked = asked;
      some_items = some_items;
      width =
          ap length (sym (ap items_of asked))
          ∙ ap (λ n. length (page_items (suc n))) (is_first k w inv unset);
      fits = omega arith;
    }

    At-set : ¬ (k ≡ 0) → length items ≤ w.effective_page_size → At k items w
    At-set later fits = record {
      common = inv.common;
      asked = asked;
      some_items = some_items;
      width = elim inv.width [ inl z ↦ absurd (later z) | inr (_, set) ↦ set ];
      fits = fits;
    }

  receive-Keeps :
      (k : ℕ) (w : Walk (List T)) (r : Result E (List T))
      → Inv k w
      → fetch (suc k) page_size ≡ r
      → Keeps Inv Ends k (receive enc fetch collect page_size (suc k) w r)
  unfolding receive
  receive-Keeps k w (err e) inv asked = tt
  receive-Keeps k w (ok items) inv asked = elim (Bool-cases (is_empty items)) [
    | inl bare ↦
        rw bare (visited-IsComplete k w inv.common (inl (asked ∙ ap ok (is_empty→nil items bare))))
    | inr some_items ↦ rw some_items (elim (Bool-cases (w.effective_page_size == 0)) [
      | inl unset ↦
          rw unset
            (inspect-Keeps k items _ _ (At-unset k w items inv asked some_items (ground arith)))
      | inr set ↦ rw set (elim (Bool-cases (ltb w.effective_page_size (length items))) [
        | inl wide ↦ rw wide tt
        | inr fits ↦ rw fits (
            inspect-Keeps k items _ _ (
              At-set k w items inv asked some_items (λ z. ground (arith, inv.unset z))
                (ground arith)))
      ])
    ])
  ]

  turn-Keeps :
      (k : ℕ) (w : Walk (List T))
      → Inv k w
      → Keeps Inv Ends k (turn enc fetch collect page_size k w)
  unfolding turn
  turn-Keeps k w inv = receive-Keeps k w (fetch (suc k) page_size) inv refl

  walk-Ends : Ends (zia_walk_pages enc fetch collect page_size [])
  unfolding zia_walk_pages
  walk-Ends = elim (Bool-cases (page_size == 0)) [
    | inl bad ↦ rw bad tt
    | inr good ↦ rw good (
        rounds_inv (turn enc fetch collect page_size) (at_ceiling enc fetch collect page_size) Inv
          Ends turn-Keeps (λ k w inv. tt) zia_max_pages 0 (start enc fetch collect page_size [])
          (record {
            common = record {
              visited_is = refl;
              nonempty = λ j h. absurd (omega arith);
              narrow = λ j h. absurd (omega arith);
              ids = nil;
              unique = tt;
              first = λ h. absurd (omega arith);
            };
            width = inl refl;
            unset = λ _. refl;
          }))
  ]

  collected-IsComplete :
      (o : Outcome (List T) E) (all : List T) → Ends o → collected o ≡ ok all → IsComplete all
  collected-IsComplete (some failure, items) all h e = cc
  collected-IsComplete (none, items) all h e = subst IsComplete (cc) h

  -- When `ziaPaginate` returns records, either they are those of the pages 1 to `n` in order, none of
  -- these pages is empty or wider than the first, no identity occurs twice in them, and page `n + 1`
  -- is empty or page `n`, not the first, is shorter than the first; or they are those of page 1, page
  -- 2 has the same records, page 1 is shorter than requested, and the probe shows that the server
  -- ignores paging.
  pub zia_paginate-IsComplete :
      (all : List T) → zia_paginate enc page_size fetch ≡ ok all → IsComplete all
  unfolding zia_paginate
  zia_paginate-IsComplete all =
      collected-IsComplete (zia_walk_pages enc fetch collect page_size []) all walk-Ends
