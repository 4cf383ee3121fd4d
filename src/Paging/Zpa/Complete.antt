-- ===== src/Paging/Zpa/Complete.antt =====
-- What a successful `zpaPaginate` has read.
use zscalerctl.Prelude.{
  Result, Option-cases, subst, is_empty, ltb, ◌&&◌, ℕ, zero, suc, ◌≤◌, ◌<◌, ◌≡◌, ◌≢◌, refl, ◌⊎◌,
  inl, inr, Option, none, some, List, [], ◌∷◌, ◌++◌, Bool-cases, leb, leb→le, contains_old,
  contains_self, ok, err, true, contains, text_eq, arith, lt-suc_cases, Text, ◌∙◌, ap,
}
use zscalerctl.Prelude.Loop.{Turn, continue, stop, Keeps, rounds_inv}
use zscalerctl.Paging.{Encoding, fingerprint_page}
use zscalerctl.Paging.Zpa.{
  Page, Fetched, served, refused, Failure, Outcome, Walk, start, declared, keep, admit, turn,
  at_ceiling, zpa_paginate, zpa_max_pages, zpa_page_size,
}

module _ {T R E : Type 0} where
  abbrev pub records_of : Fetched T R E → List T
  records_of (served p) = p.records
  records_of (refused _ _) = []

  abbrev pub total_of : Fetched T R E → Option ℕ
  total_of (served p) = some p.total_pages
  total_of (refused _ _) = none

  Fetched-cases :
      (a : Fetched T R E)
      → ((p : Page T R) × (a ≡ served p)) ⊎ ((r : Option R) × (e : E) × (a ≡ refused r e))
  Fetched-cases (served p) = inl (p, refl)
  Fetched-cases (refused r e) = inr (r, e, refl)

module _ {T R E : Type 0} (fetch : ℕ → ℕ → Fetched T R E) where
  -- The records of page `n`, and the page count that it declares.
  abbrev pub page_records : ℕ → List T
  page_records n = records_of (fetch n zpa_page_size)

  abbrev pub page_total : ℕ → Option ℕ
  page_total n = total_of (fetch n zpa_page_size)

  -- The records of the pages 1 to `n`, in order.
  abbrev pub read_upto : ℕ → List T
  read_upto zero = []
  read_upto (suc n) = read_upto n ++ page_records (suc n)

  -- Pages 1 to `total` were served, each declares `total`, no two have the same records, and `all`
  -- has the records of each.
  pub record IsComplete (all : List T) : Type 0 where
    pub total : ℕ
    pub within : total ≤ zpa_max_pages
    pub first : page_total 1 ≡ some total
    pub same : (j : ℕ) → j < total → page_total (suc j) ≡ some total
    pub distinct : (i j : ℕ) → i < j → j < total → page_records (suc i) ≢ page_records (suc j)
    pub all_is : all ≡ read_upto total
    pub none_beyond : total ≡ 0 → page_records 1 ≡ []

  -- Before the round of page `suc k`.
  record Inv (enc : Encoding T) (k : ℕ) (w : Walk T R) : Type 0 where
    all_is : w.all ≡ read_upto k
    within : 0 < k → w.expected ≤ zpa_max_pages
    left : 0 < k → k < w.expected
    same : (j : ℕ) → j < k → page_total (suc j) ≡ some w.expected
    seen_all :
        (j : ℕ) (f : Text)
        → j < k
        → fingerprint_page enc (page_records (suc j)) ≡ some f
        → contains w.seen f ≡ true
    distinct : (i j : ℕ) → i < j → j < k → page_records (suc i) ≢ page_records (suc j)

  abbrev Ends : Outcome T R E → Type 0
  Ends (ok all, _) = IsComplete all
  Ends (err _, _) = Unit

-- Page `suc k` was served as `p`, and has passed the checks of its page count.
module _ {T R E : Type 0} (fetch : ℕ → ℕ → Fetched T R E) (enc : Encoding T) (k : ℕ) (w : Walk T R)
    (inv : Inv fetch enc k w) (p : Page T R) (asked : fetch (suc k) zpa_page_size ≡ served p)
    (within : p.total_pages ≤ zpa_max_pages) (left : k < p.total_pages)
    (agrees : 0 < k → w.expected ≡ p.total_pages) where
  records_here : page_records fetch (suc k) ≡ p.records
  records_here = ap records_of asked

  same_upto : (j : ℕ) → j < suc k → page_total fetch (suc j) ≡ some p.total_pages
  same_upto j h = elim (lt-suc_cases j k h) [
    | inl before ↦ inv.same j before ∙ ap some (agrees (omega arith))
    | inr here ↦ rw here (ap total_of asked)
  ]

  module _ (f : Text) (found : fingerprint_page enc p.records ≡ some f) where
    -- A fingerprint that was not seen belongs to no earlier page.
    new_records :
        contains w.seen f ≢ true
        → (i : ℕ) → i < k
        → page_records fetch (suc i) ≢ page_records fetch (suc k)
    new_records fresh i h same =
        fresh (inv.seen_all i f h (ap (fingerprint_page enc) (same ∙ records_here) ∙ found))

    distinct_upto :
        contains w.seen f ≢ true
        → (i j : ℕ) → i < j
        → j < suc k
        → page_records fetch (suc i) ≢ page_records fetch (suc j)
    distinct_upto fresh i j lt h = elim (lt-suc_cases j k h) [
      | inl before ↦ inv.distinct i j lt before
      | inr here ↦ rw here (new_records fresh i (omega arith))
    ]

    seen_upto :
        (j : ℕ) (g : Text)
        → j < suc k
        → fingerprint_page enc (page_records fetch (suc j)) ≡ some g
        → contains (f ∷ w.seen) g ≡ true
    seen_upto j g h e = elim (lt-suc_cases j k h) [
      | inl before ↦ contains_old f g w.seen (inv.seen_all j g before e)
      | inr here ↦
          let same : f ≡ g = cc (found, rw (here, records_here) at e) in
          rw (← same) (contains_self f w.seen)
    ]

    all_upto : w.all ++ p.records ≡ read_upto fetch (suc k)
    all_upto = rw (records_here, inv.all_is)

    keep-Keeps : Keeps (Inv fetch enc) (Ends fetch) k (keep (suc k) w p p.total_pages (some f))
    unfolding keep
    keep-Keeps = elim (Bool-cases (contains w.seen f)) [
      | inl old ↦ rw old tt
      | inr new ↦ rw new (elim (Bool-cases (leb p.total_pages (suc k))) [
        | inl last ↦ rw last (record {
          total = p.total_pages;
          within = within;
          first = same_upto 0 (omega arith);
          same = λ j h. same_upto j (omega (arith, leb→le _ _ last));
          distinct = λ i j lt h. distinct_upto (λ t. cc) i j lt (omega (arith, leb→le _ _ last));
          all_is =
              all_upto
              ∙ ap (read_upto fetch) {x = suc k} {y = p.total_pages}
                  (omega (arith, leb→le _ _ last));
          none_beyond = λ z. absurd (omega arith);
        })
        | inr more ↦ rw more (record {
          all_is = all_upto;
          within = λ _. within;
          left = λ _. ground arith;
          same = same_upto;
          seen_all = seen_upto;
          distinct = distinct_upto (λ t. cc);
        })
      ])
    ]

-- What the checks of the page count establish.
module _ {T R : Type 0} (E : Type 0) (k : ℕ) (w : Walk T R) (p : Page T R) where
  abbrev Verdict : Turn ℕ (Result (Failure E) (List T)) → Type 0
  Verdict (continue expected) =
      (expected ≡ p.total_pages)
      × (p.total_pages ≤ zpa_max_pages)
      × (k < p.total_pages)
      × (0 < k → w.expected ≡ p.total_pages)
  Verdict (stop (ok all)) = (k ≡ 0) × (all ≡ w.all) × (p.total_pages ≡ 0) × (p.records ≡ [])
  Verdict (stop (err _)) = Unit

  declared-Verdict :
      (0 < k → w.expected ≤ zpa_max_pages)
      → (0 < k → k < w.expected)
      → Verdict (declared (suc k) w p)
  unfolding declared
  declared-Verdict within left = ground (arith, within, left)

-- One round keeps the invariant, or returns what `Ends` allows.
module _ {T R E : Type 0} (fetch : ℕ → ℕ → Fetched T R E) (enc : Encoding T) (k : ℕ) (w : Walk T R)
    (inv : Inv fetch enc k w) where
  admit-Keeps :
      (p : Page T R) (d : Turn ℕ (Result (Failure E) (List T)))
      → fetch (suc k) zpa_page_size ≡ served p
      → Verdict E k w p d
      → Keeps (Inv fetch enc) (Ends fetch) k (admit enc (suc k) w p d)
  unfolding admit keep
  admit-Keeps p (stop (err x)) asked v = tt
  admit-Keeps p (stop (ok all)) asked (first, same, zero_total, no_records) = record {
    total = 0;
    within = omega arith;
    first =
        subst (λ n. page_total fetch (suc n) ≡ some 0) first
          (ap total_of asked ∙ ap some zero_total);
    same = λ j h. absurd (omega arith);
    distinct = λ i j lt h. absurd (omega arith);
    all_is = same ∙ inv.all_is ∙ ap (read_upto fetch) first;
    none_beyond =
        λ _. subst (λ n. page_records fetch (suc n) ≡ []) first (ap records_of asked ∙ no_records);
  }
  admit-Keeps p (continue expected) asked (e, within, left, agrees) =
      elim (Bool-cases (is_empty p.records && ltb 1 expected)) [
        | inl bare ↦ rw bare tt
        | inr some_records ↦
            rw (some_records, e)
              (elim (Option-cases (fingerprint_page enc p.records)) [
                | inl failed ↦ rw failed tt
                | inr (f, found) ↦
                    rw found (keep-Keeps fetch enc k w inv p asked within left agrees f found)
              ])
      ]

  turn-Keeps : Keeps (Inv fetch enc) (Ends fetch) k (turn enc fetch k w)
  unfolding turn
  turn-Keeps = elim (Fetched-cases (fetch (suc k) zpa_page_size)) [
    | inl (p, asked) ↦
        rw asked (
          admit-Keeps p (declared (suc k) w p) asked (declared-Verdict E k w p inv.within inv.left))
    | inr (r, e, asked) ↦ rw asked tt
  ]

module _ {T R E : Type 0} (enc : Encoding T) (fetch : ℕ → ℕ → Fetched T R E) where
  -- When `zpaPaginate` returns records, they are the records of the pages 1 to `total` in order,
  -- `total` is at most the ceiling, each of those pages declares `total`, no two of them have the
  -- same records, and a total of zero comes with an empty first page.
  pub zpa_paginate-IsComplete :
      (all : List T) → (zpa_paginate enc fetch).0 ≡ ok all → IsComplete fetch all
  unfolding zpa_paginate
  zpa_paginate-IsComplete all h =
      subst (λ r. Ends fetch (r, (zpa_paginate enc fetch).1)) h
        (rounds_inv (turn enc fetch) at_ceiling (Inv fetch enc) (Ends fetch) (turn-Keeps fetch enc)
          (λ k w inv. tt) zpa_max_pages 0 start
          (record {
            all_is = refl;
            within = λ z. absurd (omega arith);
            left = λ z. absurd (omega arith);
            same = λ j z. absurd (omega arith);
            seen_all = λ j f z. absurd (omega arith);
            distinct = λ i j lt z. absurd (omega arith);
          }))
