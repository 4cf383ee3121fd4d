-- ===== src/Paging/Zpa/Progress.antt =====
-- A server that pages consistently is read to the end.
use zscalerctl.Prelude.{
  ℕ, zero, suc, ◌+◌, ◌≤◌, ◌<◌, ◌≡◌, ◌≢◌, refl, ap, ◌∙◌, some, ◌∷◌, ◌++◌, ok, inl, inr, false, leb,
  is_empty, contains, text_eq, Text, arith, Bool-cases, leb→le, contains_other, contains-nil,
}
use zscalerctl.Prelude.Loop.{continue, stop, rounds, rounds-continue, rounds-stop}
use zscalerctl.Paging.{Encoding, fingerprint_page}
use zscalerctl.Paging.Zpa.{
  Page, Fetched, served, Walk, start, declared, keep, admit, turn, at_ceiling, zpa_paginate,
  zpa_max_pages, zpa_page_size,
}
use zscalerctl.Paging.Zpa.Complete.{records_of, page_records, read_upto}

-- The pages 1 to `total` are served, each declares `total`, none of several is empty, and their
-- fingerprints differ.
pub record IsConsistent {T R E : Type 0} (enc : Encoding T) (fetch : ℕ → ℕ → Fetched T R E)
    (total : ℕ) (pages : ℕ → Page T R) (prints : ℕ → Text) : Type 0 where
  pub within : total ≤ zpa_max_pages
  pub some_page : 0 < total
  pub serves : (j : ℕ) → j < total → fetch (suc j) zpa_page_size ≡ served (pages j)
  pub declares : (j : ℕ) → j < total → (pages j).total_pages ≡ total
  pub has_records : (j : ℕ) → j < total → 1 < total → is_empty (pages j).records ≡ false
  pub printed : (j : ℕ) → j < total → fingerprint_page enc (pages j).records ≡ some (prints j)
  pub differ : (i j : ℕ) → i < j → j < total → prints i ≢ prints j

module _ {T R E : Type 0} (enc : Encoding T) (fetch : ℕ → ℕ → Fetched T R E) (total : ℕ)
    (pages : ℕ → Page T R) (prints : ℕ → Text) (c : IsConsistent enc fetch total pages prints) where
  record Reads (k : ℕ) (w : Walk T R) : Type 0 where
    here : k < total
    expects : 0 < k → w.expected ≡ total
    all_is : w.all ≡ read_upto fetch k
    unseen : (j : ℕ) → k ≤ j → j < total → contains w.seen (prints j) ≡ false

  after_page : ℕ → Walk T R → Walk T R
  after_page k w = record {
    expected = total;
    seen = prints k ∷ w.seen;
    all = w.all ++ (pages k).records;
    last = (pages k).response;
  }

  records_at : (k : ℕ) → k < total → page_records fetch (suc k) ≡ (pages k).records
  records_at k h = ap records_of (c.serves k h)

  declared-continue :
      (k : ℕ) (w : Walk T R) → Reads k w → declared {E = E} (suc k) w (pages k) ≡ continue total
  unfolding declared
  declared-continue k w r = ground (arith, c.within, c.declares k r.here, r.expects)

  -- A page before the last goes on, and the last one returns.
  module _ (k : ℕ) (w : Walk T R) (r : Reads k w) where
    admitted : turn enc fetch k w ≡ keep (suc k) w (pages k) total (some (prints k))
    unfolding turn admit
    admitted =
        rw (c.serves k r.here, declared-continue k w r, c.printed k r.here)
          (ground (arith, c.has_records k r.here))

    turn-continue : suc k < total → turn enc fetch k w ≡ continue (after_page k w)
    unfolding keep after_page
    turn-continue more = admitted ∙ rw (r.unseen k (omega arith) r.here) (ground arith)

    turn-stop :
        suc k ≡ total
        → turn enc fetch k w ≡ stop (ok (w.all ++ (pages k).records), (pages k).response)
    unfolding keep
    turn-stop last = admitted ∙ rw (r.unseen k (omega arith) r.here) (ground arith)

    after_page-Reads : suc k < total → Reads (suc k) (after_page k w)
    unfolding after_page
    after_page-Reads more = record {
      here = more;
      expects = λ _. refl;
      all_is = rw (records_at k r.here, r.all_is) refl;
      unseen = λ j from h.
          contains_other (prints k) (prints j) w.seen (c.differ k j (omega arith) h)
            (r.unseen j (omega arith) h);
    }

  reads :
      (left k : ℕ) (w : Walk T R)
      → total ≤ k + left
      → Reads k w
      → (rounds (turn enc fetch) at_ceiling left k w).0 ≡ ok (read_upto fetch total)
  reads zero k w h r = absurd (omega (arith, r.here))
  reads (suc left) k w h r = elim (Bool-cases (leb total (suc k))) [
    | inl last ↦
        let e : suc k ≡ total = omega (arith, leb→le _ _ last, r.here) in
        rw (rounds-stop (turn enc fetch) at_ceiling left k w _ (turn-stop k w r e))
          (rw (← e, records_at k r.here, r.all_is) refl)
    | inr more ↦
        let lt : suc k < total = ground arith in
        rw (rounds-continue (turn enc fetch) at_ceiling left k w _ (turn-continue k w r lt))
          (reads left (suc k) (after_page k w) (omega arith) (after_page-Reads k w r lt))
  ]

  -- From a server that pages consistently `zpaPaginate` returns the records of all its pages, in
  -- order.
  pub zpa_paginate_reads_all : (zpa_paginate enc fetch).0 ≡ ok (read_upto fetch total)
  unfolding zpa_paginate
  zpa_paginate_reads_all = reads zpa_max_pages 0 start (omega (arith, c.within)) (record {
    here = c.some_page;
    expects = λ z. absurd (omega arith);
    all_is = refl;
    unseen = λ j from h. contains-nil (prints j);
  })
