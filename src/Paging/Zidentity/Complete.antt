-- ===== src/Paging/Zidentity/Complete.antt =====
-- What a successful `readAllZidentityPages` has read.
use zscalerctl.Prelude.{
  Bool-cases, Result-cases, ==_iff, subst, sym, ap, ◌∙◌, leb, ℕ, ◌+◌, ◌<◌, ◌≡◌, refl, ◌⊎◌, inl, inr,
  true, false, not, if◌then◌else◌, List, [], ◌++◌, Result, ok, err, ltb, ◌==◌, length,
  length-append, arith, text_eq, is_empty,
}
use zscalerctl.Prelude.Int.{pos, to_nat}
use zscalerctl.Prelude.Loop.{Keeps, rounds_inv, stop}
use zscalerctl.Paging.{Encoding}
use zscalerctl.Paging.Zidentity.{
  Page, Failure, ended_short, Walk, start, collect, has_next, advance, proceed, turn, at_ceiling,
  read_all_zidentity_pages, zidentity_page_limit, zidentity_max_pages,
}

-- A page that declares no total leaves the total as it is, and another one sets or repeats it.
abbrev pub Declares : ℕ → ℕ → ℕ → Type 0
Declares before total after =
    ((total ≡ 0) × (after ≡ before))
    ⊎ ((0 < total) × (after ≡ total) × ((before ≡ 0) ⊎ (before ≡ total)))

module _ {T E : Type 0} (fetch : ℕ → ℕ → Result E (Page T)) where
  -- Pages that follow on one another from offset 0, none of them the last: each is asked for at the
  -- number of the records before it, says so, declares no other total than those before it, and has
  -- a next link.
  pub data Reads : ℕ → List T → Type 0 where
    here : Reads 0 []
    more :
        {declared : ℕ} {all : List T} (p : Page T) (total after : ℕ)
        → Reads declared all
        → fetch (length all) zidentity_page_limit ≡ ok p
        → p.page_offset ≡ pos (length all)
        → p.results_total ≡ pos total
        → Declares declared total after
        → has_next p ≡ true
        → Reads after (all ++ p.records)

  -- The records are those before the last page and those of the last page, which follows on them in
  -- the same way but has no next link; they are as many as the declared total, if there is one.
  pub data IsComplete (all : List T) : Type 0 where
    complete :
        {declared : ℕ} {before : List T} (p : Page T) (total after : ℕ)
        → Reads declared before
        → fetch (length before) zidentity_page_limit ≡ ok p
        → p.page_offset ≡ pos (length before)
        → p.results_total ≡ pos total
        → Declares declared total after
        → has_next p ≡ false
        → all ≡ before ++ p.records
        → (after ≡ 0) ⊎ ((0 < after) × (length all ≡ after))
        → IsComplete all

  record Inv (k : ℕ) (w : Walk T) : Type 0 where
    offset_is : w.offset ≡ length w.all
    reads : Reads w.declared_total w.all

  abbrev Ends : Result (Failure E) (List T) → Type 0
  Ends (ok all) = IsComplete all
  Ends (err _) = Unit

-- What the checks of a page leave.
module _ {T : Type 0} (E : Type 0) (enc : Encoding T) (w : Walk T) (p : Page T) where
  record Collected (v : Walk T) : Type 0 where
    all_is : v.all ≡ w.all ++ p.records
    offset_is : v.offset ≡ w.offset
    page_offset : p.page_offset ≡ pos w.offset
    total_is : p.results_total ≡ pos (to_nat p.results_total)
    declares : Declares w.declared_total (to_nat p.results_total) v.declared_total

  abbrev IsCollected : Result (Failure E) (Walk T) → Type 0
  IsCollected (ok v) = Collected v
  IsCollected (err _) = Unit

  collect-IsCollected : IsCollected (collect enc w p)
  unfolding collect
  collect-IsCollected = ground arith

module _ {T E : Type 0} (fetch : ℕ → ℕ → Result E (Page T)) (k : ℕ) (p : Page T) where
  -- The variables after the page was collected, before the walk goes on.
  record Read (w : Walk T) : Type 0 where
    declared : ℕ
    before : List T
    total : ℕ
    reads : Reads fetch declared before
    at_offset : w.offset ≡ length before
    asked : fetch (length before) zidentity_page_limit ≡ ok p
    page_offset : p.page_offset ≡ pos (length before)
    total_is : p.results_total ≡ pos total
    declares : Declares declared total w.declared_total
    all_is : w.all ≡ before ++ p.records

  abbrev IsRead : Result (Failure E) (Walk T) → Type 0
  IsRead (ok w) = Read w
  IsRead (err _) = Unit

  Read-IsComplete :
      (w : Walk T)
      → Read w
      → has_next p ≡ false
      → (w.declared_total ≡ 0) ⊎ ((0 < w.declared_total) × (length w.all ≡ w.declared_total))
      → IsComplete fetch w.all
  Read-IsComplete w h last reached =
      complete p h.total w.declared_total h.reads h.asked h.page_offset h.total_is h.declares last
        h.all_is reached

  Read-Reads : (w : Walk T) → Read w → has_next p ≡ true → Reads fetch w.declared_total w.all
  Read-Reads w h link =
      subst (Reads fetch w.declared_total) (sym h.all_is)
        (more p h.total w.declared_total h.reads h.asked h.page_offset h.total_is h.declares link)

  advance-Keeps :
      (w : Walk T)
      → Read w
      → has_next p ≡ true
      → Keeps (Inv fetch) (Ends fetch) k (advance {E = E} w p)
  unfolding advance
  advance-Keeps w h link = elim (Bool-cases (is_empty p.records)) [
    | inl bare ↦ rw bare tt
    | inr some_records ↦
        rw some_records (elim (Bool-cases (leb (w.offset + length p.records) w.offset)) [
          | inl stuck ↦ rw stuck tt
          | inr further ↦ rw further (record {
            offset_is =
                omega (arith, ap length h.all_is, length-append h.before p.records, h.at_offset);
            reads = Read-Reads w h link;
          })
        ])
  ]

  -- A walk that has collected a page ends only at a complete list.
  proceed-Keeps :
      (r : Result (Failure E) (Walk T)) → IsRead r → Keeps (Inv fetch) (Ends fetch) k (proceed p r)
  unfolding proceed
  proceed-Keeps (err x) h = tt
  proceed-Keeps (ok w) h = elim (Bool-cases (ltb 0 w.declared_total)) [
    | inl total ↦ rw total (elim (Bool-cases (length w.all == w.declared_total)) [
      | inl reached ↦ rw reached (elim (Bool-cases (has_next p)) [
        | inl link ↦ rw link tt
        | inr last ↦ rw last (Read-IsComplete w h last (inr (ground arith, (==_iff _ _).0 reached)))
      ])
      | inr short ↦ rw short (not_last w h)
    ])
    | inr untold ↦ rw untold (elim (Bool-cases (has_next p)) [
      | inl link ↦ rw link (advance-Keeps w h link)
      | inr last ↦ rw last (Read-IsComplete w h last (inl (ground arith)))
    ])
  ]
    where
      not_last :
          (w : Walk T)
          → Read w
          → Keeps (Inv fetch) (Ends fetch) k (
              if not (has_next p)
              then stop (err (ended_short (length w.all) w.offset p.page_size w.declared_total))
              else advance {E = E} w p)
      not_last w h = elim (Bool-cases (has_next p)) [
        | inl link ↦ rw link (advance-Keeps w h link)
        | inr last ↦ rw last tt
      ]

module _ {T E : Type 0} (enc : Encoding T) (fetch : ℕ → ℕ → Result E (Page T)) where
  module _ (k : ℕ) (w : Walk T) (inv : Inv fetch k w) where
    collect-IsRead :
        (p : Page T)
        → fetch w.offset zidentity_page_limit ≡ ok p
        → (r : Result (Failure E) (Walk T)) → IsCollected E enc w p r
        → IsRead fetch k p r
    collect-IsRead p asked (err x) c = tt
    collect-IsRead p asked (ok v) c = record {
      declared = w.declared_total;
      before = w.all;
      total = to_nat p.results_total;
      reads = inv.reads;
      at_offset = c.offset_is ∙ inv.offset_is;
      asked = rw (← inv.offset_is) asked;
      page_offset = c.page_offset ∙ ap pos inv.offset_is;
      total_is = c.total_is;
      declares = c.declares;
      all_is = c.all_is;
    }

    turn-Keeps : Keeps (Inv fetch) (Ends fetch) k (turn enc fetch k w)
    unfolding turn
    turn-Keeps = elim (Result-cases (fetch w.offset zidentity_page_limit)) [
      | inl (p, asked) ↦ rw asked (
          proceed-Keeps fetch k p (collect enc w p)
            (collect-IsRead p asked (collect enc w p) (collect-IsCollected E enc w p)))
      | inr (e, asked) ↦ rw asked tt
    ]

  -- When `readAllZidentityPages` returns records, they are those of pages that follow on one
  -- another from offset 0 with agreeing totals, up to the first that has no next link, whose records
  -- are the last; and if a page declared a total, the records are as many.
  pub read_all_zidentity_pages-IsComplete :
      (all : List T) → read_all_zidentity_pages enc fetch ≡ ok all → IsComplete fetch all
  unfolding read_all_zidentity_pages
  read_all_zidentity_pages-IsComplete all h = subst (Ends fetch) h (
      rounds_inv (turn enc fetch) at_ceiling (Inv fetch) (Ends fetch) turn-Keeps (λ k w inv. tt)
        zidentity_max_pages 0 start (record { offset_is = refl; reads = here }))
