-- ===== src/Diff/Compare/Totals.antt =====
-- What the summary of a report counts, and which dumps are compared.
use zscalerctl.Prelude.{
  ℕ, suc, ◌+◌, Bool, true, false, not, ◌&&◌, ◌||◌, ◌≡◌, refl, ap, subst, inl, inr, Option, List, [],
  ◌∷◌, ◌++◌, Text, text_beq, text_beq_iff, is_empty, if◌then◌else◌, length, Result, ok, err, ◌>>◌,
  >>=-eq-ok, refuse_if, arith, Bool-cases, All, codes,
}
use zscalerctl.Resources.Spec.{ResourceSpec, effective_shape, effective_get_key}
use zscalerctl.Diff.Json.{Value, Fields}
use zscalerctl.Diff.Records.{
  ResourceDiff, no_diff, has_drift, compare_resource, others, distinct_keys, sorted_keys,
}
use zscalerctl.Diff.Compare.{
  CollectionState, is_selected, is_failed, failed_collection_note, identity_note, LoadedDump, Entry,
  no_summary, Report, Progress, CompareError, differ, count_drift, with_compared, with_skipped,
  tell, entry_of, compare_one, compare_states, compare_round, compare_rounds, compare_dumps,
  scope_mismatch, redaction_mismatch, partial_input,
}

abbrev total_of : (Entry → ℕ) → List Entry → ℕ
total_of f [] = 0
total_of f (e ∷ es) = f e + total_of f es

total_of-append :
    (f : Entry → ℕ) (es : List Entry) (e : Entry)
    → total_of f (es ++ (e ∷ [])) ≡ total_of f es + f e
total_of-append f [] e = omega arith
total_of-append f (x ∷ es) e = omega (arith, total_of-append f es e)

abbrev pub compared_only : (Entry → ℕ) → Entry → ℕ
compared_only f e = if e.skipped then 0 else f e

-- The summary counts what the entries hold.
abbrev pub IsTally : Report → Type 0
IsTally r =
    (r.summary.resources_compared ≡ total_of (compared_only (λ e. 1)) r.entries)
    × (r.summary.resources_with_drift
        ≡ total_of (compared_only (λ e. count_drift (has_drift e.diff))) r.entries)
    × (r.summary.records_added ≡ total_of (λ e. length e.diff.added) r.entries)
    × (r.summary.records_removed ≡ total_of (λ e. length e.diff.removed) r.entries)
    × (r.summary.records_changed ≡ total_of (λ e. length e.diff.changed) r.entries)

step :
    (f : Entry → ℕ) (es : List Entry) (e : Entry) (n m : ℕ)
    → n ≡ total_of f es
    → m ≡ f e
    → n + m ≡ total_of f (es ++ (e ∷ []))
step f es e n m h k = omega (arith, h, k, total_of-append f es e)

stay :
    (f : Entry → ℕ) (es : List Entry) (e : Entry) (n : ℕ)
    → n ≡ total_of f es
    → f e ≡ 0
    → n ≡ total_of f (es ++ (e ∷ []))
stay f es e n h k = omega (arith, h, k, total_of-append f es e)

with_compared-IsTally :
    (r : Report) (e : Entry) → e.skipped ≡ false → IsTally r → IsTally (with_compared r e)
with_compared-IsTally r e compared (a, b, c, d, f) = (
  step _ r.entries e _ _ a (rw compared refl),
  step _ r.entries e _ _ b (rw compared refl),
  step (λ x. length x.diff.added) r.entries e _ _ c refl,
  step (λ x. length x.diff.removed) r.entries e _ _ d refl,
  step (λ x. length x.diff.changed) r.entries e _ _ f refl,
)

with_skipped-IsTally :
    (r : Report) (e : Entry)
    → e.skipped ≡ true
    → e.diff ≡ no_diff
    → IsTally r
    → IsTally (with_skipped r e)
with_skipped-IsTally r e skipped same (a, b, c, d, f) = (
  stay _ r.entries e _ a (rw skipped refl),
  stay _ r.entries e _ b (rw skipped refl),
  stay (λ x. length x.diff.added) r.entries e _ c (ap (λ x. length x.added) same),
  stay (λ x. length x.diff.removed) r.entries e _ d (ap (λ x. length x.removed) same),
  stay (λ x. length x.diff.changed) r.entries e _ f (ap (λ x. length x.changed) same),
)

refused_or_told :
    {E : Type 0} (x : Bool) (e : E) (t : Result E (Unit {0})) (k : Result E Report) (out : Report)
    → (refuse_if x e >> t >> k) ≡ ok out
    → (x ≡ false) × (k ≡ ok out)
refused_or_told true e t k out h = cc
refused_or_told false e (err f) k out h = cc
refused_or_told false e (ok u) k out h = (refl, h)

three_tests :
    {E : Type 0} (x y z : Bool) (e f : E) (k : Result E Report) (out : Report)
    → (refuse_if x e >> refuse_if y f >> refuse_if z f >> k) ≡ ok out
    → (x ≡ false) × (y ≡ false) × (z ≡ false) × (k ≡ ok out)
three_tests true y z e f k out h = cc
three_tests false true z e f k out h = cc
three_tests false false true e f k out h = cc
three_tests false false false e f k out h = (refl, refl, refl, h)

abbrev returned : {E : Type 0} → Bool → Report → Entry → Result (CompareError E) Report
returned b r e = if b then ok r else ok (with_compared r e)

-- Both ends of a round that compares.
counted :
    {E : Type 0} (b : Bool) (r : Report) (e : Entry) (r' : Report)
    → e.skipped ≡ false
    → IsTally r
    → returned {E = E} b r e ≡ ok r'
    → IsTally r'
counted true r e r' compared t h = let same : r ≡ r' = cc in subst IsTally same t
counted false r e r' compared t h =
    let same : with_compared r e ≡ r' = cc in
    subst IsTally same (with_compared-IsTally r e compared t)

module _ {E : Type 0} (parses : Text → Bool) (digest : Value → Option Text) (sprint : Value → Text)
    (progress : Option (Progress → Option E)) where
  -- Nothing is compared with nothing, whatever the identity of the records.
  compare_resource-nil :
      (spec : ResourceSpec) (b : Bool)
      → compare_resource parses digest sprint spec [] [] b ≡ ok no_diff
  unfolding compare_resource others distinct_keys sorted_keys
  compare_resource-nil spec b =
      elim (Bool-cases (text_beq (effective_shape spec) (codes "singleton"))) [
        | inl e ↦ rw e refl
        | inr e ↦ rw e (elim (Bool-cases (is_empty (effective_get_key spec))) [
          | inl k ↦ rw k refl
          | inr k ↦ rw k refl
        ])
      ]

  compare_one-nil :
      (spec : ResourceSpec) (b : Bool) (d : ResourceDiff)
      → compare_one {E = E} parses digest sprint progress spec [] [] b ≡ ok d
      → d ≡ no_diff
  unfolding compare_one
  compare_one-nil spec b d h = let done = rw (compare_resource-nil spec b) at h in cc

  compare_states-IsTally :
      (spec : ResourceSpec) (old_state new_state : CollectionState) (old new : List Fields)
      (b : Bool) (r r' : Report)
      → IsTally r
      → compare_states {E = E} parses digest sprint progress spec old_state new_state old new b r
        ≡ ok r'
      → IsTally r'
  unfolding compare_states
  compare_states-IsTally spec old_state new_state old new b r r' t h =
      elim (Bool-cases (is_selected old_state)) [
        | inr e ↦ let same : r ≡ r' = let k = rw e at h in cc in subst IsTally same t
        | inl e ↦
            let h1 = rw e at h in
            elim (Bool-cases (is_failed old_state || is_failed new_state)) [
              | inl f ↦
                  let (d, one, last) =
                    >>=-eq-ok (compare_one parses digest sprint progress spec [] [] b) _
                      (rw f at h1) in
                  let entry =
                    entry_of parses digest sprint progress spec
                      (failed_collection_note old_state new_state) true d in
                  let same : with_skipped r entry ≡ r' = cc in
                  subst IsTally same
                    (with_skipped-IsTally r entry refl (compare_one-nil spec b d one) t)
              | inr f ↦
                  let (d, one, last) =
                    >>=-eq-ok (compare_one parses digest sprint progress spec old new b) _
                      (rw f at h1) in
                  counted (is_empty old && is_empty new) r
                    (entry_of parses digest sprint progress spec (identity_note spec) false d) r'
                    refl t last
            ]
      ]

  module _ (old new : LoadedDump) (b : Bool) where
    -- The resource was selected in both dumps or in neither.
    abbrev pub SameScope : ResourceSpec → Type 0
    SameScope spec =
        is_selected (old.state spec.product spec.name)
        ≡ is_selected (new.state spec.product spec.name)

    same_scope : (x y : Bool) → differ x y ≡ false → x ≡ y
    same_scope x y h = ground arith

    compare_rounds-IsTally :
        (i total : ℕ) (specs : List ResourceSpec) (r r' : Report)
        → IsTally r
        → compare_rounds {E = E} parses digest sprint progress old new b i total specs r ≡ ok r'
        → IsTally r' × All SameScope specs
    unfolding compare_rounds compare_round
    compare_rounds-IsTally i total [] r r' t h =
        let same : r ≡ r' = cc in (subst IsTally same t, tt)
    compare_rounds-IsTally i total (spec ∷ specs) r r' t h =
        let (mid, first, rest) =
          >>=-eq-ok (compare_round parses digest sprint progress old new b i total spec r) _ h in
        let (scope, states) = round_ok i total spec r mid first in
        let (tally, scopes) =
          compare_rounds-IsTally (suc i) total specs mid r'
            (compare_states-IsTally spec _ _ _ _ b r mid t states) rest in
        (tally, (scope, scopes))
      where
        round_ok :
            (i total : ℕ) (spec : ResourceSpec) (r mid : Report)
            → compare_round {E = E} parses digest sprint progress old new b i total spec r ≡ ok mid
            → SameScope spec
              × (compare_states {E = E} parses digest sprint progress spec
                    (old.state spec.product spec.name)
                    (new.state spec.product spec.name)
                    (old.records spec.product spec.name)
                    (new.records spec.product spec.name)
                    b
                    r
                  ≡ ok mid)
        round_ok i total spec r mid h =
            let old_state = old.state spec.product spec.name in
            let new_state = new.state spec.product spec.name in
            let (scope, states) =
              refused_or_told (differ (is_selected old_state) (is_selected new_state))
                (scope_mismatch spec.product spec.name)
                (tell parses digest sprint progress progress (record {
                  product = spec.product;
                  resource = spec.name;
                  finished = suc i;
                  total = total;
                }))
                (compare_states parses digest sprint progress spec old_state new_state
                  (old.records spec.product spec.name) (new.records spec.product spec.name) b r)
                mid h in
            (same_scope _ _ scope, states)

    -- When two loaded dumps are compared, they have one redaction mode, neither is partial unless
    -- partial dumps are allowed, and each resource was selected in both or in neither; the summary
    -- of the report counts its entries: those compared and those of them with drift, and the
    -- records added, removed and changed in all.
    pub compare_dumps-IsTally :
        (specs : List ResourceSpec) (allow_partial : Bool) (r : Report)
        → compare_dumps {E = E} parses digest sprint progress old new specs allow_partial b ≡ ok r
        → (old.redaction ≡ new.redaction)
          × (allow_partial ≡ false → (old.partial ≡ false) × (new.partial ≡ false))
          × All SameScope specs
          × IsTally r
    unfolding compare_dumps
    compare_dumps-IsTally specs allow_partial r h =
        let start : Report = record { summary = no_summary; entries = [] } in
        let (mode, first, second, run) =
          three_tests (not (text_beq old.redaction new.redaction))
            (not allow_partial && old.partial) (not allow_partial && new.partial)
            (redaction_mismatch old.redaction new.redaction) partial_input
            (compare_rounds parses digest sprint progress old new b 0 (length specs) specs start) r
            h in
        let (tally, scopes) =
          compare_rounds-IsTally 0 (length specs) specs start r (refl, refl, refl, refl, refl)
            run in
        (
          (text_beq_iff old.redaction new.redaction).0 (not_false _ mode),
          λ strict. (
            whole allow_partial old.partial strict first,
            whole allow_partial new.partial strict second,
          ),
          scopes,
          tally,
        )
      where
        not_false : (x : Bool) → not x ≡ false → x ≡ true
        not_false x h = ground arith

        whole : (x y : Bool) → x ≡ false → (not x && y) ≡ false → y ≡ false
        whole x y h k = ground arith
