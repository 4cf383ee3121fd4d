-- ===== src/Resources/Narrow/Narrows.antt =====
-- What `NarrowProjectedRecords` of internal/resources/resources.go returns for requested fields.
use zscalerctl.Prelude.{
  Bool, true, false, not, ◌&&◌, ◌≡◌, subst, ◌↔◌, List, [], ◌∷◌, Text, text_eq, is_empty, split, All,
  Some, arith, Result, ok, err, ◌>>=◌, ◌>>◌, >>-ok, refuse_if-ok,
}
use zscalerctl.Resources.Spec.{Mode, ResourceSpec}
use zscalerctl.Resources.Value.{Value, Fields}
use zscalerctl.Resources.Select.{select_records}
use zscalerctl.Resources.Select.Admits.{IsComparable}
use zscalerctl.Resources.Select.Kept.{InFields, select-InFields}
use zscalerctl.Resources.Availability.{rendered_in, field_path_availability, or_unavailable}
use zscalerctl.Resources.Filters.{ProjectedFilter, filter_projected_records}
use zscalerctl.Resources.Narrow.{
  NarrowOptions, NarrowError, suppressed_field, check_rendered, validate_narrow_options,
  validate_narrow_options_in_mode, effective_fields, renderable_names, narrow_projected_records,
}
use zscalerctl.Resources.Narrow.Matches.{Matches, IsKept, filter_projected_records-IsKept}
use zscalerctl.Resources.Narrow.Wanted.{
  IsShown, rendered_in-IsShown, IsWanted, renderable_names-Some,
}

-- The filter names no path, or one that the mode shows.
abbrev pub FilterShows : ResourceSpec → Mode → ProjectedFilter → Type 0
FilterShows spec mode f = is_empty f.path ≡ false → IsShown spec mode f.path

check_rendered-FilterShows :
    (spec : ResourceSpec) (mode : Mode) (filters : List ProjectedFilter)
    → check_rendered spec mode filters ≡ ok tt
    → All (FilterShows spec mode) filters
unfolding check_rendered
check_rendered-FilterShows spec mode [] h = tt
check_rendered-FilterShows spec mode (f ∷ filters) h =
    let availability = or_unavailable (field_path_availability spec f.path) in
    let (first, rest) =
      refuse_if-ok (not (is_empty f.path) && not (rendered_in availability mode))
        (suppressed_field f.path availability) (check_rendered spec mode filters) h in
    (
      λ named.
          (rendered_in-IsShown spec mode f.path).0
            (passed (is_empty f.path) (rendered_in availability mode) first named),
      check_rendered-FilterShows spec mode filters rest,
    )
  where
    passed : (a b : Bool) → (not a && not b) ≡ false → a ≡ false → b ≡ true
    passed a b h k = ground arith

-- Of the leaves of a record, the narrowed one has exactly those at, above or beneath a requested name
-- that is rendered.
abbrev pub NarrowedTo : ResourceSpec → Mode → List Text → Fields → Fields → Type 0
NarrowedTo spec mode names r out =
    (path : List Text) (leaf : Value)
    → InFields out path leaf ↔ (
        InFields r path leaf
        × Some (λ name. IsWanted spec mode name × IsComparable (split b'.' name) path) names)

-- Two lists of records of one length, the second narrowed from the first.
abbrev pub AllNarrowed : ResourceSpec → Mode → List Text → List Fields → List Fields → Type 0
AllNarrowed spec mode names [] [] = Unit
AllNarrowed spec mode names [] (out ∷ outs) = ⊥
AllNarrowed spec mode names (r ∷ rs) [] = ⊥
AllNarrowed spec mode names (r ∷ rs) (out ∷ outs) =
    NarrowedTo spec mode names r out × AllNarrowed spec mode names rs outs

select_records-AllNarrowed :
    (spec : ResourceSpec) (mode : Mode) (names : List Text) (rs : List Fields)
    → AllNarrowed spec mode names rs (select_records (renderable_names spec mode names) rs)
unfolding select_records
select_records-AllNarrowed spec mode names [] = tt
select_records-AllNarrowed spec mode names (r ∷ rs) = (
  λ path leaf.
      let (f, g) = select-InFields (renderable_names spec mode names) r path leaf in
      let (led, back) =
        renderable_names-Some spec mode (λ name. IsComparable (split b'.' name) path) names in
      (λ h. let (here, found) = f h in (here, led found), λ (here, found). g (here, back found)),
  select_records-AllNarrowed spec mode names rs,
)

last_step :
    (checks : Result NarrowError (Unit {0})) (names : List Text) (run : List Text → List Fields)
    (out : List Fields)
    → (checks >> ok names >>= λ ns. ok (run ns)) ≡ ok out
    → run names ≡ out
last_step (err e) names run out h = cc
last_step (ok u) names run out h = cc

pub record IsNarrowed (sprint : Value → Text) (spec : ResourceSpec) (mode : Mode)
    (opts : NarrowOptions) (rs out : List Fields) : Type 0 where
  pub filters_show : All (FilterShows spec mode) opts.filters
  pub kept : List Fields
  pub matches : IsKept (λ r. Matches sprint r opts.filters opts.search) rs kept
  pub narrowed : AllNarrowed spec mode opts.fields kept out

-- If fields are requested and `NarrowProjectedRecords` succeeds, then each filter that names a path
-- names fields that the mode allows; and there is one record for each that matches the filters and
-- the search, in order, which has of its values that are neither maps nor lists of values or maps
-- exactly those at, above or beneath a requested name that is rendered in the mode.
pub narrow_projected_records-IsNarrowed :
    (sprint : Value → Text) (spec : ResourceSpec) (mode : Mode) (opts : NarrowOptions)
    (rs out : List Fields)
    → is_empty opts.fields ≡ false
    → narrow_projected_records sprint spec mode rs opts ≡ ok out
    → IsNarrowed sprint spec mode opts rs out
unfolding narrow_projected_records validate_narrow_options_in_mode effective_fields
narrow_projected_records-IsNarrowed sprint spec mode opts rs out asked h =
    let kept = filter_projected_records sprint rs opts.filters opts.search in
    let (valid, after) = >>-ok (validate_narrow_options_in_mode spec mode opts) _ h in
    let (known, rendered) =
      >>-ok (validate_narrow_options spec opts) (check_rendered spec mode opts.filters) valid in
    let narrowed = rw asked at after in
    let same : select_records (renderable_names spec mode opts.fields) kept ≡ out =
      last_step
        (validate_narrow_options spec (record { fields = opts.fields; filters = []; search = [] }))
        (renderable_names spec mode opts.fields) (λ names. select_records names kept) out
        narrowed in
    record {
      filters_show = check_rendered-FilterShows spec mode opts.filters rendered;
      kept = kept;
      matches = filter_projected_records-IsKept sprint rs opts.filters opts.search;
      narrowed =
          subst (AllNarrowed spec mode opts.fields kept) same
            (select_records-AllNarrowed spec mode opts.fields kept);
    }
