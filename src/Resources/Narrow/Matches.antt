-- ===== src/Resources/Narrow/Matches.antt =====
-- Which records `FilterProjectedRecords` of internal/resources/resources.go keeps.
use zscalerctl.Prelude.{
  Bool, true, false, ◌≡◌, refl, ap, inl, inr, ◌⊎◌, ◌↔◌, List, [], ◌∷◌, ◌++◌, Text, text_beq,
  text_beq_iff, is_empty, if◌then◌else◌, has_prefix, contains_text, to_lower, All, Some, Bool-cases,
  ◌==◌, ==_iff,
}
use zscalerctl.Resources.Value.{Value, Fields, no_entries, entry}
use zscalerctl.Resources.Filters.{
  ProjectedFilter, format_projected_value, filter_values, any_matches, projected_filter_matches,
  all_filters_match, any_entry_contains, projected_record_matches, kept_records,
  filter_projected_records,
}

abbrev pub StartsWith : Text → Text → Type 0
StartsWith s p = (after : Text) × (s ≡ p ++ after)

abbrev pub Contains : Text → Text → Type 0
Contains s sub = (before after : Text) × (s ≡ before ++ (sub ++ after))

has_prefix-StartsWith : (s p : Text) → (has_prefix s p ≡ true) ↔ StartsWith s p
unfolding has_prefix
has_prefix-StartsWith s [] = (λ h. (s, refl), λ h. refl)
has_prefix-StartsWith [] (d ∷ p) = (λ h. cc, λ (after, e). cc)
has_prefix-StartsWith (c ∷ s) (d ∷ p) = elim (Bool-cases (c == d)) [
  | inl e ↦ rw e (
    λ h.
        let (after, same) = (has_prefix-StartsWith s p).0 h in
        let first : c ≡ d = (==_iff c d).0 e in (after, cc),
    λ (after, same). (has_prefix-StartsWith s p).1 (after, cc),
  )
  | inr e ↦ rw e (λ h. cc, λ (after, same). let yes : (c == d) ≡ true = (==_iff c d).1 cc in cc)
]

pub contains_text-Contains : (s sub : Text) → (contains_text s sub ≡ true) ↔ Contains s sub
unfolding contains_text
contains_text-Contains [] sub = (
  λ h. let (after, same) = (has_prefix-StartsWith [] sub).0 h in ([], after, same),
  λ (before, after, same). at_end before after same,
)
  where
    at_end : (before after : Text) → [] ≡ before ++ (sub ++ after) → has_prefix [] sub ≡ true
    at_end [] after same = (has_prefix-StartsWith [] sub).1 (after, same)
    at_end (c ∷ before) after same = cc
contains_text-Contains (c ∷ s) sub = elim (Bool-cases (has_prefix (c ∷ s) sub)) [
  | inl e ↦ rw e (
    λ h. let (after, same) = (has_prefix-StartsWith (c ∷ s) sub).0 e in ([], after, same),
    λ h. refl,
  )
  | inr e ↦ rw e (
    λ h.
        let (before, after, same) = (contains_text-Contains s sub).0 h in
        (c ∷ before, after, ap (λ t. c ∷ t) same),
    λ (before, after, same). later e (contains_text-Contains s sub).1 before after same,
  )
]
  where
    later :
        has_prefix (c ∷ s) sub ≡ false
        → (Contains s sub → contains_text s sub ≡ true)
        → (before after : Text) → c ∷ s ≡ before ++ (sub ++ after)
        → contains_text s sub ≡ true
    later e more [] after same = let yes = (has_prefix-StartsWith (c ∷ s) sub).1 (after, same) in cc
    later e more (d ∷ before) after same = more (before, after, cc)

-- The rendered text is the value of the filter, or contains it without regard to case.
abbrev pub Agrees : ProjectedFilter → Text → Type 0
Agrees f rendered =
    if f.substring then Contains (to_lower rendered) (to_lower f.value) else rendered ≡ f.value

abbrev AgreesBy : Bool → ProjectedFilter → Text → Type 0
AgreesBy b f rendered =
    if b then Contains (to_lower rendered) (to_lower f.value) else rendered ≡ f.value

agrees-Agrees :
    (b : Bool) (f : ProjectedFilter) (rendered : Text)
    → ((if b
          then contains_text (to_lower rendered) (to_lower f.value)
          else text_beq rendered f.value)
        ≡ true)
      ↔ AgreesBy b f rendered
agrees-Agrees true f rendered = contains_text-Contains (to_lower rendered) (to_lower f.value)
agrees-Agrees false f rendered = text_beq_iff rendered f.value

or_step :
    {P Q : Type 0} (b c : Bool)
    → (b ≡ true) ↔ P
    → (c ≡ true) ↔ Q
    → ((if b then true else c) ≡ true) ↔ (P ⊎ Q)
or_step true c one rest = (λ h. inl (one.0 refl), λ h. refl)
or_step false c one rest = (
  λ h. inr (rest.0 h),
  λ h. elim h [ inl here ↦ let yes = one.1 here in cc | inr later ↦ rest.1 later ],
)

module _ (sprint : Value → Text) where
  abbrev pub ValueAgrees : ProjectedFilter → Value → Type 0
  ValueAgrees f v = Agrees f (format_projected_value sprint v)

  any_matches-Some :
      (vs : List Value) (f : ProjectedFilter)
      → (any_matches sprint vs f ≡ true) ↔ Some (ValueAgrees f) vs
  unfolding any_matches
  any_matches-Some [] f = (λ h. cc, λ h. elim h [ ])
  any_matches-Some (v ∷ vs) f =
      or_step
        (if f.substring
          then contains_text (to_lower (format_projected_value sprint v)) (to_lower f.value)
          else text_beq (format_projected_value sprint v) f.value)
        (any_matches sprint vs f) (agrees-Agrees f.substring f (format_projected_value sprint v))
        (any_matches-Some vs f)

  -- One of the values that the path of the filter leads to agrees with it.
  abbrev pub MatchesFilter : Fields → ProjectedFilter → Type 0
  MatchesFilter r f = Some (ValueAgrees f) (filter_values sprint r f)

  all_filters_match-All :
      (r : Fields) (filters : List ProjectedFilter)
      → (all_filters_match sprint r filters ≡ true) ↔ All (MatchesFilter r) filters
  unfolding all_filters_match projected_filter_matches
  all_filters_match-All r [] = (λ h. tt, λ h. refl)
  all_filters_match-All r (f ∷ filters) =
      let one = any_matches-Some (filter_values sprint r f) f in
      let rest = all_filters_match-All r filters in
      elim (Bool-cases (any_matches sprint (filter_values sprint r f) f)) [
        | inl e ↦ rw e (λ h. (one.0 e, rest.0 h), λ (h, k). rest.1 k)
        | inr e ↦ rw e (λ h. cc, λ (h, k). let yes = one.1 h in cc)
      ]

  -- The text of an entry contains the term, without regard to the case of the text.
  abbrev pub HasEntry : Text → Fields → Type 0
  HasEntry term no_entries = ⊥
  HasEntry term (entry key v fs) =
      Contains (to_lower (format_projected_value sprint v)) term ⊎ HasEntry term fs

  any_entry_contains-HasEntry :
      (fs : Fields) (term : Text) → (any_entry_contains sprint fs term ≡ true) ↔ HasEntry term fs
  unfolding any_entry_contains
  any_entry_contains-HasEntry no_entries term = (λ h. cc, λ h. elim h [ ])
  any_entry_contains-HasEntry (entry key v fs) term =
      let text = to_lower (format_projected_value sprint v) in
      let one = contains_text-Contains text term in
      let rest = any_entry_contains-HasEntry fs term in
      elim (Bool-cases (contains_text text term)) [
        | inl e ↦ rw e (λ h. inl (one.0 e), λ h. refl)
        | inr e ↦ rw e (
          λ h. inr (rest.0 h),
          λ h. elim h [ inl here ↦ let yes = one.1 here in cc | inr later ↦ rest.1 later ],
        )
      ]

  -- The record matches every filter, and the search is empty or found in an entry.
  abbrev pub Matches : Fields → List ProjectedFilter → Text → Type 0
  Matches r filters search =
      All (MatchesFilter r) filters × ((search ≡ []) ⊎ HasEntry (to_lower search) r)

  searched :
      (r : Fields) (search : Text)
      → ((if is_empty search then true else any_entry_contains sprint r (to_lower search)) ≡ true)
        ↔ ((search ≡ []) ⊎ HasEntry (to_lower search) r)
  searched r [] = (λ h. inl refl, λ h. refl)
  searched r (c ∷ s) =
      let found = any_entry_contains-HasEntry r (to_lower (c ∷ s)) in
      (λ h. inr (found.0 h), λ h. elim h [ inl e ↦ cc | inr here ↦ found.1 here ])

  projected_record_matches-Matches :
      (r : Fields) (filters : List ProjectedFilter) (search : Text)
      → (projected_record_matches sprint r filters search ≡ true) ↔ Matches r filters search
  unfolding projected_record_matches
  projected_record_matches-Matches r filters search =
      let all = all_filters_match-All r filters in
      let found = searched r search in
      elim (Bool-cases (all_filters_match sprint r filters)) [
        | inl e ↦ rw e (λ h. (all.0 e, found.0 h), λ (h, k). found.1 k)
        | inr e ↦ rw e (λ h. cc, λ (h, k). let yes = all.1 h in cc)
      ]

-- `rest` holds records of `rs` in their order: those that match and no others.
pub data IsKept (P : Fields → Type 0) : List Fields → List Fields → Type 0 where
  none_left : IsKept P [] []
  keep :
      {r : Fields} {rs rest : List Fields} → P r → IsKept P rs rest → IsKept P (r ∷ rs) (r ∷ rest)
  leave :
      {r : Fields} {rs rest : List Fields} → (P r → ⊥) → IsKept P rs rest → IsKept P (r ∷ rs) rest

kept_records-IsKept :
    (sprint : Value → Text) (rs : List Fields) (filters : List ProjectedFilter) (search : Text)
    → IsKept (λ r. Matches sprint r filters search) rs (kept_records sprint rs filters search)
unfolding kept_records
kept_records-IsKept sprint [] filters search = none_left
kept_records-IsKept sprint (r ∷ rs) filters search =
    let here = projected_record_matches-Matches sprint r filters search in
    elim (Bool-cases (projected_record_matches sprint r filters search)) [
      | inl e ↦ rw e (keep (here.0 e) (kept_records-IsKept sprint rs filters search))
      | inr e ↦
          rw e
            (leave (λ h. let yes = here.1 h in cc) (kept_records-IsKept sprint rs filters search))
    ]

all_kept : (sprint : Value → Text) (rs : List Fields) → IsKept (λ r. Matches sprint r [] []) rs rs
all_kept sprint [] = none_left
all_kept sprint (r ∷ rs) = keep (tt, inl refl) (all_kept sprint rs)

-- `FilterProjectedRecords` returns, in their order, exactly the records that match: for every
-- filter, some value that its path leads to is rendered as the value of the filter or, for a filter
-- by substring, contains it without regard to case; and the search is empty, or the rendered value
-- of some entry contains it without regard to case.
pub filter_projected_records-IsKept :
    (sprint : Value → Text) (rs : List Fields) (filters : List ProjectedFilter) (search : Text)
    → IsKept
        (λ r. Matches sprint r filters search)
        rs
        (filter_projected_records sprint rs filters search)
unfolding filter_projected_records
filter_projected_records-IsKept sprint rs [] [] = all_kept sprint rs
filter_projected_records-IsKept sprint rs [] (c ∷ s) = kept_records-IsKept sprint rs [] (c ∷ s)
filter_projected_records-IsKept sprint rs (f ∷ filters) search =
    kept_records-IsKept sprint rs (f ∷ filters) search
