-- ===== src/Resources/Availability.antt =====
-- Dotted paths through the catalog, and the modes in which they render, in
-- internal/resources/resources.go.
use zscalerctl.Prelude.{
  Bool, true, false, not, Option, none, some, List, [], ◌∷◌, Text, text_eq, if◌then◌else◌, contains,
  split,
}
use zscalerctl.Resources.Spec.{
  Mode, mode_standard, mode_share, mode_paranoid, effective_mode, is_secret, FieldSpec, FieldSpecs,
  has_fields, allowed_in, field_by_json_name, ResourceSpec,
}

-- The fields along the segments of a dotted path.
unfoldable pub chain_along : FieldSpecs → List Text → Option (List FieldSpec)
unfolding field_by_json_name
chain_along specs [] = some []
chain_along specs (segment ∷ segments) = elim (field_by_json_name specs segment) [
  | none ↦ none
  | some f ↦ elim (chain_along f.fields segments) [ none ↦ none | some chain ↦ some (f ∷ chain) ]
]

unfoldable pub field_chain : FieldSpecs → Text → Option (List FieldSpec)
unfolding field_by_json_name chain_along split
field_chain specs name = elim (field_by_json_name specs name) [
  | some f ↦ some (f ∷ [])
  | none ↦ chain_along specs (split b'.' name)
]

pub record PathAvailability : Type 0 where
  pub secret : Bool
  pub renderable_in : List Mode

unfoldable pub any_secret : List FieldSpec → Bool
any_secret [] = false
any_secret (f ∷ chain) = if is_secret f.info.classification then true else any_secret chain

unfoldable pub all_allowed : Mode → List FieldSpec → Bool
unfolding allowed_in
all_allowed mode [] = true
all_allowed mode (f ∷ chain) =
    if not (allowed_in f.info mode) then false else all_allowed mode chain

unfoldable pub renderable_modes : List FieldSpec → List Mode → List Mode
unfolding all_allowed
renderable_modes chain [] = []
renderable_modes chain (mode ∷ modes) =
    let more = renderable_modes chain modes in if all_allowed mode chain then mode ∷ more else more

abbrev pub all_modes : List Mode
all_modes = mode_standard ∷ mode_share ∷ mode_paranoid ∷ []

unfoldable pub availability_along : List FieldSpec → PathAvailability
unfolding any_secret renderable_modes
availability_along chain = record {
  secret = any_secret chain;
  renderable_in = renderable_modes chain all_modes;
}

unfoldable pub rendered_in : PathAvailability → Mode → Bool
unfolding contains
rendered_in a mode = contains a.renderable_in (effective_mode mode)

unfoldable pub field_path_availability : ResourceSpec → Text → Option PathAvailability
unfolding field_chain availability_along
field_path_availability spec name = elim (field_chain spec.fields name) [
  | none ↦ none
  | some chain ↦ some (availability_along chain)
]

abbrev pub no_availability : PathAvailability
no_availability = record { secret = false; renderable_in = [] }

-- The availability that the callers use when they ignore whether the name is known.
abbrev pub or_unavailable : Option PathAvailability → PathAvailability
or_unavailable none = no_availability
or_unavailable (some a) = a

unfoldable pub leaf_path : FieldSpecs → List Text → Bool
unfolding field_by_json_name
leaf_path specs [] = not (has_fields specs)
leaf_path specs (segment ∷ segments) = elim (field_by_json_name specs segment) [
  | none ↦ false
  | some f ↦ leaf_path f.fields segments
]

unfoldable pub valid_filter_path : FieldSpecs → Text → Bool
unfolding field_by_json_name leaf_path split
valid_filter_path specs name = elim (field_by_json_name specs name) [
  | some f ↦ true
  | none ↦ leaf_path specs (split b'.' name)
]
