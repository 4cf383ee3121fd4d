-- ===== src/Cli/Suggest.antt =====
-- `resourceSuggestions` and its neighbours in internal/cli/suggest.go, and `knownProducts` of
-- internal/cli/commands_helpers.go.
pub mod Listed
pub mod Typos
use zscalerctl.Prelude.{
  ℕ, suc, Bool, true, false, List, [], ◌∷◌, ◌++◌, map, Text, codes, text_beq, text_lt, list_beq,
  text_eq, is_empty, length, join, ltb, leb, ◌==◌, ◌&&◌, ◌||◌, not, take, sort_by, contains,
  if◌then◌else◌,
}
use zscalerctl.Resources.Spec.{ResourceSpec, supports_read_operation}
use zscalerctl.Cli.Distance.{edit_distance}
use zscalerctl.Cli.Words.{resource_words, missing_words, typo_budget}

abbrev pub max_resource_suggestions : ℕ
max_resource_suggestions = 3

abbrev pub id_of : ResourceSpec → Text
id_of spec = spec.product ++ (codes "/" ++ spec.name)

unfoldable pub product_of : Text → Text
product_of [] = []
product_of (c ∷ id) = let rest = product_of id in if c == b'/' then [] else c ∷ rest

-- The products in the order of their first resources, with those seen so far.
unfoldable pub products_from : List Text → List ResourceSpec → List Text
unfolding contains
products_from seen [] = []
products_from seen (spec ∷ specs) = elim (contains seen spec.product) [
  | true ↦ products_from seen specs
  | false ↦ spec.product ∷ products_from (spec.product ∷ seen) specs
]

unfoldable pub known_products : List ResourceSpec → List Text
unfolding products_from
known_products catalog = products_from [] catalog

-- One more than `slices.Index`.
unfoldable pub place_in : List Text → Text → ℕ
place_in [] product = 0
place_in (p ∷ products) product =
    let rest = place_in products product in
    if text_beq p product then 1 else if rest == 0 then 0 else suc rest

pub record Typo : Type 0 where
  pub name : Text
  pub distance : ℕ

abbrev pub typo_before : Typo → Typo → Bool
typo_before a b =
    if a.distance == b.distance then text_lt a.name b.name else ltb a.distance b.distance

-- The four lists that the loop over the catalog appends to.
pub record Tiers : Type 0 where
  pub typos : List Typo
  pub elsewhere : List Text
  pub all_words : List Text
  pub all_but_one : List Text

abbrev pub no_tiers : Tiers
no_tiers = record { typos = []; elsewhere = []; all_words = []; all_but_one = [] }

abbrev pub query_key : List Text → Text
query_key query = join (codes "-") query

abbrev pub distance_to : List Text → ResourceSpec → ℕ
distance_to query spec =
    edit_distance (query_key query) (join (codes "-") (resource_words spec.name))

-- The round of the loop for one resource, in front of what the later ones append.
unfoldable pub place : Text → List Text → ResourceSpec → Tiers → Tiers
unfolding resource_words missing_words edit_distance
place product query spec rest =
    let words = resource_words spec.name in
    let missing = missing_words query words in
    if not (text_beq spec.product product)
    then (if list_beq words query
        then record rest { elsewhere = id_of spec ∷ rest.elsewhere }
        else rest)
    else if leb (distance_to query spec) (typo_budget (query_key query))
    then record rest {
      typos = record { name = id_of spec; distance = distance_to query spec } ∷ rest.typos;
    }
    else if missing == 0
    then record rest { all_words = id_of spec ∷ rest.all_words }
    else if missing == 1 && leb 2 (length query)
    then record rest { all_but_one = id_of spec ∷ rest.all_but_one }
    else rest

unfoldable pub gather : Text → List Text → List ResourceSpec → Tiers
unfolding place
gather product query [] = no_tiers
gather product query (spec ∷ specs) = place product query spec (gather product query specs)

-- A word tier: nothing if too many match.
abbrev pub few : List Text → List Text
few tier = if ltb max_resource_suggestions (length tier) then [] else sort_by text_lt tier

abbrev pub product_before : List Text → Text → Text → Bool
product_before products a b =
    ltb (place_in products (product_of a)) (place_in products (product_of b))

unfoldable pub typo_names : List Typo → List Text
typo_names [] = []
typo_names (t ∷ typos) = t.name ∷ typo_names typos

-- The first tier with matches.
unfoldable pub choose : List Text → Tiers → List Text
unfolding sort_by typo_names
choose products tiers =
    if not (is_empty tiers.typos)
    then typo_names (take max_resource_suggestions (sort_by typo_before tiers.typos))
    else if not (is_empty tiers.elsewhere)
    then take max_resource_suggestions (sort_by (product_before products) tiers.elsewhere)
    else if not (is_empty tiers.all_words)
    then few tiers.all_words
    else few tiers.all_but_one

unfoldable pub resource_suggestions : List ResourceSpec → Text → Text → List Text
unfolding gather choose known_products resource_words
resource_suggestions catalog product name =
    let query = resource_words name in
    if is_empty query then [] else choose (known_products catalog) (gather product query catalog)

abbrev any_supported : ResourceSpec → List Text → Bool
unfolding supports_read_operation
any_supported spec [] = false
any_supported spec (op ∷ ops) = supports_read_operation spec op || any_supported spec ops

unfoldable pub specs_supporting : List ResourceSpec → List Text → List ResourceSpec
unfolding supports_read_operation
specs_supporting [] ops = []
specs_supporting (spec ∷ specs) ops =
    let rest = specs_supporting specs ops in if any_supported spec ops then spec ∷ rest else rest

abbrev last_text : Text → List Text → Text
last_text s [] = s
last_text s (t ∷ ts) = last_text t ts

abbrev all_but_last : Text → List Text → List Text
all_but_last s [] = []
all_but_last s (t ∷ ts) = s ∷ all_but_last t ts

unfoldable pub did_you_mean : List Text → Text
did_you_mean [] = []
did_you_mean (s ∷ []) = codes " (did you mean " ++ (s ++ codes "?)")
did_you_mean (s ∷ t ∷ ts) =
    codes " (did you mean "
    ++ (join (codes ", ") (all_but_last s (t ∷ ts))
        ++ (codes " or " ++ (last_text t ts ++ codes "?)")))
