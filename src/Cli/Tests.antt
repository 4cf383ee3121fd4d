-- ===== src/Cli/Tests.antt =====
-- Runs of the suggestions on a catalog of three resources.
use zscalerctl.Prelude.{
  ◌≡◌, refl, false, list_beq, join, List, [], ◌∷◌, Text, codes, is_empty, length, ◌≤◌, arith, In,
  inl, inr, ℕ,
}
use zscalerctl.Resources.Spec.{ResourceSpec, no_fields}
use zscalerctl.Cli.Words.{resource_words, singular}
use zscalerctl.Cli.Distance.{Edits, edit_distance, edit_distance-Edits}
use zscalerctl.Cli.Suggest.{
  max_resource_suggestions, resource_suggestions, did_you_mean, known_products,
}
use zscalerctl.Cli.Suggest.Listed.{IsTypo, IsMeant, Names, resource_suggestions-IsMeant}
use zscalerctl.Cli.Suggest.Typos.{resource_suggestions-IsTypo}

abbrev named : Text → Text → ResourceSpec
named product name = record {
  product = product;
  name = name;
  shape = [];
  operations = [];
  get_key = [];
  fields = no_fields;
}

abbrev locations : ResourceSpec
locations = named (codes "zia") (codes "locations")

abbrev groups : ResourceSpec
groups = named (codes "zpa") (codes "server-groups")

abbrev small_catalog : List ResourceSpec
small_catalog = groups ∷ locations ∷ named (codes "zpa") (codes "app-connectors") ∷ []

distance_run : edit_distance (codes "kitten") (codes "sitting") ≡ 3
unfolding edit_distance
distance_run = refl

singular_run : singular (codes "policies") ≡ codes "policy"
unfolding singular
singular_run = refl

typo_run :
    resource_suggestions small_catalog (codes "zia") (codes "location") ≡ codes "zia/locations" ∷ []
unfolding resource_suggestions list_beq join
typo_run = refl

elsewhere_run :
    resource_suggestions small_catalog (codes "zpa") (codes "Locations")
    ≡ codes "zia/locations" ∷ []
unfolding resource_suggestions list_beq join
elsewhere_run = refl

word_run :
    resource_suggestions small_catalog (codes "zpa") (codes "connector")
    ≡ codes "zpa/app-connectors" ∷ []
unfolding resource_suggestions list_beq join
word_run = refl

sentence_run :
    did_you_mean (codes "a" ∷ codes "b" ∷ codes "c" ∷ []) ≡ codes " (did you mean a, b or c?)"
unfolding did_you_mean join
sentence_run = refl

products_run : known_products small_catalog ≡ codes "zpa" ∷ codes "zia" ∷ []
unfolding known_products list_beq
products_run = refl

edit_distance-Edits_example :
    Edits (codes "ips") (codes "ip") (edit_distance (codes "ips") (codes "ip"))
    × ((n : ℕ) → Edits (codes "ips") (codes "ip") n → edit_distance (codes "ips") (codes "ip") ≤ n)
edit_distance-Edits_example = edit_distance-Edits (codes "ips") (codes "ip")

resource_suggestions-IsMeant_example :
    (length (resource_suggestions small_catalog (codes "zpa") (codes "Locations"))
      ≤ max_resource_suggestions)
    × ((x : Text)
        → In x (resource_suggestions small_catalog (codes "zpa") (codes "Locations"))
        → Names small_catalog (IsMeant (codes "zpa") (resource_words (codes "Locations"))) x)
resource_suggestions-IsMeant_example =
    resource_suggestions-IsMeant small_catalog (codes "zpa") (codes "Locations")

asked-IsTypo :
    (is_empty (resource_words (codes "location")) ≡ false)
    × IsTypo (codes "zia") (resource_words (codes "location")) locations
unfolding resource_words edit_distance join
asked-IsTypo = (refl, (refl, omega arith))

resource_suggestions-IsTypo_example :
    (is_empty (resource_suggestions small_catalog (codes "zia") (codes "location")) ≡ false)
    × ((x : Text)
        → In x (resource_suggestions small_catalog (codes "zia") (codes "location"))
        → Names small_catalog (IsTypo (codes "zia") (resource_words (codes "location"))) x)
resource_suggestions-IsTypo_example =
    resource_suggestions-IsTypo small_catalog (codes "zia") (codes "location") locations
      (asked-IsTypo.0) (inr (inl refl)) (asked-IsTypo.1)
