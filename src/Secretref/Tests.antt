-- ===== src/Secretref/Tests.antt =====
-- Runs of the parser of references.
use zscalerctl.Prelude.{◌≡◌, refl, ◌↔◌, codes, ok, err, none, [], trim_space, list_beq}
use zscalerctl.Secretref.{
  env_ref, keyring_ref, not_service_key, unknown_cmd_key, no_nodes, node, scalar, mapping, alias_of,
  parse_string, unmarshal_yaml,
}
use zscalerctl.Secretref.Strings.{Spells, parse_string-Spells}

env_run : parse_string (codes " env:TOKEN\n") ≡ ok (env_ref (codes "TOKEN"))
unfolding parse_string list_beq
env_run = refl

keyring_run :
    parse_string (codes "keyring:zscaler/key") ≡ ok (keyring_ref (codes "zscaler") (codes "key"))
unfolding parse_string list_beq
keyring_run = refl

slash_run : parse_string (codes "keyring:a/b/c") ≡ err not_service_key
unfolding parse_string list_beq
slash_run = refl

-- An alias does not hide an unknown key.
alias_run :
    unmarshal_yaml
      (λ content. none)
      (λ s. none)
      (mapping (
        node (scalar (codes "cmd")) (
          node
            (alias_of (mapping (node (scalar (codes "shell")) (node (scalar []) no_nodes))))
            no_nodes)))
    ≡ err (unknown_cmd_key (codes "shell"))
unfolding unmarshal_yaml list_beq
alias_run = refl

parse_string-Spells_example :
    (parse_string (codes "keyring:zscaler/key") ≡ ok (keyring_ref (codes "zscaler") (codes "key")))
    ↔ Spells
        (trim_space (codes "keyring:zscaler/key"))
        (keyring_ref (codes "zscaler") (codes "key"))
parse_string-Spells_example =
    parse_string-Spells (codes "keyring:zscaler/key") (keyring_ref (codes "zscaler") (codes "key"))
