-- ===== src/Secretref.antt =====
-- The reference to a secret of a configuration file, in internal/secretref/ref.go. The package
-- yaml.v3 decodes the node of a command: `decode` returns what it reads, `none` for its error.
-- `time.ParseDuration` is the parameter `parse_duration`, with nanoseconds as its result.
pub mod Strings
mod Tests
use zscalerctl.Prelude.{
  ℕ, Bool, true, false, Option, none, some, List, [], ◌∷◌, Text, codes, text_beq, is_empty, cut,
  contains_text, trim_space, if◌then◌else◌, ◌||◌, Result, ok, err, ◌>>=◌, ◌>>◌, refuse_if, not,
  contains, text_eq,
}
use zscalerctl.Prelude.Int.{ℤ, pos, negsuc}

pub record SecretRef : Type 0 where
  pub scheme : Text
  pub name : Text
  pub path : Text
  pub service : Text
  pub key : Text
  pub argv : List Text
  pub timeout : ℤ

abbrev pub no_ref : SecretRef
no_ref = record {
  scheme = [];
  name = [];
  path = [];
  service = [];
  key = [];
  argv = [];
  timeout = pos 0;
}

abbrev pub env_ref : Text → SecretRef
env_ref name = record no_ref { scheme = codes "env"; name = name }

abbrev pub file_ref : Text → SecretRef
file_ref path = record no_ref { scheme = codes "file"; path = path }

abbrev pub keyring_ref : Text → Text → SecretRef
keyring_ref service key = record no_ref { scheme = codes "keyring"; service = service; key = key }

-- What is wrong with a reference; all of them are `ErrInvalidRef`.
pub data InvalidRef : Type 0 where
  no_scheme no_variable no_path not_service_key : InvalidRef
  unknown_scheme unknown_key unknown_cmd_key : Text → InvalidRef
  not_decoded no_cmd no_argv bad_timeout wrong_kind : InvalidRef

abbrev cut_keyring : Option (Text × Text) → Result InvalidRef SecretRef
cut_keyring none = err not_service_key
cut_keyring (some (service, key)) =
    if is_empty service || (is_empty key || contains_text key (codes "/"))
    then err not_service_key
    else ok (keyring_ref service key)

abbrev with_scheme : Option (Text × Text) → Result InvalidRef SecretRef
with_scheme none = err no_scheme
with_scheme (some (scheme, value)) =
    if is_empty scheme
    then err no_scheme
    else if text_beq scheme (codes "env")
    then if is_empty value then err no_variable else ok (env_ref value)
    else if text_beq scheme (codes "file")
    then if is_empty value then err no_path else ok (file_ref value)
    else if text_beq scheme (codes "keyring")
    then cut_keyring (cut b'/' value)
    else err (unknown_scheme scheme)

-- `parseString`
unfoldable pub parse_string : Text → Result InvalidRef SecretRef
unfolding trim_space cut contains_text
parse_string raw = with_scheme (cut b':' (trim_space raw))

-- A node of a YAML document.
mutual
  pub data Node : Type 0 where
    scalar : Text → Node
    mapping : Nodes → Node
    alias_of : Node → Node
    other_node : Text → Node

  pub data Nodes : Type 0 where
    no_nodes : Nodes
    node : Node → Nodes → Nodes

-- `node.Value`
abbrev node_value : Node → Text
node_value (scalar s) = s
node_value (mapping content) = []
node_value (alias_of target) = []
node_value (other_node s) = s

unfoldable pub resolved : Node → Node
resolved (alias_of target) = resolved target
resolved n = n

abbrev known_cmd_key : Text → Bool
known_cmd_key key = text_beq key (codes "argv") || text_beq key (codes "timeout")

-- `checkCmdKeys`: the key that is not known.
unfoldable pub check_cmd_keys : Nodes → Option Text
check_cmd_keys (node key (node value content)) =
    let rest = check_cmd_keys content in
    if known_cmd_key (node_value key) then rest else some (node_value key)
check_cmd_keys _ = none

abbrev check_cmd : Node → Option Text
unfolding check_cmd_keys
check_cmd (mapping content) = check_cmd_keys content
check_cmd _ = none

abbrev refuse_key : Option Text → Result InvalidRef (Unit {0})
refuse_key none = ok tt
refuse_key (some key) = err (unknown_cmd_key key)

-- The loop over the keys beside `cmd`.
unfoldable pub check_keys : Nodes → Result InvalidRef (Unit {0})
unfolding check_cmd_keys resolved
check_keys (node key (node value content)) =
    let rest = check_keys content in
    refuse_if (not (text_beq (node_value key) (codes "cmd"))) (unknown_key (node_value key))
    >> refuse_key (check_cmd (resolved value))
    >> rest
check_keys _ = ok tt

-- What `node.Decode` reads: `argv` and `timeout` under `cmd`, if there is a `cmd`.
abbrev pub Decoded : Type 0
Decoded = Option (List Text × Text)

abbrev is_positive : ℤ → Bool
is_positive (pos ℕ.zero) = false
is_positive (pos (ℕ.suc n)) = true
is_positive (negsuc n) = false

abbrev cmd_ref : List Text → ℤ → SecretRef
cmd_ref argv timeout = record no_ref { scheme = codes "cmd"; argv = argv; timeout = timeout }

abbrev pub no_command : List Text → Bool
unfolding trim_space
no_command [] = true
no_command (program ∷ args) = is_empty (trim_space program)

abbrev with_timeout : List Text → Option ℤ → Result InvalidRef SecretRef
with_timeout argv none = err bad_timeout
with_timeout argv (some timeout) =
    if is_positive timeout then ok (cmd_ref argv timeout) else err bad_timeout

module _ (decode : Nodes → Option Decoded) (parse_duration : Text → Option ℤ) where
  abbrev from_decoded : Option Decoded → Result InvalidRef SecretRef
  from_decoded none = err not_decoded
  from_decoded (some none) = err no_cmd
  from_decoded (some (some (argv, timeout))) =
      if no_command argv
      then err no_argv
      else if is_empty timeout
      then ok (cmd_ref argv (pos 0))
      else with_timeout argv (parse_duration timeout)

  -- `parseStructured`
  unfoldable pub parse_structured : Nodes → Result InvalidRef SecretRef
  unfolding check_keys
  parse_structured content = check_keys content >> from_decoded (decode content)

  -- `UnmarshalYAML`
  unfoldable pub unmarshal_yaml : Node → Result InvalidRef SecretRef
  unfolding parse_string parse_structured
  unmarshal_yaml (scalar s) = parse_string s
  unmarshal_yaml (mapping content) = parse_structured content
  unmarshal_yaml _ = err wrong_kind
