-- ===== src/Resources/Spec.antt =====
-- The catalog's types in internal/resources/resources.go, and the modes of internal/redact/redact.go.
use zscalerctl.Prelude.{
  Bool, true, false, not, ◌&&◌, Option, none, some, List, [], ◌∷◌, Text, codes, text_beq, text_eq,
  is_empty, if◌then◌else◌, trim_space, to_lower,
}

-- `redact.Mode` is a string; the empty one stands for the standard mode.
abbrev pub Mode : Type 0
Mode = Text

abbrev pub mode_standard : Mode
mode_standard = codes "standard"

abbrev pub mode_share : Mode
mode_share = codes "share"

abbrev pub mode_paranoid : Mode
mode_paranoid = codes "paranoid"

abbrev pub effective_mode : Mode → Mode
effective_mode mode = if is_empty mode then mode_standard else mode

-- The error is one fixed message.
unfoldable pub parse_mode : Text → Option Mode
unfolding trim_space to_lower
parse_mode value =
    let mode = to_lower (trim_space value) in
    if text_beq mode mode_standard
    then some mode_standard
    else if text_beq mode mode_share
    then some mode_share
    else if text_beq mode mode_paranoid
    then some mode_paranoid
    else none

-- `FieldClassification` is a string; `unclassified` is the empty one.
pub data FieldClassification : Type 0 where
  unclassified public_project_data operational tenant_config : FieldClassification
  sensitive_identifier free_text secret : FieldClassification
  other_class : Text → FieldClassification

abbrev pub is_secret : FieldClassification → Bool
is_secret secret = true
is_secret _ = false

abbrev pub is_free_text : FieldClassification → Bool
is_free_text free_text = true
is_free_text _ = false

abbrev pub is_tenant_config : FieldClassification → Bool
is_tenant_config tenant_config = true
is_tenant_config _ = false

abbrev pub is_unclassified : FieldClassification → Bool
is_unclassified unclassified = true
is_unclassified _ = false

-- A field without the fields nested in it. `Type` and `References` are not used by the operations
-- modelled here.
pub record FieldInfo : Type 0 where
  pub name : Text
  pub json_name : Text
  pub classification : FieldClassification
  pub allowed_modes : List Mode
  pub sensitive_name_reason : Text
  pub standard_free_text_reason : Text
  pub secret_reason : Text

-- `[]FieldSpec`: each field with its nested fields, and the fields after it.
pub data FieldSpecs : Type 0 where
  no_fields : FieldSpecs
  field : FieldInfo → FieldSpecs → FieldSpecs → FieldSpecs

pub record FieldSpec : Type 0 where
  pub info : FieldInfo
  pub fields : FieldSpecs

abbrev pub has_fields : FieldSpecs → Bool
has_fields no_fields = false
has_fields (field i nested rest) = true

abbrev pub json_field : FieldInfo → Text
json_field f = if is_empty f.json_name then f.name else f.json_name

unfoldable pub any_mode : List Mode → Mode → Bool
any_mode [] mode = false
any_mode (allowed ∷ rest) mode =
    if text_beq (effective_mode allowed) mode then true else any_mode rest mode

-- `AllowedIn`
unfoldable pub allowed_in : FieldInfo → Mode → Bool
unfolding any_mode
allowed_in f mode =
    if is_secret f.classification then false else any_mode f.allowed_modes (effective_mode mode)

unfoldable pub field_by_json_name : FieldSpecs → Text → Option FieldSpec
field_by_json_name no_fields name = none
field_by_json_name (field i nested rest) name =
    if text_beq (json_field i) name
    then some (record { info = i; fields = nested })
    else field_by_json_name rest name

-- `allowedFieldMap`, as a lookup: of two allowed fields with one name the later one stays.
unfoldable pub allowed_field : FieldSpecs → Mode → Text → Option FieldSpec
unfolding allowed_in
allowed_field no_fields mode key = none
allowed_field (field i nested rest) mode key =
    let later = allowed_field rest mode key in
    elim later [
      | some f ↦ some f
      | none ↦
          if allowed_in i mode && text_beq (json_field i) key
          then some (record { info = i; fields = nested })
          else none
    ]

unfoldable pub field_order : FieldSpecs → Mode → List Text
unfolding allowed_in
field_order no_fields mode = []
field_order (field i nested rest) mode =
    let more = field_order rest mode in if allowed_in i mode then json_field i ∷ more else more

-- A capability is a string, and so are the shapes.
pub record Operation : Type 0 where
  pub name : Text
  pub capability : Text

abbrev pub capability_read : Text
capability_read = codes "read"

abbrev pub capability_write : Text
capability_write = codes "write"

abbrev pub mutates : Operation → Bool
mutates o = text_beq o.capability capability_write

pub record ResourceSpec : Type 0 where
  pub product : Text
  pub name : Text
  pub shape : Text
  pub operations : List Operation
  pub get_key : Text
  pub fields : FieldSpecs

abbrev pub effective_shape : ResourceSpec → Text
effective_shape s = if is_empty s.shape then codes "list" else s.shape

unfoldable pub reads : List Operation → Text → Bool
reads [] name = false
reads (op ∷ ops) name =
    if text_beq op.name name && text_beq op.capability capability_read then true else reads ops name

unfoldable pub supports_read_operation : ResourceSpec → Text → Bool
unfolding reads
supports_read_operation s name = reads s.operations name

unfoldable pub effective_get_key : ResourceSpec → Text
unfolding supports_read_operation
effective_get_key s =
    if not (supports_read_operation s (codes "get"))
    then []
    else if not (is_empty s.get_key)
    then s.get_key
    else codes "id"

-- The first operation that mutates.
unfoldable pub mutating : List Operation → Option Operation
mutating [] = none
mutating (op ∷ ops) = if mutates op then some op else mutating ops

-- `AssertReadOnly`: the specification and the operation that its error names.
unfoldable pub assert_read_only : List ResourceSpec → Option (ResourceSpec × Operation)
unfolding mutating
assert_read_only [] = none
assert_read_only (spec ∷ specs) = elim (mutating spec.operations) [
  | some op ↦ some (spec, op)
  | none ↦ assert_read_only specs
]

unfoldable pub find_spec : List ResourceSpec → Text → Text → Option ResourceSpec
find_spec [] product name = none
find_spec (spec ∷ specs) product name =
    if text_beq spec.product product && text_beq spec.name name
    then some spec
    else find_spec specs product name
