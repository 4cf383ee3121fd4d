-- ===== src/Resources/Validate.antt =====
-- `Validate` of internal/resources/resources.go and the tests that it makes.
use zscalerctl.Prelude.{
  ℕ, Bool, true, false, not, ◌&&◌, ◌||◌, List, [], ◌∷◌, ◌++◌, Text, codes, text_beq, text_eq,
  is_empty, if◌then◌else◌, leb, ◌==◌, Result, ok, err, ◌>>◌, ◌>>=◌, refuse_if, contains,
  contains_text, trim_space, to_lower, length,
}
use zscalerctl.Resources.Spec.{
  Mode, mode_standard, mode_share, mode_paranoid, effective_mode, is_secret, is_free_text,
  is_unclassified, FieldInfo, FieldSpecs, no_fields, field, has_fields, json_field, Operation,
  capability_read, capability_write, ResourceSpec, effective_shape, supports_read_operation,
  effective_get_key,
}

-- The errors of `Validate`, in the order of their tests.
pub data SpecFault : Type 0 where
  missing_product invalid_product missing_name invalid_name invalid_shape no_operations : SpecFault
  unnamed_operation report_alone singleton_without_list get_key_without_get : SpecFault
  invalid_operation_name invalid_capability : Text → SpecFault
  get_key_not_top_level : Text → SpecFault
  unnamed_field : SpecFault
  dotted_field duplicate_field missing_classification sensitive_name generic_name : Text → SpecFault
  bare_identifier allowed_secret missing_secret_reason stray_secret_reason : Text → SpecFault
  no_allowed_modes free_text_mode unknown_mode free_text_reason nested_secret : Text → SpecFault

abbrev is_letter_or_digit : ℕ → Bool
is_letter_or_digit c =
    (leb b'a' c && leb c b'z') || ((leb b'A' c && leb c b'Z') || (leb b'0' c && leb c b'9'))

unfoldable pub letters_and_digits : Text → Text
letters_and_digits [] = []
letters_and_digits (c ∷ s) =
    let rest = letters_and_digits s in if is_letter_or_digit c then c ∷ rest else rest

unfoldable pub normalize_field_name : Text → Text
unfolding letters_and_digits to_lower
normalize_field_name name = letters_and_digits (to_lower name)

abbrev pub sensitive_names : List Text
sensitive_names = codes "jwt" ∷ codes "otp" ∷ codes "psk" ∷ codes "secret" ∷ codes "token" ∷ []

abbrev pub sensitive_field_fragments : List Text
sensitive_field_fragments =
    codes "accesstoken"
    ∷ codes "apikey"
    ∷ codes "apitoken"
    ∷ codes "authorization"
    ∷ codes "bearertoken"
    ∷ codes "certblob"
    ∷ codes "clientsecret"
    ∷ codes "cookie"
    ∷ codes "credential"
    ∷ codes "hectoken"
    ∷ codes "jwttoken"
    ∷ codes "keysecret"
    ∷ codes "passphrase"
    ∷ codes "passwd"
    ∷ codes "password"
    ∷ codes "presharedkey"
    ∷ codes "privatekey"
    ∷ codes "provisioningkey"
    ∷ codes "provisionkey"
    ∷ codes "refreshtoken"
    ∷ codes "sandboxapitoken"
    ∷ codes "secret"
    ∷ codes "secretkey"
    ∷ codes "sessionid"
    ∷ codes "sharedsecret"
    ∷ codes "token"
    ∷ codes "zrsaencryptedprivatekey"
    ∷ codes "zrsaencryptedsessionkey"
    ∷ []

abbrev pub generic_field_names : List Text
generic_field_names =
    codes "value" ∷ codes "data" ∷ codes "content" ∷ codes "payload" ∷ codes "body" ∷ []

abbrev pub bare_identifier_field_names : List Text
bare_identifier_field_names =
    codes "email"
    ∷ codes "username"
    ∷ codes "loginname"
    ∷ codes "userid"
    ∷ codes "userprincipalname"
    ∷ codes "domain"
    ∷ codes "fqdn"
    ∷ codes "hostname"
    ∷ []

abbrev pub secret_reasons : List Text
secret_reasons =
    codes "credential"
    ∷ codes "token"
    ∷ codes "key_material"
    ∷ codes "opaque_blob"
    ∷ codes "unstructured"
    ∷ []

unfoldable pub any_fragment : List Text → Text → Bool
unfolding contains_text
any_fragment [] s = false
any_fragment (fragment ∷ rest) s = if contains_text s fragment then true else any_fragment rest s

unfoldable pub secret_like_field_name : Text → Bool
unfolding normalize_field_name any_fragment contains
secret_like_field_name name =
    let normalized = normalize_field_name name in
    if contains sensitive_names normalized
    then true
    else any_fragment sensitive_field_fragments normalized

unfoldable pub valid_secret_reason : Text → Bool
unfolding contains
valid_secret_reason reason = contains secret_reasons reason

unfoldable pub allowed_beyond_standard : List Mode → Bool
allowed_beyond_standard [] = false
allowed_beyond_standard (mode ∷ modes) =
    if text_beq (effective_mode mode) mode_share || text_beq (effective_mode mode) mode_paranoid
    then true
    else allowed_beyond_standard modes

unfoldable pub catalog_letters : Text → Bool
catalog_letters [] = true
catalog_letters (c ∷ s) =
    if (leb b'a' c && leb c b'z') || ((leb b'0' c && leb c b'9') || c == b'-')
    then catalog_letters s
    else false

unfoldable pub valid_catalog_name : Text → Bool
unfolding catalog_letters
valid_catalog_name value = if is_empty value then false else catalog_letters value

unfoldable pub has_top_level_field : FieldSpecs → Text → Bool
has_top_level_field no_fields name = false
has_top_level_field (field i nested rest) name =
    if text_beq (json_field i) name then true else has_top_level_field rest name

-- `validateFreeTextField`: whether the standard mode is allowed, once no other is.
unfoldable pub free_text_modes : Text → Bool → List Mode → Result SpecFault Bool
free_text_modes path standard_allowed [] = ok standard_allowed
free_text_modes path standard_allowed (allowed ∷ modes) =
    let mode = effective_mode allowed in
    if text_beq mode mode_standard
    then free_text_modes path true modes
    else if text_beq mode mode_share || text_beq mode mode_paranoid
    then err (free_text_mode path)
    else err (unknown_mode path)

unfoldable pub validate_free_text_field : Text → FieldInfo → Result SpecFault (Unit {0})
unfolding free_text_modes trim_space
validate_free_text_field path f = free_text_modes path false f.allowed_modes >>= λ standard_allowed.
    refuse_if (standard_allowed && is_empty (trim_space f.standard_free_text_reason))
      (free_text_reason path)

-- The tests of one field, but for those on the fields nested in it.
unfoldable pub validate_field : Text → Text → List Text → FieldInfo → Result SpecFault (Unit {0})
unfolding contains_text contains secret_like_field_name normalize_field_name allowed_beyond_standard
    valid_secret_reason validate_free_text_field
validate_field name path seen f =
    refuse_if (is_empty name) unnamed_field
    >> refuse_if (contains_text name (codes ".")) (dotted_field path)
    >> refuse_if (contains seen name) (duplicate_field path)
    >> refuse_if (is_unclassified f.classification) (missing_classification path)
    >> refuse_if
        (secret_like_field_name name
          && (not (is_secret f.classification) && is_empty f.sensitive_name_reason))
        (sensitive_name path)
    >> refuse_if
        (contains generic_field_names (normalize_field_name name)
          && (not (is_secret f.classification) && is_empty f.sensitive_name_reason))
        (generic_name path)
    >> refuse_if
        (contains bare_identifier_field_names (normalize_field_name name)
          && (is_empty f.sensitive_name_reason && allowed_beyond_standard f.allowed_modes))
        (bare_identifier path)
    >> refuse_if (is_secret f.classification && not (is_empty f.allowed_modes))
        (allowed_secret path)
    >> refuse_if (is_secret f.classification && not (valid_secret_reason f.secret_reason))
        (missing_secret_reason path)
    >> refuse_if (not (is_secret f.classification) && not (is_empty f.secret_reason))
        (stray_secret_reason path)
    >> refuse_if (not (is_secret f.classification) && is_empty f.allowed_modes)
        (no_allowed_modes path)
    >> (if is_free_text f.classification then validate_free_text_field path f else ok tt)

abbrev pub path_of : Text → Text → Text
path_of prefix name = if is_empty prefix then name else prefix ++ (codes "." ++ name)

unfoldable pub validate_fields : Text → List Text → FieldSpecs → Result SpecFault (Unit {0})
unfolding validate_field
validate_fields prefix seen no_fields = ok tt
validate_fields prefix seen (field i nested rest) =
    let name = json_field i in
    let path = path_of prefix name in
    validate_field name path seen i
    >> refuse_if (has_fields nested && is_secret i.classification) (nested_secret path)
    >> validate_fields path [] nested
    >> validate_fields prefix (name ∷ seen) rest

unfoldable pub validate_operations : List Operation → Result SpecFault (Unit {0})
unfolding valid_catalog_name
validate_operations [] = ok tt
validate_operations (op ∷ ops) =
    refuse_if (is_empty op.name) unnamed_operation
    >> refuse_if (not (valid_catalog_name op.name)) (invalid_operation_name op.name)
    >> refuse_if
        (not (text_beq op.capability capability_read || text_beq op.capability capability_write))
        (invalid_capability op.name)
    >> validate_operations ops

abbrev is_shape : ResourceSpec → Text → Bool
is_shape s shape = text_beq (effective_shape s) shape

abbrev differ : Bool → Bool → Bool
differ a b = if a then not b else b

-- `Validate`
unfoldable pub validate : ResourceSpec → Result SpecFault (Unit {0})
unfolding valid_catalog_name validate_operations supports_read_operation effective_get_key
    has_top_level_field validate_fields
validate s =
    let report = is_shape s (codes "report") in
    refuse_if (is_empty s.product) missing_product
    >> refuse_if (not (valid_catalog_name s.product)) invalid_product
    >> refuse_if (is_empty s.name) missing_name
    >> refuse_if (not (valid_catalog_name s.name)) invalid_name
    >> refuse_if (not (is_shape s (codes "list") || (is_shape s (codes "singleton") || report)))
        invalid_shape
    >> refuse_if (is_empty s.operations) no_operations
    >> validate_operations s.operations
    >> refuse_if
        (differ report (supports_read_operation s (codes "report"))
          || (report && not (length s.operations == 1)))
        report_alone
    >> refuse_if (is_shape s (codes "singleton") && not (supports_read_operation s (codes "list")))
        singleton_without_list
    >> refuse_if (not (is_empty s.get_key) && not (supports_read_operation s (codes "get")))
        get_key_without_get
    >> refuse_if
        (not (is_empty (effective_get_key s))
          && not (has_top_level_field s.fields (effective_get_key s)))
        (get_key_not_top_level (effective_get_key s))
    >> validate_fields [] [] s.fields
