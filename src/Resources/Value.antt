-- ===== src/Resources/Value.antt =====
-- The values of source and projected records in internal/resources/resources.go, as the type switches
-- of that file tell them apart.
use zscalerctl.Prelude.{
  Bool, true, false, ◌&&◌, ◌||◌, Option, none, some, List, [], Text, text_beq, if◌then◌else◌,
}

-- A scalar is any other value that Go prints as the text given: a number or a Boolean. A map is its
-- entries, in the order in which they are visited.
mutual
  pub data Value : Type 0 where
    null : Value
    str : Text → Value
    strs : List Text → Value
    scalar : Text → Value
    array : Items → Value
    object : Fields → Value
    objects : Maps → Value
    unsupported : Value
    confirmed_empty : Value

  pub data Items : Type 0 where
    no_items : Items
    item : Value → Items → Items

  pub data Fields : Type 0 where
    no_entries : Fields
    entry : Text → Value → Fields → Fields

  pub data Maps : Type 0 where
    no_maps : Maps
    map_of : Fields → Maps → Maps

abbrev pub lookup : Fields → Text → Option Value
lookup no_entries key = none
lookup (entry k v fs) key = if text_beq k key then some v else lookup fs key

abbrev pub is_unconfirmed_empty_list : Value → Bool
is_unconfirmed_empty_list (strs []) = true
is_unconfirmed_empty_list (array no_items) = true
is_unconfirmed_empty_list (objects no_maps) = true
is_unconfirmed_empty_list _ = false

-- `hasStructuredValue`, of a value and of the elements of a list.
unfoldable mutual
  pub has_structured_value : Value → Bool
  has_structured_value (object fs) = true
  has_structured_value (objects ms) = true
  has_structured_value (array vs) = any_structured vs
  has_structured_value _ = false

  pub any_structured : Items → Bool
  any_structured no_items = false
  any_structured (item v vs) = has_structured_value v || any_structured vs

unfoldable mutual
  pub has_unsupported_value : Value → Bool
  has_unsupported_value unsupported = true
  has_unsupported_value (object fs) = fields_unsupported fs
  has_unsupported_value (array vs) = items_unsupported vs
  has_unsupported_value (objects ms) = maps_unsupported ms
  has_unsupported_value _ = false

  pub items_unsupported : Items → Bool
  items_unsupported no_items = false
  items_unsupported (item v vs) = has_unsupported_value v || items_unsupported vs

  pub fields_unsupported : Fields → Bool
  fields_unsupported no_entries = false
  fields_unsupported (entry k v fs) = has_unsupported_value v || fields_unsupported fs

  pub maps_unsupported : Maps → Bool
  maps_unsupported no_maps = false
  maps_unsupported (map_of fs ms) = fields_unsupported fs || maps_unsupported ms

-- `isSupportedProjectedValue`: neither marker occurs.
unfoldable mutual
  pub is_supported_value : Value → Bool
  is_supported_value unsupported = false
  is_supported_value confirmed_empty = false
  is_supported_value (object fs) = fields_supported fs
  is_supported_value (array vs) = items_supported vs
  is_supported_value (objects ms) = maps_supported ms
  is_supported_value _ = true

  pub items_supported : Items → Bool
  items_supported no_items = true
  items_supported (item v vs) = is_supported_value v && items_supported vs

  pub fields_supported : Fields → Bool
  fields_supported no_entries = true
  fields_supported (entry k v fs) = is_supported_value v && fields_supported fs

  pub maps_supported : Maps → Bool
  maps_supported no_maps = true
  maps_supported (map_of fs ms) = fields_supported fs && maps_supported ms

-- `confirmEmptyLists`; a list of maps is left as it is unless it is empty.
unfoldable mutual
  pub confirm_empty_lists : Value → Value
  confirm_empty_lists (object fs) = object (confirm_fields fs)
  confirm_empty_lists (array no_items) = confirmed_empty
  confirm_empty_lists (array (item v vs)) = array (item (confirm_empty_lists v) (confirm_items vs))
  confirm_empty_lists (strs []) = confirmed_empty
  confirm_empty_lists (objects no_maps) = confirmed_empty
  confirm_empty_lists v = v

  pub confirm_items : Items → Items
  confirm_items no_items = no_items
  confirm_items (item v vs) = item (confirm_empty_lists v) (confirm_items vs)

  pub confirm_fields : Fields → Fields
  confirm_fields no_entries = no_entries
  confirm_fields (entry k v fs) = entry k (confirm_empty_lists v) (confirm_fields fs)
