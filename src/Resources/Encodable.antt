-- ===== src/Resources/Encodable.antt =====
-- Values that have a JSON encoding, and what the tests of internal/resources/resources.go say of them.
use zscalerctl.Prelude.{arith, Bool, true, false, ◌&&◌, ◌||◌, ◌≡◌, refl}
use zscalerctl.Resources.Value.{
  Value, null, str, strs, scalar, array, object, objects, unsupported, confirmed_empty, Items,
  no_items, item, Fields, no_entries, entry, Maps, no_maps, map_of, has_structured_value,
  any_structured, is_supported_value, items_supported, has_unsupported_value, items_unsupported,
  fields_unsupported, maps_unsupported,
}

pub both : (a b : Bool) → (a && b) ≡ true → (a ≡ true) × (b ≡ true)
both true b h = (refl, h)
both false b h = cc

pub and_true : (a b : Bool) → a ≡ true → b ≡ true → (a && b) ≡ true
and_true true b ha hb = hb
and_true false b ha hb = cc

pub or_false : (a b : Bool) → a ≡ false → b ≡ false → (a || b) ≡ false
or_false false b ha hb = hb
or_false true b ha hb = cc

abbrev pub is_confirmed_empty : Value → Bool
is_confirmed_empty confirmed_empty = true
is_confirmed_empty _ = false

-- No value without a JSON encoding occurs, and the mark of a confirmed empty list only as the value
-- of a key, not as an element of a list.
unfoldable mutual
  pub is_encodable : Value → Bool
  is_encodable unsupported = false
  is_encodable confirmed_empty = false
  is_encodable (object fs) = fields_encodable fs
  is_encodable (array vs) = items_encodable vs
  is_encodable (objects ms) = maps_encodable ms
  is_encodable _ = true

  pub items_encodable : Items → Bool
  items_encodable no_items = true
  items_encodable (item v vs) = is_encodable v && items_encodable vs

  pub fields_encodable : Fields → Bool
  fields_encodable no_entries = true
  fields_encodable (entry k v fs) = (is_confirmed_empty v || is_encodable v) && fields_encodable fs

  pub maps_encodable : Maps → Bool
  maps_encodable no_maps = true
  maps_encodable (map_of fs ms) = fields_encodable fs && maps_encodable ms

-- The value of a key.
abbrev pub is_entry : Value → Bool
is_entry v = is_confirmed_empty v || is_encodable v

pub entry_of_encodable : (v : Value) → is_encodable v ≡ true → is_entry v ≡ true
entry_of_encodable v h = ground (arith, h)

mutual
  unfolding is_encodable has_unsupported_value

  entry-has_unsupported : (v : Value) → is_entry v ≡ true → has_unsupported_value v ≡ false
  entry-has_unsupported (object fs) h = encodable-fields fs h
  entry-has_unsupported (array vs) h = encodable-items vs h
  entry-has_unsupported (objects ms) h = encodable-maps ms h
  entry-has_unsupported unsupported h = cc
  entry-has_unsupported confirmed_empty h = refl
  entry-has_unsupported null h = refl
  entry-has_unsupported (str s) h = refl
  entry-has_unsupported (strs s) h = refl
  entry-has_unsupported (scalar s) h = refl

  encodable-items : (vs : Items) → items_encodable vs ≡ true → items_unsupported vs ≡ false
  encodable-items no_items h = refl
  encodable-items (item v vs) h =
      let (one, more) = both (is_encodable v) (items_encodable vs) h in
      or_false (has_unsupported_value v) (items_unsupported vs)
        (entry-has_unsupported v (entry_of_encodable v one)) (encodable-items vs more)

  encodable-fields : (fs : Fields) → fields_encodable fs ≡ true → fields_unsupported fs ≡ false
  encodable-fields no_entries h = refl
  encodable-fields (entry k v fs) h =
      let (one, more) = both (is_entry v) (fields_encodable fs) h in
      or_false (has_unsupported_value v) (fields_unsupported fs) (entry-has_unsupported v one)
        (encodable-fields fs more)

  encodable-maps : (ms : Maps) → maps_encodable ms ≡ true → maps_unsupported ms ≡ false
  encodable-maps no_maps h = refl
  encodable-maps (map_of fs ms) h =
      let (one, more) = both (fields_encodable fs) (maps_encodable ms) h in
      or_false (fields_unsupported fs) (maps_unsupported ms) (encodable-fields fs one)
        (encodable-maps ms more)

pub encodable-has_unsupported :
    (v : Value) → is_encodable v ≡ true → has_unsupported_value v ≡ false
encodable-has_unsupported v h = entry-has_unsupported v (entry_of_encodable v h)

neither : (a b : Bool) → (a || b) ≡ false → (a ≡ false) × (b ≡ false)
neither false b h = (refl, h)
neither true b h = cc

-- A value without maps is supported.
mutual
  unfolding is_encodable is_supported_value has_structured_value

  pub plain_supported :
      (v : Value)
      → is_encodable v ≡ true
      → has_structured_value v ≡ false
      → is_supported_value v ≡ true
  plain_supported (object fs) h k = cc
  plain_supported (array vs) h k = plain_items vs h k
  plain_supported (objects ms) h k = cc
  plain_supported unsupported h k = cc
  plain_supported confirmed_empty h k = cc
  plain_supported null h k = refl
  plain_supported (str s) h k = refl
  plain_supported (strs s) h k = refl
  plain_supported (scalar s) h k = refl

  plain_items :
      (vs : Items)
      → items_encodable vs ≡ true
      → any_structured vs ≡ false
      → items_supported vs ≡ true
  plain_items no_items h k = refl
  plain_items (item v vs) h k =
      let (one, more) = both (is_encodable v) (items_encodable vs) h in
      let (plain, rest) = neither (has_structured_value v) (any_structured vs) k in
      and_true (is_supported_value v) (items_supported vs) (plain_supported v one plain)
        (plain_items vs more rest)
