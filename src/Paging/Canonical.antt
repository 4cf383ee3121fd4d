-- ===== src/Paging/Canonical.antt =====
-- The rest of internal/zscaler/reader_page_fingerprint.go: the identity of a record, and the summary
-- by which two pages are compared as sets. `encoding/json` and `crypto/sha256` are parameters.
pub mod Reorder
use zscalerctl.Prelude.{
  ℕ, Bool, false, ◌&&◌, ◌||◌, not, Option, none, some, List, [], ◌∷◌, Text, codes, text_beq,
  is_empty, ltb, ◌==◌, if◌then◌else◌, length,
}
use zscalerctl.Prelude.Sort.{sort_texts}
use zscalerctl.Paging.{Encoding}

-- A decoded JSON value. A scalar is its literal, since `UseNumber` keeps numbers; `raw` is a
-- `json.RawMessage`.
mutual
  pub data Value : Type 0 where
    scalar : Text → Value
    list : Items → Value
    object : Fields → Value
    raw : Text → Value

  pub data Items : Type 0 where
    nil : Items
    cons : Value → Items → Items

  pub data Fields : Type 0 where
    end : Fields
    field : Text → Value → Fields → Fields

pub record RecordEncoding (T : Type 0) : Type 0 where
  pub pages : Encoding T
  pub marshal_record : T → Option Text
  pub marshal_value : Value → Option Text
  pub marshal_strings : List Text → Option Text
  pub decode : Text → Option Value
  pub unmarshal_object : Text → Option (List (Text × Text))
  pub unmarshal_string : Text → Option Text

infixl 5 ◌>>=◌
abbrev pub ◌>>=◌ {ℓ κ} : {A : Type ℓ} {B : Type κ} → Option A → (A → Option B) → Option B
none >>= f = none
some a >>= f = f a

abbrev raws : List Text → Items
raws [] = nil
raws (s ∷ ss) = cons (raw s) (raws ss)

abbrev sorted_list : List Text → Option Value
sorted_list elements = some (list (raws (sort_texts elements)))

-- Every list's elements are encoded and sorted.
unfoldable mutual
  pub canonical_value : (Value → Option Text) → Value → Option Value
  canonical_value marshal (scalar s) = some (scalar s)
  canonical_value marshal (raw s) = some (raw s)
  canonical_value marshal (list vs) = canonical_items marshal vs >>= sorted_list
  canonical_value marshal (object fs) = canonical_fields marshal fs >>= λ out. some (object out)

  pub canonical_items : (Value → Option Text) → Items → Option (List Text)
  canonical_items marshal nil = some []
  canonical_items marshal (cons v vs) = canonical_value marshal v >>= λ canonical.
      marshal canonical >>= λ encoded.
      canonical_items marshal vs >>= λ elements. some (encoded ∷ elements)

  pub canonical_fields : (Value → Option Text) → Fields → Option Fields
  canonical_fields marshal end = some end
  canonical_fields marshal (field k v fs) = canonical_value marshal v >>= λ canonical.
      canonical_fields marshal fs >>= λ out. some (field k canonical out)

abbrev lookup_id : List (Text × Text) → Option Text
lookup_id [] = none
lookup_id ((k, v) ∷ fields) = if text_beq k (codes "id") then some v else lookup_id fields

abbrev is_blank_string : Option Text → Bool
is_blank_string none = false
is_blank_string (some s) = is_empty s

abbrev starts_object : Text → Bool
starts_object [] = false
starts_object (c ∷ s) = c == b'{'

module _ {T : Type 0} (enc : RecordEncoding T) where
  unfoldable pub canonical_record : T → Option Text
  unfolding canonical_value
  canonical_record record' = enc.marshal_record record' >>= λ payload.
      enc.decode payload >>= λ value.
      canonical_value enc.marshal_value value >>= λ canonical. enc.marshal_value canonical

  -- `none` is an error, and `some none` a record with no identity.
  identity_in : Option Text → Option (Option Text)
  identity_in none = some none
  identity_in (some identity) =
      if text_beq identity (codes "null") || text_beq identity (codes "0")
      then some none
      else if is_blank_string (enc.unmarshal_string identity)
      then some none
      else some (some identity)

  unfoldable pub pagination_record_identity : T → Option (Option Text)
  unfolding identity_in
  pagination_record_identity record' = enc.marshal_record record' >>= λ payload.
      if not (starts_object payload)
      then some none
      else enc.unmarshal_object payload >>= λ fields. identity_in (lookup_id fields)

pub record PageSummary : Type 0 where
  pub records : ℕ
  pub contents : Text

abbrev pub same_records : PageSummary → PageSummary → Bool
same_records s other =
    ltb 0 s.records && (s.records == other.records && text_beq s.contents other.contents)

module _ {T : Type 0} (enc : RecordEncoding T) where
  unfoldable pub canonical_records : List T → Option (List Text)
  unfolding canonical_record
  canonical_records [] = some []
  canonical_records (r ∷ rs) = canonical_record enc r >>= λ payload.
      canonical_records rs >>= λ canonical. some (payload ∷ canonical)

  summary_of : ℕ → List Text → Option PageSummary
  summary_of n canonical = enc.marshal_strings (sort_texts canonical) >>= λ payload.
      some (record { records = n; contents = enc.pages.sum256 payload })

  unfoldable pub summarize_page : List T → Option PageSummary
  unfolding canonical_records summary_of
  summarize_page records = canonical_records records >>= summary_of (length records)
