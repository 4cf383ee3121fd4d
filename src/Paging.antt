-- ===== src/Paging.antt =====
-- The page walkers of internal/zscaler, and what they share: the fingerprint of a page, from
-- internal/zscaler/reader_page_fingerprint.go.
pub mod Canonical
pub mod Zia
pub mod Zpa
pub mod Zidentity
use zscalerctl.Prelude.{Text, Option, none, some, List}

-- `json.Marshal` of a page, which may fail, and `sha256.Sum256`.
pub record Encoding (T : Type 0) : Type 0 where
  pub marshal : List T → Option Text
  pub sum256 : Text → Text

abbrev digest_of : (Text → Text) → Option Text → Option Text
digest_of sum256 none = none
digest_of sum256 (some payload) = some (sum256 payload)

abbrev pub fingerprint_page : {T : Type 0} → Encoding T → List T → Option Text
fingerprint_page enc records = digest_of enc.sum256 (enc.marshal records)
