-- ===== src/Fileperm.antt =====
-- Windows paths, in internal/fileperm/winpath.go. A path is a list of bytes; the prefixes that are
-- compared regardless of case have no letter that a byte outside ASCII folds to.
pub mod Unc
mod Tests
use zscalerctl.Prelude.{
  ℕ, suc, Bool, true, false, Option, none, some, List, [], ◌∷◌, ◌++◌, Text, codes, is_empty, length,
  drop, take, has_prefix, text_beq, to_lower, ltb, leb, ◌==◌, if◌then◌else◌, ◌&&◌, ◌||◌,
}

-- `strings.ReplaceAll(p, "/", "\\")`
unfoldable pub with_backslashes : Text → Text
with_backslashes [] = []
with_backslashes (c ∷ p) = (if c == b'/' then b'\\' else c) ∷ with_backslashes p

unfoldable pub has_prefix_fold : Text → Text → Bool
unfolding to_lower
has_prefix_fold s prefix =
    if ltb (length s) (length prefix)
    then false
    else text_beq (to_lower (take (length prefix) s)) (to_lower prefix)

abbrev pub is_drive_letter : ℕ → Bool
is_drive_letter b = (leb b'A' b && leb b b'Z') || (leb b'a' b && leb b b'z')

unfoldable pub is_unc_path : Text → Bool
unfolding has_prefix_fold has_prefix with_backslashes
is_unc_path p =
    if is_empty p
    then false
    else let q = with_backslashes p in
      if has_prefix_fold q (codes "\\\\?\\UNC\\") || has_prefix_fold q (codes "\\\\.\\UNC\\")
      then true
      else if has_prefix q (codes "\\\\?\\") || has_prefix q (codes "\\\\.\\")
      then false
      else has_prefix q (codes "\\\\")

abbrev closed : Text → Option Text
closed [] = none
closed (d ∷ t) = if d == b'\\' then some (codes "}\\") else none

-- The path up to the backslash after the first `}`, if a backslash follows there.
unfoldable pub volume_guid : Text → Option Text
volume_guid [] = none
volume_guid (c ∷ s) =
    let rest = volume_guid s in
    if c == b'}' then closed s else elim rest [ none ↦ none | some root ↦ some (c ∷ root) ]

abbrev pub or_nothing : Option Text → Text
or_nothing none = []
or_nothing (some s) = s

abbrev pub drive_root : Text → Text
drive_root (c ∷ d ∷ q) = if is_drive_letter c && d == b':' then c ∷ codes ":\\" else []
drive_root _ = []

unfoldable pub volume_root_from_final_path : Text → Text
unfolding has_prefix_fold has_prefix with_backslashes volume_guid
volume_root_from_final_path p =
    if is_empty p
    then []
    else let q = with_backslashes p in
      if has_prefix_fold q (codes "\\\\?\\Volume{") || has_prefix_fold q (codes "\\\\.\\Volume{")
      then or_nothing (volume_guid q)
      else if has_prefix q (codes "\\\\?\\") || has_prefix q (codes "\\\\.\\")
      then if has_prefix_fold (drop 4 q) (codes "UNC\\") then [] else drive_root (drop 4 q)
      else drive_root q
