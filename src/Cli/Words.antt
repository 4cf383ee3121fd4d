-- ===== src/Cli/Words.antt =====
-- The words of a resource name, in internal/cli/suggest.go. Case is that of ASCII.
use zscalerctl.Prelude.{
  ℕ, suc, Bool, List, [], ◌∷◌, ◌++◌, Text, codes, length, ltb, leb, ◌==◌, ◌&&◌, ◌||◌, not, to_lower,
  has_prefix, has_suffix, drop_end, text_beq, if◌then◌else◌, true, false,
}

unfoldable pub singular : Text → Text
unfolding has_suffix
singular word =
    if ltb 4 (length word) && has_suffix word (codes "ies")
    then drop_end 3 word ++ codes "y"
    else if has_suffix word (codes "sses")
    then drop_end 2 word
    else if ltb 3 (length word)
        && (has_suffix word (codes "s") && not (has_suffix word (codes "ss")))
    then drop_end 1 word
    else word

abbrev is_separator : ℕ → Bool
is_separator c = c == b'-' || (c == b'_' || c == b' ')

abbrev word_before : Text → List Text → List Text
word_before [] rest = rest
word_before (c ∷ word) rest = (c ∷ word) ∷ rest

-- `strings.FieldsFunc`, with the word under way.
unfoldable pub fields_from : Text → Text → List Text
fields_from word [] = word_before word []
fields_from word (c ∷ s) = elim (is_separator c) [
  | true ↦ word_before word (fields_from [] s)
  | false ↦ fields_from (word ++ c ∷ []) s
]

unfoldable pub singulars : List Text → List Text
unfolding singular
singulars [] = []
singulars (word ∷ words) = singular word ∷ singulars words

unfoldable pub resource_words : Text → List Text
unfolding fields_from to_lower singulars
resource_words name = singulars (fields_from [] (to_lower name))

unfoldable pub some_match : Text → List Text → Bool
unfolding has_prefix
some_match q [] = false
some_match q (c ∷ candidate) =
    (text_beq c q || (leb 3 (length q) && has_prefix c q)) || some_match q candidate

unfoldable pub missing_words : List Text → List Text → ℕ
unfolding some_match
missing_words [] candidate = 0
missing_words (q ∷ query) candidate =
    let rest = missing_words query candidate in if some_match q candidate then rest else suc rest

abbrev pub typo_budget : Text → ℕ
typo_budget name = if leb 8 (length name) then 2 else 1
