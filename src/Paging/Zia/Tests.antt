-- ===== src/Paging/Zia/Tests.antt =====
-- A server of two pages whose records are their identities, and one that ignores paging.
use mathlib.Core.List.{Permᴰ}
use zscalerctl.Prelude.{
  ℕ, zero, suc, ◌≡◌, refl, Option, none, some, List, [], ◌∷◌, ◌++◌, Result, ok, err, contains,
  list_beq, Text, codes, text_lt,
}
use zscalerctl.Prelude.Loop.{rounds}
use zscalerctl.Prelude.Sort.{sort_texts}
use zscalerctl.Paging.Canonical.{
  Value, scalar, RecordEncoding, summarize_page, pagination_record_identity,
}
use zscalerctl.Paging.Canonical.Reorder.{summarize_page-perm}
use zscalerctl.Paging.Zia.{zia_paginate}
use zscalerctl.Paging.Zia.Complete.{IsComplete, zia_paginate-IsComplete}

abbrev literal : Value → Option Text
literal (scalar s) = some s
literal _ = none

abbrev joined : List Text → Text
joined [] = []
joined (s ∷ ss) = s ++ joined ss

abbrev fields_of : Text → Option (List (Text × Text))
fields_of [] = none
fields_of (c ∷ s) = some ((codes "id", s) ∷ [])

-- A record is encoded as a brace and its number.
abbrev plain : RecordEncoding ℕ
plain = record {
  pages = record { marshal = λ records. some records; sum256 = λ payload. payload };
  marshal_record = λ r. some (b'{' ∷ r ∷ []);
  marshal_value = literal;
  marshal_strings = λ ss. some (joined ss);
  decode = λ payload. some (scalar payload);
  unmarshal_object = fields_of;
  unmarshal_string = λ s. none;
}

abbrev server : ℕ → ℕ → Result ℕ (List ℕ)
server zero size = err 400
server (suc zero) size = ok (7 ∷ 8 ∷ [])
server (suc (suc j)) size = ok (9 ∷ [])

abbrev whole_list : ℕ → ℕ → Result ℕ (List ℕ)
whole_list (suc (suc j)) size = ok (8 ∷ 7 ∷ [])
whole_list _ size = ok (7 ∷ 8 ∷ [])

paginate_two : zia_paginate plain 2 server ≡ ok (7 ∷ 8 ∷ 9 ∷ [])
unfolding zia_paginate rounds contains list_beq summarize_page sort_texts pagination_record_identity
paginate_two = refl

paginate_whole : zia_paginate plain 1000 whole_list ≡ ok (7 ∷ 8 ∷ [])
unfolding zia_paginate rounds contains list_beq summarize_page sort_texts text_lt
    pagination_record_identity
paginate_whole = refl

zia_paginate-IsComplete_example : IsComplete plain 2 server (7 ∷ 8 ∷ 9 ∷ [])
zia_paginate-IsComplete_example =
    zia_paginate-IsComplete plain 2 server (7 ∷ 8 ∷ 9 ∷ []) paginate_two

summarize_page-perm_example : summarize_page plain (7 ∷ 8 ∷ []) ≡ summarize_page plain (8 ∷ 7 ∷ [])
summarize_page-perm_example =
    summarize_page-perm plain (7 ∷ 8 ∷ []) (8 ∷ 7 ∷ []) ∣ Permᴰ.swap refl refl ∣₁
