-- ===== src/Paging/Zidentity/Tests.antt =====
-- A server of three records in pages of two.
use zscalerctl.Prelude.{
  ℕ, zero, suc, ◌≡◌, refl, some, [], ◌∷◌, Result, ok, contains, list_beq, trim_space, Text, codes,
}
use zscalerctl.Prelude.Int.{pos}
use zscalerctl.Prelude.Loop.{rounds}
use zscalerctl.Paging.{Encoding}
use zscalerctl.Paging.Zidentity.{Page, read_all_zidentity_pages}
use zscalerctl.Paging.Zidentity.Complete.{IsComplete, read_all_zidentity_pages-IsComplete}

abbrev plain : Encoding ℕ
plain = record { marshal = λ records. some records; sum256 = λ payload. payload }

abbrev link : Text
link = codes "next"

abbrev server : ℕ → ℕ → Result ℕ (Page ℕ)
server zero limit = ok (record {
  records = 7 ∷ 8 ∷ [];
  results_total = pos 3;
  page_offset = pos 0;
  page_size = pos 2;
  next_link = link;
})
server (suc n) limit = ok (record {
  records = 9 ∷ [];
  results_total = pos 0;
  page_offset = pos 2;
  page_size = pos 2;
  next_link = [];
})

read_three : read_all_zidentity_pages plain server ≡ ok (7 ∷ 8 ∷ 9 ∷ [])
unfolding read_all_zidentity_pages rounds contains list_beq trim_space
read_three = refl

read_all_zidentity_pages-IsComplete_example : IsComplete server (7 ∷ 8 ∷ 9 ∷ [])
read_all_zidentity_pages-IsComplete_example =
    read_all_zidentity_pages-IsComplete plain server (7 ∷ 8 ∷ 9 ∷ []) read_three
