-- ===== src/Paging/Zpa/Tests.antt =====
-- A server of two pages.
use zscalerctl.Prelude.{
  ℕ, zero, suc, ◌<◌, ◌≡◌, ◌≢◌, false, Text, refl, none, some, [], ◌∷◌, ok, is_empty, contains,
  list_beq, arith,
}
use zscalerctl.Prelude.Loop.{rounds}
use zscalerctl.Paging.{Encoding}
use zscalerctl.Paging.Zpa.{Page, Fetched, served, refused, zpa_paginate}
use zscalerctl.Paging.Zpa.Complete.{IsComplete, read_upto, zpa_paginate-IsComplete}
use zscalerctl.Paging.Zpa.Progress.{IsConsistent, zpa_paginate_reads_all}

abbrev plain : Encoding ℕ
plain = record { marshal = λ records. some records; sum256 = λ payload. payload }

abbrev two_pages : ℕ → Page ℕ ℕ
two_pages zero = record { records = 7 ∷ 8 ∷ []; total_pages = 2; response = some 1 }
two_pages (suc j) = record { records = 9 ∷ []; total_pages = 2; response = some 2 }

abbrev server : ℕ → ℕ → Fetched ℕ ℕ ℕ
server zero size = refused none 400
server (suc j) size = served (two_pages j)

abbrev prints : ℕ → Text
prints j = (two_pages j).records

zpa_paginate_two : (zpa_paginate plain server).0 ≡ ok (7 ∷ 8 ∷ 9 ∷ [])
unfolding zpa_paginate rounds contains list_beq
zpa_paginate_two = refl

zpa_paginate-IsComplete_example : IsComplete server (7 ∷ 8 ∷ 9 ∷ [])
zpa_paginate-IsComplete_example =
    zpa_paginate-IsComplete plain server (7 ∷ 8 ∷ 9 ∷ []) zpa_paginate_two

two_each : (j : ℕ) → (two_pages j).total_pages ≡ 2
two_each zero = refl
two_each (suc j) = refl

never_empty : (j : ℕ) → is_empty (two_pages j).records ≡ false
never_empty zero = refl
never_empty (suc j) = refl

prints_differ : (i j : ℕ) → i < j → j < 2 → prints i ≢ prints j
prints_differ zero zero lt h = absurd (omega arith)
prints_differ zero (suc j) lt h = λ e. cc
prints_differ (suc i) j lt h = absurd (omega arith)

server-IsConsistent : IsConsistent plain server 2 two_pages prints
server-IsConsistent = record {
  within = omega arith;
  some_page = omega arith;
  serves = λ j h. refl;
  declares = λ j h. two_each j;
  has_records = λ j h more. never_empty j;
  printed = λ j h. refl;
  differ = prints_differ;
}

zpa_paginate_reads_all_example : (zpa_paginate plain server).0 ≡ ok (read_upto server 2)
zpa_paginate_reads_all_example =
    zpa_paginate_reads_all plain server 2 two_pages prints server-IsConsistent
