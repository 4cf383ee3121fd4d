-- ===== src/Cli/Distance.antt =====
-- `editDistance` of internal/cli/suggest.go, on the bytes of two strings.
use zscalerctl.Prelude.{
  ℕ, zero, suc, ◌+◌, ◌≤◌, ◌≡◌, refl, sym, ap, subst, ◌∙◌, List, [], ◌∷◌, ◌++◌, ◌⊎◌, inl, inr, Text,
  leb, ◌==◌, if◌then◌else◌, length, arith, append-nil,
}

abbrev pub min2 : ℕ → ℕ → ℕ
min2 m n = if leb m n then m else n

abbrev pub cost : ℕ → ℕ → ℕ
cost c d = if c == d then 0 else 1

-- `min(prev[j]+1, curr[j-1]+1, prev[j-1]+cost)`
abbrev pub cell : ℕ → ℕ → ℕ → ℕ → ℕ → ℕ
cell c d up left diag = min2 (min2 (up + 1) (left + 1)) (diag + cost c d)

-- The row below `prev`, right of a cell: `left` is that cell.
unfoldable pub fill : ℕ → ℕ → Text → List ℕ → List ℕ
fill left c [] prev = []
fill left c (d ∷ b) (diag ∷ up ∷ prev) =
    let here = cell c d up left diag in here ∷ fill here c b (up ∷ prev)
fill left c (d ∷ b) _ = []

unfoldable pub rows : ℕ → Text → Text → List ℕ → List ℕ
unfolding fill
rows i [] b prev = prev
rows i (c ∷ a) b prev = rows (suc i) a b (i ∷ fill i c b prev)

unfoldable pub first_row : ℕ → Text → List ℕ
first_row j [] = j ∷ []
first_row j (d ∷ b) = j ∷ first_row (suc j) b

unfoldable pub last_cell : List ℕ → ℕ
last_cell [] = 0
last_cell (n ∷ []) = n
last_cell (m ∷ n ∷ row) = last_cell (n ∷ row)

unfoldable pub edit_distance : Text → Text → ℕ
unfolding rows first_row last_cell
edit_distance a b = last_cell (rows 1 a b (first_row 0 b))

-- `Edits a b n`: `n` insertions, deletions and replacements of one byte turn `a` into `b`.
pub data Edits : Text → Text → ℕ → Type 0 where
  done : Edits [] [] 0
  keep : {c : ℕ} {a b : Text} {n : ℕ} → Edits a b n → Edits (c ∷ a) (c ∷ b) n
  insert : {c : ℕ} {a b : Text} {n : ℕ} → Edits a b n → Edits a (c ∷ b) (suc n)
  delete : {c : ℕ} {a b : Text} {n : ℕ} → Edits a b n → Edits (c ∷ a) b (suc n)
  replace : {c d : ℕ} {a b : Text} {n : ℕ} → Edits a b n → Edits (c ∷ a) (d ∷ b) (suc n)

-- The least number of edits, by the last byte of both.
lev : Text → Text → ℕ
lev [] b = length b
lev (c ∷ a) [] = suc (length a)
lev (c ∷ a) (d ∷ b) = cell c d (lev a (d ∷ b)) (lev (c ∷ a) b) (lev a b)

row_tail : Text → Text → Text → List ℕ
row_tail a before [] = []
row_tail a before (d ∷ b) = lev a (d ∷ before) ∷ row_tail a (d ∷ before) b

abbrev row : Text → Text → Text → List ℕ
row a before b = lev a before ∷ row_tail a before b

fill-row :
    (c : ℕ) (a before b : Text)
    → fill (lev (c ∷ a) before) c b (row a before b) ≡ row_tail (c ∷ a) before b
unfolding fill row_tail lev
fill-row c a before [] = refl
fill-row c a before (d ∷ b) = ap (λ r. lev (c ∷ a) (d ∷ before) ∷ r) (fill-row c a (d ∷ before) b)

abbrev onto : Text → Text → Text
onto [] acc = acc
onto (c ∷ a) acc = onto a (c ∷ acc)

rows-row : (over a b : Text) → rows (suc (length over)) a b (row over [] b) ≡ row (onto a over) [] b
unfolding rows lev
rows-row over [] b = refl
rows-row over (c ∷ a) b =
    ap (λ r. rows (suc (suc (length over))) a b (suc (length over) ∷ r)) (fill-row c over [] b)
    ∙ rows-row (c ∷ over) a b

first_row-row : (before b : Text) → first_row (length before) b ≡ row [] before b
unfolding first_row row_tail lev
first_row-row before [] = refl
first_row-row before (d ∷ b) = ap (λ r. length before ∷ r) (first_row-row (d ∷ before) b)

last_cell-row : (a before b : Text) → last_cell (row a before b) ≡ lev a (onto b before)
unfolding last_cell row_tail
last_cell-row a before [] = refl
last_cell-row a before (d ∷ b) = last_cell-row a (d ∷ before) b

edit_distance-lev : (a b : Text) → edit_distance a b ≡ lev (onto a []) (onto b [])
unfolding edit_distance
edit_distance-lev a b =
    ap (λ r. last_cell (rows 1 a b r)) (first_row-row [] b)
    ∙ (ap last_cell (rows-row [] a b) ∙ last_cell-row (onto a []) [] b)

onto-onto : (a s t : Text) → onto (onto a s) t ≡ onto s (a ++ t)
onto-onto [] s t = refl
onto-onto (c ∷ a) s t = onto-onto a (c ∷ s) t

onto_twice : (a : Text) → onto (onto a []) [] ≡ a
onto_twice a = onto-onto a [] [] ∙ append-nil a

-- Edits of two parts make edits of the whole.
Edits-onto :
    {a b : Text} {n : ℕ} (s t : Text) (m : ℕ)
    → Edits a b n
    → Edits s t m
    → Edits (onto a s) (onto b t) (n + m)
Edits-onto s t m done later = subst (Edits s t) (omega arith) later
Edits-onto s t m (keep {c} here) later = Edits-onto (c ∷ s) (c ∷ t) m here (keep later)
Edits-onto s t m (insert {c} {a} {b} {n} here) later =
    subst (Edits (onto a s) (onto (c ∷ b) t)) (omega arith)
      (Edits-onto s (c ∷ t) (suc m) here (insert later))
Edits-onto s t m (delete {c} {a} {b} {n} here) later =
    subst (Edits (onto (c ∷ a) s) (onto b t)) (omega arith)
      (Edits-onto (c ∷ s) t (suc m) here (delete later))
Edits-onto s t m (replace {c} {d} {a} {b} {n} here) later =
    subst (Edits (onto (c ∷ a) s) (onto (d ∷ b) t)) (omega arith)
      (Edits-onto (c ∷ s) (d ∷ t) (suc m) here (replace later))

Edits_reversed : (a b : Text) (n : ℕ) → Edits a b n → Edits (onto a []) (onto b []) n
Edits_reversed a b n h =
    subst (Edits (onto a []) (onto b [])) (omega arith) (Edits-onto [] [] 0 h done)

Edits_length : (a b : Text) → Edits [] b (length b) × Edits a [] (length a)
Edits_length [] [] = (done, done)
Edits_length [] (d ∷ b) = (insert ((Edits_length [] b).0), done)
Edits_length (c ∷ a) [] = (done, delete ((Edits_length a []).1))
Edits_length (c ∷ a) (d ∷ b) = (insert ((Edits_length a b).0), delete ((Edits_length a b).1))

-- The least of the three ways.
cell_cases :
    (c d up left diag : ℕ)
    → (cell c d up left diag ≡ suc up)
      ⊎ (cell c d up left diag ≡ suc left)
      ⊎ ((c ≡ d) × (cell c d up left diag ≡ diag))
      ⊎ (cell c d up left diag ≡ suc diag)
cell_cases c d up left diag = ground arith

cell_least :
    (c d up left diag : ℕ)
    → (cell c d up left diag ≤ suc up)
      × (cell c d up left diag ≤ suc left)
      × (cell c d up left diag ≤ suc diag)
      × (c ≡ d → cell c d up left diag ≤ diag)
cell_least c d up left diag = ground arith

lev-Edits : (a b : Text) → Edits a b (lev a b)
unfolding lev
lev-Edits [] b = (Edits_length [] b).0
lev-Edits (c ∷ a) [] = (Edits_length (c ∷ a) []).1
lev-Edits (c ∷ a) (d ∷ b) =
    let Has : ℕ → Type 0 = λ n. Edits (c ∷ a) (d ∷ b) n in
    elim (cell_cases c d (lev a (d ∷ b)) (lev (c ∷ a) b) (lev a b)) [
      | inl e ↦ subst Has (sym e) (delete (lev-Edits a (d ∷ b)))
      | inr (inl e) ↦ subst Has (sym e) (insert (lev-Edits (c ∷ a) b))
      | inr (inr (inl (same, e))) ↦
          subst Has (sym e)
            (subst (λ x. Edits (c ∷ a) (x ∷ b) (lev a b)) same (keep (lev-Edits a b)))
      | inr (inr (inr e)) ↦ subst Has (sym e) (replace (lev-Edits a b))
    ]

lev_nil : (a : Text) → lev a [] ≡ length a
unfolding lev
lev_nil [] = refl
lev_nil (c ∷ a) = refl

lev_least : (a b : Text) (n : ℕ) → Edits a b n → lev a b ≤ n
unfolding lev
lev_least [] [] _ done = omega arith
lev_least (c ∷ a) (_ ∷ b) n (keep h) =
    omega
      (arith, (cell_least c c (lev a (c ∷ b)) (lev (c ∷ a) b) (lev a b)).3 refl, lev_least a b n h)
lev_least [] (d ∷ b) (suc n) (insert h) = omega (arith, lev_least [] b n h)
lev_least (c ∷ a) (d ∷ b) (suc n) (insert h) =
    omega
      (arith, (cell_least c d (lev a (d ∷ b)) (lev (c ∷ a) b) (lev a b)).1, lev_least (c ∷ a) b n h)
lev_least (c ∷ a) [] (suc n) (delete h) = omega (arith, lev_nil a, lev_least a [] n h)
lev_least [] (d ∷ b) zero h = elim h [ ]
lev_least (c ∷ a) [] zero h = elim h [ ]
lev_least (c ∷ a) (d ∷ b) (suc n) (delete h) =
    omega
      (arith, (cell_least c d (lev a (d ∷ b)) (lev (c ∷ a) b) (lev a b)).0, lev_least a (d ∷ b) n h)
lev_least (c ∷ a) (d ∷ b) (suc n) (replace h) =
    omega (arith, (cell_least c d (lev a (d ∷ b)) (lev (c ∷ a) b) (lev a b)).2, lev_least a b n h)

-- The distance is the least number of insertions, deletions and replacements of a byte that turn
-- one string into the other: so many edits do, and every other way takes as many.
pub edit_distance-Edits :
    (a b : Text) → Edits a b (edit_distance a b) × ((n : ℕ) → Edits a b n → edit_distance a b ≤ n)
edit_distance-Edits a b = (
  subst (Edits a b) (sym (edit_distance-lev a b)) (
      subst (λ s. Edits s b (lev (onto a []) (onto b []))) (onto_twice a)
        (subst (λ t. Edits (onto (onto a []) []) t (lev (onto a []) (onto b []))) (onto_twice b)
          (Edits_reversed (onto a []) (onto b []) _ (lev-Edits (onto a []) (onto b []))))),
  λ n h.
      subst (λ m. m ≤ n) (sym (edit_distance-lev a b))
        (lev_least (onto a []) (onto b []) n (Edits_reversed a b n h)),
)
