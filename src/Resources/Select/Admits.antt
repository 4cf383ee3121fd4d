-- ===== src/Resources/Select/Admits.antt =====
-- Which paths a selection tree of internal/resources/resources.go leads to.
use zscalerctl.Prelude.{
  ℕ, Bool, true, false, ◌&&◌, ◌||◌, ◌≡◌, refl, sym, ap, subst, ◌∙◌, inl, inr, ◌⊎◌, ◌↔◌, Option,
  none, some, List, [], ◌∷◌, ◌++◌, Text, text_beq, text_beq_iff, is_empty, if◌then◌else◌, split,
  split_from, Bool-cases, Some, ◌==◌,
}
use zscalerctl.Resources.Select.{
  Selection, SelectionTree, whole, under, no_keys, key_of, subtree, put, add_path, add_keys,
  new_selection_tree,
}

-- A leaf at the path is kept by the tree; beneath a key that is kept whole, everything is.
unfoldable pub admits : SelectionTree → List Text → Bool
unfolding subtree
admits tree [] = true
admits tree (q ∷ path) = elim (subtree tree q) [
  | none ↦ false
  | some whole ↦ true
  | some (under tree') ↦ admits tree' path
]

abbrev pub admits_by : Option Selection → List Text → Bool
admits_by none path = false
admits_by (some whole) path = true
admits_by (some (under tree)) path = admits tree path

admits-beneath :
    (tree : SelectionTree) (q : Text) (path : List Text)
    → admits tree (q ∷ path) ≡ admits_by (subtree tree q) path
unfolding admits
admits-beneath tree q path = shown (subtree tree q)
  where
    shown :
        (o : Option Selection)
        → (elim o as (λ _. Bool) [
          | none ↦ false
          | some whole ↦ true
          | some (under tree') ↦ admits tree' path
        ])
          ≡ admits_by o path
    shown none = refl
    shown (some whole) = refl
    shown (some (under tree')) = refl

pub admits-subtree :
    (tree : SelectionTree) (q : Text) (path : List Text) (o : Option Selection)
    → subtree tree q ≡ o
    → admits tree (q ∷ path) ≡ admits_by o path
admits-subtree tree q path o e = admits-beneath tree q path ∙ ap (λ r. admits_by r path) e

-- One list of segments is a prefix of the other.
abbrev comparable : List Text → List Text → Bool
comparable [] path = true
comparable (s ∷ segments) [] = true
comparable (s ∷ segments) (q ∷ path) = text_beq s q && comparable segments path

other_key : (k s q : Text) → text_beq k s ≡ false → text_beq k q ≡ true → text_beq s q ≡ false
other_key k s q h e = elim (Bool-cases (text_beq s q)) [
  | inl f ↦
      let first : k ≡ q = (text_beq_iff k q).0 e in
      let second : s ≡ q = (text_beq_iff s q).0 f in
      let yes : text_beq k s ≡ true = (text_beq_iff k s).1 (first ∙ sym second) in
      let no : true ≡ false = sym yes ∙ h in cc
  | inr f ↦ f
]

subtree-put :
    (tree : SelectionTree) (s q : Text) (sub : Selection)
    → subtree (put tree s sub) q ≡ (if text_beq s q then some sub else subtree tree q)
unfolding subtree put
subtree-put no_keys s q sub = refl
subtree-put (key_of k old tree) s q sub = elim (Bool-cases (text_beq k s)) [
  | inl e ↦
      let same : k ≡ s = (text_beq_iff k s).0 e in
      rw e (
        subst
          (λ t. (if text_beq k q then some sub else subtree tree q) ≡ (
            if text_beq t q then some sub else if text_beq k q then some old else subtree tree q))
          same (at_once (text_beq k q)))
  | inr e ↦ rw e (elim (Bool-cases (text_beq k q)) [
    | inl f ↦ rw (f, other_key k s q e f) refl
    | inr f ↦ rw (f, subtree-put tree s q sub) refl
  ])
]
  where
    at_once :
        (b : Bool)
        → (if b then some sub else subtree tree q)
          ≡ (if b then some sub else if b then some old else subtree tree q)
    at_once true = refl
    at_once false = refl

or_no : (b : Bool) → b ≡ (b || false)
or_no true = refl
or_no false = refl

module _ (q : Text) (path : List Text) where
  admits-put :
      (tree : SelectionTree) (s : Text) (sub : Selection)
      → admits (put tree s sub) (q ∷ path)
        ≡ (if text_beq s q then admits_by (some sub) path else admits tree (q ∷ path))
  admits-put tree s sub = elim (Bool-cases (text_beq s q)) [
    | inl e ↦
        rw e
          (admits-subtree (put tree s sub) q path (some sub) (subtree-put tree s q sub ∙ rw e refl))
    | inr e ↦ rw e (
        admits-subtree (put tree s sub) q path (subtree tree q)
          (subtree-put tree s q sub ∙ rw e refl)
        ∙ sym (admits-beneath tree q path))
  ]

  -- A put beneath a key whose tree admits what it did and what is under the segments.
  put_more :
      (tree : SelectionTree) (s : Text) (sub : Selection) (segments : List Text)
      → (text_beq s q ≡ true
          → admits_by (some sub) path ≡ (admits tree (q ∷ path) || comparable segments path))
      → admits (put tree s sub) (q ∷ path)
        ≡ (admits tree (q ∷ path) || (text_beq s q && comparable segments path))
  put_more tree s sub segments here = elim (Bool-cases (text_beq s q)) [
    | inl e ↦ admits-put tree s sub ∙ rw e (here e)
    | inr e ↦ admits-put tree s sub ∙ rw e (or_no (admits tree (q ∷ path)))
  ]

or_yes : (b : Bool) → true ≡ (b || true)
or_yes true = refl
or_yes false = refl

comparable-nil : (segments : List Text) → comparable segments [] ≡ true
comparable-nil [] = refl
comparable-nil (s ∷ segments) = refl

admits-no_keys :
    (segments path : List Text)
    → (admits no_keys path || comparable segments path) ≡ comparable segments path
unfolding admits subtree
admits-no_keys segments [] = sym (comparable-nil segments)
admits-no_keys segments (q ∷ path) = refl

pub admits-nil : (tree : SelectionTree) → admits tree [] ≡ true
unfolding admits
admits-nil tree = refl

-- What a segment that is not the last makes of what is under it.
abbrev added : SelectionTree → Text → List Text → Option Selection → SelectionTree
added tree s segments none = put tree s (under (add_path segments no_keys))
added tree s segments (some whole) = tree
added tree s segments (some (under sub)) = put tree s (under (add_path segments sub))

add_path-subtree :
    (s n : Text) (segments : List Text) (tree : SelectionTree)
    → add_path (s ∷ n ∷ segments) tree ≡ added tree s (n ∷ segments) (subtree tree s)
unfolding add_path
add_path-subtree s n segments tree = shown (subtree tree s)
  where
    shown :
        (o : Option Selection)
        → (elim o as (λ _. SelectionTree) [
          | none ↦ put tree s (under (add_path (n ∷ segments) no_keys))
          | some whole ↦ tree
          | some (under sub) ↦ put tree s (under (add_path (n ∷ segments) sub))
        ])
          ≡ added tree s (n ∷ segments) o
    shown none = refl
    shown (some whole) = refl
    shown (some (under sub)) = refl

module _ (q : Text) (path : List Text) (tree : SelectionTree) (s : Text) (segments : List Text)
    (later : (t : SelectionTree)
      → admits (add_path segments t) path ≡ (admits t path || comparable segments path)) where
  here_at :
      (o : Option Selection)
      → subtree tree s ≡ o
      → text_beq s q ≡ true
      → admits tree (q ∷ path) ≡ admits_by o path
  here_at o e h =
      admits-subtree tree q path o (subst (λ t. subtree tree t ≡ o) ((text_beq_iff s q).0 h) e)

  admits-added :
      (o : Option Selection)
      → subtree tree s ≡ o
      → admits (added tree s segments o) (q ∷ path)
        ≡ (admits tree (q ∷ path) || (text_beq s q && comparable segments path))
  admits-added none e = put_more q path tree s (under (add_path segments no_keys)) segments (λ h.
      later no_keys
      ∙ (admits-no_keys segments path
          ∙ ap (λ b. b || comparable segments path) (sym (here_at none e h))))
  admits-added (some whole) e = elim (Bool-cases (text_beq s q)) [
    | inl h ↦ rw (h, here_at (some whole) e h) refl
    | inr h ↦ rw h (or_no (admits tree (q ∷ path)))
  ]
  admits-added (some (under sub)) e =
      put_more q path tree s (under (add_path segments sub)) segments (λ h.
        later sub ∙ ap (λ b. b || comparable segments path) (sym (here_at (some (under sub)) e h)))

-- A key adds the paths that its segments are a prefix of or that are a prefix of them.
admits-add_path :
    (s : Text) (segments : List Text) (tree : SelectionTree) (path : List Text)
    → admits (add_path (s ∷ segments) tree) path
      ≡ (admits tree path || comparable (s ∷ segments) path)
unfolding add_path
admits-add_path s segments tree [] =
    admits-nil (add_path (s ∷ segments) tree) ∙ or_yes (admits tree [])
admits-add_path s [] tree (q ∷ path) =
    put_more q path tree s whole [] (λ e. or_yes (admits tree (q ∷ path)))
admits-add_path s (n ∷ segments) tree (q ∷ path) =
    ap (λ t. admits t (q ∷ path)) (add_path-subtree s n segments tree)
    ∙ admits-added q path tree s (n ∷ segments) (λ t. admits-add_path n segments t path)
        (subtree tree s) refl

admits-split :
    (segments : List Text) (tree : SelectionTree) (path : List Text)
    → is_empty segments ≡ false
    → admits (add_path segments tree) path ≡ (admits tree path || comparable segments path)
admits-split [] tree path h = cc
admits-split (s ∷ segments) tree path h = admits-add_path s segments tree path

split_from-is_empty : (sep : ℕ) (acc s : Text) → is_empty (split_from sep acc s) ≡ false
unfolding split_from
split_from-is_empty sep acc [] = refl
split_from-is_empty sep acc (c ∷ s) = elim (Bool-cases (c == sep)) [
  | inl e ↦ rw e refl
  | inr e ↦ rw e (split_from-is_empty sep (acc ++ c ∷ []) s)
]

split-is_empty : (sep : ℕ) (s : Text) → is_empty (split sep s) ≡ false
unfolding split
split-is_empty sep s = split_from-is_empty sep [] s

abbrev any_comparable : List Text → List Text → Bool
any_comparable [] path = false
any_comparable (key ∷ keys) path = comparable (split b'.' key) path || any_comparable keys path

or_assoc : (a b c : Bool) → ((a || b) || c) ≡ (a || (b || c))
or_assoc true b c = refl
or_assoc false b c = refl

admits-add_keys :
    (keys : List Text) (tree : SelectionTree) (path : List Text)
    → admits (add_keys keys tree) path ≡ (admits tree path || any_comparable keys path)
unfolding add_keys
admits-add_keys [] tree path = or_no (admits tree path)
admits-add_keys (key ∷ keys) tree path =
    admits-add_keys keys (add_path (split b'.' key) tree) path
    ∙ (ap (λ b. b || any_comparable keys path)
          (admits-split (split b'.' key) tree path (split-is_empty b'.' key))
        ∙ or_assoc (admits tree path) (comparable (split b'.' key) path) (any_comparable keys path))

-- The first list of segments is a prefix of the second.
abbrev pub IsPrefix : List Text → List Text → Type 0
IsPrefix segments path = (rest : List Text) × (path ≡ segments ++ rest)

-- The path lies at, above or beneath the dotted key.
abbrev pub IsComparable : List Text → List Text → Type 0
IsComparable segments path = IsPrefix segments path ⊎ IsPrefix path segments

comparable-IsComparable :
    (segments path : List Text) → (comparable segments path ≡ true) ↔ IsComparable segments path
comparable-IsComparable [] path = (λ h. inl (path, refl), λ h. refl)
comparable-IsComparable (s ∷ segments) [] = (λ h. inr (s ∷ segments, refl), λ h. refl)
comparable-IsComparable (s ∷ segments) (q ∷ path) = elim (Bool-cases (text_beq s q)) [
  | inl e ↦
      let same : s ≡ q = (text_beq_iff s q).0 e in
      let more = comparable-IsComparable segments path in
      rw e (
        λ h. elim (more.0 h) [ inl (rest, k) ↦ inl (rest, cc) | inr (rest, k) ↦ inr (rest, cc) ],
        λ h. elim h [
          | inl (rest, k) ↦ more.1 (inl (rest, cc))
          | inr (rest, k) ↦ more.1 (inr (rest, cc))
        ],
      )
  | inr e ↦ rw e (
    λ h. cc,
    λ h. elim h [
      | inl (rest, k) ↦ let yes : text_beq s q ≡ true = (text_beq_iff s q).1 cc in cc
      | inr (rest, k) ↦ let yes : text_beq s q ≡ true = (text_beq_iff s q).1 cc in cc
    ],
  )
]

any_comparable-Some :
    (keys path : List Text)
    → (any_comparable keys path ≡ true) ↔ Some (λ key. IsComparable (split b'.' key) path) keys
any_comparable-Some [] path = (λ h. cc, λ h. elim h [ ])
any_comparable-Some (key ∷ keys) path =
    let one = comparable-IsComparable (split b'.' key) path in
    let rest = any_comparable-Some keys path in
    elim (Bool-cases (comparable (split b'.' key) path)) [
      | inl e ↦ rw e (λ h. inl (one.0 e), λ h. refl)
      | inr e ↦ rw e (
        λ h. inr (rest.0 h),
        λ h. elim h [ inl here ↦ let yes = one.1 here in cc | inr more ↦ rest.1 more ],
      )
    ]

-- The tree of some keys leads to the paths that are comparable with one of them.
pub new_selection_tree-Some :
    (keys path : List Text)
    → is_empty path ≡ false
    → (admits (new_selection_tree keys) path ≡ true)
      ↔ Some (λ key. IsComparable (split b'.' key) path) keys
unfolding new_selection_tree admits subtree
new_selection_tree-Some keys [] h = cc
new_selection_tree-Some keys (q ∷ path) h =
    let same = admits-add_keys keys no_keys (q ∷ path) in
    let some_key = any_comparable-Some keys (q ∷ path) in
    (λ k. some_key.0 (sym same ∙ k), λ k. same ∙ some_key.1 k)
