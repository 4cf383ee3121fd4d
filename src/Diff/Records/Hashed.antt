-- ===== src/Diff/Records/Hashed.antt =====
-- The comparison by content hash as one of multisets of hashes.
use zscalerctl.Prelude.{
  ℕ, zero, suc, ◌+◌, ◌-◌, Bool, true, false, ◌||◌, ◌≡◌, refl, sym, ap, subst, ◌∙◌, inl, inr, List,
  [], ◌∷◌, ◌++◌, Text, text_beq, text_beq_iff, text_eq, contains, contains-cons, contains-nil,
  if◌then◌else◌, length, drop, ok, >>=-eq-ok, arith, Bool-cases, Option,
}
use zscalerctl.Resources.Spec.{FieldSpecs}
use zscalerctl.Diff.Json.{Value, Fields}
use zscalerctl.Diff.Records.{
  others, sorted_keys, RecordRef, ResourceDiff, Keyed, keys_of, hashed_records, bucket, hash_refs,
  surplus, compare_hashes, distinct_keys, compare_content_hash,
}
use zscalerctl.Diff.Records.Multiplicity.{
  contains-one, contains-zero, counted, multiplicity, multiplicity-append, multiplicity-others,
  multiplicity-sort_texts, one_if, same_contained,
}

module _ (parses : Text → Bool) (digest : Value → Option Text) where
  abbrev distinct : List Text → List Text → List Text
  distinct seen ks = distinct_keys parses digest seen ks

  abbrev either_way : Text → List Text → List Text → Bool → List Text
  either_way k seen ks b = elim b [ true ↦ distinct seen ks | false ↦ k ∷ distinct (k ∷ seen) ks ]

  distinct_keys-cons :
      (k : Text) (seen ks : List Text) (b : Bool)
      → contains seen k ≡ b
      → distinct seen (k ∷ ks) ≡ either_way k seen ks b
  unfolding distinct_keys
  distinct_keys-cons k seen ks b e = ap (either_way k seen ks) e

  distinct_keys-nil : (seen : List Text) → distinct seen [] ≡ []
  unfolding distinct_keys
  distinct_keys-nil seen = refl

  multiplicity-distinct_keys :
      (h : Text) (seen ks : List Text)
      → multiplicity h (distinct seen ks) ≡ (if contains seen h then 0 else one_if (contains ks h))
  unfolding multiplicity
  multiplicity-distinct_keys h seen [] = nothing
    where
      nothing :
          multiplicity h (distinct seen [])
          ≡ (if contains seen h then 0 else one_if (contains [] h))
      nothing = ground (arith, distinct_keys-nil seen, contains-nil h)
  multiplicity-distinct_keys h seen (k ∷ ks) =
      let ih = multiplicity-distinct_keys h seen ks in
      let ih' = multiplicity-distinct_keys h (k ∷ seen) ks in
      let here = contains-cons k h ks in
      let also = contains-cons k h seen in
      elim (Bool-cases (text_beq k h)) [
        | inl e ↦
            let same = same_contained seen k h e in
            elim (Bool-cases (contains seen h)) [
              | inl c ↦
                  ap (multiplicity h) (distinct_keys-cons k seen ks true (same ∙ c))
                  ∙ (ih ∙ rw c refl)
              | inr c ↦
                  let first = rw (also, e) at ih' in
                  let full : contains (k ∷ ks) h ≡ true = here ∙ rw e refl in
                  ap (multiplicity h) (distinct_keys-cons k seen ks false (same ∙ c))
                  ∙ rw (e, c, full) (ap suc first)
            ]
        | inr e ↦
            let rest : contains (k ∷ ks) h ≡ contains ks h = here ∙ rw e refl in
            elim (Bool-cases (contains seen k)) [
              | inl c ↦ ap (multiplicity h) (distinct_keys-cons k seen ks true c) ∙ rw rest ih
              | inr c ↦
                  let first = rw (also, e) at ih' in
                  ap (multiplicity h) (distinct_keys-cons k seen ks false c) ∙ rw (e, rest) first
            ]
      ]

  bucket-nil :
      (m : Keyed) (h : Text)
      → contains (keys_of m) h ≡ false
      → length (bucket parses digest m h) ≡ 0
  unfolding contains keys_of bucket
  bucket-nil [] h e = refl
  bucket-nil ((k, r) ∷ m) h e = elim (Bool-cases (text_beq k h)) [
    | inl f ↦ let bad = rw f at e in cc
    | inr f ↦ rw f (bucket-nil m h (rw f at e))
  ]

  -- Each hash of either side is visited once.
  multiplicity-sorted_keys :
      (h : Text) (xs ys : List Text)
      → multiplicity h (sorted_keys (distinct [] xs) (distinct [] ys))
        ≡ one_if (contains xs h || contains ys h)
  unfolding sorted_keys contains
  multiplicity-sorted_keys h xs ys =
      let left : multiplicity h (distinct [] xs) ≡ one_if (contains xs h) =
        multiplicity-distinct_keys h [] xs in
      let right : multiplicity h (distinct [] ys) ≡ one_if (contains ys h) =
        multiplicity-distinct_keys h [] ys in
      let rest = multiplicity-others h (distinct [] xs) (distinct [] ys) in
      let whole =
        multiplicity-append h (distinct [] xs) (others (distinct [] xs) (distinct [] ys)) in
      multiplicity-sort_texts h _
      ∙ (whole
          ∙ joined (contains xs h) (contains ys h) (contains (distinct [] xs) h) _ _ _ left right
              rest (contains-zero h (distinct [] xs)) (contains-one h (distinct [] xs)))
    where
      joined :
          (x y z : Bool) (a b c : ℕ)
          → a ≡ one_if x
          → b ≡ one_if y
          → c ≡ (if z then 0 else b)
          → (a ≡ 0 → z ≡ false)
          → (a ≡ 1 → z ≡ true)
          → a + c ≡ one_if (x || y)
      joined x y z a b c p q r s t = grind arith

  abbrev hash_count : Text → List RecordRef → ℕ
  hash_count h [] = 0
  hash_count h (r ∷ refs) = counted h r.hash (hash_count h refs)

  hash_count-refs :
      (h hash : Text) (rs : List Fields) (rest : List RecordRef)
      → hash_count h (hash_refs parses digest hash rs ++ rest)
        ≡ (if text_beq hash h then length rs else 0) + hash_count h rest
  hash_count-refs h hash [] rest = ground arith
  hash_count-refs h hash (r ∷ rs) rest = ground (arith, hash_count-refs h hash rs rest)

  length-drop : (n : ℕ) (rs : List Fields) → length (drop n rs) ≡ length rs - n
  length-drop zero rs = omega arith
  length-drop (suc n) [] = omega arith
  length-drop (suc n) (r ∷ rs) = omega (arith, length-drop n rs)

  abbrev times : ℕ → ℕ → ℕ
  times zero x = 0
  times (suc n) x = x + times n x

  abbrev excess : Keyed → Keyed → Text → ℕ
  excess m m' h = length (bucket parses digest m h) - length (bucket parses digest m' h)

  -- One hash of the list in front of the rest.
  counted_excess :
      (m m' : Keyed) (hash h : Text) (n : ℕ) (refs : List RecordRef)
      → hash_count h refs ≡ times n (excess m m' h)
      → hash_count h (
          hash_refs parses digest hash
            (surplus parses digest (bucket parses digest m hash) (bucket parses digest m' hash))
          ++ refs)
        ≡ times (if text_beq hash h then suc n else n) (excess m m' h)
  counted_excess m m' hash h n refs ih = elim (Bool-cases (text_beq hash h)) [
    | inl e ↦
        let same = (text_beq_iff hash h).0 e in
        hash_count-refs h hash _ refs
        ∙ rw e (
            sum _ _ _ _
              (length-drop (length (bucket parses digest m' hash)) (bucket parses digest m hash)
                ∙ ap (excess m m') same)
              ih)
    | inr e ↦ hash_count-refs h hash _ refs ∙ rw e (plain _ _ ih)
  ]
    where
      sum : (a b c d : ℕ) → a ≡ c → b ≡ d → a + b ≡ c + d
      sum a b c d p q = omega (arith, p, q)

      plain : (a b : ℕ) → a ≡ b → 0 + a ≡ b
      plain a b p = omega (arith, p)

  compare_hashes-excess :
      (h : Text) (hashes : List Text) (old new : Keyed)
      → (hash_count h (compare_hashes parses digest hashes old new).added
          ≡ times (multiplicity h hashes) (excess new old h))
        × (hash_count h (compare_hashes parses digest hashes old new).removed
            ≡ times (multiplicity h hashes) (excess old new h))
  unfolding multiplicity compare_hashes
  compare_hashes-excess h [] old new = (refl, refl)
  compare_hashes-excess h (hash ∷ hashes) old new =
      let (a, r) = compare_hashes-excess h hashes old new in
      (
        counted_excess new old hash h (multiplicity h hashes) _ a,
        counted_excess old new hash h (multiplicity h hashes) _ r,
      )

  -- A hash of neither side has no records on either.
  once :
      (h : Text) (m m' : Keyed) (b : Bool)
      → (b ≡ false → (length (bucket parses digest m h) ≡ 0))
      → times (one_if b) (excess m m' h) ≡ excess m m' h
  once h m m' true none_there = omega arith
  once h m m' false none_there = omega (arith, none_there refl)

  compare_hashes-changed :
      (hashes : List Text) (old new : Keyed)
      → (compare_hashes parses digest hashes old new).changed ≡ []
  unfolding compare_hashes
  compare_hashes-changed [] old new = refl
  compare_hashes-changed (hash ∷ hashes) old new = compare_hashes-changed hashes old new

  -- The counts of one hash in a difference are the excesses of either side.
  abbrev pub IsExcess : Keyed → Keyed → ResourceDiff → Type 0
  IsExcess old new d =
      (h : Text)
      → (hash_count h d.added ≡ excess new old h) × (hash_count h d.removed ≡ excess old new h)

  compare_hashes-IsExcess :
      (old new : Keyed)
      → IsExcess old new (
          compare_hashes parses digest
            (sorted_keys (distinct [] (keys_of old)) (distinct [] (keys_of new)))
            old
            new)
  compare_hashes-IsExcess old new h =
      let hashes = sorted_keys (distinct [] (keys_of old)) (distinct [] (keys_of new)) in
      let (added, removed) = compare_hashes-excess h hashes old new in
      let visits = multiplicity-sorted_keys h (keys_of old) (keys_of new) in
      let either_side = contains (keys_of old) h || contains (keys_of new) h in
      (
        added
            ∙ (ap (λ n. times n (excess new old h)) visits
                ∙ once h new old either_side (λ e. bucket-nil new h (or_second _ _ e))),
        removed
            ∙ (ap (λ n. times n (excess old new h)) visits
                ∙ once h old new either_side (λ e. bucket-nil old h (or_first _ _ e))),
      )
    where
      or_first : (x y : Bool) → (x || y) ≡ false → x ≡ false
      or_first x y e = ground arith

      or_second : (x y : Bool) → (x || y) ≡ false → y ≡ false
      or_second x y e = ground arith

  -- When the comparison by content hash returns a difference, the records of both sides have
  -- hashes, under each hash as many records are added as the new side has more, and as many removed
  -- as the old side has more, and no record is changed.
  pub compare_content_hash-IsExcess :
      (specs : FieldSpecs) (old new : List Fields) (d : ResourceDiff)
      → compare_content_hash parses digest specs old new ≡ ok d
      → (old_by_hash new_by_hash : Keyed) × (hashed_records parses digest specs old
          ≡ ok old_by_hash)
        × (hashed_records parses digest specs new ≡ ok new_by_hash)
        × IsExcess old_by_hash new_by_hash d
        × (d.changed ≡ [])
  unfolding compare_content_hash
  compare_content_hash-IsExcess specs old new d h =
      let (old_by_hash, first, rest) = >>=-eq-ok (hashed_records parses digest specs old) _ h in
      let (new_by_hash, second, last) = >>=-eq-ok (hashed_records parses digest specs new) _ rest in
      let hashes =
        sorted_keys (distinct [] (keys_of old_by_hash)) (distinct [] (keys_of new_by_hash)) in
      let same : compare_hashes parses digest hashes old_by_hash new_by_hash ≡ d = cc in
      (
        old_by_hash,
        new_by_hash,
        first,
        second,
        subst (IsExcess old_by_hash new_by_hash) same
            (compare_hashes-IsExcess old_by_hash new_by_hash),
        ap (λ x. x.changed) (sym same) ∙ compare_hashes-changed hashes old_by_hash new_by_hash,
      )
