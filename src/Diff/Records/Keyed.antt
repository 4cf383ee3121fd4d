-- ===== src/Diff/Records/Keyed.antt =====
-- The comparison of keyed records as one of finite maps.
use zscalerctl.Prelude.{
  Bool, true, false, ◌≡◌, refl, sym, ap, subst, ◌↔◌, ◌⊎◌, inl, inr, Option, none, some, List, [],
  ◌∷◌, ◌++◌, Text, text_beq, text_beq_iff, text_eq, is_empty, contains, In, In-append_left,
  In-append_right, In-append_cons, ok, >>=-eq-ok, Bool-cases,
}
use zscalerctl.Prelude.Sort.{In-sort_texts}
use zscalerctl.Resources.Spec.{ResourceSpec, effective_get_key}
use zscalerctl.Diff.Json.{Value, Fields}
use zscalerctl.Diff.Records.{
  others, sorted_keys, FieldChange, RecordRef, RecordChange, ResourceDiff, Keyed, find_record,
  keys_of, add_change, diff_fields, keyed_from, compare_key, compare_keys, compare_keyed,
}

abbrev ref_of : Text → Fields → RecordRef
ref_of key content = record { key = key; hash = []; content = content }

abbrev change_of : Text → List FieldChange → RecordChange
change_of key changes = record { key = key; changes = changes }

contains-In : (k : Text) (ks : List Text) → contains ks k ≡ true → In k ks
unfolding contains
contains-In k [] h = cc
contains-In k (x ∷ ks) h = elim (Bool-cases (text_beq x k)) [
  | inl e ↦ inl (sym ((text_beq_iff x k).0 e))
  | inr e ↦ inr (contains-In k ks (rw e at h))
]

In-others : (k : Text) (a b : List Text) → In k b → In k (a ++ others a b)
unfolding others
In-others k a [] h = elim h [ ]
In-others k a (x ∷ b) h = elim (Bool-cases (contains a x)) [
  | inl e ↦ elim h [
    | inl here ↦ In-append_left k a _ (subst (λ y. In y a) (sym here) (contains-In x a e))
    | inr later ↦ rw e (In-others k a b later)
  ]
  | inr e ↦ elim h [
    | inl here ↦ rw e (In-append_right k a (x ∷ others a b) (inl here))
    | inr later ↦ rw e (In-append_cons k x a (others a b) (In-others k a b later))
  ]
]

In-sorted_keys : (k : Text) (a b : List Text) → In k a ⊎ In k b → In k (sorted_keys a b)
unfolding sorted_keys
In-sorted_keys k a b (inl h) = In-sort_texts k _ (In-append_left k a (others a b) h)
In-sorted_keys k a b (inr h) = In-sort_texts k _ (In-others k a b h)

In-keys_of : (m : Keyed) (k : Text) (r : Fields) → find_record m k ≡ some r → In k (keys_of m)
unfolding find_record keys_of
In-keys_of [] k r h = cc
In-keys_of ((x, q) ∷ m) k r h = elim (Bool-cases (text_beq x k)) [
  | inl e ↦ inl (sym ((text_beq_iff x k).0 e))
  | inr e ↦ inr (In-keys_of m k r (rw e at h))
]

module _ (parses : Text → Bool) (sprint : Value → Text) where
  -- `d` says how the map `old` differs from the map `new`.
  pub record IsDiff (old new : Keyed) (d : ResourceDiff) : Type 0 where
    pub added :
        (k : Text) (r : Fields)
        → In (ref_of k r) d.added ↔ ((find_record new k ≡ some r) × (find_record old k ≡ none))
    pub removed :
        (k : Text) (r : Fields)
        → In (ref_of k r) d.removed ↔ ((find_record old k ≡ some r) × (find_record new k ≡ none))
    pub changed :
        (k : Text) (cs : List FieldChange)
        → In (change_of k cs) d.changed ↔ (
            (r q : Fields) × (find_record old k ≡ some r)
            × (find_record new k ≡ some q)
            × (diff_fields parses sprint r q ≡ cs)
            × (is_empty cs ≡ false))

  module _ (old new : Keyed) where
    abbrev diff_of : List Text → ResourceDiff
    diff_of keys = compare_keys parses sprint keys old new

    add_change-added :
        (key : Text) (cs : List FieldChange) (d : ResourceDiff)
        → (add_change key cs d).added ≡ d.added
    add_change-added key [] d = refl
    add_change-added key (c ∷ cs) d = refl

    add_change-removed :
        (key : Text) (cs : List FieldChange) (d : ResourceDiff)
        → (add_change key cs d).removed ≡ d.removed
    add_change-removed key [] d = refl
    add_change-removed key (c ∷ cs) d = refl

    -- The record that the first side has under a key that the second side lacks.
    abbrev OnlyIn : Fields → Option Fields → Option Fields → Type 0
    OnlyIn r here there = (here ≡ some r) × (there ≡ none)

    -- The key's own entries, and those of the rest.
    added-head :
        (key : Text) (o n : Option Fields) (rest : ResourceDiff) (k : Text) (r : Fields)
        → In (ref_of k r) (compare_key parses sprint key o n rest).added
          ↔ (((k ≡ key) × OnlyIn r n o) ⊎ In (ref_of k r) rest.added)
    unfolding compare_key
    added-head key none none rest k r =
        (inr, λ h. elim h [ inl (e, (o, n)) ↦ cc | inr later ↦ later ])
    added-head key none (some q) rest k r = (
      λ h. elim h [
        | inl e ↦ inl (ap (λ x. x.key) e, (ap some (ap (λ x. x.content) (sym e)), refl))
        | inr later ↦ inr later
      ],
      λ h. elim h [ inl (e, (o, n)) ↦ inl (cc) | inr later ↦ inr later ],
    )
    added-head key (some p) none rest k r =
        (inr, λ h. elim h [ inl (e, (o, n)) ↦ cc | inr later ↦ later ])
    added-head key (some p) (some q) rest k r =
        let same = add_change-added key (diff_fields parses sprint p q) rest in
        (
          λ h. inr (subst (In (ref_of k r)) same h),
          λ h. elim h [
            | inl (e, (o, n)) ↦ cc
            | inr later ↦ subst (In (ref_of k r)) (sym same) later
          ],
        )

    removed-head :
        (key : Text) (o n : Option Fields) (rest : ResourceDiff) (k : Text) (r : Fields)
        → In (ref_of k r) (compare_key parses sprint key o n rest).removed
          ↔ (((k ≡ key) × OnlyIn r o n) ⊎ In (ref_of k r) rest.removed)
    unfolding compare_key
    removed-head key none none rest k r =
        (inr, λ h. elim h [ inl (e, (o, n)) ↦ cc | inr later ↦ later ])
    removed-head key none (some q) rest k r =
        (inr, λ h. elim h [ inl (e, (o, n)) ↦ cc | inr later ↦ later ])
    removed-head key (some p) none rest k r = (
      λ h. elim h [
        | inl e ↦ inl (ap (λ x. x.key) e, (ap some (ap (λ x. x.content) (sym e)), refl))
        | inr later ↦ inr later
      ],
      λ h. elim h [ inl (e, (o, n)) ↦ inl (cc) | inr later ↦ inr later ],
    )
    removed-head key (some p) (some q) rest k r =
        let same = add_change-removed key (diff_fields parses sprint p q) rest in
        (
          λ h. inr (subst (In (ref_of k r)) same h),
          λ h. elim h [
            | inl (e, (o, n)) ↦ cc
            | inr later ↦ subst (In (ref_of k r)) (sym same) later
          ],
        )

    -- What the changes of a key say of its two records.
    abbrev Changes : Option Fields → Option Fields → List FieldChange → Type 0
    Changes o n cs =
        (r q : Fields) × (o ≡ some r)
        × (n ≡ some q)
        × (diff_fields parses sprint r q ≡ cs)
        × (is_empty cs ≡ false)

    add_change-changed :
        (key : Text) (ds : List FieldChange) (rest : ResourceDiff) (k : Text)
        (cs : List FieldChange)
        → In (change_of k cs) (add_change key ds rest).changed
          ↔ (((k ≡ key) × (ds ≡ cs) × (is_empty cs ≡ false)) ⊎ In (change_of k cs) rest.changed)
    add_change-changed key [] rest k cs =
        (inr, λ h. elim h [ inl (e, d, n) ↦ cc | inr later ↦ later ])
    add_change-changed key (d ∷ ds) rest k cs = (
      λ h. elim h [
        | inl e ↦
            let same : cs ≡ d ∷ ds = ap (λ x. x.changes) e in
            inl (ap (λ x. x.key) e, sym same, subst (λ x. is_empty x ≡ false) (sym same) refl)
        | inr later ↦ inr later
      ],
      λ h. elim h [ inl (e, o, n) ↦ inl (cc) | inr later ↦ inr later ],
    )

    changed-head :
        (key : Text) (o n : Option Fields) (rest : ResourceDiff) (k : Text) (cs : List FieldChange)
        → In (change_of k cs) (compare_key parses sprint key o n rest).changed
          ↔ (((k ≡ key) × Changes o n cs) ⊎ In (change_of k cs) rest.changed)
    unfolding compare_key
    changed-head key none none rest k cs =
        (inr, λ h. elim h [ inl (e, (r, q, o, n, d, m)) ↦ cc | inr later ↦ later ])
    changed-head key none (some q) rest k cs =
        (inr, λ h. elim h [ inl (e, (r, q, o, n, d, m)) ↦ cc | inr later ↦ later ])
    changed-head key (some p) none rest k cs =
        (inr, λ h. elim h [ inl (e, (r, q, o, n, d, m)) ↦ cc | inr later ↦ later ])
    changed-head key (some p) (some q) rest k cs =
        let (there, back) = add_change-changed key (diff_fields parses sprint p q) rest k cs in
        (
          λ h. elim (there h) [
            | inl (e, d, n) ↦ inl (e, (p, q, refl, refl, d, n))
            | inr later ↦ inr later
          ],
          λ h. elim h [
            | inl (e, (p', q', o, n, d, m)) ↦
                let first : p ≡ p' = cc in
                let second : q ≡ q' = cc in
                back (
                  inl (
                    e,
                    subst (λ x. diff_fields parses sprint x q ≡ cs) (sym first)
                        (subst (λ x. diff_fields parses sprint p' x ≡ cs) (sym second) d),
                    m,
                  ))
            | inr later ↦ back (inr later)
          ],
        )

    -- What holds of some key of the list holds of its head, or of a key of the rest.
    among :
        (P : Text → Type 0) {T U : Type 0} (k key : Text) (keys : List Text)
        → (T ↔ (((k ≡ key) × P key) ⊎ U))
        → (U ↔ (In k keys × P k))
        → T ↔ (In k (key ∷ keys) × P k)
    among P k key keys (there, back) (inside, outside) = (
      λ t. elim (there t) [
        | inl (e, p) ↦ (inl e, subst P (sym e) p)
        | inr u ↦ (inr ((inside u).0), (inside u).1)
      ],
      λ h. elim h.0 [
        | inl e ↦ back (inl (e, subst P e h.1))
        | inr later ↦ back (inr (outside (later, h.1)))
      ],
    )

    nothing : {P : Type 0} (k : Text) → ⊥ ↔ (In k [] × P)
    nothing k = (λ h. elim h [ ], λ h. elim h.0 [ ])

    compare_keys-added :
        (keys : List Text) (k : Text) (r : Fields)
        → In (ref_of k r) (diff_of keys).added
          ↔ (In k keys × OnlyIn r (find_record new k) (find_record old k))
    unfolding compare_keys
    compare_keys-added [] k r = nothing k
    compare_keys-added (key ∷ keys) k r =
        among (λ x. OnlyIn r (find_record new x) (find_record old x)) k key keys
          (added-head key (find_record old key) (find_record new key) (diff_of keys) k r)
          (compare_keys-added keys k r)

    compare_keys-removed :
        (keys : List Text) (k : Text) (r : Fields)
        → In (ref_of k r) (diff_of keys).removed
          ↔ (In k keys × OnlyIn r (find_record old k) (find_record new k))
    unfolding compare_keys
    compare_keys-removed [] k r = nothing k
    compare_keys-removed (key ∷ keys) k r =
        among (λ x. OnlyIn r (find_record old x) (find_record new x)) k key keys
          (removed-head key (find_record old key) (find_record new key) (diff_of keys) k r)
          (compare_keys-removed keys k r)

    compare_keys-changed :
        (keys : List Text) (k : Text) (cs : List FieldChange)
        → In (change_of k cs) (diff_of keys).changed
          ↔ (In k keys × Changes (find_record old k) (find_record new k) cs)
    unfolding compare_keys
    compare_keys-changed [] k cs = nothing k
    compare_keys-changed (key ∷ keys) k cs =
        among (λ x. Changes (find_record old x) (find_record new x) cs) k key keys
          (changed-head key (find_record old key) (find_record new key) (diff_of keys) k cs)
          (compare_keys-changed keys k cs)

    compare_keys-IsDiff :
        IsDiff old new
          (compare_keys parses sprint (sorted_keys (keys_of old) (keys_of new)) old new)
    compare_keys-IsDiff = record {
      added = λ k r.
          let keys = sorted_keys (keys_of old) (keys_of new) in
          let (there, back) = compare_keys-added keys k r in
          (
            λ h. (there h).1,
            λ h.
                back
                  (In-sorted_keys k (keys_of old) (keys_of new) (inr (In-keys_of new k r h.0)), h),
          );
      removed = λ k r.
          let keys = sorted_keys (keys_of old) (keys_of new) in
          let (there, back) = compare_keys-removed keys k r in
          (
            λ h. (there h).1,
            λ h.
                back
                  (In-sorted_keys k (keys_of old) (keys_of new) (inl (In-keys_of old k r h.0)), h),
          );
      changed = λ k cs.
          let keys = sorted_keys (keys_of old) (keys_of new) in
          let (there, back) = compare_keys-changed keys k cs in
          (
            λ h. (there h).1,
            λ h.
                back (
                  In-sorted_keys k (keys_of old) (keys_of new) (inl (In-keys_of old k h.0 h.2)),
                  h,
                ),
          );
    }

  -- When the comparison of two lists of keyed records returns a difference, both lists read as maps
  -- from identities to filtered records, and the difference is exactly that of the two maps: an
  -- identity is added when only the new map has it, removed when only the old one has it, and
  -- changed, with the fields that differ, when both have it and some field differs.
  pub compare_keyed-IsDiff :
      (spec : ResourceSpec) (old new : List Fields) (ignore_operational : Bool) (d : ResourceDiff)
      → compare_keyed parses sprint spec old new ignore_operational ≡ ok d
      → (old_by_key new_by_key : Keyed) × (keyed_from parses sprint spec.fields
            (effective_get_key spec)
            ignore_operational
            0
            []
            old
          ≡ ok old_by_key)
        × (keyed_from parses sprint spec.fields (effective_get_key spec) ignore_operational 0 [] new
            ≡ ok new_by_key)
        × IsDiff old_by_key new_by_key d
  unfolding compare_keyed
  compare_keyed-IsDiff spec old new ignore_operational d h =
      let (old_by_key, first, rest) =
        >>=-eq-ok
          (keyed_from parses sprint spec.fields (effective_get_key spec) ignore_operational 0 []
            old)
          _ h in
      let (new_by_key, second, last) =
        >>=-eq-ok
          (keyed_from parses sprint spec.fields (effective_get_key spec) ignore_operational 0 []
            new)
          _ rest in
      let same : compare_keys parses sprint (sorted_keys (keys_of old_by_key) (keys_of new_by_key))
            old_by_key new_by_key
          ≡ d =
        cc in
      (
        old_by_key,
        new_by_key,
        first,
        second,
        subst (IsDiff old_by_key new_by_key) same (compare_keys-IsDiff old_by_key new_by_key),
      )
