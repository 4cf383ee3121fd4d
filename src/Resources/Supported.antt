-- ===== src/Resources/Supported.antt =====
-- Projection makes supported values of values that have a JSON encoding.
use zscalerctl.Prelude.{
  ℕ, suc, Bool, true, false, ◌||◌, ◌≡◌, refl, inl, inr, Option, none, some, ◌++◌, Text, codes,
  Bool-cases, Option-cases,
}
use zscalerctl.Resources.Spec.{Mode, FieldInfo, FieldSpec, FieldSpecs, has_fields, allowed_field}
use zscalerctl.Resources.Value.{
  Value, null, str, strs, scalar, array, object, objects, unsupported, confirmed_empty, Items,
  no_items, item, Fields, no_entries, entry, Maps, no_maps, map_of, has_structured_value,
  is_supported_value, items_supported, fields_supported, is_unconfirmed_empty_list,
}
use zscalerctl.Resources.Encodable.{
  both, and_true, is_entry, is_encodable, items_encodable, fields_encodable, maps_encodable,
  encodable-has_unsupported, plain_supported,
}
use zscalerctl.Resources.Project.{
  Scanners, ProjectionReport, Kept, keep_items, keep_list, keep_map, add_item, dropped, included,
  redacted_if, sanitize_scalar, sanitize_items, project_leaf, by_shape, project_value,
  project_nested_value, project_items, project_maps, project_nested_map, project_fields, item_path,
}

module _ (scan : Scanners) (mode : Mode) where
  abbrev IsSound : Kept → Type 0
  IsSound none = Unit
  IsSound (some kept) = is_supported_value kept.0 ≡ true

  abbrev AreSound : Option (Items × Bool) → Type 0
  AreSound none = Unit
  AreSound (some kept) = items_supported kept.0 ≡ true

  keep_items-IsSound : (o : Option (Items × Bool)) → AreSound o → IsSound (keep_items o)
  unfolding is_supported_value
  keep_items-IsSound none h = tt
  keep_items-IsSound (some (vs, redacted)) h = h

  add_item-AreSound :
      (kept : Value × Bool) (o : Option (Items × Bool))
      → is_supported_value kept.0 ≡ true
      → AreSound o
      → AreSound (add_item kept o)
  unfolding items_supported
  add_item-AreSound kept none hv h = tt
  add_item-AreSound (v, redacted) (some (vs, others)) hv h = rw hv h

  mutual
    unfolding sanitize_scalar is_supported_value

    sanitize_scalar-IsSound :
        (f : FieldInfo) (v : Value)
        → is_supported_value v ≡ true
        → IsSound (sanitize_scalar scan mode f v)
    sanitize_scalar-IsSound f (str s) h = refl
    sanitize_scalar-IsSound f (strs ss) h = refl
    sanitize_scalar-IsSound f (array vs) h =
        keep_items-IsSound (sanitize_items scan mode f vs) (sanitize_items-AreSound f vs h)
    sanitize_scalar-IsSound f (object fs) h = h
    sanitize_scalar-IsSound f (objects ms) h = h
    sanitize_scalar-IsSound f null h = refl
    sanitize_scalar-IsSound f (scalar s) h = refl
    sanitize_scalar-IsSound f unsupported h = h
    sanitize_scalar-IsSound f confirmed_empty h = h

    sanitize_items-AreSound :
        (f : FieldInfo) (vs : Items)
        → items_supported vs ≡ true
        → AreSound (sanitize_items scan mode f vs)
    sanitize_items-AreSound f no_items h = refl
    sanitize_items-AreSound f (item v vs) h =
        let (here, others) = both (is_supported_value v) (items_supported vs) h in
        let one = sanitize_scalar-IsSound f v here in
        let rest = sanitize_items-AreSound f vs others in
        elim (Option-cases (sanitize_scalar scan mode f v)) [
          | inl e ↦ rw e tt
          | inr (kept, e) ↦
              rw e (add_item-AreSound kept (sanitize_items scan mode f vs) (rw e at one) rest)
        ]

  project_leaf-IsSound :
      (f : FieldInfo) (v : Value) → is_encodable v ≡ true → IsSound (project_leaf scan mode f v)
  unfolding project_leaf
  project_leaf-IsSound f v h = elim (Bool-cases (has_structured_value v)) [
    | inl s ↦ rw (encodable-has_unsupported v h, s) tt
    | inr s ↦
        rw (encodable-has_unsupported v h, s) (sanitize_scalar-IsSound f v (plain_supported v h s))
  ]

  by_shape-IsSound :
      (f : FieldSpec) (v : Value) (r : ProjectionReport) (nested : Kept × ProjectionReport)
      → is_encodable v ≡ true
      → IsSound nested.0
      → IsSound (by_shape scan mode f v r nested).0
  unfolding by_shape
  by_shape-IsSound f v r nested h hn = elim (Bool-cases (has_fields f.fields)) [
    | inl e ↦ rw e hn
    | inr e ↦ rw e (project_leaf-IsSound f.info v h)
  ]

  keep_map-IsSound :
      (fs : Fields) (redacted : Bool) → fields_supported fs ≡ true → IsSound (keep_map fs redacted)
  unfolding is_supported_value
  keep_map-IsSound no_entries redacted h = tt
  keep_map-IsSound (entry k v fs) redacted h = h

  keep_list-IsSound :
      (vs : Items) (redacted : Bool) → items_supported vs ≡ true → IsSound (keep_list vs redacted)
  unfolding is_supported_value
  keep_list-IsSound no_items redacted h = tt
  keep_list-IsSound (item v vs) redacted h = h

  abbrev Rest : Type 0
  Rest = Items × Bool × ProjectionReport

  abbrev with_item : Kept → Rest → Rest → Rest
  with_item kept left_out kept_on = elim kept [
    | none ↦ left_out
    | some (out, redacted) ↦
        let (outs, others, end) = kept_on in (item out outs, redacted || others, end)
  ]

  item-step :
      (kept : Kept) (left_out kept_on : Rest)
      → IsSound kept
      → items_supported left_out.0 ≡ true
      → items_supported kept_on.0 ≡ true
      → items_supported (with_item kept left_out kept_on).0 ≡ true
  unfolding items_supported
  item-step none left_out kept_on hk hl hr = hl
  item-step (some (v, redacted)) left_out kept_on hk hl hr =
      and_true (is_supported_value v) (items_supported kept_on.0) hk hr

  abbrev Entries : Type 0
  Entries = Fields × Bool × ProjectionReport

  abbrev AllSound : Fields → Type 0
  AllSound fs = fields_supported fs ≡ true

  abbrev with_entry : Text → Kept → Entries → (Bool → Entries) → Entries
  with_entry key kept left_out kept_on = elim kept [
    | none ↦ left_out
    | some (out, redacted) ↦
        let (outs, others, end) = kept_on redacted in (entry key out outs, redacted || others, end)
  ]

  entry-step :
      (key : Text) (kept : Kept) (left_out : Entries) (kept_on : Bool → Entries)
      → IsSound kept
      → AllSound left_out.0
      → ((redacted : Bool) → AllSound (kept_on redacted).0)
      → AllSound (with_entry key kept left_out kept_on).0
  unfolding fields_supported
  entry-step key none left_out kept_on hk hl hr = hl
  entry-step key (some (v, redacted)) left_out kept_on hk hl hr =
      and_true (is_supported_value v) (fields_supported (kept_on redacted).0) hk (hr redacted)

  module _ {E : Type 0} (out : E → Fields) where
    abbrev skip_if : Bool → E → E → E
    skip_if b skipped kept_on = elim b [ true ↦ skipped | false ↦ kept_on ]

    skip-step :
        (b : Bool) (skipped kept_on : E)
        → AllSound (out skipped)
        → AllSound (out kept_on)
        → AllSound (out (skip_if b skipped kept_on))
    skip-step true skipped kept_on hs hk = hs
    skip-step false skipped kept_on hs hk = hk

    abbrev with_field : Option FieldSpec → E → (FieldSpec → E) → E
    with_field o left_out kept_on = elim o [ none ↦ left_out | some f ↦ kept_on f ]

    field-step :
        (o : Option FieldSpec) (left_out : E) (kept_on : FieldSpec → E)
        → AllSound (out left_out)
        → ((f : FieldSpec) → AllSound (out (kept_on f)))
        → AllSound (out (with_field o left_out kept_on))
    field-step none left_out kept_on hl hk = hl
    field-step (some f) left_out kept_on hl hk = hk f

  mutual
    unfolding project_value is_supported_value is_encodable

    project_value-IsSound :
        (f : FieldSpec) (v : Value) (path : Text) (r : ProjectionReport)
        → is_entry v ≡ true
        → IsSound (project_value scan mode f v path r).0
    project_value-IsSound f unsupported path r h = cc
    project_value-IsSound f confirmed_empty path r h = refl
    project_value-IsSound f (object fs) path r h =
        by_shape-IsSound f (object fs) r _ h
          (keep_map-IsSound _ _ (project_nested_map-AllSound f.fields fs path r h))
    project_value-IsSound f (array vs) path r h =
        by_shape-IsSound f (array vs) r _ h
          (keep_list-IsSound _ _ (project_items-AreSound f.fields vs path 0 r h))
    project_value-IsSound f (objects ms) path r h =
        by_shape-IsSound f (objects ms) r _ h
          (keep_list-IsSound _ _ (project_maps-AreSound f.fields ms path 0 r h))
    project_value-IsSound f null path r h = by_shape-IsSound f null r (none, r) h tt
    project_value-IsSound f (str s) path r h = by_shape-IsSound f (str s) r (none, r) h tt
    project_value-IsSound f (strs s) path r h = by_shape-IsSound f (strs s) r (none, r) h tt
    project_value-IsSound f (scalar s) path r h = by_shape-IsSound f (scalar s) r (none, r) h tt

    project_nested_value-IsSound :
        (specs : FieldSpecs) (v : Value) (path : Text) (r : ProjectionReport)
        → is_encodable v ≡ true
        → IsSound (project_nested_value scan mode specs v path r).0
    project_nested_value-IsSound specs (object fs) path r h =
        keep_map-IsSound _ _ (project_nested_map-AllSound specs fs path r h)
    project_nested_value-IsSound specs (array vs) path r h =
        keep_list-IsSound _ _ (project_items-AreSound specs vs path 0 r h)
    project_nested_value-IsSound specs (objects ms) path r h =
        keep_list-IsSound _ _ (project_maps-AreSound specs ms path 0 r h)
    project_nested_value-IsSound specs null path r h = tt
    project_nested_value-IsSound specs (str s) path r h = tt
    project_nested_value-IsSound specs (strs s) path r h = tt
    project_nested_value-IsSound specs (scalar s) path r h = tt
    project_nested_value-IsSound specs unsupported path r h = tt
    project_nested_value-IsSound specs confirmed_empty path r h = tt

    project_items-AreSound :
        (specs : FieldSpecs) (vs : Items) (path : Text) (i : ℕ) (r : ProjectionReport)
        → items_encodable vs ≡ true
        → items_supported (project_items scan mode specs vs path i r).0 ≡ true
    project_items-AreSound specs no_items path i r h = refl
    project_items-AreSound specs (item v vs) path i r h =
        let (here, others) = both (is_encodable v) (items_encodable vs) h in
        let kept = project_nested_value scan mode specs v (item_path path i) r in
        item-step kept.0
          (project_items scan mode specs vs path (suc i) (dropped (item_path path i) kept.1))
          (project_items scan mode specs vs path (suc i) kept.1)
          (project_nested_value-IsSound specs v (item_path path i) r here)
          (project_items-AreSound specs vs path (suc i) (dropped (item_path path i) kept.1) others)
          (project_items-AreSound specs vs path (suc i) kept.1 others)

    project_maps-AreSound :
        (specs : FieldSpecs) (ms : Maps) (path : Text) (i : ℕ) (r : ProjectionReport)
        → maps_encodable ms ≡ true
        → items_supported (project_maps scan mode specs ms path i r).0 ≡ true
    project_maps-AreSound specs no_maps path i r h = refl
    project_maps-AreSound specs (map_of fs ms) path i r h =
        let (here, others) = both (fields_encodable fs) (maps_encodable ms) h in
        let one = project_nested_map scan mode specs fs (item_path path i) r in
        let after = one.2 in
        item-step (keep_map one.0 one.1)
          (project_maps scan mode specs ms path (suc i) (dropped (item_path path i) after))
          (project_maps scan mode specs ms path (suc i) after)
          (keep_map-IsSound one.0 one.1
            (project_nested_map-AllSound specs fs (item_path path i) r here))
          (project_maps-AreSound specs ms path (suc i) (dropped (item_path path i) after) others)
          (project_maps-AreSound specs ms path (suc i) after others)

    project_nested_map-AllSound :
        (specs : FieldSpecs) (fs : Fields) (path : Text) (r : ProjectionReport)
        → fields_encodable fs ≡ true
        → AllSound (project_nested_map scan mode specs fs path r).0
    project_nested_map-AllSound specs no_entries path r h = refl
    project_nested_map-AllSound specs (entry key value fs) path r h =
        let nested = path ++ (codes "." ++ key) in
        let (here, others) = both (is_entry value) (fields_encodable fs) h in
        let rest : ProjectionReport → Entries = λ s. project_nested_map scan mode specs fs path s in
        let rest_ok : (s : ProjectionReport) → AllSound (rest s).0 =
          λ s. project_nested_map-AllSound specs fs path s others in
        let next : Kept × ProjectionReport → Bool → Entries =
          λ kept redacted. rest (redacted_if redacted nested (included nested kept.1)) in
        let one : FieldSpec → Entries = λ f.
          let kept = project_value scan mode f value nested r in
          with_entry key kept.0 (rest (dropped nested kept.1)) (next kept) in
        skip-step {E = Entries} (λ e. e.0) (is_unconfirmed_empty_list value) (rest r)
          (with_field {E = Entries} (λ e. e.0) (allowed_field specs mode key)
            (rest (dropped nested r)) one)
          (rest_ok r)
          (field-step {E = Entries} (λ e. e.0) (allowed_field specs mode key)
            (rest (dropped nested r)) one (rest_ok (dropped nested r))
            (λ f.
              let kept = project_value scan mode f value nested r in
              entry-step key kept.0 (rest (dropped nested kept.1)) (next kept)
                (project_value-IsSound f value nested r here) (rest_ok (dropped nested kept.1))
                (λ b. rest_ok (redacted_if b nested (included nested kept.1)))))

  abbrev Report : Type 0
  Report = Fields × ProjectionReport

  abbrev with_top_entry : Text → Kept → Report → (Bool → Report) → Report
  with_top_entry key kept left_out kept_on = elim kept [
    | none ↦ left_out
    | some (out, redacted) ↦ let (outs, end) = kept_on redacted in (entry key out outs, end)
  ]

  top_entry-step :
      (key : Text) (kept : Kept) (left_out : Report) (kept_on : Bool → Report)
      → IsSound kept
      → AllSound left_out.0
      → ((redacted : Bool) → AllSound (kept_on redacted).0)
      → AllSound (with_top_entry key kept left_out kept_on).0
  unfolding fields_supported
  top_entry-step key none left_out kept_on hk hl hr = hl
  top_entry-step key (some (v, redacted)) left_out kept_on hk hl hr =
      and_true (is_supported_value v) (fields_supported (kept_on redacted).0) hk (hr redacted)

  pub project_fields-AllSound :
      (specs : FieldSpecs) (fs : Fields) (r : ProjectionReport)
      → fields_encodable fs ≡ true
      → fields_supported (project_fields scan mode specs fs r).0 ≡ true
  unfolding project_fields fields_supported fields_encodable
  project_fields-AllSound specs no_entries r h = refl
  project_fields-AllSound specs (entry key value fs) r h =
      let (here, others) = both (is_entry value) (fields_encodable fs) h in
      let rest : ProjectionReport → Report = λ s. project_fields scan mode specs fs s in
      let rest_ok : (s : ProjectionReport) → AllSound (rest s).0 =
        λ s. project_fields-AllSound specs fs s others in
      let next : Kept × ProjectionReport → Bool → Report =
        λ kept redacted. rest (included key (redacted_if redacted key kept.1)) in
      let one : FieldSpec → Report = λ f.
        let kept = project_value scan mode f value key r in
        with_top_entry key kept.0 (rest (dropped key kept.1)) (next kept) in
      skip-step {E = Report} (λ e. e.0) (is_unconfirmed_empty_list value) (rest r)
        (with_field {E = Report} (λ e. e.0) (allowed_field specs mode key) (rest (dropped key r))
          one)
        (rest_ok r)
        (field-step {E = Report} (λ e. e.0) (allowed_field specs mode key) (rest (dropped key r))
          one (rest_ok (dropped key r))
          (λ f.
            let kept = project_value scan mode f value key r in
            top_entry-step key kept.0 (rest (dropped key kept.1)) (next kept)
              (project_value-IsSound f value key r here) (rest_ok (dropped key kept.1))
              (λ b. rest_ok (included key (redacted_if b key kept.1)))))
