-- ===== src/Resources/Rendered.antt =====
-- What projection renders is what verification accepts.
use zscalerctl.Prelude.{
  subst, sym, ℕ, suc, Bool, true, false, ◌||◌, ◌≡◌, refl, Option, none, some, [], Text, codes, ◌++◌,
  Result, ok, err, ◌>>◌, arith, Bool-cases, Option-cases, inl, inr,
}
use zscalerctl.Resources.Spec.{
  Mode, FieldInfo, FieldSpec, FieldSpecs, has_fields, allowed_field, ResourceSpec,
}
use zscalerctl.Resources.Validate.{validate, path_of}
use zscalerctl.Resources.Value.{
  Value, null, str, strs, scalar, array, object, objects, unsupported, confirmed_empty, Items,
  no_items, item, Fields, no_entries, entry, Maps, no_maps, map_of, has_structured_value,
  any_structured, is_supported_value, has_unsupported_value, is_unconfirmed_empty_list,
}
use zscalerctl.Resources.Project.{
  Scanners, ProjectionReport, sort_report, Kept, keep_items, keep_list, keep_map, add_item, dropped,
  included, redacted_if, empty_report, sanitize_scalar, sanitize_items, project_leaf, by_shape,
  project_value, project_nested_value, project_items, project_maps, project_nested_map,
  project_fields, project_record_core, project_record, item_path,
}
use zscalerctl.Resources.Verify.{
  AssertError, invalid_spec, invalid_projected_value, unexpected_field, unmodeled_nested,
  assert_with, assert_value, assert_items, assert_map, assert_rendered_subset, checked,
  project_record_and_verify,
}

-- Verification accepts, or refuses a value that no JSON encodes.
abbrev pub expected {ℓ} : {A : Type ℓ} → Result AssertError A → Bool
expected (ok a) = true
expected (err (invalid_projected_value path)) = true
expected (err _) = false

expected->> {ℓ} :
    {A : Type ℓ} (m : Result AssertError (Unit {0})) (k : Result AssertError A)
    → expected m ≡ true
    → expected k ≡ true
    → expected (m >> k) ≡ true
expected->> (ok tt) k hm hk = hk
expected->> (err (invalid_projected_value path)) k hm hk = refl
expected->> (err (invalid_spec fault)) k hm hk = cc
expected->> (err (unexpected_field path)) k hm hk = cc
expected->> (err (unmodeled_nested path)) k hm hk = cc

assert_with-nested :
    (f : FieldSpec) (value : Value) (path : Text) (shape : Result AssertError (Unit {0}))
    → has_fields f.fields ≡ true
    → expected shape ≡ true
    → expected (assert_with f value path shape) ≡ true
unfolding assert_with
assert_with-nested f value path shape h hs = elim (Bool-cases (is_supported_value value)) [
  | inl s ↦ elim (Bool-cases (has_structured_value value)) [
    | inl t ↦ rw s (rw t (rw h hs))
    | inr t ↦ rw s (rw t refl)
  ]
  | inr s ↦ rw s refl
]

assert_with-leaf :
    (f : FieldSpec) (value : Value) (path : Text) (shape : Result AssertError (Unit {0}))
    → has_structured_value value ≡ false
    → expected (assert_with f value path shape) ≡ true
unfolding assert_with
assert_with-leaf f value path shape h = ground arith

module _ (scan : Scanners) (mode : Mode) where
  abbrev IsFlat : Kept → Type 0
  IsFlat none = Unit
  IsFlat (some (v, redacted)) = has_structured_value v ≡ false

  abbrev AreFlat : Option (Items × Bool) → Type 0
  AreFlat none = Unit
  AreFlat (some (vs, redacted)) = any_structured vs ≡ false

  keep_items-IsFlat : (o : Option (Items × Bool)) → AreFlat o → IsFlat (keep_items o)
  unfolding has_structured_value
  keep_items-IsFlat none h = tt
  keep_items-IsFlat (some (vs, redacted)) h = h

  add_item-AreFlat :
      (kept : Value × Bool) (o : Option (Items × Bool))
      → has_structured_value kept.0 ≡ false
      → AreFlat o
      → AreFlat (add_item kept o)
  unfolding any_structured
  add_item-AreFlat kept none hv h = tt
  add_item-AreFlat (v, redacted) (some (vs, others)) hv h = rw hv h

  mutual
    unfolding sanitize_scalar has_structured_value

    sanitize_scalar-IsFlat :
        (f : FieldInfo) (v : Value)
        → has_structured_value v ≡ false
        → IsFlat (sanitize_scalar scan mode f v)
    sanitize_scalar-IsFlat f (str s) h = refl
    sanitize_scalar-IsFlat f (strs ss) h = refl
    sanitize_scalar-IsFlat f (array vs) h =
        keep_items-IsFlat (sanitize_items scan mode f vs) (sanitize_items-AreFlat f vs h)
    sanitize_scalar-IsFlat f (object fs) h = cc
    sanitize_scalar-IsFlat f (objects ms) h = cc
    sanitize_scalar-IsFlat f null h = refl
    sanitize_scalar-IsFlat f (scalar s) h = refl
    sanitize_scalar-IsFlat f unsupported h = refl
    sanitize_scalar-IsFlat f confirmed_empty h = refl

    sanitize_items-AreFlat :
        (f : FieldInfo) (vs : Items)
        → any_structured vs ≡ false
        → AreFlat (sanitize_items scan mode f vs)
    sanitize_items-AreFlat f no_items h = refl
    sanitize_items-AreFlat f (item v vs) h =
        let flat : has_structured_value v ≡ false = ground arith in
        let others : any_structured vs ≡ false = ground arith in
        let one = sanitize_scalar-IsFlat f v flat in
        let rest = sanitize_items-AreFlat f vs others in
        elim (Option-cases (sanitize_scalar scan mode f v)) [
          | inl e ↦ rw e tt
          | inr (kept, e) ↦
              rw e (add_item-AreFlat kept (sanitize_items scan mode f vs) (rw e at one) rest)
        ]

  -- Verification of what is kept for a field.
  abbrev IsExpected : FieldSpec → Kept → Type 0
  IsExpected f none = Unit
  IsExpected f (some kept) = (path : Text) → expected (assert_value mode f kept.0 path) ≡ true

  flat-IsExpected : (f : FieldSpec) (kept : Kept) → IsFlat kept → IsExpected f kept
  unfolding assert_value
  flat-IsExpected f none h = tt
  flat-IsExpected f (some (null, redacted)) h = λ path. assert_with-leaf f null path _ h
  flat-IsExpected f (some (str s, redacted)) h = λ path. assert_with-leaf f (str s) path _ h
  flat-IsExpected f (some (strs ss, redacted)) h = λ path. assert_with-leaf f (strs ss) path _ h
  flat-IsExpected f (some (scalar s, redacted)) h = λ path. assert_with-leaf f (scalar s) path _ h
  flat-IsExpected f (some (array vs, redacted)) h = λ path. assert_with-leaf f (array vs) path _ h
  flat-IsExpected f (some (object fs, redacted)) h = λ path. assert_with-leaf f (object fs) path _ h
  flat-IsExpected f (some (objects ms, redacted)) h =
      λ path. assert_with-leaf f (objects ms) path _ h
  flat-IsExpected f (some (unsupported, redacted)) h =
      λ path. assert_with-leaf f unsupported path _ h
  flat-IsExpected f (some (confirmed_empty, redacted)) h =
      λ path. assert_with-leaf f confirmed_empty path _ h

  project_leaf-IsFlat : (f : FieldInfo) (v : Value) → IsFlat (project_leaf scan mode f v)
  unfolding project_leaf
  project_leaf-IsFlat f v = elim (Bool-cases (has_unsupported_value v)) [
    | inl e ↦ rw e refl
    | inr e ↦ elim (Bool-cases (has_structured_value v)) [
      | inl s ↦ rw (e, s) tt
      | inr s ↦ rw (e, s) (sanitize_scalar-IsFlat f v s)
    ]
  ]

  by_shape-IsExpected :
      (f : FieldSpec) (v : Value) (r : ProjectionReport) (nested : Kept × ProjectionReport)
      → (has_fields f.fields ≡ true → IsExpected f nested.0)
      → IsExpected f (by_shape scan mode f v r nested).0
  unfolding by_shape
  by_shape-IsExpected f v r nested h = elim (Bool-cases (has_fields f.fields)) [
    | inl e ↦ rw e (h e)
    | inr e ↦ rw e (flat-IsExpected f _ (project_leaf-IsFlat f.info v))
  ]

  AreExpected : FieldSpec → Items → Type 0
  AreExpected f vs = (path : Text) (i : ℕ) → expected (assert_items mode f vs path i) ≡ true

  keep_map-IsExpected :
      (f : FieldSpec) (fs : Fields) (redacted : Bool)
      → has_fields f.fields ≡ true
      → ((path : Text) → expected (assert_map mode f.fields fs path) ≡ true)
      → IsExpected f (keep_map fs redacted)
  unfolding assert_value
  keep_map-IsExpected f no_entries redacted h k = tt
  keep_map-IsExpected f (entry key v fs) redacted h k =
      λ path. assert_with-nested f (object (entry key v fs)) path _ h (k path)

  keep_list-IsExpected :
      (f : FieldSpec) (vs : Items) (redacted : Bool)
      → has_fields f.fields ≡ true
      → AreExpected f vs
      → IsExpected f (keep_list vs redacted)
  unfolding assert_value AreExpected
  keep_list-IsExpected f no_items redacted h k = tt
  keep_list-IsExpected f (item v vs) redacted h k =
      λ path. assert_with-nested f (array (item v vs)) path _ h (k path 0)

  AreExpected-item :
      (f : FieldSpec) (v : Value) (vs : Items)
      → ((path : Text) → expected (assert_value mode f v path) ≡ true)
      → AreExpected f vs
      → AreExpected f (item v vs)
  unfolding assert_items AreExpected
  AreExpected-item f v vs hv hs path i =
      expected->> (assert_value mode f v (item_path path i)) (assert_items mode f vs path (suc i))
        (hv (item_path path i)) (hs path (suc i))

  assert_map-entry :
      (specs : FieldSpecs) (f : FieldSpec) (key : Text) (v : Value) (fs : Fields)
      → allowed_field specs mode key ≡ some f
      → ((path : Text) → expected (assert_value mode f v path) ≡ true)
      → ((path : Text) → expected (assert_map mode specs fs path) ≡ true)
      → (path : Text) → expected (assert_map mode specs (entry key v fs) path) ≡ true
  unfolding assert_map
  assert_map-entry specs f key v fs e hv hs path =
      let nested = path_of path key in
      subst
        (λ o.
          expected (elim o [
            | none ↦ err (unexpected_field nested)
            | some g ↦ assert_value mode g v nested >> assert_map mode specs fs path
          ])
          ≡ true)
        (sym e)
        (expected->> (assert_value mode f v nested) (assert_map mode specs fs path) (hv nested)
          (hs path))

  abbrev Rest : Type 0
  Rest = Items × Bool × ProjectionReport

  -- One more element of a list.
  abbrev with_item : Kept → Rest → Rest → Rest
  with_item kept left_out kept_on = elim kept [
    | none ↦ left_out
    | some (out, redacted) ↦
        let (outs, others, end) = kept_on in (item out outs, redacted || others, end)
  ]

  item-step :
      (f : FieldSpec) (kept : Kept) (left_out kept_on : Rest)
      → IsExpected f kept
      → AreExpected f left_out.0
      → AreExpected f kept_on.0
      → AreExpected f (with_item kept left_out kept_on).0
  item-step f none left_out kept_on hk hl hr = hl
  item-step f (some (v, redacted)) left_out kept_on hk hl hr = AreExpected-item f v _ hk hr

  abbrev pub AllExpected : FieldSpecs → Fields → Type 0
  AllExpected specs fs = (path : Text) → expected (assert_map mode specs fs path) ≡ true

  abbrev Entries : Type 0
  Entries = Fields × Bool × ProjectionReport

  -- One more entry of a map.
  abbrev with_entry : Text → Kept → Entries → (Bool → Entries) → Entries
  with_entry key kept left_out kept_on = elim kept [
    | none ↦ left_out
    | some (out, redacted) ↦
        let (outs, others, end) = kept_on redacted in (entry key out outs, redacted || others, end)
  ]

  entry-step :
      (specs : FieldSpecs) (f : FieldSpec) (key : Text) (kept : Kept) (left_out : Entries)
      (kept_on : Bool → Entries)
      → allowed_field specs mode key ≡ some f
      → IsExpected f kept
      → AllExpected specs left_out.0
      → ((redacted : Bool) → AllExpected specs (kept_on redacted).0)
      → AllExpected specs (with_entry key kept left_out kept_on).0
  entry-step specs f key none left_out kept_on e hk hl hr = hl
  entry-step specs f key (some (v, redacted)) left_out kept_on e hk hl hr =
      assert_map-entry specs f key v (kept_on redacted).0 e hk (hr redacted)

  module _ {E : Type 0} (out : E → Fields) where
    abbrev skip_if : Bool → E → E → E
    skip_if b skipped kept_on = elim b [ true ↦ skipped | false ↦ kept_on ]

    skip-step :
        (specs : FieldSpecs) (b : Bool) (skipped kept_on : E)
        → AllExpected specs (out skipped)
        → AllExpected specs (out kept_on)
        → AllExpected specs (out (skip_if b skipped kept_on))
    skip-step specs true skipped kept_on hs hk = hs
    skip-step specs false skipped kept_on hs hk = hk

    abbrev with_field : Option FieldSpec → E → (FieldSpec → E) → E
    with_field o left_out kept_on = elim o [ none ↦ left_out | some f ↦ kept_on f ]

    field-step :
        (specs : FieldSpecs) (o : Option FieldSpec) (left_out : E) (kept_on : FieldSpec → E)
        → AllExpected specs (out left_out)
        → ((f : FieldSpec) → o ≡ some f → AllExpected specs (out (kept_on f)))
        → AllExpected specs (out (with_field o left_out kept_on))
    field-step specs none left_out kept_on hl hk = hl
    field-step specs (some f) left_out kept_on hl hk = hk f refl

  mutual
    unfolding project_value assert_items assert_map AreExpected

    project_value-IsExpected :
        (f : FieldSpec) (v : Value) (path : Text) (r : ProjectionReport)
        → IsExpected f (project_value scan mode f v path r).0
    project_value-IsExpected f unsupported path r =
        flat-IsExpected f (some (unsupported, false)) refl
    project_value-IsExpected f confirmed_empty path r =
        flat-IsExpected f (some (array no_items, false)) refl
    project_value-IsExpected f (object fs) path r =
        by_shape-IsExpected f (object fs) r _
          (λ h. keep_map-IsExpected f _ _ h (project_nested_map-IsExpected f.fields fs path r))
    project_value-IsExpected f (array vs) path r =
        by_shape-IsExpected f (array vs) r _
          (λ h. keep_list-IsExpected f _ _ h (project_items-IsExpected f vs path 0 r h))
    project_value-IsExpected f (objects ms) path r =
        by_shape-IsExpected f (objects ms) r _
          (λ h. keep_list-IsExpected f _ _ h (project_maps-IsExpected f ms path 0 r h))
    project_value-IsExpected f null path r = by_shape-IsExpected f null r (none, r) (λ h. tt)
    project_value-IsExpected f (str s) path r = by_shape-IsExpected f (str s) r (none, r) (λ h. tt)
    project_value-IsExpected f (strs s) path r =
        by_shape-IsExpected f (strs s) r (none, r) (λ h. tt)
    project_value-IsExpected f (scalar s) path r =
        by_shape-IsExpected f (scalar s) r (none, r) (λ h. tt)

    project_nested_value-IsExpected :
        (f : FieldSpec) (v : Value) (path : Text) (r : ProjectionReport)
        → has_fields f.fields ≡ true
        → IsExpected f (project_nested_value scan mode f.fields v path r).0
    project_nested_value-IsExpected f (object fs) path r h =
        keep_map-IsExpected f _ _ h (project_nested_map-IsExpected f.fields fs path r)
    project_nested_value-IsExpected f (array vs) path r h =
        keep_list-IsExpected f _ _ h (project_items-IsExpected f vs path 0 r h)
    project_nested_value-IsExpected f (objects ms) path r h =
        keep_list-IsExpected f _ _ h (project_maps-IsExpected f ms path 0 r h)
    project_nested_value-IsExpected f null path r h = tt
    project_nested_value-IsExpected f (str s) path r h = tt
    project_nested_value-IsExpected f (strs s) path r h = tt
    project_nested_value-IsExpected f (scalar s) path r h = tt
    project_nested_value-IsExpected f unsupported path r h = tt
    project_nested_value-IsExpected f confirmed_empty path r h = tt

    project_items-IsExpected :
        (f : FieldSpec) (vs : Items) (path : Text) (i : ℕ) (r : ProjectionReport)
        → has_fields f.fields ≡ true
        → AreExpected f (project_items scan mode f.fields vs path i r).0
    project_items-IsExpected f no_items path i r h = λ p j. refl
    project_items-IsExpected f (item v vs) path i r h =
        let kept = project_nested_value scan mode f.fields v (item_path path i) r in
        item-step f kept.0
          (project_items scan mode f.fields vs path (suc i) (dropped (item_path path i) kept.1))
          (project_items scan mode f.fields vs path (suc i) kept.1)
          (project_nested_value-IsExpected f v (item_path path i) r h)
          (project_items-IsExpected f vs path (suc i) (dropped (item_path path i) kept.1) h)
          (project_items-IsExpected f vs path (suc i) kept.1 h)

    project_maps-IsExpected :
        (f : FieldSpec) (ms : Maps) (path : Text) (i : ℕ) (r : ProjectionReport)
        → has_fields f.fields ≡ true
        → AreExpected f (project_maps scan mode f.fields ms path i r).0
    project_maps-IsExpected f no_maps path i r h = λ p j. refl
    project_maps-IsExpected f (map_of fs ms) path i r h =
        let one = project_nested_map scan mode f.fields fs (item_path path i) r in
        let after = one.2 in
        item-step f (keep_map one.0 one.1)
          (project_maps scan mode f.fields ms path (suc i) (dropped (item_path path i) after))
          (project_maps scan mode f.fields ms path (suc i) after)
          (keep_map-IsExpected f one.0 one.1 h
            (project_nested_map-IsExpected f.fields fs (item_path path i) r))
          (project_maps-IsExpected f ms path (suc i) (dropped (item_path path i) after) h)
          (project_maps-IsExpected f ms path (suc i) after h)

    project_nested_map-IsExpected :
        (specs : FieldSpecs) (fs : Fields) (path : Text) (r : ProjectionReport) (p : Text)
        → expected (assert_map mode specs (project_nested_map scan mode specs fs path r).0 p) ≡ true
    project_nested_map-IsExpected specs no_entries path r p = refl
    project_nested_map-IsExpected specs (entry key value fs) path r p =
        let nested = path ++ (codes "." ++ key) in
        let rest : ProjectionReport → Entries = λ s. project_nested_map scan mode specs fs path s in
        let rest_ok : (s : ProjectionReport) → AllExpected specs (rest s).0 =
          λ s. project_nested_map-IsExpected specs fs path s in
        let next : Kept × ProjectionReport → Bool → Entries =
          λ kept redacted. rest (redacted_if redacted nested (included nested kept.1)) in
        let one : FieldSpec → Entries = λ f.
          let kept = project_value scan mode f value nested r in
          with_entry key kept.0 (rest (dropped nested kept.1)) (next kept) in
        skip-step {E = Entries} (λ e. e.0) specs (is_unconfirmed_empty_list value) (rest r)
          (with_field {E = Entries} (λ e. e.0) (allowed_field specs mode key)
            (rest (dropped nested r)) one)
          (rest_ok r)
          (field-step {E = Entries} (λ e. e.0) specs (allowed_field specs mode key)
            (rest (dropped nested r)) one (rest_ok (dropped nested r))
            (λ f a.
              let kept = project_value scan mode f value nested r in
              entry-step specs f key kept.0 (rest (dropped nested kept.1)) (next kept) a
                (project_value-IsExpected f value nested r) (rest_ok (dropped nested kept.1))
                (λ b. rest_ok (redacted_if b nested (included nested kept.1)))))
          p

  abbrev Report : Type 0
  Report = Fields × ProjectionReport

  abbrev with_top_entry : Text → Kept → Report → (Bool → Report) → Report
  with_top_entry key kept left_out kept_on = elim kept [
    | none ↦ left_out
    | some (out, redacted) ↦ let (outs, end) = kept_on redacted in (entry key out outs, end)
  ]

  top_entry-step :
      (specs : FieldSpecs) (f : FieldSpec) (key : Text) (kept : Kept) (left_out : Report)
      (kept_on : Bool → Report)
      → allowed_field specs mode key ≡ some f
      → IsExpected f kept
      → AllExpected specs left_out.0
      → ((redacted : Bool) → AllExpected specs (kept_on redacted).0)
      → AllExpected specs (with_top_entry key kept left_out kept_on).0
  top_entry-step specs f key none left_out kept_on e hk hl hr = hl
  top_entry-step specs f key (some (v, redacted)) left_out kept_on e hk hl hr =
      assert_map-entry specs f key v (kept_on redacted).0 e hk (hr redacted)

  -- The loop of `projectRecordCore` keeps the same promise.
  pub project_fields-AllExpected :
      (specs : FieldSpecs) (fs : Fields) (r : ProjectionReport)
      → AllExpected specs (project_fields scan mode specs fs r).0
  unfolding project_fields assert_map
  project_fields-AllExpected specs no_entries r = λ p. refl
  project_fields-AllExpected specs (entry key value fs) r =
      let rest : ProjectionReport → Report = λ s. project_fields scan mode specs fs s in
      let rest_ok : (s : ProjectionReport) → AllExpected specs (rest s).0 =
        λ s. project_fields-AllExpected specs fs s in
      let next : Kept × ProjectionReport → Bool → Report =
        λ kept redacted. rest (included key (redacted_if redacted key kept.1)) in
      let one : FieldSpec → Report = λ f.
        let kept = project_value scan mode f value key r in
        with_top_entry key kept.0 (rest (dropped key kept.1)) (next kept) in
      skip-step {E = Report} (λ e. e.0) specs (is_unconfirmed_empty_list value) (rest r)
        (with_field {E = Report} (λ e. e.0) (allowed_field specs mode key) (rest (dropped key r))
          one)
        (rest_ok r)
        (field-step {E = Report} (λ e. e.0) specs (allowed_field specs mode key)
          (rest (dropped key r)) one (rest_ok (dropped key r))
          (λ f a.
            let kept = project_value scan mode f value key r in
            top_entry-step specs f key kept.0 (rest (dropped key kept.1)) (next kept) a
              (project_value-IsExpected f value key r) (rest_ok (dropped key kept.1))
              (λ b. rest_ok (included key (redacted_if b key kept.1)))))

  checked-expected :
      (spec : ResourceSpec) (projected : Fields) (report : ProjectionReport)
      → validate spec ≡ ok tt
      → AllExpected spec.fields projected
      → expected (checked mode spec (ok (projected, report))) ≡ true
  unfolding assert_rendered_subset
  checked-expected spec projected report h k =
      rw h (
        expected->> (assert_map mode spec.fields projected []) (ok (projected, report)) (k []) refl)

  -- For a valid specification `projectRecordAndVerify` returns the projected record, or the error of a
  -- value that has no JSON encoding, whatever the record holds and whatever the scanners return: its
  -- verification never finds a field that projection should have left out.
  pub project_record_and_verify-expected :
      (spec : ResourceSpec) (values : Fields)
      → validate spec ≡ ok tt
      → expected (project_record_and_verify mode scan spec values) ≡ true
  unfolding project_record_and_verify project_record project_record_core
  project_record_and_verify-expected spec values h =
      let projected = project_fields scan mode spec.fields values empty_report in
      rw h (
        checked-expected spec projected.0 (sort_report projected.1) h
          (project_fields-AllExpected spec.fields values empty_report))
