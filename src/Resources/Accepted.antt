-- ===== src/Resources/Accepted.antt =====
-- Projection of values that have a JSON encoding passes its own verification.
use zscalerctl.Prelude.{
  subst, sym, ℕ, suc, Bool, true, false, ◌≡◌, refl, inl, inr, Option, none, some, [], Text, Result,
  ok, err, ◌>>◌, Bool-cases, Option-cases,
}
use zscalerctl.Resources.Spec.{Mode, FieldSpec, FieldSpecs, has_fields, allowed_field, ResourceSpec}
use zscalerctl.Resources.Validate.{validate, path_of}
use zscalerctl.Resources.Value.{
  Value, null, str, strs, scalar, array, object, objects, unsupported, confirmed_empty, Items,
  no_items, item, Fields, no_entries, entry, Maps, no_maps, map_of, has_structured_value,
  is_supported_value, items_supported, fields_supported, maps_supported,
}
use zscalerctl.Resources.Project.{
  Scanners, ProjectionReport, empty_report, sort_report, project_fields, project_record_core,
  project_record, item_path,
}
use zscalerctl.Resources.Verify.{
  AssertError, invalid_spec, invalid_projected_value, unexpected_field, unmodeled_nested,
  assert_with, assert_value, assert_items, assert_maps, assert_map, assert_rendered_subset, checked,
  project_record_and_verify,
}
use zscalerctl.Resources.Rendered.{expected, project_fields-AllExpected}
use zscalerctl.Resources.Encodable.{both, fields_encodable}
use zscalerctl.Resources.Supported.{project_fields-AllSound}

abbrev is_invalid {ℓ} : {A : Type ℓ} → Result AssertError A → Bool
is_invalid (err (invalid_projected_value path)) = true
is_invalid _ = false

is_invalid->> :
    (m k : Result AssertError (Unit {0}))
    → is_invalid m ≡ false
    → is_invalid k ≡ false
    → is_invalid (m >> k) ≡ false
is_invalid->> (ok tt) k hm hk = hk
is_invalid->> (err e) k hm hk = hm

assert_with-is_invalid :
    (f : FieldSpec) (v : Value) (path : Text) (shape : Result AssertError (Unit {0}))
    → is_supported_value v ≡ true
    → is_invalid shape ≡ false
    → is_invalid (assert_with f v path shape) ≡ false
unfolding assert_with
assert_with-is_invalid f v path shape h hs = elim (Bool-cases (has_structured_value v)) [
  | inl t ↦ elim (Bool-cases (has_fields f.fields)) [
    | inl n ↦ rw (h, t, n) hs
    | inr n ↦ rw (h, t, n) refl
  ]
  | inr t ↦ rw (h, t) refl
]

module _ (mode : Mode) where
  -- What verification makes of an entry, by the field found for its key.
  abbrev Found : FieldSpecs → Fields → Text → Text → Value → Option FieldSpec → Type 0
  Found specs fs path nested v o =
      is_invalid (elim o [
        | none ↦ err (unexpected_field nested)
        | some f ↦ assert_value mode f v nested >> assert_map mode specs fs path
      ])
      ≡ false

  mutual
    unfolding assert_value is_supported_value

    assert_value-is_invalid :
        (f : FieldSpec) (v : Value) (path : Text)
        → is_supported_value v ≡ true
        → is_invalid (assert_value mode f v path) ≡ false
    assert_value-is_invalid f (object fs) path h =
        assert_with-is_invalid f (object fs) path _ h (assert_map-is_invalid f.fields fs path h)
    assert_value-is_invalid f (array vs) path h =
        assert_with-is_invalid f (array vs) path _ h (assert_items-is_invalid f vs path 0 h)
    assert_value-is_invalid f (objects ms) path h =
        assert_with-is_invalid f (objects ms) path _ h (assert_maps-is_invalid f ms path 0 h)
    assert_value-is_invalid f unsupported path h = cc
    assert_value-is_invalid f confirmed_empty path h = cc
    assert_value-is_invalid f null path h = assert_with-is_invalid f null path (ok tt) h refl
    assert_value-is_invalid f (str s) path h = assert_with-is_invalid f (str s) path (ok tt) h refl
    assert_value-is_invalid f (strs s) path h =
        assert_with-is_invalid f (strs s) path (ok tt) h refl
    assert_value-is_invalid f (scalar s) path h =
        assert_with-is_invalid f (scalar s) path (ok tt) h refl

    assert_items-is_invalid :
        (f : FieldSpec) (vs : Items) (path : Text) (i : ℕ)
        → items_supported vs ≡ true
        → is_invalid (assert_items mode f vs path i) ≡ false
    assert_items-is_invalid f no_items path i h = refl
    assert_items-is_invalid f (item v vs) path i h =
        let (here, others) = both (is_supported_value v) (items_supported vs) h in
        is_invalid->> (assert_value mode f v (item_path path i))
          (assert_items mode f vs path (suc i))
          (assert_value-is_invalid f v (item_path path i) here)
          (assert_items-is_invalid f vs path (suc i) others)

    assert_maps-is_invalid :
        (f : FieldSpec) (ms : Maps) (path : Text) (i : ℕ)
        → maps_supported ms ≡ true
        → is_invalid (assert_maps mode f ms path i) ≡ false
    assert_maps-is_invalid f no_maps path i h = refl
    assert_maps-is_invalid f (map_of fs ms) path i h =
        let (here, others) = both (fields_supported fs) (maps_supported ms) h in
        is_invalid->> (assert_map mode f.fields fs (item_path path i))
          (assert_maps mode f ms path (suc i))
          (assert_map-is_invalid f.fields fs (item_path path i) here)
          (assert_maps-is_invalid f ms path (suc i) others)

    assert_map-is_invalid :
        (specs : FieldSpecs) (fs : Fields) (path : Text)
        → fields_supported fs ≡ true
        → is_invalid (assert_map mode specs fs path) ≡ false
    assert_map-is_invalid specs no_entries path h = refl
    assert_map-is_invalid specs (entry key v fs) path h =
        let (here, others) = both (is_supported_value v) (fields_supported fs) h in
        let nested = path_of path key in
        elim (Option-cases (allowed_field specs mode key)) [
          | inl e ↦ subst (Found specs fs path nested v) (sym e) refl
          | inr (f, e) ↦ subst (Found specs fs path nested v) (sym e) (
              is_invalid->> (assert_value mode f v nested) (assert_map mode specs fs path)
                (assert_value-is_invalid f v nested here)
                (assert_map-is_invalid specs fs path others))
        ]

expected-ok :
    (r : Result AssertError (Unit {0})) → expected r ≡ true → is_invalid r ≡ false → r ≡ ok tt
expected-ok (ok tt) he hi = refl
expected-ok (err (invalid_projected_value path)) he hi = cc
expected-ok (err (invalid_spec fault)) he hi = cc
expected-ok (err (unexpected_field path)) he hi = cc
expected-ok (err (unmodeled_nested path)) he hi = cc

checked-ok :
    (mode : Mode) (spec : ResourceSpec) (projected : Fields) (report : ProjectionReport)
    → validate spec ≡ ok tt
    → assert_map mode spec.fields projected [] ≡ ok tt
    → checked mode spec (ok (projected, report)) ≡ ok (projected, report)
unfolding assert_rendered_subset
checked-ok mode spec projected report h k = rw h (rw k refl)

-- For a valid specification and a source record in which no value without a JSON encoding occurs, and
-- the mark of a confirmed empty list only as the value of a key and not as an element of a list,
-- `projectRecordAndVerify` returns exactly the projected record and its report: verification
-- refuses nothing that projection made.
pub project_record_and_verify-ok :
    (scan : Scanners) (mode : Mode) (spec : ResourceSpec) (values : Fields)
    → validate spec ≡ ok tt
    → fields_encodable values ≡ true
    → project_record_and_verify mode scan spec values
      ≡ ok (project_record_core scan mode spec values)
unfolding project_record_and_verify project_record project_record_core
project_record_and_verify-ok scan mode spec values h hs =
    let (projected, report) = project_fields scan mode spec.fields values empty_report in
    let accepted : assert_map mode spec.fields projected [] ≡ ok tt =
      expected-ok (assert_map mode spec.fields projected [])
        (project_fields-AllExpected scan mode spec.fields values empty_report [])
        (assert_map-is_invalid mode spec.fields projected []
          (project_fields-AllSound scan mode spec.fields values empty_report hs)) in
    rw h (checked-ok mode spec projected (sort_report report) h accepted)
