-- ===== src/Resources/Verify.antt =====
-- `AssertRenderedSubset` of internal/resources/resources.go and the projections that end with it.
use zscalerctl.Prelude.{
  ℕ, suc, not, none, some, [], Text, if◌then◌else◌, Result, ok, err, ◌>>◌, refuse_if,
}
use zscalerctl.Resources.Spec.{Mode, FieldSpec, FieldSpecs, has_fields, allowed_field, ResourceSpec}
use zscalerctl.Resources.Validate.{SpecFault, validate, path_of}
use zscalerctl.Resources.Value.{
  Value, array, object, objects, Items, no_items, item, Fields, no_entries, entry, Maps, no_maps,
  map_of, has_structured_value, is_supported_value,
}
use zscalerctl.Resources.Project.{Scanners, ProjectionReport, project_record, item_path}

-- The errors, with the path of the field that they name.
pub data AssertError : Type 0 where
  invalid_spec : SpecFault → AssertError
  invalid_projected_value unexpected_field unmodeled_nested : Text → AssertError

-- The compiled validator looks a key up among the fields that the mode allows, as projection does.
-- The tests of `assertValue` before its switch, whose result is the last argument.
unfoldable pub assert_with :
    FieldSpec → Value → Text → Result AssertError (Unit {0}) → Result AssertError (Unit {0})
unfolding is_supported_value has_structured_value
assert_with f value path shape =
    refuse_if (not (is_supported_value value)) (invalid_projected_value path)
    >> (if not (has_structured_value value)
        then ok tt
        else refuse_if (not (has_fields f.fields)) (unmodeled_nested path) >> shape)

module _ (mode : Mode) where
  unfoldable mutual
    pub assert_value : FieldSpec → Value → Text → Result AssertError (Unit {0})
    assert_value f (object fs) path = assert_with f (object fs) path (assert_map f.fields fs path)
    assert_value f (array vs) path = assert_with f (array vs) path (assert_items f vs path 0)
    assert_value f (objects ms) path = assert_with f (objects ms) path (assert_maps f ms path 0)
    assert_value f value path = assert_with f value path (ok tt)

    pub assert_items : FieldSpec → Items → Text → ℕ → Result AssertError (Unit {0})
    assert_items f no_items path i = ok tt
    assert_items f (item v vs) path i =
        assert_value f v (item_path path i) >> assert_items f vs path (suc i)

    pub assert_maps : FieldSpec → Maps → Text → ℕ → Result AssertError (Unit {0})
    assert_maps f no_maps path i = ok tt
    assert_maps f (map_of fs ms) path i =
        assert_map f.fields fs (item_path path i) >> assert_maps f ms path (suc i)

    pub assert_map : FieldSpecs → Fields → Text → Result AssertError (Unit {0})
    assert_map specs no_entries path = ok tt
    assert_map specs (entry key v fs) path =
        let nested_path = path_of path key in
        elim (allowed_field specs mode key) [
          | none ↦ err (unexpected_field nested_path)
          | some f ↦ assert_value f v nested_path >> assert_map specs fs path
        ]

  abbrev pub spec_error : Result SpecFault (Unit {0}) → Result AssertError (Unit {0})
  spec_error (ok tt) = ok tt
  spec_error (err fault) = err (invalid_spec fault)

  unfoldable pub assert_rendered_subset : ResourceSpec → Fields → Result AssertError (Unit {0})
  unfolding validate assert_map
  assert_rendered_subset spec rendered =
      spec_error (validate spec) >> assert_map spec.fields rendered []

  abbrev pub checked :
      ResourceSpec
      → Result SpecFault (Fields × ProjectionReport)
      → Result AssertError (Fields × ProjectionReport)
  checked spec (err fault) = err (invalid_spec fault)
  checked spec (ok (projected, report)) =
      assert_rendered_subset spec projected >> ok (projected, report)

  unfoldable pub project_record_and_verify :
      Scanners → ResourceSpec → Fields → Result AssertError (Fields × ProjectionReport)
  unfolding project_record assert_rendered_subset
  project_record_and_verify scan spec values = checked spec (project_record scan mode spec values)
