-- ===== src/Tests/Cells.antt =====
-- Rows, cells, the must-test set and the waivers.
use crossplane_update_tester.Base.{Text, text, Bool, true, false, List, [], ◌∷◌, map, In, Any, ◌↔◌}
use crossplane_update_tester.Value.{null, str}
use crossplane_update_tester.Manifest.{UpdateTest, no_skip, skip_write_only, skip_vendor_defect}
use crossplane_update_tester.Roundtrip.Cell.{Classification, Shape, Direction, Depth, CellKey, Row}
use crossplane_update_tester.Roundtrip.Denominator.{denominator_report, classify_waivers}
use crossplane_update_tester.Roundtrip.Denominator.Findings.{
  IsRefutedField, denominator_report-findings,
}
use crossplane_update_tester.Roundtrip.Denominator.Buckets.{
  fields_called_false, IsDisproved, classify_waivers_iff,
}

abbrev row : Text → Classification → Bool → Row
row path class immutable = record {
  path = path;
  classification = class;
  spec_value = str (text "a");
  spec_found = true;
  mirror_value = null;
  mirror_found = false;
  immutable = immutable;
}

abbrev pub rows : List Row
rows =
    row (text "engine") Classification.value_changed true
    ∷ row (text "password") Classification.present_in_spec_absent_from_mirror false
    ∷ row (text "region") Classification.present_in_spec_absent_from_mirror true
    ∷ row (text "size") Classification.equal false
    ∷ []

abbrev waived : Text → Text → UpdateTest
waived field reason = record {
  field = field;
  value = null;
  expect = null;
  skip = record no_skip { reason = reason };
  clear = [];
  with_values = [];
  ignore_map_keys = [];
  ignore_list_element_keys = [];
  value_explicit = false;
  disposition = [];
}

abbrev tests : List UpdateTest
tests =
    waived (text "engine") skip_write_only
    ∷ waived (text "password") skip_write_only
    ∷ waived (text "region") skip_vendor_defect
    ∷ []

abbrev pub equal_scalars : CellKey
equal_scalars = record {
  classification = Classification.equal;
  shape = Shape.scalar;
  direction = Direction.set;
  depth = Depth.unset;
}

denominator_report-findings_example :
    In (text "engine") (map (λ f. f.field) (denominator_report tests rows).findings)
    ↔ Any (IsRefutedField rows (text "engine")) tests
denominator_report-findings_example = denominator_report-findings tests rows (text "engine")

classify_waivers_iff_example :
    In (text "engine") (fields_called_false (classify_waivers tests rows))
    ↔ Any (IsDisproved rows (text "engine")) tests
classify_waivers_iff_example = classify_waivers_iff tests rows (text "engine")
