-- ===== src/Tests/Annotations.antt =====
-- The update-test annotation: entries, skips and directives.
use crossplane_update_tester.Base.{
  Text, text, true, false, List, [], ◌∷◌, none, some, All, ◌≡◌, ◌↔◌, ok,
}
use crossplane_update_tester.Value.{null, str, obj, end, field}
use crossplane_update_tester.Manifest.{
  UpdateTest, no_skip, present, skip_vendor_defect, backend_discards,
}
use crossplane_update_tester.Manifest.Skip.{validate_skip_info}
use crossplane_update_tester.Manifest.Skip.Laws.{IsValidSkip, validate_skip_info_iff}
use crossplane_update_tester.Manifest.Entries.{validate_field_entry_mix, carries_tested_content}
use crossplane_update_tester.Manifest.Entries.Mix.{PairwiseSameKind, validate_field_entry_mix_iff}
use crossplane_update_tester.Manifest.Directives.{Yaml, Extracted, nothing_extracted}
use crossplane_update_tester.Manifest.Annotation.{Annotation, parse_annotation}
use crossplane_update_tester.Manifest.Annotation.Laws.{IsParsed, parse_annotation_iff}

abbrev tested : UpdateTest
tested = record {
  field = text "labels";
  value = obj (field (text "team") (str (text "a")) end);
  expect = null;
  skip = no_skip;
  clear = text "tags" ∷ [];
  with_values = (text "size", str (text "2")) ∷ [];
  ignore_map_keys = text "owner" ∷ [];
  ignore_list_element_keys = [];
  value_explicit = false;
  disposition = [];
}

abbrev skipped : UpdateTest
skipped = record tested {
  field = text "engine";
  value = null;
  skip = record no_skip { reason = skip_vendor_defect; evidence = text "case 12" };
  clear = [];
  with_values = [];
  ignore_map_keys = [];
}

-- A parser that knows one directive and one list of entries.
abbrev yaml : Yaml
yaml = record {
  unmarshal_map = λ l. some ((text "converge-skip", text "flaps") ∷ []);
  unmarshal_tests = λ t. some (tested ∷ skipped ∷ []);
}

abbrev annotation : Text
annotation = text "converge-skip: flaps\n- field: labels"

abbrev extracted : Extracted
extracted = record nothing_extracted {
  kept = text "- field: labels" ∷ [];
  converge_skip = text "flaps";
}

abbrev parsed : Annotation
parsed = record {
  tests = tested ∷ skipped ∷ [];
  converge_skip = text "flaps";
  assert_unchanged = [];
  ignore_fields = [];
}

parse_annotation_iff_example :
    (parse_annotation yaml annotation ≡ ok parsed) ↔ IsParsed yaml annotation parsed
parse_annotation_iff_example = parse_annotation_iff yaml annotation parsed

validate_skip_info_iff_example : (validate_skip_info skipped.skip ≡ none) ↔ IsValidSkip skipped.skip
validate_skip_info_iff_example = validate_skip_info_iff skipped.skip

abbrev discarding : UpdateTest
discarding = record tested { disposition = backend_discards }

abbrev names : List Text
names = text "latestBackup" ∷ text "status.phase" ∷ []

validate_field_entry_mix_iff_example : (validate_field_entry_mix (tested ∷ skipped ∷ []) ≡ none) ↔ (
    All (λ t. present t.skip ≡ true → carries_tested_content t ≡ false) (tested ∷ skipped ∷ [])
    × PairwiseSameKind (tested ∷ skipped ∷ []))
validate_field_entry_mix_iff_example = validate_field_entry_mix_iff (tested ∷ skipped ∷ [])
