-- ===== src/Tests/Runs.antt =====
-- A run of two tests, one of them skipped, and the patch of a test.
use crossplane_update_tester.Base.{
  Text, text, list_eq, nat_eq, true, false, List, [], ◌∷◌, ◌++◌, Option, none, some, In, refl, ok,
  split, ◌≡◌, ◌≢◌, ◌↔◌, contains_byte, lookup, insert, has_prefix, sort, sort_by, insert_by,
  text_le, trim_space, trim_left, trim_right, keep_last, if◌then◌else◌, nat_beq,
}
use crossplane_update_tester.Value.{Value, null, num, str, obj, fields}
use crossplane_update_tester.Json.{Codec, object, deep_equal}
use crossplane_update_tester.Differ.{parse_snapshot, raw_value, distinct, diff_top_level}
use crossplane_update_tester.Manifest.{
  UpdateTest, Manifest, no_skip, skip_write_only, present, describe,
}
use crossplane_update_tester.Manifest.Entries.{
  effective_value, validate_clear, clear_entries, validate_with_values, with_values_entries,
}
use crossplane_update_tester.Manifest.Entries.Siblings.{IsTopLevel}
use crossplane_update_tester.Roundtrip.Cell.{Classification, Shape, Direction, Depth}
use crossplane_update_tester.Roundtrip.Clearing.{ClearRoute}
use crossplane_update_tester.Roundtrip.Clearing.Cells.{ClearCellReport}
use crossplane_update_tester.Runner.Values.{
  build_merge_patch, clear_all, compare_field_value, descend, json_equal, merge_patch,
  navigate_json_path, navigate_spec_for_provider, nest, read_current_value, read_field, set_all,
}
use crossplane_update_tester.Runner.Values.Navigation.{At, navigate_json_path_iff}
use crossplane_update_tester.Runner.Values.Patching.{merge_patch-navigate_spec_for_provider}
use crossplane_update_tester.Runner.Unchanged.{
  check_fields, read_assert_unchanged_baselines, read_snapshot_field,
}
use crossplane_update_tester.Runner.Unchanged.Once.{AreViolations}
use crossplane_update_tester.Runner.Clears.{
  UnprovenReason, add_pending, check_items, trigger_field_for, unobserved_from,
}
use crossplane_update_tester.Runner.Field.{
  Reconcile, apply_evidence_check, apply_patch_and_reconcile, poll_evidence, poll_field, result_for,
  run_field_test, snapshot_of, top_field,
}
use crossplane_update_tester.Runner.Run.{
  Opening, RunOutcome, Trial, maybe_reset, opened_snapshot, run_from, run_test, run_tests,
  skipped_result, unproven_of, unproven_reason_for_field,
}
use crossplane_update_tester.Runner.Run.Outcomes.{IsAnswered}
use crossplane_update_tester.Runner.Run.Reports.{run_tests-IsAnswered}
use crossplane_update_tester.Runner.Run.Invariants.{run_tests-AreViolations}

-- A codec that keeps the region of an object, and the text of a number.
abbrev region_of : Option Value → Text
region_of (some (str s)) = s
region_of _ = []

abbrev marshal_value : Value → Option Text
marshal_value (obj fs) = some (b'{' ∷ region_of (lookup (text "region") (fields fs)))
marshal_value (num n) = some n
marshal_value v = some (text "?")

abbrev unmarshal_text : Text → Option Value
unmarshal_text [] = none
unmarshal_text (c ∷ s) =
    if nat_beq c b'{' then some (object ((text "region", str s) ∷ [])) else some (num (c ∷ s))

abbrev codec : Codec
codec = record {
  marshal = marshal_value;
  unmarshal = unmarshal_text;
  raw_object = λ t. some [];
  compact = λ t. some t;
  print = λ v. [];
}

abbrev resized : UpdateTest
resized = record {
  field = text "size";
  value = num (text "2");
  expect = null;
  skip = no_skip;
  clear = text "tags" ∷ [];
  with_values = (text "tier", str (text "b")) ∷ [];
  ignore_map_keys = [];
  ignore_list_element_keys = [];
  value_explicit = true;
  disposition = [];
}

abbrev withheld : UpdateTest
withheld = record resized {
  field = text "password";
  skip = record no_skip { reason = skip_write_only };
  clear = text "labels" ∷ [];
}

abbrev database : Manifest
database = record {
  api_version = text "rds.crossplane.io/v1";
  kind = text "Instance";
  name = text "db";
  namespace = text "default";
  tests = resized ∷ withheld ∷ [];
  converge_skip = [];
  expect_external_name_prefix = [];
  assert_unchanged = text "region" ∷ [];
  ignore_fields = [];
  for_provider = [];
  path = text "examples/db.yaml";
  ready_conditions = [];
}

-- The live object, with a size and a region.
abbrev live : Text → Text → Value
live size region = object (
    (text "spec", object ((text "forProvider", object ((text "size", num size) ∷ [])) ∷ []))
    ∷ (
      text "status",
      object (
          (text "atProvider", object ((text "size", num size) ∷ (text "region", str region) ∷ []))
          ∷ []),
    )
    ∷ [])

abbrev reconciled : Reconcile
reconciled = record { cleared = none; nudged = none; ready = none; synced = ok true }

abbrev trial : Trial
trial = record {
  current_events = ok 3;
  reset = none;
  attempt = record {
    current = ok (live (text "1") (text "eu"));
    events_before = ok 3;
    patched = none;
    reconcile = reconciled;
    reconcile_again = reconciled;
    reads = ok (live (text "1") (text "eu")) ∷ [];
    last_read = ok (live (text "2") (text "us"));
    counts = ok 3 ∷ [];
    last_count = ok 4;
    is_slow = false;
    after = ok (live (text "2") (text "us"));
  };
}

abbrev opening : Opening
opening = record {
  resolved = none;
  initial = ok (live (text "1") (text "eu"));
  pre_existing = ok 3;
  pre_reset = none;
}

-- The leaf `tags` is credited to the clear: of `size`, `labels` to that of the skipped test.
abbrev credited : Text → ClearCellReport
credited path = record {
  key = record {
    classification = Classification.na;
    shape = Shape.map_shape;
    direction = Direction.clear;
    depth = Depth.top;
  };
  members = path ∷ [];
  ineligible_members = [];
  ineligibility_reasons = [];
  covered = true;
  vacuous = false;
  representative = path;
  route = some ClearRoute.sibling_clear;
  undispositioned_members = [];
  contradictory = [];
}

abbrev reports : List ClearCellReport
reports = credited (text "tags") ∷ credited (text "labels") ∷ []

abbrev outcome : RunOutcome
outcome = record {
  results =
      record (result_for (text "size")) {
        passed = true;
        before = text "1";
        before_known = true;
        expected = text "2";
        actual = text "2";
        update_evidenced = true;
      }
      ∷ skipped_result withheld
      ∷ [];
  violations =
      record {
        field = text "region";
        baseline = text "eu";
        observed = text "us";
        after_field = text "size";
      }
      ∷ [];
  clear_violations = [];
  unproven =
      record {
        representative = text "labels";
        route = ClearRoute.sibling_clear;
        trigger_field = text "password";
        reason = UnprovenReason.lender_skipped;
      }
      ∷ [];
}

run_tests-outcome : run_tests codec 0 reports database opening (λ i. trial) ≡ ok outcome
unfolding run_tests run_from run_test run_field_test maybe_reset snapshot_of navigate_json_path
    descend lookup split read_assert_unchanged_baselines read_snapshot_field unobserved_from
    trigger_field_for add_pending has_prefix insert unproven_of unproven_reason_for_field
    check_fields check_items present describe effective_value read_current_value read_field
    json_equal deep_equal compare_field_value poll_field poll_evidence apply_evidence_check
    apply_patch_and_reconcile build_merge_patch merge_patch validate_clear clear_entries
    validate_with_values with_values_entries contains_byte nest clear_all set_all diff_top_level
    parse_snapshot raw_value distinct top_field trim_space trim_left trim_right keep_last sort
    sort_by insert_by text_le
run_tests-outcome = refl

run_tests-IsAnswered_example :
    IsAnswered codec (λ i. trial) 0 (resized ∷ withheld ∷ []) outcome.results
run_tests-IsAnswered_example =
    run_tests-IsAnswered codec 0 reports database opening (λ i. trial) outcome run_tests-outcome

run_tests-AreViolations_example :
    (snapshot : Text) × (baselines : List (Text × Text)) × (violated : List Text) × (opened_snapshot
        codec opening
      ≡ ok snapshot)
    × (read_assert_unchanged_baselines codec snapshot (text "region" ∷ []) ≡ ok baselines)
    × AreViolations (text "region" ∷ []) baselines outcome.violations violated
run_tests-AreViolations_example =
    run_tests-AreViolations codec 0 reports database opening (λ i. trial) outcome run_tests-outcome

abbrev patched : Value
patched = object (
    (
      text "spec",
      object (
          (
            text "forProvider",
            object (
                (text "size", num (text "2"))
                ∷ (text "tags", null)
                ∷ (text "tier", str (text "b"))
                ∷ []),
          )
          ∷ []),
    )
    ∷ [])

merge_patch_patched :
    merge_patch
      (text "size")
      (num (text "2"))
      (text "tags" ∷ [])
      ((text "tier", str (text "b")) ∷ [])
    ≡ ok patched
unfolding merge_patch validate_clear clear_entries validate_with_values with_values_entries
    contains_byte nest split clear_all set_all insert sort sort_by insert_by text_le
merge_patch_patched = refl

merge_patch-navigate_spec_for_provider_example :
    (navigate_spec_for_provider patched (text "size") ≡ ok (some (num (text "2"))))
    × ((k : Text) → In k (text "tags" ∷ []) → navigate_spec_for_provider patched k ≡ ok (some null))
    × ((k : Text) (w : Value)
        → lookup k ((text "tier", str (text "b")) ∷ []) ≡ some w
        → navigate_spec_for_provider patched k ≡ ok (some w))
    × ((k : Text)
        → IsTopLevel (text "size")
        → IsTopLevel k
        → k ≢ text "size"
        → ¬ In k (text "tags" ∷ [])
        → lookup k ((text "tier", str (text "b")) ∷ []) ≡ none
        → navigate_spec_for_provider patched k ≡ ok none)
merge_patch-navigate_spec_for_provider_example =
    merge_patch-navigate_spec_for_provider (text "size") (num (text "2")) patched (text "tags" ∷ [])
      ((text "tier", str (text "b")) ∷ []) merge_patch_patched

navigate_json_path_iff_example :
    (navigate_json_path patched (text "spec" ∷ []) (text "forProvider.tier")
      ≡ ok (some (str (text "b"))))
    ↔ At patched ((text "spec" ∷ []) ++ split b'.' (text "forProvider.tier")) (str (text "b"))
navigate_json_path_iff_example =
    navigate_json_path_iff patched (text "spec" ∷ []) (text "forProvider.tier") (str (text "b"))
