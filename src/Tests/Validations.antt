-- ===== src/Tests/Validations.antt =====
-- A manifest against its type, two snapshots, and the verdict of a convergence check.
use crossplane_update_tester.Base.{
  ℕ, inl, inr, ◌≢◌, ◌<◌, ◌≤◌, Text, text, Bool, true, false, List, [], ◌∷◌, none, some, In,
  IsSortedBy, refl, ok, ◌≡◌, ◌↔◌, ◌⊎◌, trim_space, trim_left, trim_right, keep_last, arith,
}
use crossplane_update_tester.Value.{null, num}
use crossplane_update_tester.Json.{Codec}
use crossplane_update_tester.Differ.{BadSnapshot, FieldChange, diff_top_level, parse_snapshot}
use crossplane_update_tester.Differ.Changes.{IsChange, diff_top_level_iff}
use crossplane_update_tester.Manifest.{UpdateTest, Manifest, no_skip}
use crossplane_update_tester.Runner.Field.{top_field}
use crossplane_update_tester.Runner.Converge.{
  Message, EventFilter, EventItem, LogObservation, build_converge_result,
  sum_event_occurrences_by_reason,
}
use crossplane_update_tester.Runner.Converge.Counting.{
  Concerns, IsGroup, Tally, nothing, several, single, sum_event_occurrences_by_reason_lem,
}
use crossplane_update_tester.Runner.Converge.Verdict.{IsLooping, build_converge_result_iff}
use crossplane_update_tester.Validator.{FieldInfo, names_of_fields, validate_manifest}
use crossplane_update_tester.Validator.Coverage.{
  IsClearedIn, IsSetIn, IsSettled, validate_manifest_iff,
}

abbrev sized : UpdateTest
sized = record {
  field = text "size.gb";
  value = num (text "2");
  expect = null;
  skip = no_skip;
  clear = text "tags" ∷ [];
  with_values = [];
  ignore_map_keys = [];
  ignore_list_element_keys = [];
  value_explicit = true;
  disposition = [];
}

abbrev disk : Manifest
disk = record {
  api_version = text "compute.crossplane.io/v1";
  kind = text "Disk";
  name = text "data";
  namespace = text "default";
  tests = sized ∷ [];
  converge_skip = [];
  expect_external_name_prefix = [];
  assert_unchanged = text "zone" ∷ [];
  ignore_fields = [];
  for_provider = [];
  path = text "examples/disk.yaml";
  ready_conditions = [];
}

abbrev declared : Text → FieldInfo
declared name = record {
  go_name = name;
  json_name = name;
  immutable = false;
  go_type = text "*string";
  omitempty = true;
}

abbrev disk_fields : List FieldInfo
disk_fields =
    declared (text "size")
    ∷ declared (text "tags")
    ∷ declared (text "zone")
    ∷ declared (text "zoneRef")
    ∷ declared (text "kms")
    ∷ []

validate_manifest_iff_example : ((validate_manifest disk disk_fields).all_good ≡ true) ↔ (
    ((t : UpdateTest) → In t disk.tests → In (top_field t.field) (names_of_fields disk_fields))
    × ((k : Text) (t : UpdateTest)
        → In t disk.tests
        → IsClearedIn k t ⊎ IsSetIn k t
        → In k (names_of_fields disk_fields))
    × ((f : FieldInfo) → In f disk_fields → IsSettled disk disk_fields f))
validate_manifest_iff_example = validate_manifest_iff disk disk_fields

-- A snapshot is one field, its value the text itself.
abbrev raw_codec : Codec
raw_codec = record {
  marshal = λ v. none;
  unmarshal = λ t. none;
  raw_object = λ t. some ((text "size", t) ∷ []);
  compact = λ t. some t;
  print = λ v. [];
}

small_parses :
    parse_snapshot raw_codec (text " 1") BadSnapshot.before ≡ ok ((text "size", text "1") ∷ [])
unfolding parse_snapshot trim_space trim_left trim_right keep_last
small_parses = refl

large_parses :
    parse_snapshot raw_codec (text "2") BadSnapshot.after ≡ ok ((text "size", text "2") ∷ [])
unfolding parse_snapshot trim_space trim_left trim_right keep_last
large_parses = refl

diff_top_level_iff_example :
    (cs : List FieldChange) × (diff_top_level raw_codec (text " 1") (text "2") (text "zone" ∷ [])
      ≡ ok cs)
    × ((c : FieldChange)
        → In c cs
          ↔ IsChange raw_codec
              (text "zone" ∷ [])
              ((text "size", text "1") ∷ [])
              ((text "size", text "2") ∷ [])
              c)
    × IsSortedBy (λ (c : FieldChange). c.field) cs
diff_top_level_iff_example =
    diff_top_level_iff raw_codec (text " 1") (text "2") (text "zone" ∷ [])
      ((text "size", text "1") ∷ []) ((text "size", text "2") ∷ []) small_parses large_parses

abbrev observed : LogObservation
observed = record { calls = 2; lines = 40; failure = none; window = 60 }

build_converge_result_iff_example :
    ((build_converge_result [] 3 3 5 5 true observed []).passed ≡ true ↔ (
      (◌≡◌ {A = List FieldChange} [] [])
      × (5 ≤ 5)
      × (¬ IsLooping observed)
      × (◌≡◌ {A = ℕ} 3 3)
      × (◌≡◌ {A = Bool} true true)))
    × ((build_converge_result [] 3 3 5 5 true observed []).message ≡ Message.reconciliation_loop
        ↔ ((◌≢◌ {A = List FieldChange} [] []) ⊎ (5 < 5) ⊎ IsLooping observed))
build_converge_result_iff_example = build_converge_result_iff [] 3 3 5 5 true observed []

abbrev updated : EventItem
updated = record {
  reason = text "UpdatedExternalResource";
  count = 4;
  kind = text "Disk";
  name = text "data";
  namespace = [];
  api_version = text "compute.crossplane.io/v1";
}

abbrev wanted : EventFilter
wanted = record {
  kind = text "Disk";
  name = text "data";
  namespace = [];
  api_version = text "compute.crossplane.io/v1beta1";
  reasons = text "UpdatedExternalResource" ∷ [];
}

of_IsGroup : IsGroup (text "compute.crossplane.io/v1") (text "compute.crossplane.io")
of_IsGroup = inl (text "v1", refl, (λ h. no_slash h))
  where
    no_slash : In b'/' (text "compute.crossplane.io") → ⊥
    no_slash h = ground arith

of_same-IsGroup : IsGroup (text "compute.crossplane.io/v1beta1") (text "compute.crossplane.io")
of_same-IsGroup = inl (text "v1beta1", refl, (λ h. no_slash h))
  where
    no_slash : In b'/' (text "compute.crossplane.io") → ⊥
    no_slash h = ground arith

updated-Concerns : Concerns wanted updated
updated-Concerns =
    (refl, refl, refl, inr (text "compute.crossplane.io", of_IsGroup, of_same-IsGroup), inl refl)

counted_twice : Tally wanted (updated ∷ record updated { count = 0 } ∷ []) 5
counted_twice =
    several updated-Concerns (omega arith) (omega arith)
      (single updated-Concerns (inl refl) nothing)

sum_event_occurrences_by_reason_lem_example :
    sum_event_occurrences_by_reason wanted (updated ∷ record updated { count = 0 } ∷ []) ≡ 5
sum_event_occurrences_by_reason_lem_example =
    sum_event_occurrences_by_reason_lem wanted (updated ∷ record updated { count = 0 } ∷ []) 5
      counted_twice (omega arith)
