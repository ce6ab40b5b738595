-- ===== src/Manifest.antt =====
-- internal/manifest/manifest.go: the update-test annotation, its entries and their validation.
--
-- A named string type of the code (SkipReason, Disposition) is `Text`: it holds what the YAML says,
-- and the validation decides. The nil of an `interface{}` is the value `null`, a map is an
-- association list, and a nil map or slice the empty one. An error is a constructor of `Error` for
-- the message with the values that the message shows.
pub mod Skip
pub mod Entries
pub mod Directives
pub mod Annotation
pub mod Documents
use crossplane_update_tester.Base.{
  ℕ, Text, text, Bool, true, false, not, ◌&&◌, ◌||◌, List, [], ◌∷◌, ◌++◌, is_empty, Option, none,
  some, if◌then◌else◌, ◌==◌, list_eq, nat_eq,
}
use crossplane_update_tester.Value.{Value}

pub data Error : Type 0 where
  -- skip: and disposition:
  legacy_and_reason immutable_reason missing_sibling missing_by : Error
  invalid_reason bad_by missing_evidence invalid_disposition : Text → Error
  incomplete_exclusion disposition_on_both_levels : Error
  not_a_top_level_disposition : Text → Error
  in_skip : Error → Error
  -- clear:, withValues:, ignoreMapKeys: and ignoreListElementKeys:
  nested_field dotted_entry names_itself named_in_clear : Text → Error
  ignore_keys_with_skip empty_key : Error
  repeated_key key_is_asserted : Text → Error
  -- the entries together
  skip_with_test mixed_entries dotted_ignore_field : Text → Error
  field_required : ℕ → Error
  value_required : ℕ → Text → Error
  entry : ℕ → Text → Error → Error
  patched_and_unchanged : Text → Error
  -- the annotation
  bad_yaml bad_directive : Text → Error

pub record SkipInfo : Type 0 where
  pub reason : Text
  pub sibling : Text
  pub by : Text
  pub evidence : Text
  pub disposition : Text
  pub declared_by : Text
  pub reconfirm : Text
  pub legacy : Bool
  pub legacy_text : Text

pub record UpdateTest : Type 0 where
  pub field : Text
  pub value : Value
  pub expect : Value
  pub skip : SkipInfo
  pub clear : List Text
  pub with_values : List (Text × Value)
  pub ignore_map_keys : List Text
  pub ignore_list_element_keys : List Text
  pub value_explicit : Bool
  pub disposition : Text

pub record Manifest : Type 0 where
  pub api_version : Text
  pub kind : Text
  pub name : Text
  pub namespace : Text
  pub tests : List UpdateTest
  pub converge_skip : Text
  pub expect_external_name_prefix : Text
  pub assert_unchanged : List Text
  pub ignore_fields : List Text
  pub for_provider : List (Text × Value)
  pub path : Text
  pub ready_conditions : List Text

abbrev pub skip_union_arm : Text
skip_union_arm = text "union-arm"

abbrev pub skip_covered_elsewhere : Text
skip_covered_elsewhere = text "covered-elsewhere"

abbrev pub skip_vendor_defect : Text
skip_vendor_defect = text "vendor-defect"

abbrev pub skip_fixture_missing : Text
skip_fixture_missing = text "fixture-missing"

abbrev pub skip_write_only : Text
skip_write_only = text "write-only"

abbrev pub skip_reasons : List Text
skip_reasons =
    skip_union_arm ∷ skip_covered_elsewhere ∷ skip_vendor_defect ∷ skip_fixture_missing
    ∷ skip_write_only ∷ []

abbrev pub declared_exclusion : Text
declared_exclusion = text "declared-exclusion"

abbrev pub backend_discards : Text
backend_discards = text "backend-discards"

abbrev pub dispositions : List Text
dispositions =
    text "statically-provable"
    ∷ text "one-live-patch"
    ∷ declared_exclusion
    ∷ text "defect"
    ∷ backend_discards
    ∷ []

-- The zero value of SkipInfo, and LegacySkip.
abbrev pub no_skip : SkipInfo
no_skip = record {
  reason = [];
  sibling = [];
  by = [];
  evidence = [];
  disposition = [];
  declared_by = [];
  reconfirm = [];
  legacy = false;
  legacy_text = [];
}

abbrev pub legacy_skip : Text → SkipInfo
legacy_skip reason = record no_skip { legacy = true; legacy_text = reason }

-- SkipInfo.Present
unfoldable pub present : SkipInfo → Bool
present s = s.legacy || not (is_empty s.reason)

-- UpdateTest.EffectiveDisposition
unfoldable pub effective_disposition : UpdateTest → Text
unfolding present
effective_disposition t =
    if not (is_empty t.disposition)
    then t.disposition
    else if present t.skip
    then t.skip.disposition
    else []

-- fmt.Sprintf("%s (%s)", reason, evidence)
abbrev pub describe_evidence : Text → Text → Text
describe_evidence reason evidence = reason ++ (text " (" ++ (evidence ++ text ")"))

abbrev pub describe_base : SkipInfo → Text
describe_base s =
    if s.legacy
    then s.legacy_text
    else if s.reason == skip_union_arm
    then text "union-arm (sibling: " ++ (s.sibling ++ text ")")
    else if s.reason == skip_covered_elsewhere
    then text "covered-elsewhere (by: " ++ (s.by ++ text ")")
    else if s.reason == skip_vendor_defect
    then describe_evidence skip_vendor_defect s.evidence
    else if s.reason == skip_fixture_missing
    then describe_evidence skip_fixture_missing s.evidence
    else if s.reason == skip_write_only
    then skip_write_only
    else s.reason

-- SkipInfo.Describe
unfoldable pub describe : SkipInfo → Text
describe s =
    if is_empty s.disposition
    then describe_base s
    else describe_base s ++ (text " [disposition: " ++ (s.disposition ++ text "]"))

-- Manifest.EffectiveReadyConditions
unfoldable pub effective_ready_conditions : Manifest → List Text
effective_ready_conditions m =
    if is_empty m.ready_conditions then text "Ready" ∷ [] else m.ready_conditions
