-- ===== src/Roundtrip/Denominator.antt =====
-- internal/roundtrip/denominator.go and waiverbucket.go: the must-test set, and what the rows of a
-- live object say of the entries that are skipped.
pub mod Counting
pub mod Findings
pub mod Buckets
use crossplane_update_tester.Base.{
  ℕ, suc, ◌+◌, Text, Bool, true, false, not, ◌&&◌, ◌||◌, List, [], ◌∷◌, Option, none, some,
  if◌then◌else◌, ◌==◌, list_eq, nat_eq,
}
use crossplane_update_tester.Manifest.{UpdateTest, present, skip_write_only}
use crossplane_update_tester.Roundtrip.Cell.{Classification, Row}

-- What the Detail texts say, with the row whose values they print; the Boolean is the contradiction
-- that is named where the row's field is immutable.
pub data Detail : Type 0 where
  free_prose_without_row write_only_without_row : Detail
  must_test_or_write_only excluded_immutable : Row → Detail
  write_only_rejected must_test : Bool → Row → Detail

-- `none` is the classification of a field without a row.
pub record Finding : Type 0 where
  pub field : Text
  pub classification : Option Classification
  pub detail : Detail

abbrev pub is_must_test_class : Classification → Bool
is_must_test_class Classification.value_changed = true
is_must_test_class Classification.defaulted_by_server = true
is_must_test_class Classification.present_in_spec_absent_from_mirror = true
is_must_test_class _ = false

abbrev pub is_spec_only : Classification → Bool
is_spec_only Classification.present_in_spec_absent_from_mirror = true
is_spec_only _ = false

abbrev pub is_write_only : UpdateTest → Bool
is_write_only t = not t.skip.legacy && t.skip.reason == skip_write_only

abbrev pub first_row : Option Row → Row → Option Row
first_row (some later) r = some later
first_row none r = some r

-- byPath[path]: the last row of the path.
unfoldable pub row_at : Text → List Row → Option Row
row_at path [] = none
row_at path (r ∷ rs) = if r.path == path then first_row (row_at path rs) r else row_at path rs

-- mustTestCount and excluded.
pub record Tally : Type 0 where
  pub must_test_count : ℕ
  pub excluded : List Finding

abbrev pub exclusion : Row → Finding
exclusion r = record {
  field = r.path;
  classification = some r.classification;
  detail = excluded_immutable r;
}

-- The first loop.
unfoldable pub tally : List Row → Tally
tally [] = record { must_test_count = 0; excluded = [] }
tally (r ∷ rs) =
    let rest = tally rs in
    if not (is_must_test_class r.classification)
    then rest
    else if is_spec_only r.classification && r.immutable
    then record rest { excluded = exclusion r ∷ rest.excluded }
    else record rest { must_test_count = suc rest.must_test_count }

abbrev pub no_row_finding : UpdateTest → Option Finding
no_row_finding t =
    if t.skip.legacy
    then some (record { field = t.field; classification = none; detail = free_prose_without_row })
    else if is_write_only t
    then some (record { field = t.field; classification = none; detail = write_only_without_row })
    else none

abbrev pub deviating_finding : UpdateTest → Row → Option Finding
deviating_finding t r =
    if is_write_only t
    then some (record {
      field = t.field;
      classification = some r.classification;
      detail = write_only_rejected r.immutable r;
    })
    else some (record {
      field = t.field;
      classification = some r.classification;
      detail = must_test r.immutable r;
    })

abbrev pub spec_only_finding : UpdateTest → Row → Option Finding
spec_only_finding t r =
    if r.immutable
    then none
    else if is_write_only t
    then none
    else some (record {
      field = t.field;
      classification = some r.classification;
      detail = must_test_or_write_only r;
    })

-- The switch on the row's classification.
abbrev pub row_finding : UpdateTest → Row → Classification → Option Finding
row_finding t r Classification.present_in_spec_absent_from_mirror = spec_only_finding t r
row_finding t r Classification.value_changed = deviating_finding t r
row_finding t r Classification.defaulted_by_server = deviating_finding t r
row_finding t r _ = none

abbrev pub finding_at : UpdateTest → Option Row → Option Finding
finding_at t none = no_row_finding t
finding_at t (some r) = row_finding t r r.classification

abbrev pub add_finding : Option Finding → List Finding → List Finding
add_finding none fs = fs
add_finding (some f) fs = f ∷ fs

-- The second loop.
unfoldable pub findings : List Row → List UpdateTest → List Finding
unfolding present row_at
findings rows [] = []
findings rows (t ∷ ts) =
    if not (present t.skip)
    then findings rows ts
    else add_finding (finding_at t (row_at t.field rows)) (findings rows ts)

pub record Report : Type 0 where
  pub findings : List Finding
  pub tally : Tally

-- DenominatorReport, of the manifest's tests.
unfoldable pub denominator_report : List UpdateTest → List Row → Report
unfolding findings tally
denominator_report tests rows = record { findings = findings rows tests; tally = tally rows }

pub data Bucket : Type 0 where
  refuted keep : Bucket

-- The Detail is that of the finding, or says that there is no row, or names the row's class.
pub data WaiverDetail : Type 0 where
  of_finding : Detail → WaiverDetail
  never_populated : WaiverDetail
  row_classifies : Classification → WaiverDetail

pub record Waiver : Type 0 where
  pub field : Text
  pub bucket : Bucket
  pub detail : WaiverDetail

abbrev pub waiver_of : UpdateTest → Option Row → List Finding → Waiver
waiver_of t none fs = record { field = t.field; bucket = keep; detail = never_populated }
waiver_of t (some r) [] = record {
  field = t.field;
  bucket = keep;
  detail = row_classifies r.classification;
}
waiver_of t (some r) (f ∷ fs) = record {
  field = t.field;
  bucket = refuted;
  detail = of_finding f.detail;
}

unfoldable pub classify_waivers : List UpdateTest → List Row → List Waiver
unfolding denominator_report
classify_waivers [] rows = []
classify_waivers (t ∷ ts) rows =
    if not (present t.skip)
    then classify_waivers ts rows
    else waiver_of t (row_at t.field rows) (denominator_report (t ∷ []) rows).findings
      ∷ classify_waivers ts rows
