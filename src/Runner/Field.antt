-- ===== src/Runner/Field.antt =====
-- internal/runner/runner.go: runFieldTest, one test of a field against the live resource. What the
-- cluster answers is an `Attempt`, in the order of the calls; a list of answers ends with the one
-- that comes after the deadline. Durations are left out, but for the comparison with the threshold.
pub mod Verdict
use crossplane_update_tester.Base.{
  ℕ, Text, text, Bool, true, false, not, ◌&&◌, ◌||◌, List, [], ◌∷◌, ◌++◌, Option, none, some,
  if◌then◌else◌, ltb, ◌==◌, list_eq, nat_eq, Result, ok, err, then_do,
}
use crossplane_update_tester.Value.{Value, obj, null}
use crossplane_update_tester.Json.{Codec}
use crossplane_update_tester.Differ.{FieldChange, BadSnapshot, diff_snapshots, diff_top_level}
use crossplane_update_tester.Manifest.{UpdateTest}
use crossplane_update_tester.Manifest.Entries.{effective_value}
use crossplane_update_tester.Runner.Values.{
  Failure, build_merge_patch, compare_field_value, format_expected, json_equal, navigate_json_path,
  or_null, read_current_value, read_field,
}

-- The answers to ClearConditions, NudgeReconcile, WaitReady and waitSynced.
pub record Reconcile : Type 0 where
  pub cleared : Option Failure
  pub nudged : Option Failure
  pub ready : Option Failure
  pub synced : Result Failure Bool

pub record Attempt : Type 0 where
  pub current : Result Failure Value
  pub events_before : Result Failure ℕ
  pub patched : Option Failure
  pub reconcile : Reconcile
  pub reconcile_again : Reconcile
  pub reads : List (Result Failure Value)
  pub last_read : Result Failure Value
  pub counts : List (Result Failure ℕ)
  pub last_count : Result Failure ℕ
  pub is_slow : Bool
  pub after : Result Failure Value

pub record TestResult : Type 0 where
  pub field : Text
  pub skipped : Bool
  pub skip_msg : Text
  pub no_op : Bool
  pub passed : Bool
  pub before : Text
  pub before_known : Bool
  pub expected : Text
  pub actual : Text
  pub failure : Option Failure
  pub side_fx : List FieldChange
  pub update_evidenced : Bool
  pub not_evidenced : Bool
  pub slow_observe : Bool
  pub evidence_untrusted : Bool

abbrev pub result_for : Text → TestResult
result_for field = record {
  field = field;
  skipped = false;
  skip_msg = [];
  no_op = false;
  passed = false;
  before = [];
  before_known = false;
  expected = [];
  actual = [];
  failure = none;
  side_fx = [];
  update_evidenced = false;
  not_evidenced = false;
  slow_observe = false;
  evidence_untrusted = false;
}

abbrev pub synced_failure : Result Failure Bool → Option Failure
synced_failure (err e) = some (Failure.waiting_for_synced e)
synced_failure (ok synced) = if synced then none else some Failure.synced_timeout

-- The first error of a sequence of calls.
abbrev pub or_then : Option Failure → Option Failure → Option Failure
or_then (some e) next = some e
or_then none next = next

abbrev pub reconcile_once : Reconcile → Option Failure
reconcile_once r = or_then r.cleared (or_then r.nudged (or_then r.ready (synced_failure r.synced)))

-- The text up to the first dot.
unfoldable pub top_field : Text → Text
top_field [] = []
top_field (c ∷ s) = let rest = top_field s in if c == b'.' then [] else c ∷ rest

-- What evidenceOutcome returns.
pub record Evidence : Type 0 where
  pub checked : Bool
  pub evidenced : Bool
  pub failure : Option Failure

abbrev pub no_evidence : Failure → Evidence
no_evidence e = record { checked = false; evidenced = false; failure = some e }

abbrev pub evidence_found : Bool → Evidence
evidence_found b = record { checked = true; evidenced = b; failure = none }

-- The loop of evidenceOutcome over the counts that come in time.
unfoldable pub poll_evidence : ℕ → List (Result Failure ℕ) → Result Failure ℕ → Evidence
poll_evidence n [] (err e) = no_evidence (Failure.counting_after e)
poll_evidence n [] (ok c) = evidence_found (ltb n c)
poll_evidence n (err e ∷ counts) last = no_evidence (Failure.counting_after e)
poll_evidence n (ok c ∷ counts) last =
    let rest = poll_evidence n counts last in if ltb n c then evidence_found true else rest

abbrev pub evidence_outcome :
    Result Failure ℕ → List (Result Failure ℕ) → Result Failure ℕ → Evidence
evidence_outcome (err e) counts last = no_evidence (Failure.counting_before e)
evidence_outcome (ok n) counts last = poll_evidence n counts last

abbrev pub with_failure : Failure → TestResult → TestResult
with_failure e r = record r { failure = or_then r.failure (some e) }

abbrev pub with_evidence_failure : Option Failure → TestResult → TestResult
with_evidence_failure none r = r
with_evidence_failure (some e) r = with_failure e r

-- applyEvidenceCheck
unfoldable pub apply_evidence_check : Evidence → TestResult → TestResult
apply_evidence_check e r =
    let noted = with_evidence_failure e.failure (record r { update_evidenced = e.evidenced }) in
    if not e.checked || not noted.passed || e.evidenced
    then noted
    else with_failure (Failure.not_evidenced noted.field)
        (record noted { passed = false; not_evidenced = true })

module _ (codec : Codec) where
  abbrev pub snapshot_text : Value → Result Failure Text
  snapshot_text null = ok (text "{}")
  snapshot_text (obj fs) = elim (codec.marshal (obj fs)) [
    | none ↦ err (Failure.marshalling (text "status.atProvider"))
    | some t ↦ ok t
  ]
  snapshot_text _ = err (Failure.reading (text "status.atProvider"))

  -- Snapshot, of the object that GetObject returns
  unfoldable pub snapshot_of : Value → Result Failure Text
  unfolding navigate_json_path
  snapshot_of o =
      then_do (navigate_json_path o (text "status" ∷ []) (text "atProvider"))
        (λ v. snapshot_text (or_null v))

  abbrev pub patch_failure : Result Failure Text → Option Failure → Option Failure
  patch_failure (err e) answer = some e
  patch_failure (ok body) answer = answer

  -- applyPatchAndReconcile
  unfoldable pub apply_patch_and_reconcile : UpdateTest → Attempt → Option Failure
  unfolding build_merge_patch
  apply_patch_and_reconcile t a =
      or_then
        (patch_failure (build_merge_patch codec t.field t.value t.clear t.with_values) a.patched)
        (or_then (reconcile_once a.reconcile) (reconcile_once a.reconcile_again))

  abbrev pub matches : UpdateTest → Text → Bool
  matches t actual =
      compare_field_value codec (effective_value t) actual t.ignore_map_keys
        t.ignore_list_element_keys

  abbrev pub polled : Result Failure Text → Text × Option Failure
  polled (err e) = ([], some e)
  polled (ok actual) = (actual, none)

  -- The body of pollField's loop, where `rest` is what the loop returns from the next answer on.
  abbrev pub poll_round :
      UpdateTest → Result Failure Text → Text × Option Failure → Text × Option Failure
  poll_round t (err e) rest = ([], some e)
  poll_round t (ok actual) rest = if matches t actual then (actual, none) else rest

  -- pollField
  unfoldable pub poll_field :
      UpdateTest → List (Result Failure Value) → Result Failure Value → Text × Option Failure
  unfolding read_field
  poll_field t [] last = polled (then_do last (λ o. read_field codec o t.field))
  poll_field t (answer ∷ answers) last =
      poll_round t (then_do answer (λ o. read_field codec o t.field)) (poll_field t answers last)

  abbrev pub is_no_op : UpdateTest → Result Failure Text → Bool
  is_no_op t (err e) = false
  is_no_op t (ok before) = json_equal codec t.value before

  abbrev pub with_before : Result Failure Text → TestResult → TestResult
  with_before (err e) r = r
  with_before (ok before) r = record r { before = before; before_known = true }

  abbrev pub polled_result : UpdateTest → Text × Option Failure → TestResult → TestResult
  polled_result t poll start = record start {
    failure = poll.1;
    expected = format_expected codec (effective_value t);
    actual = poll.0;
    passed = matches t poll.0;
  }

  -- From the poll to the evidence check and the threshold.
  abbrev pub observed_result : UpdateTest → Attempt → TestResult → TestResult
  observed_result t a start =
      let checked =
        apply_evidence_check (evidence_outcome a.events_before a.counts a.last_count)
          (polled_result t (poll_field t a.reads a.last_read) start) in
      record checked { slow_observe = checked.passed && a.is_slow }

  abbrev pub compared :
      Text → Text → TestResult → Result BadSnapshot (List FieldChange) → TestResult × Text
  compared old new r (err e) =
      (record r { failure = some (Failure.diffing (Failure.parsing_snapshot [])) }, old)
  compared old new r (ok changes) = (record r { side_fx = changes }, new)

  -- From the snapshot on.
  abbrev pub with_snapshot : Text → Text → TestResult → Result Failure Text → TestResult × Text
  with_snapshot field old r (err e) =
      (record r { failure = some (Failure.post_update_snapshot e) }, old)
  with_snapshot field old r (ok new) =
      compared old new r (diff_snapshots codec old new (top_field field))

  -- runFieldTest
  unfoldable pub run_field_test : UpdateTest → Text → Attempt → TestResult × Text
  unfolding read_current_value json_equal effective_value poll_field compare_field_value
      apply_evidence_check poll_evidence apply_patch_and_reconcile snapshot_of diff_top_level
      top_field
  run_field_test t snapshot a =
      let before = then_do a.current (λ o. read_current_value codec o t.field) in
      let start = with_before before (result_for t.field) in
      if is_no_op t before
      then (
        record start {
          no_op = true;
          expected = format_expected codec (effective_value t);
          actual = start.before;
          failure = some (Failure.no_op t.field);
        },
        snapshot,
      )
      else elim (apply_patch_and_reconcile t a) [
        | some e ↦ (record start { failure = some e }, snapshot)
        | none ↦
            with_snapshot t.field snapshot (observed_result t a start)
              (then_do a.after (λ o. snapshot_of o))
      ]
