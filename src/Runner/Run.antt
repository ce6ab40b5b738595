-- ===== src/Runner/Run.antt =====
-- internal/runner/runner.go: RunTests, and main.go's count of its results. What the cluster answers
-- around the i-th test is the `Trial` of i; the clear cells come from the CRD of the root.
pub mod Opened
pub mod Outcomes
pub mod Reports
pub mod Invariants
pub mod Exercises
pub mod Credits
use crossplane_update_tester.Base.{
  ℕ, zero, suc, ◌+◌, Text, text, Bool, true, false, not, ◌&&◌, ◌||◌, List, [], ◌∷◌, ◌++◌, map,
  Option, none, some, if◌then◌else◌, leb, ltb, nat_beq, ◌==◌, list_eq, nat_eq, elem, lookup,
  is_empty, Result, ok, err, then_do,
}
use crossplane_update_tester.Value.{Value}
use crossplane_update_tester.Json.{Codec}
use crossplane_update_tester.Manifest.{UpdateTest, Manifest, present, describe}
use crossplane_update_tester.Roundtrip.Clearing.Cells.{ClearCellReport}
use crossplane_update_tester.Runner.Values.{Failure}
use crossplane_update_tester.Runner.Unchanged.{
  UnchangedAssertion, check_assert_unchanged, check_fields, read_assert_unchanged_baselines,
  Checked,
}
use crossplane_update_tester.Runner.Clears.{
  ClearAssertion, ClearChecked, Pending, PendingClear, UnprovenClearCredit, UnprovenReason,
  check_clear_assertions, check_items, unobserved_clear_credits, unobserved_from,
}
use crossplane_update_tester.Runner.Field.{
  Attempt, TestResult, result_for, run_field_test, snapshot_of, with_evidence_failure,
}

-- The count before the test, the answer to the restart of the controller, and the field test itself.
pub record Trial : Type 0 where
  pub current_events : Result Failure ℕ
  pub reset : Option Failure
  pub attempt : Attempt

pub record RunState : Type 0 where
  pub snapshot : Text
  pub results : List TestResult
  pub violated : List Text
  pub violations : List UnchangedAssertion
  pub clear_violations : List ClearAssertion
  pub consumed : List Text
  pub attempts_since_reset : ℕ
  pub event_baseline : Option ℕ
  pub reset_failed : Bool

-- What stays fixed during a run.
pub record Setup : Type 0 where
  pub codec : Codec
  pub ceiling : ℕ
  pub guarded : List Text
  pub baselines : List (Text × Text)
  pub pending : Pending

abbrev pub default_event_burst_ceiling : ℕ
default_event_burst_ceiling = 20

-- eventBurstCeiling
abbrev pub event_burst_ceiling : ℕ → ℕ
event_burst_ceiling configured =
    if ltb 0 configured then configured else default_event_burst_ceiling

abbrev pub is_failure : Option Failure → Bool
is_failure none = false
is_failure (some e) = true

-- current - eventBaseline >= ceiling
abbrev pub is_burst : ℕ → Result Failure ℕ → Option ℕ → Bool
is_burst ceiling (ok current) (some baseline) = leb (ceiling + baseline) current
is_burst ceiling _ _ = false

abbrev pub baseline_after : Result Failure ℕ → Option ℕ → Option ℕ
baseline_after (ok current) baseline = some current
baseline_after (err e) baseline = baseline

abbrev pub after_reset : Trial → RunState → RunState
after_reset trial s = record s {
  reset_failed = is_failure trial.reset || s.reset_failed;
  attempts_since_reset = 0;
  event_baseline = baseline_after trial.current_events s.event_baseline;
}

unfoldable pub maybe_reset : ℕ → Trial → RunState → RunState
maybe_reset ceiling trial s =
    if leb ceiling s.attempts_since_reset || is_burst ceiling trial.current_events s.event_baseline
    then after_reset trial s
    else s

abbrev pub skipped_result : UpdateTest → TestResult
skipped_result t = record (result_for t.field) { skipped = true; skip_msg = describe t.skip }

abbrev pub trusted : Bool → TestResult → TestResult
trusted reset_failed r =
    if reset_failed && not r.no_op then record r { evidence_untrusted = true } else r

abbrev pub wrapped : (Failure → Failure) → Option Failure → Option Failure
wrapped f none = none
wrapped f (some e) = some (f e)

-- The record of a result that is a no-op.
abbrev pub record_no_op : TestResult → Text → RunState → RunState
record_no_op r snapshot s = record s { snapshot = snapshot; results = s.results ++ r ∷ [] }

-- The record of another result, with the two checks that follow it.
abbrev pub record_checked : Text → TestResult → Text → Checked → ClearChecked → RunState → RunState
record_checked field r snapshot unchanged clears s = record s {
  snapshot = snapshot;
  results =
      s.results
      ++ with_evidence_failure (wrapped Failure.checking_clears clears.failure)
          (with_evidence_failure (wrapped Failure.checking_unchanged unchanged.failure) r)
        ∷ [];
  violated = unchanged.violated;
  violations = s.violations ++ unchanged.found;
  clear_violations = s.clear_violations ++ clears.found;
  consumed = field ∷ s.consumed;
  attempts_since_reset = suc s.attempts_since_reset;
}

abbrev pub record_kept : Setup → UpdateTest → Bool → TestResult → Text → RunState → RunState
record_kept u t true r snapshot s = record_no_op r snapshot s
record_kept u t false r snapshot s =
    record_checked t.field r snapshot
      (check_assert_unchanged u.codec snapshot u.guarded u.baselines s.violated t.field)
      (check_clear_assertions u.codec snapshot u.pending t.field) s

abbrev pub record_result : Setup → UpdateTest → TestResult × Text → RunState → RunState
record_result u t (r, snapshot) s = record_kept u t r.no_op (trusted s.reset_failed r) snapshot s

-- The body of RunTests' loop.
unfoldable pub run_test : Setup → UpdateTest → Trial → RunState → RunState
unfolding present describe maybe_reset run_field_test check_fields check_items
run_test u t trial s =
    if present t.skip
    then record s { results = s.results ++ skipped_result t ∷ [] }
    else let ready = maybe_reset u.ceiling trial s in
      record_result u t (run_field_test u.codec t ready.snapshot trial.attempt) ready

unfoldable pub run_from : Setup → (ℕ → Trial) → ℕ → List UpdateTest → RunState → RunState
unfolding run_test
run_from u trials i [] s = s
run_from u trials i (t ∷ ts) s = run_from u trials (suc i) ts (run_test u t (trials i) s)

unfoldable pub unproven_reason_for_field : Text → List TestResult → UnprovenReason
unproven_reason_for_field field [] = UnprovenReason.lender_no_op
unproven_reason_for_field field (r ∷ rs) =
    if r.field == field
    then (if r.skipped then UnprovenReason.lender_skipped else UnprovenReason.lender_no_op)
    else unproven_reason_for_field field rs

abbrev pub unproven_credit : Text → UnprovenReason → PendingClear → UnprovenClearCredit
unproven_credit field reason item = record {
  representative = item.representative;
  route = item.route;
  trigger_field = field;
  reason = reason;
}

-- The last loop of RunTests, over the pending credits in some order.
unfoldable pub unproven_of : RunState → Pending → List UnprovenClearCredit
unfolding unproven_reason_for_field
unproven_of s [] = []
unproven_of s ((field, items) ∷ rest) =
    if elem field s.consumed
    then unproven_of s rest
    else map (unproven_credit field (unproven_reason_for_field field s.results)) items
      ++ unproven_of s rest

-- The answers before the first test.
pub record Opening : Type 0 where
  pub resolved : Option Failure
  pub initial : Result Failure Value
  pub pre_existing : Result Failure ℕ
  pub pre_reset : Option Failure

abbrev pub is_pre_burst : ℕ → Result Failure ℕ → Bool
is_pre_burst ceiling (ok n) = leb ceiling n
is_pre_burst ceiling (err e) = false

abbrev pub initial_state : ℕ → Opening → Text → RunState
initial_state ceiling o snapshot = record {
  snapshot = snapshot;
  results = [];
  violated = [];
  violations = [];
  clear_violations = [];
  consumed = [];
  attempts_since_reset = 0;
  event_baseline = baseline_after o.pre_existing none;
  reset_failed = is_pre_burst ceiling o.pre_existing && is_failure o.pre_reset;
}

pub record RunOutcome : Type 0 where
  pub results : List TestResult
  pub violations : List UnchangedAssertion
  pub clear_violations : List ClearAssertion
  pub unproven : List UnprovenClearCredit

abbrev pub or_error : {A : Type 0} → Option Failure → Result Failure A → Result Failure A
or_error none r = r
or_error (some e) r = err e

abbrev pub opened_snapshot : Codec → Opening → Result Failure Text
opened_snapshot codec o = elim (then_do o.initial (λ v. snapshot_of codec v)) [
  | err e ↦ err (Failure.initial_snapshot e)
  | ok s ↦ ok s
]

abbrev pub outcome_of : Setup → List UnprovenClearCredit → RunState → RunOutcome
outcome_of u unresolved s = record {
  results = s.results;
  violations = s.violations;
  clear_violations = s.clear_violations;
  unproven = unresolved ++ unproven_of s u.pending;
}

abbrev pub setup_of : Codec → ℕ → List ClearCellReport → Manifest → List (Text × Text) → Setup
setup_of codec configured reports m baselines = record {
  codec = codec;
  ceiling = event_burst_ceiling configured;
  guarded = m.assert_unchanged;
  baselines = baselines;
  pending = (unobserved_clear_credits reports m.tests).pending;
}

-- The run of the tests, once the snapshot and the baselines are read.
abbrev pub run_opened :
    Setup → List UnprovenClearCredit → Manifest → Opening → (ℕ → Trial) → Text → RunOutcome
run_opened u unresolved m o trials snapshot =
    outcome_of u unresolved (run_from u trials 0 m.tests (initial_state u.ceiling o snapshot))

-- RunTests
unfoldable pub run_tests :
    Codec → ℕ → List ClearCellReport → Manifest → Opening → (ℕ → Trial) → Result Failure RunOutcome
unfolding snapshot_of read_assert_unchanged_baselines unobserved_from run_from unproven_of
run_tests codec configured reports m o trials = or_error o.resolved (
    then_do (opened_snapshot codec o) (λ snapshot.
      then_do (read_assert_unchanged_baselines codec snapshot m.assert_unchanged) (λ baselines. ok (
        run_opened (setup_of codec configured reports m baselines)
          (unobserved_clear_credits reports m.tests).unresolved m o trials snapshot))))

-- The line that printResults of main.go prints for a result.
pub data Line : Type 0 where
  skipped_line no_op_line untrusted_line not_evidenced_line error_line passed_line failed_line :
      Line

unfoldable pub line_of : TestResult → Line
line_of r =
    if r.skipped
    then Line.skipped_line
    else if r.no_op
    then Line.no_op_line
    else if r.evidence_untrusted
    then Line.untrusted_line
    else if r.not_evidenced
    then Line.not_evidenced_line
    else if is_failure r.failure
    then Line.error_line
    else if r.passed
    then Line.passed_line
    else Line.failed_line

pub record ResultTally : Type 0 where
  pub passed : ℕ
  pub failed : ℕ
  pub no_op : ℕ
  pub not_evidenced : ℕ
  pub untrusted : ℕ

abbrev pub count_line : Line → ResultTally → ResultTally
count_line Line.skipped_line t = t
count_line Line.no_op_line t = record t { failed = suc t.failed; no_op = suc t.no_op }
count_line Line.untrusted_line t = record t { failed = suc t.failed; untrusted = suc t.untrusted }
count_line Line.not_evidenced_line t = record t {
  failed = suc t.failed;
  not_evidenced = suc t.not_evidenced;
}
count_line Line.error_line t = record t { failed = suc t.failed }
count_line Line.passed_line t = record t { passed = suc t.passed }
count_line Line.failed_line t = record t { failed = suc t.failed }

unfoldable pub print_results_from : ResultTally → List TestResult → ResultTally
unfolding line_of
print_results_from t [] = t
print_results_from t (r ∷ rs) = print_results_from (count_line (line_of r) t) rs

abbrev pub print_results : List TestResult → ResultTally
print_results rs =
    print_results_from
      (record { passed = 0; failed = 0; no_op = 0; not_evidenced = 0; untrusted = 0 }) rs
