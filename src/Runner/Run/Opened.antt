-- ===== src/Runner/Run/Opened.antt =====
-- The run behind an outcome that RunTests returns.
use crossplane_update_tester.Base.{
  ℕ, Text, List, Option, none, some, ◌≡◌, Result, ok, then_do-ok, ok_eq,
}
use crossplane_update_tester.Json.{Codec}
use crossplane_update_tester.Manifest.{Manifest}
use crossplane_update_tester.Roundtrip.Clearing.Cells.{ClearCellReport}
use crossplane_update_tester.Runner.Values.{Failure}
use crossplane_update_tester.Runner.Unchanged.{read_assert_unchanged_baselines}
use crossplane_update_tester.Runner.Clears.{unobserved_clear_credits}
use crossplane_update_tester.Runner.Run.{
  Opening, RunOutcome, Trial, opened_snapshot, or_error, run_opened, run_tests, setup_of,
}

or_error-ok :
    {A : Type 0} (e : Option Failure) (r : Result Failure A) {a : A}
    → or_error e r ≡ ok a
    → r ≡ ok a
or_error-ok none r h = h
or_error-ok (some e) r h = cc

pub run_tests-run_opened :
    (codec : Codec) (configured : ℕ) (reports : List ClearCellReport) (m : Manifest) (o : Opening)
    (trials : ℕ → Trial) {out : RunOutcome}
    → run_tests codec configured reports m o trials ≡ ok out
    → (snapshot : Text) × (baselines : List (Text × Text)) × (opened_snapshot codec o ≡ ok snapshot)
      × (read_assert_unchanged_baselines codec snapshot m.assert_unchanged ≡ ok baselines)
      × (run_opened
            (setup_of codec configured reports m baselines)
            (unobserved_clear_credits reports m.tests).unresolved
            m
            o
            trials
            snapshot
          ≡ out)
unfolding run_tests
run_tests-run_opened codec configured reports m o trials h =
    let (snapshot, e, f) = then_do-ok (opened_snapshot codec o) _ (or_error-ok o.resolved _ h) in
    let (baselines, g, k) =
      then_do-ok (read_assert_unchanged_baselines codec snapshot m.assert_unchanged) _ f in
    (snapshot, baselines, e, g, ok_eq k)
