-- ===== src/Runner/Run/Reports.antt =====
-- What a run reports of its tests.
use mathlib.Core.Path.{subst}
use crossplane_update_tester.Base.{ℕ, List, ◌≡◌, sym, ap, ◌∙◌, ok}
use crossplane_update_tester.Json.{Codec}
use crossplane_update_tester.Manifest.{Manifest}
use crossplane_update_tester.Roundtrip.Clearing.Cells.{ClearCellReport}
use crossplane_update_tester.Runner.Run.{
  Opening, RunOutcome, Trial, initial_state, run_tests, setup_of,
}
use crossplane_update_tester.Runner.Run.Opened.{run_tests-run_opened}
use crossplane_update_tester.Runner.Run.Outcomes.{IsAnswered, run_from-IsAnswered}

-- When RunTests returns, its results are one for each test of the manifest, in their order and with
-- their fields; a result is a skipped one exactly when its test is skipped; and a result that is
-- printed as passed has a patch that was built, accepted and reconciled, a value that was read from
-- the resource and matches the expected one, and an update event beyond those before the patch.
pub run_tests-IsAnswered :
    (codec : Codec) (configured : ℕ) (reports : List ClearCellReport) (m : Manifest) (o : Opening)
    (trials : ℕ → Trial) (out : RunOutcome)
    → run_tests codec configured reports m o trials ≡ ok out
    → IsAnswered codec trials 0 m.tests out.results
run_tests-IsAnswered codec configured reports m o trials out h =
    let (snapshot, baselines, p, q, e) =
      run_tests-run_opened codec configured reports m o trials h in
    let u = setup_of codec configured reports m baselines in
    let (rs, f, k) = run_from-IsAnswered u trials 0 m.tests (initial_state u.ceiling o snapshot) in
    subst (IsAnswered codec trials 0 m.tests) (sym f ∙ ap (λ (r : RunOutcome). r.results) e) k
