-- ===== src/Runner/Run/Invariants.antt =====
-- What holds after each step of a run.
use mathlib.Core.Path.{subst}
use crossplane_update_tester.Base.{
  ℕ, suc, ◌≤◌, ◌<◌, Text, ◌||◌, List, [], ◌∷◌, leb, ltb, ◌≡◌, inl, inr, Bool-cases, ok, arith,
}
use crossplane_update_tester.Json.{Codec}
use crossplane_update_tester.Manifest.{UpdateTest, Manifest, present}
use crossplane_update_tester.Roundtrip.Clearing.Cells.{ClearCellReport}
use crossplane_update_tester.Runner.Unchanged.{read_assert_unchanged_baselines}
use crossplane_update_tester.Runner.Unchanged.Once.{
  AreViolations, check_assert_unchanged-AreViolations,
}
use crossplane_update_tester.Runner.Field.{TestResult, run_field_test}
use crossplane_update_tester.Runner.Run.{
  Opening, RunOutcome, RunState, Setup, Trial, event_burst_ceiling, initial_state, is_burst,
  maybe_reset, opened_snapshot, record_result, run_from, run_test, run_tests, setup_of,
}
use crossplane_update_tester.Runner.Run.Opened.{run_tests-run_opened}

-- The state of a run after some of its tests.
pub record IsSound (u : Setup) (s : RunState) : Type 0 where
  pub violations_lem : AreViolations u.guarded u.baselines s.violations s.violated
  pub attempts_lem : s.attempts_since_reset ≤ u.ceiling

-- After the reset there is room for one more attempt.
maybe_reset-room :
    (ceiling : ℕ) (trial : Trial) (s : RunState)
    → 0 < ceiling
    → (maybe_reset ceiling trial s).attempts_since_reset < ceiling
unfolding maybe_reset
maybe_reset-room ceiling trial s h =
    let burst = is_burst ceiling trial.current_events s.event_baseline in
    elim (Bool-cases (leb ceiling s.attempts_since_reset || burst)) [
      | inl t ↦ rw t h
      | inr n ↦ rw n (ground (arith, n))
    ]

maybe_reset-violations :
    (u : Setup) (trial : Trial) (s : RunState)
    → AreViolations u.guarded u.baselines s.violations s.violated
    → AreViolations u.guarded u.baselines
        (maybe_reset u.ceiling trial s).violations
        (maybe_reset u.ceiling trial s).violated
unfolding maybe_reset
maybe_reset-violations u trial s h =
    let burst = is_burst u.ceiling trial.current_events s.event_baseline in
    elim (Bool-cases (leb u.ceiling s.attempts_since_reset || burst)) [
      | inl t ↦ rw t h
      | inr n ↦ rw n h
    ]

record_result-IsSound :
    (u : Setup) (t : UpdateTest) (r : TestResult) (snapshot : Text) (s : RunState)
    → s.attempts_since_reset < u.ceiling
    → AreViolations u.guarded u.baselines s.violations s.violated
    → IsSound u (record_result u t (r, snapshot) s)
record_result-IsSound u t r snapshot s room h = elim (Bool-cases r.no_op) [
  | inl y ↦ rw y (record { violations_lem = h; attempts_lem = omega arith })
  | inr n ↦ rw n (record {
    violations_lem =
        check_assert_unchanged-AreViolations u.guarded u.baselines s.violations u.codec snapshot
          s.violated t.field h;
    attempts_lem = omega arith;
  })
]

run_test-IsSound :
    (u : Setup) (t : UpdateTest) (trial : Trial) (s : RunState)
    → 0 < u.ceiling
    → IsSound u s
    → IsSound u (run_test u t trial s)
unfolding run_test
run_test-IsSound u t trial s c h = elim (Bool-cases (present t.skip)) [
  | inl y ↦
      rw (run_test, y) (record { violations_lem = h.violations_lem; attempts_lem = h.attempts_lem })
  | inr n ↦
      let ready = maybe_reset u.ceiling trial s in
      let run = run_field_test u.codec t ready.snapshot trial.attempt in
      rw (run_test, n)
        (record_result-IsSound u t run.0 run.1 ready (maybe_reset-room u.ceiling trial s c)
          (maybe_reset-violations u trial s h.violations_lem))
]

pub run_from-IsSound :
    (u : Setup) (trials : ℕ → Trial) (i : ℕ) (ts : List UpdateTest) (s : RunState)
    → 0 < u.ceiling
    → IsSound u s
    → IsSound u (run_from u trials i ts s)
unfolding run_from
run_from-IsSound u trials i [] s c h = h
run_from-IsSound u trials i (t ∷ ts) s c h =
    run_from-IsSound u trials (suc i) ts (run_test u t (trials i) s) c
      (run_test-IsSound u t (trials i) s c h)

pub event_burst_ceiling-positive : (configured : ℕ) → 0 < event_burst_ceiling configured
event_burst_ceiling-positive configured = elim (Bool-cases (ltb 0 configured)) [
  | inl t ↦ rw t (ground (arith, t))
  | inr n ↦ rw n (omega arith)
]

-- When RunTests returns, its violations are of distinct fields; each is of a field that the manifest
-- guards, with the baseline that the run read for it before the first test, and an observed value that
-- differs from it.
pub run_tests-AreViolations :
    (codec : Codec) (configured : ℕ) (reports : List ClearCellReport) (m : Manifest) (o : Opening)
    (trials : ℕ → Trial) (out : RunOutcome)
    → run_tests codec configured reports m o trials ≡ ok out
    → (snapshot : Text) × (baselines : List (Text × Text)) × (violated : List Text)
      × (opened_snapshot codec o ≡ ok snapshot)
      × (read_assert_unchanged_baselines codec snapshot m.assert_unchanged ≡ ok baselines)
      × AreViolations m.assert_unchanged baselines out.violations violated
run_tests-AreViolations codec configured reports m o trials out h =
    let (snapshot, baselines, p, q, e) =
      run_tests-run_opened codec configured reports m o trials h in
    let u = setup_of codec configured reports m baselines in
    let start = initial_state u.ceiling o snapshot in
    let sound =
      run_from-IsSound u trials 0 m.tests start (event_burst_ceiling-positive configured) (record {
        violations_lem = record { distinct = tt; marked = λ f i. i; all = tt };
        attempts_lem = omega arith;
      }) in
    (
      snapshot,
      baselines,
      (run_from u trials 0 m.tests start).violated,
      p,
      q,
      subst
          (λ (r : RunOutcome).
            AreViolations m.assert_unchanged baselines r.violations
              (run_from u trials 0 m.tests start).violated)
          e sound.violations_lem,
    )
