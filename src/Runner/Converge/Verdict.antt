-- ===== src/Runner/Converge/Verdict.antt =====
-- When a convergence check passes, and what a failed one says.
use crossplane_update_tester.Base.{
  ℕ, ◌≤◌, ◌<◌, Text, Bool, true, false, List, [], map, none, ltb, is_empty, is_empty_iff, nat_beq,
  nat_beq_iff, ◌≡◌, ◌≢◌, ◌↔◌, ◌⊎◌, inl, inr, refl, Option-cases, arith,
}
use crossplane_update_tester.Differ.{FieldChange}
use crossplane_update_tester.Runner.Converge.{
  LogObservation, LogVerdict, Message, Diagnostic, build_converge_result, log_verdict, judge_diff,
  judge_events, judge_log, judge_generation, judge_ready, Judging, result_of, ConvergeResult,
}

-- The log was read, it is not a window without a line, and it has Update() calls.
abbrev pub IsLooping : LogObservation → Type 0
IsLooping o = (o.failure ≡ none) × (1 ≤ o.calls) × ((1 ≤ o.window) → 1 ≤ o.lines)

abbrev is_looping : LogVerdict → Bool
is_looping (LogVerdict.looping calls) = true
is_looping _ = false

log_verdict-IsLooping : (o : LogObservation) → (is_looping (log_verdict o) ≡ true) ↔ IsLooping o
unfolding log_verdict
log_verdict-IsLooping o = elim (Option-cases o.failure) [
  | inr (e, p) ↦ rw (log_verdict, p) (λ h. cc, λ (h, _, _). cc)
  | inl n ↦ rw (log_verdict, n) (ground arith)
]

abbrev judged : List FieldChange → ℕ → ℕ → ℕ → ℕ → Bool → ℕ → LogVerdict → Judging → ConvergeResult
judged diff gen after_gen before after ready window v opened = result_of before after (
    judge_ready ready (
      judge_generation gen after_gen
        (judge_log window v (judge_events before after (judge_diff diff opened)))))

-- The verdict and the headline, from the tests of the five conditions.
abbrev IsJudged : ConvergeResult → Bool → Bool → Bool → Bool → Bool → Type 0
IsJudged r same more loops settled ready =
    ((r.passed ≡ true)
      ↔ ((same ≡ true) × (more ≡ false) × (loops ≡ false) × (settled ≡ true) × (ready ≡ true)))
    × ((r.message ≡ Message.reconciliation_loop)
        ↔ ((same ≡ false) ⊎ (more ≡ true) ⊎ (loops ≡ true)))

judged-IsJudged :
    (diff : List FieldChange) (gen after_gen before after : ℕ) (ready : Bool) (window : ℕ)
    (v : LogVerdict) (opened : Judging)
    → opened.passed ≡ true
    → opened.loop_signal ≡ false
    → IsJudged
        (judged diff gen after_gen before after ready window v opened)
        (is_empty diff)
        (ltb before after)
        (is_looping v)
        (nat_beq after_gen gen)
        ready
judged-IsJudged diff gen after_gen before after ready window (LogVerdict.looping n) opened p q =
    ground arith
judged-IsJudged diff gen after_gen before after ready window LogVerdict.silent opened p q =
    ground arith
judged-IsJudged diff gen after_gen before after ready window LogVerdict.quiet opened p q =
    ground arith
judged-IsJudged diff gen after_gen before after ready window (LogVerdict.unavailable e) opened p q =
    ground arith

-- A convergence check passes exactly when no field changed, no new update event was recorded, the log
-- shows no Update() call, the generation is the same and the resource is ready; and it reports a
-- reconciliation loop exactly when one of the first three fails. The log shows a call when it could be
-- read, counts one and, over a window that is not empty, has a line at all.
pub build_converge_result_iff :
    (diff : List FieldChange) (gen after_gen before_events after_events : ℕ) (ready : Bool)
    (log : LogObservation) (notes : List Text)
    → ((build_converge_result diff gen after_gen before_events after_events ready log notes).passed
          ≡ true
        ↔ ((diff ≡ [])
            × (after_events ≤ before_events)
            × (¬ IsLooping log)
            × (after_gen ≡ gen)
            × (ready ≡ true)))
      × ((build_converge_result diff gen after_gen before_events after_events ready log
              notes).message
            ≡ Message.reconciliation_loop
          ↔ ((diff ≢ []) ⊎ (before_events < after_events) ⊎ IsLooping log))
unfolding build_converge_result
build_converge_result_iff diff gen after_gen before_events after_events ready log notes =
    let h =
      judged-IsJudged diff gen after_gen before_events after_events ready log.window
        (log_verdict log)
        (record {
          passed = true;
          loop_signal = false;
          problems = [];
          notes = map Diagnostic.note notes;
        })
        refl refl in
    ground (arith, h, is_empty_iff diff, nat_beq_iff after_gen gen, log_verdict-IsLooping log)
