-- ===== src/Runner/Run/Outcomes.antt =====
-- The results of a run: one for each test.
use mathlib.Core.Path.{subst}
use crossplane_update_tester.Base.{
  ℕ, suc, Text, Bool, true, false, not, ◌&&◌, ◌||◌, leb, List, [], ◌∷◌, ◌++◌, append_assoc,
  append-nil, Option, none, some, ◌≡◌, refl, sym, ap, ◌∙◌, inl, inr, Bool-cases, Option-cases,
  Result, ok, err, then_do, arith,
}
use crossplane_update_tester.Json.{Codec}
use crossplane_update_tester.Differ.{FieldChange, BadSnapshot, diff_snapshots}
use crossplane_update_tester.Manifest.{UpdateTest, present}
use crossplane_update_tester.Runner.Values.{Failure, read_current_value}
use crossplane_update_tester.Runner.Unchanged.{check_assert_unchanged}
use crossplane_update_tester.Runner.Clears.{check_clear_assertions}
use crossplane_update_tester.Runner.Field.{
  Attempt, Evidence, TestResult, apply_evidence_check, apply_patch_and_reconcile, compared,
  is_no_op, observed_result, poll_field, polled_result, result_for, run_field_test, matches,
  snapshot_of, top_field, with_before, with_snapshot, with_evidence_failure, evidence_outcome,
}
use crossplane_update_tester.Runner.Field.Verdict.{IsEvidenced, IsRead, run_field_test-passed}
use crossplane_update_tester.Runner.Run.{
  RunState, Setup, Trial, run_test, run_from, maybe_reset, record_result, trusted, wrapped,
  skipped_result, is_burst, Line, line_of,
}

-- What no later step of a test changes in its result.
abbrev pub IsResultOf : Text → TestResult → Type 0
IsResultOf field r = (r.field ≡ field) × (r.skipped ≡ false)

with_before-IsResultOf :
    (field : Text) (before : Result Failure Text) (r : TestResult)
    → IsResultOf field r
    → (codec : Codec) → IsResultOf field (with_before codec before r)
with_before-IsResultOf field (ok s) r h codec = h
with_before-IsResultOf field (err e) r h codec = h

apply_evidence_check-IsResultOf :
    (field : Text) (e : Evidence) (r : TestResult)
    → IsResultOf field r
    → IsResultOf field (apply_evidence_check e r)
unfolding apply_evidence_check
apply_evidence_check-IsResultOf field e r h = elim (Option-cases e.failure) [
  | inl n ↦ (ground (arith, n, h.0), ground (arith, n, h.1))
  | inr (x, n) ↦ (ground (arith, n, h.0), ground (arith, n, h.1))
]

compared-IsResultOf :
    (codec : Codec) (field old new : Text) (r : TestResult)
    (d : Result BadSnapshot (List FieldChange))
    → IsResultOf field r
    → IsResultOf field (compared codec old new r d).0
compared-IsResultOf codec field old new r (ok changes) h = h
compared-IsResultOf codec field old new r (err e) h = h

with_snapshot-IsResultOf :
    (codec : Codec) (field path old : Text) (r : TestResult) (s : Result Failure Text)
    → IsResultOf field r
    → IsResultOf field (with_snapshot codec path old r s).0
with_snapshot-IsResultOf codec field path old r (ok new) h =
    compared-IsResultOf codec field old new r (diff_snapshots codec old new (top_field path)) h
with_snapshot-IsResultOf codec field path old r (err e) h = h

pub run_field_test-IsResultOf :
    (codec : Codec) (t : UpdateTest) (snapshot : Text) (a : Attempt)
    → IsResultOf t.field (run_field_test codec t snapshot a).0
unfolding run_field_test
run_field_test-IsResultOf codec t snapshot a =
    let before = then_do a.current (λ o. read_current_value codec o t.field) in
    let start = with_before codec before (result_for t.field) in
    let begun : IsResultOf t.field start =
      with_before-IsResultOf t.field before (result_for t.field) (refl, refl) codec in
    elim (Bool-cases (is_no_op codec t before)) [
      | inl y ↦ rw (run_field_test, y) begun
      | inr n ↦ elim (Option-cases (apply_patch_and_reconcile codec t a)) [
        | inr (x, y) ↦ rw (run_field_test, n, y) begun
        | inl m ↦
            rw (run_field_test, n, m)
              (with_snapshot-IsResultOf codec t.field t.field snapshot
                (observed_result codec t a start) (then_do a.after (λ o. snapshot_of codec o))
                (apply_evidence_check-IsResultOf t.field
                  (evidence_outcome a.events_before a.counts a.last_count)
                  (polled_result codec t (poll_field codec t a.reads a.last_read) start) begun))
      ]
    ]

pub with_evidence_failure-IsResultOf :
    (field : Text) (e : Option Failure) (r : TestResult)
    → IsResultOf field r
    → IsResultOf field (with_evidence_failure e r)
with_evidence_failure-IsResultOf field none r h = h
with_evidence_failure-IsResultOf field (some e) r h = h

pub trusted-IsResultOf :
    (field : Text) (b : Bool) (r : TestResult) → IsResultOf field r → IsResultOf field (trusted b r)
trusted-IsResultOf field b r h = elim (Bool-cases (b && not r.no_op)) [
  | inl t ↦ rw t h
  | inr n ↦ rw n h
]

pub maybe_reset-results :
    (ceiling : ℕ) (trial : Trial) (s : RunState) → (maybe_reset ceiling trial s).results ≡ s.results
unfolding maybe_reset
maybe_reset-results ceiling trial s =
    elim (Bool-cases (
      leb ceiling s.attempts_since_reset
      || is_burst ceiling trial.current_events s.event_baseline)) [
        | inl t ↦ rw t refl
        | inr n ↦ rw n refl
      ]

-- A later result of a test passes only if the field test did, and reports the same value.
abbrev pub Passes : TestResult → Type 0
Passes r = (r.passed ≡ true) × (r.failure ≡ none)

abbrev Follows : TestResult → TestResult → Type 0
Follows r q = (Passes q → Passes r) × (q.actual ≡ r.actual)

with_evidence_failure-Follows :
    (e : Option Failure) (r q : TestResult) → Follows r q → Follows r (with_evidence_failure e q)
with_evidence_failure-Follows none r q h = h
with_evidence_failure-Follows (some e) r q h = elim (Option-cases q.failure) [
  | inl n ↦ (λ k. cc (n, k.1), h.1)
  | inr (x, n) ↦ (λ k. cc (n, k.1), h.1)
]

trusted-Follows : (b : Bool) (r : TestResult) → Follows r (trusted b r)
trusted-Follows b r = elim (Bool-cases (b && not r.no_op)) [
  | inl t ↦ rw t (λ h. h, refl)
  | inr n ↦ rw n (λ h. h, refl)
]

record_result_adds :
    (u : Setup) (t : UpdateTest) (r : TestResult) (snapshot : Text) (s : RunState)
    → IsResultOf t.field r
    → (q : TestResult) × ((record_result u t (r, snapshot) s).results ≡ s.results ++ q ∷ [])
      × IsResultOf t.field q
      × Follows r q
record_result_adds u t r snapshot s h =
    let ready = trusted s.reset_failed r in
    let is_ready = trusted-IsResultOf t.field s.reset_failed r h in
    elim (Bool-cases r.no_op) [
      | inl y ↦ (ready, (rw y refl), is_ready, trusted-Follows s.reset_failed r)
      | inr n ↦
          let unchanged =
            wrapped Failure.checking_unchanged
              (check_assert_unchanged u.codec snapshot u.guarded u.baselines s.violated
                t.field).failure in
          let clears =
            wrapped Failure.checking_clears
              (check_clear_assertions u.codec snapshot u.pending t.field).failure in
          let noted = with_evidence_failure unchanged ready in
          (
            with_evidence_failure clears noted,
            (rw n refl),
            with_evidence_failure-IsResultOf t.field clears noted
                (with_evidence_failure-IsResultOf t.field unchanged ready is_ready),
            with_evidence_failure-Follows clears r noted (
                with_evidence_failure-Follows unchanged r ready (trusted-Follows s.reset_failed r)),
          )
    ]

line_of-Passes : (r : TestResult) → line_of r ≡ Line.passed_line → Passes r × (r.skipped ≡ false)
unfolding line_of
line_of-Passes r h = elim (Option-cases r.failure) [
  | inl n ↦ ((ground (arith, n, h), n), ground (arith, n, h))
  | inr (x, n) ↦ absurd (ground (arith, n, h))
]

-- What a passed test proves: its patch was accepted and reconciled, the value that is reported was
-- read from the resource and matches the expected value, and an update event was recorded.
abbrev pub IsProven : Codec → UpdateTest → Attempt → Text → Type 0
IsProven codec t a actual =
    (apply_patch_and_reconcile codec t a ≡ none)
    × IsRead codec t a actual
    × (matches codec t actual ≡ true)
    × IsEvidenced a

-- Each result beside its test and the answers to it.
abbrev pub IsAnswered : Codec → (ℕ → Trial) → ℕ → List UpdateTest → List TestResult → Type 0
IsAnswered codec trials i [] [] = Unit
IsAnswered codec trials i [] (r ∷ rs) = ⊥
IsAnswered codec trials i (t ∷ ts) [] = ⊥
IsAnswered codec trials i (t ∷ ts) (r ∷ rs) =
    ((r.field ≡ t.field)
      × (r.skipped ≡ present t.skip)
      × (line_of r ≡ Line.passed_line → IsProven codec t (trials i).attempt r.actual))
    × IsAnswered codec trials (suc i) ts rs

IsProven-of_passed :
    (codec : Codec) (t : UpdateTest) (snapshot : Text) (a : Attempt) (q : TestResult)
    → Follows (run_field_test codec t snapshot a).0 q
    → line_of q ≡ Line.passed_line
    → IsProven codec t a q.actual
IsProven-of_passed codec t snapshot a q f h =
    let (p, e) = f.0 (line_of-Passes q h).0 in
    let (n, m, read, match, evidenced) = run_field_test-passed codec t snapshot a p e in
    (m, subst (IsRead codec t a) (sym f.1) read, ap (matches codec t) f.1 ∙ match, evidenced)

-- A step of the run adds one result, that of its test.
pub run_test_adds :
    (u : Setup) (t : UpdateTest) (trial : Trial) (s : RunState)
    → (r : TestResult) × ((run_test u t trial s).results ≡ s.results ++ r ∷ [])
      × (r.field ≡ t.field)
      × (r.skipped ≡ present t.skip)
      × (line_of r ≡ Line.passed_line → IsProven u.codec t trial.attempt r.actual)
unfolding run_test
run_test_adds u t trial s = elim (Bool-cases (present t.skip)) [
  | inl y ↦ (
    skipped_result t,
    (rw (run_test, y) refl),
    refl,
    sym y,
    λ h. cc ((line_of-Passes (skipped_result t) h).1),
  )
  | inr n ↦
      let ready = maybe_reset u.ceiling trial s in
      let run = run_field_test u.codec t ready.snapshot trial.attempt in
      let (q, e, (f, g), follows) =
        record_result_adds u t run.0 run.1 ready
          (run_field_test-IsResultOf u.codec t ready.snapshot trial.attempt) in
      (
        q,
        rw (run_test, n) (e ∙ ap (λ rs. rs ++ q ∷ []) (maybe_reset-results u.ceiling trial s)),
        f,
        g ∙ sym n,
        IsProven-of_passed u.codec t ready.snapshot trial.attempt q follows,
      )
]

pub run_from-IsAnswered :
    (u : Setup) (trials : ℕ → Trial) (i : ℕ) (ts : List UpdateTest) (s : RunState)
    → (rs : List TestResult) × ((run_from u trials i ts s).results ≡ s.results ++ rs)
      × IsAnswered u.codec trials i ts rs
unfolding run_from
run_from-IsAnswered u trials i [] s = ([], sym (append-nil s.results), tt)
run_from-IsAnswered u trials i (t ∷ ts) s =
    let (r, e, f, g, p) = run_test_adds u t (trials i) s in
    let (rs, h, k) = run_from-IsAnswered u trials (suc i) ts (run_test u t (trials i) s) in
    (r ∷ rs, h ∙ ap (λ xs. xs ++ rs) e ∙ append_assoc s.results (r ∷ []) rs, ((f, g, p), k))
