-- ===== src/Runner/Run/Exercises.antt =====
-- The credits that wait for the field of a test, while the tests are run.
use mathlib.Core.Path.{subst}
use crossplane_update_tester.Base.{
  ℕ, suc, ◌+◌, get_elem?, append-nil, arith, Text, Bool, true, false, ◌||◌, List, [], ◌∷◌, ◌++◌,
  Option, none, some, leb, lookup, list_eq, nat_eq, In, In-append_left, In-append_right, ◌≡◌, inl,
  inr, refl, sym, Bool-cases,
}
use crossplane_update_tester.Json.{Codec}
use crossplane_update_tester.Manifest.{UpdateTest, present}
use crossplane_update_tester.Runner.Values.{Failure}
use crossplane_update_tester.Runner.Unchanged.{check_assert_unchanged, read_snapshot_field}
use crossplane_update_tester.Runner.Clears.{
  ClearAssertion, pending_of, PendingClear, check_clear_assertions,
}
use crossplane_update_tester.Runner.Clears.Accounting.{Waits}
use crossplane_update_tester.Runner.Field.{
  TestResult, or_then, run_field_test, with_evidence_failure,
}
use crossplane_update_tester.Runner.Clears.Checking.{
  HasFailure, IsAccounted, IsAccounted-map, check_items-IsAccounted,
}
use crossplane_update_tester.Runner.Run.{
  RunState, Setup, Trial, is_burst, maybe_reset, record_kept, record_result, run_from, run_test,
  trusted, wrapped,
}
use crossplane_update_tester.Runner.Run.Outcomes.{
  IsResultOf, run_field_test-IsResultOf, trusted-IsResultOf, with_evidence_failure-IsResultOf,
}

-- A result of a test of the field has a failure.
abbrev pub HasFailed : List TestResult → Text → Type 0
HasFailed rs f = (q : TestResult) × In q rs × (q.field ≡ f) × HasFailure q.failure

-- The i-th test is of the field, was run from some snapshot, and was no no-op; and the credit is
-- accounted for by what the snapshot that the test left holds.
abbrev pub IsExercised :
    Codec
    → (ℕ → Trial)
    → List UpdateTest
    → List TestResult
    → List ClearAssertion
    → Text
    → PendingClear
    → Type 0
IsExercised codec trials tests results violations f item =
    (i : ℕ) × (t : UpdateTest) × (old : Text) × (get_elem? tests i ≡ some t)
    × (t.field ≡ f)
    × (present t.skip ≡ false)
    × ((run_field_test codec t old (trials i).attempt).0.no_op ≡ false)
    × IsAccounted (HasFailed results f) violations f item (
        read_snapshot_field codec (run_field_test codec t old (trials i).attempt).1
          item.representative)

with_evidence_failure-HasFailure :
    (e : Option Failure) (r : TestResult)
    → HasFailure e
    → HasFailure (with_evidence_failure e r).failure
with_evidence_failure-HasFailure none r h = absurd (let q : none ≡ some h.0 = h.1 in cc)
with_evidence_failure-HasFailure (some e) r h = or_then_fails r.failure
  where
    or_then_fails : (o : Option Failure) → HasFailure (or_then o (some e))
    or_then_fails none = (e, refl)
    or_then_fails (some d) = (d, refl)

HasFailure-wrapped :
    (f : Failure → Failure) (o : Option Failure) → HasFailure o → HasFailure (wrapped f o)
HasFailure-wrapped f none h = absurd (let q : none ≡ some h.0 = h.1 in cc)
HasFailure-wrapped f (some e) h = (f e, refl)

module _ (u : Setup) (trials : ℕ → Trial) (tests : List UpdateTest) where
  -- The credits that wait for a field which the run has been through are exercised.
  abbrev pub AreExercised : RunState → Type 0
  AreExercised s =
      (f : Text)
      → In f s.consumed
      → (item : PendingClear) → Waits f item u.pending
      → IsExercised u.codec trials tests s.results s.clear_violations f item

  more_results :
      (s : RunState) (r : TestResult) (vs : List ClearAssertion) (f : Text) (item : PendingClear)
      → IsExercised u.codec trials tests s.results s.clear_violations f item
      → IsExercised u.codec trials tests (s.results ++ r ∷ []) (s.clear_violations ++ vs) f item
  more_results s r vs f item (i, t, old, at, e, k, n, a) = (
    i,
    t,
    old,
    at,
    e,
    k,
    n,
    IsAccounted-map {F = HasFailed s.results f} {G = HasFailed (s.results ++ r ∷ []) f}
        s.clear_violations (s.clear_violations ++ vs) f item _
        (λ (q, j, x, y). (q, In-append_left q s.results (r ∷ []) j, x, y))
        (λ x j. In-append_left x s.clear_violations vs j) a,
  )

  more_skipped :
      (s : RunState) (r : TestResult) (f : Text) (item : PendingClear)
      → IsExercised u.codec trials tests s.results s.clear_violations f item
      → IsExercised u.codec trials tests (s.results ++ r ∷ []) s.clear_violations f item
  more_skipped s r f item h =
      subst (λ vs. IsExercised u.codec trials tests (s.results ++ r ∷ []) vs f item)
        (append-nil s.clear_violations) (more_results s r [] f item h)

  record_checked-AreExercised :
      (i : ℕ) (t : UpdateTest) (old : Text) (r : TestResult) (s : RunState)
      → get_elem? tests i ≡ some t
      → present t.skip ≡ false
      → (run_field_test u.codec t old (trials i).attempt).0.no_op ≡ false
      → IsResultOf t.field r
      → AreExercised s
      → AreExercised (record_kept u t false r (run_field_test u.codec t old (trials i).attempt).1 s)
  record_checked-AreExercised i t old r s at k n is h =
      let snapshot = (run_field_test u.codec t old (trials i).attempt).1 in
      let unchanged =
        wrapped Failure.checking_unchanged
          (check_assert_unchanged u.codec snapshot u.guarded u.baselines s.violated
            t.field).failure in
      let checked = check_clear_assertions u.codec snapshot u.pending t.field in
      let clears = wrapped Failure.checking_clears checked.failure in
      let noted = with_evidence_failure unchanged r in
      let last = with_evidence_failure clears noted in
      let (field_of, _) =
        with_evidence_failure-IsResultOf t.field clears noted
          (with_evidence_failure-IsResultOf t.field unchanged r is) in
      λ f j item w. elim j [
        | inr m ↦ more_results s last checked.found f item (h f m item w)
        | inl e ↦
            let here =
              check_items-IsAccounted u.codec t.field snapshot
                (pending_of (lookup t.field u.pending)) (record { found = []; failure = none }) item
                (subst (λ x. Waits x item u.pending) e w) in
            let kept =
              IsAccounted-map {F = HasFailure checked.failure}
                {G = HasFailed (s.results ++ last ∷ []) t.field} checked.found
                (s.clear_violations ++ checked.found) t.field item
                (read_snapshot_field u.codec snapshot item.representative)
                (λ (x : HasFailure checked.failure). (
                  last,
                  In-append_right last s.results (last ∷ []) (inl refl),
                  field_of,
                  with_evidence_failure-HasFailure clears noted
                      (HasFailure-wrapped Failure.checking_clears checked.failure x),
                ))
                (λ x m. In-append_right x s.clear_violations checked.found m) here in
            subst
              (λ x.
                IsExercised u.codec trials tests (s.results ++ last ∷ [])
                  (s.clear_violations ++ checked.found) x item)
              (sym e) (i, t, old, at, refl, k, n, kept)
      ]

  record_kept-AreExercised :
      (i : ℕ) (t : UpdateTest) (old : Text) (b : Bool) (r : TestResult) (s : RunState)
      → get_elem? tests i ≡ some t
      → present t.skip ≡ false
      → (run_field_test u.codec t old (trials i).attempt).0.no_op ≡ b
      → IsResultOf t.field r
      → AreExercised s
      → AreExercised (record_kept u t b r (run_field_test u.codec t old (trials i).attempt).1 s)
  record_kept-AreExercised i t old true r s at k n is h =
      λ f j item w. more_skipped s r f item (h f j item w)
  record_kept-AreExercised i t old false r s at k n is h =
      record_checked-AreExercised i t old r s at k n is h

  record_result-AreExercised :
      (i : ℕ) (t : UpdateTest) (old : Text) (s : RunState)
      → get_elem? tests i ≡ some t
      → present t.skip ≡ false
      → AreExercised s
      → AreExercised (record_result u t (run_field_test u.codec t old (trials i).attempt) s)
  record_result-AreExercised i t old s at k h =
      let r = (run_field_test u.codec t old (trials i).attempt).0 in
      record_kept-AreExercised i t old r.no_op (trusted s.reset_failed r) s at k refl
        (trusted-IsResultOf t.field s.reset_failed r
          (run_field_test-IsResultOf u.codec t old (trials i).attempt))
        h

  maybe_reset-AreExercised :
      (ceiling : ℕ) (trial : Trial) (s : RunState)
      → AreExercised s
      → AreExercised (maybe_reset ceiling trial s)
  unfolding maybe_reset
  maybe_reset-AreExercised ceiling trial s h =
      let burst = is_burst ceiling trial.current_events s.event_baseline in
      elim (Bool-cases (leb ceiling s.attempts_since_reset || burst)) [
        | inl t ↦ rw t h
        | inr n ↦ rw n h
      ]

  run_test-AreExercised :
      (i : ℕ) (t : UpdateTest) (s : RunState)
      → get_elem? tests i ≡ some t
      → AreExercised s
      → AreExercised (run_test u t (trials i) s)
  unfolding run_test
  run_test-AreExercised i t s at h = elim (Bool-cases (present t.skip)) [
    | inl y ↦ rw (run_test, y) (λ f j item w. more_skipped s _ f item (h f j item w))
    | inr n ↦
        let ready = maybe_reset u.ceiling (trials i) s in
        rw (run_test, n)
          (record_result-AreExercised i t ready.snapshot ready at n
            (maybe_reset-AreExercised u.ceiling (trials i) s h))
  ]

  pub run_from-AreExercised :
      (i : ℕ) (ts : List UpdateTest) (s : RunState)
      → ((k : ℕ) → get_elem? tests (i + k) ≡ get_elem? ts k)
      → AreExercised s
      → AreExercised (run_from u trials i ts s)
  unfolding run_from
  run_from-AreExercised i [] s at h = h
  run_from-AreExercised i (t ∷ ts) s at h =
      run_from-AreExercised (suc i) ts (run_test u t (trials i) s)
        (λ k. subst (λ n. get_elem? tests n ≡ get_elem? ts k) (shift i k) (at (suc k)))
        (run_test-AreExercised i t s (subst (λ n. get_elem? tests n ≡ some t) (unshift i) (at 0)) h)
    where
      shift : (i k : ℕ) → i + suc k ≡ suc i + k
      shift i k = omega arith

      unshift : (i : ℕ) → i + 0 ≡ i
      unshift i = omega arith
