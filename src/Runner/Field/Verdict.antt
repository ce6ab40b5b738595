-- ===== src/Runner/Field/Verdict.antt =====
-- What stands behind the result of one field test.
use mathlib.Core.Path.{subst}
use crossplane_update_tester.Base.{
  ℕ, ◌<◌, Text, true, false, List, [], ◌∷◌, ◌++◌, Option, none, some, ltb, In, ◌≡◌, inl, inr, refl,
  sym, ap, ◌∙◌, Bool-cases, Option-cases, Result, ok, err, then_do, arith,
}
use crossplane_update_tester.Value.{Value}
use crossplane_update_tester.Json.{Codec}
use crossplane_update_tester.Differ.{FieldChange, BadSnapshot, diff_snapshots}
use crossplane_update_tester.Manifest.{UpdateTest}
use crossplane_update_tester.Runner.Values.{Failure, read_current_value, read_field}
use crossplane_update_tester.Runner.Field.{
  Attempt, TestResult, Evidence, apply_evidence_check, evidence_outcome, poll_evidence, poll_field,
  poll_round, polled, polled_result, run_field_test, apply_patch_and_reconcile, is_no_op, matches,
  with_before, result_for, observed_result, with_snapshot, snapshot_of, top_field, compared,
}

-- The provider recorded more update events after the patch than before it.
abbrev pub IsEvidenced : Attempt → Type 0
IsEvidenced a =
    (n : ℕ) × (c : ℕ) × (a.events_before ≡ ok n)
    × In (ok c) (a.counts ++ a.last_count ∷ [])
    × (n < c)

poll_evidence-evidenced :
    (n : ℕ) (counts : List (Result Failure ℕ)) (last : Result Failure ℕ)
    → (poll_evidence n counts last).evidenced ≡ true
    → (c : ℕ) × In (ok c) (counts ++ last ∷ []) × (n < c)
unfolding poll_evidence
poll_evidence-evidenced n [] (err e) h = cc
poll_evidence-evidenced n [] (ok c) h = (c, inl refl, ground (arith, h))
poll_evidence-evidenced n (err e ∷ counts) last h = cc
poll_evidence-evidenced n (ok c ∷ counts) last h = elim (Bool-cases (ltb n c)) [
  | inl t ↦ (c, inl refl, ground (arith, t))
  | inr f ↦ let (d, i, l) = poll_evidence-evidenced n counts last (rw f at h) in (d, inr i, l)
]

-- An unchecked outcome comes with an error.
poll_evidence-checked :
    (n : ℕ) (counts : List (Result Failure ℕ)) (last : Result Failure ℕ)
    → (poll_evidence n counts last).failure ≡ none
    → (poll_evidence n counts last).checked ≡ true
unfolding poll_evidence
poll_evidence-checked n [] (err e) h = cc
poll_evidence-checked n [] (ok c) h = refl
poll_evidence-checked n (err e ∷ counts) last h = cc
poll_evidence-checked n (ok c ∷ counts) last h = elim (Bool-cases (ltb n c)) [
  | inl t ↦ rw t refl
  | inr f ↦ rw f (poll_evidence-checked n counts last (rw f at h))
]

evidence_outcome-checked :
    (before : Result Failure ℕ) (counts : List (Result Failure ℕ)) (last : Result Failure ℕ)
    → (evidence_outcome before counts last).failure ≡ none
    → (evidence_outcome before counts last).checked ≡ true
evidence_outcome-checked (err e) counts last h = cc
evidence_outcome-checked (ok n) counts last h = poll_evidence-checked n counts last h

evidence_outcome-IsEvidenced :
    (a : Attempt)
    → (evidence_outcome a.events_before a.counts a.last_count).evidenced ≡ true
    → IsEvidenced a
evidence_outcome-IsEvidenced a h = go a.events_before refl h
  where
    go :
        (before : Result Failure ℕ)
        → a.events_before ≡ before
        → (evidence_outcome before a.counts a.last_count).evidenced ≡ true
        → IsEvidenced a
    go (err e) p k = cc
    go (ok n) p k =
        let (c, i, l) = poll_evidence-evidenced n a.counts a.last_count k in (n, c, p, i, l)

-- A result that passes the evidence check without an error passed before it and is evidenced.
apply_evidence_check-passed :
    (e : Evidence) (r : TestResult)
    → (e.failure ≡ none → e.checked ≡ true)
    → (apply_evidence_check e r).passed ≡ true
    → (apply_evidence_check e r).failure ≡ none
    → (r.passed ≡ true) × (r.failure ≡ none) × (e.evidenced ≡ true)
unfolding apply_evidence_check
apply_evidence_check-passed e r c p f = elim (Option-cases e.failure) [
  | inl n ↦ elim (Option-cases r.failure) [
    | inl m ↦ ground (arith, n, m, c n, p, f)
    | inr (y, m) ↦ ground (arith, n, m, c n, p, f)
  ]
  | inr (x, k) ↦ elim (Option-cases r.failure) [
    | inl m ↦ ground (arith, k, m, p, f)
    | inr (y, m) ↦ ground (arith, k, m, p, f)
  ]
]

module _ (codec : Codec) where
  -- The text is what one of the answers of the poll reads at the field.
  abbrev pub IsRead : UpdateTest → Attempt → Text → Type 0
  IsRead t a actual =
      (o : Value) × In (ok o) (a.reads ++ a.last_read ∷ [])
      × (read_field codec o t.field ≡ ok actual)

  read_answer :
      (t : UpdateTest) (answer : Result Failure Value) {actual : Text}
      → then_do answer (λ o. read_field codec o t.field) ≡ ok actual
      → (o : Value) × (answer ≡ ok o) × (read_field codec o t.field ≡ ok actual)
  read_answer t (ok o) h = (o, refl, h)
  read_answer t (err e) h = cc

  poll_last :
      (t : UpdateTest) (r : Result Failure Text) (p : Text × Option Failure)
      → polled codec r ≡ p
      → p.1 ≡ none
      → r ≡ ok p.0
  poll_last t (ok actual) p e h = cc
  poll_last t (err x) p e h = cc

  poll_round_lem :
      (P : Text → Type 0) (t : UpdateTest) (r : Result Failure Text) (rest : Text × Option Failure)
      → ((actual : Text) → r ≡ ok actual → P actual)
      → (rest.1 ≡ none → P rest.0)
      → (poll_round codec t r rest).1 ≡ none
      → P (poll_round codec t r rest).0
  poll_round_lem P t (err e) rest p q h = cc
  poll_round_lem P t (ok actual) rest p q h = elim (Bool-cases (matches codec t actual)) [
    | inl m ↦ rw m (p actual refl)
    | inr n ↦ rw n (q (rw n at h))
  ]

  poll_field-IsRead :
      (t : UpdateTest) (answers : List (Result Failure Value)) (last : Result Failure Value)
      → (poll_field codec t answers last).1 ≡ none
      → (o : Value) × In (ok o) (answers ++ last ∷ [])
        × (read_field codec o t.field ≡ ok (poll_field codec t answers last).0)
  unfolding poll_field
  poll_field-IsRead t [] last h =
      let r = then_do last (λ o. read_field codec o t.field) in
      let (o, e, f) = read_answer t last (poll_last t r (polled codec r) refl h) in
      (o, inl (sym e), f)
  poll_field-IsRead t (answer ∷ answers) last h =
      poll_round_lem
        (λ actual.
          (o : Value) × In (ok o) (answer ∷ (answers ++ last ∷ []))
          × (read_field codec o t.field ≡ ok actual))
        t (then_do answer (λ o. read_field codec o t.field)) (poll_field codec t answers last)
        (λ actual e. let (o, p, f) = read_answer t answer e in (o, inl (sym p), f))
        (λ n. let (o, i, f) = poll_field-IsRead t answers last n in (o, inr i, f)) h

  compared-clean :
      (old new : Text) (r : TestResult) (d : Result BadSnapshot (List FieldChange))
      → (compared codec old new r d).0.failure ≡ none
      → (r.failure ≡ none)
        × ((compared codec old new r d).0.passed ≡ r.passed)
        × ((compared codec old new r d).0.actual ≡ r.actual)
  compared-clean old new r (ok changes) h = (h, refl, refl)
  compared-clean old new r (err e) h = cc

  with_snapshot-clean :
      (field old : Text) (r : TestResult) (s : Result Failure Text)
      → (with_snapshot codec field old r s).0.failure ≡ none
      → (r.failure ≡ none)
        × ((with_snapshot codec field old r s).0.passed ≡ r.passed)
        × ((with_snapshot codec field old r s).0.actual ≡ r.actual)
  with_snapshot-clean field old r (ok new) h =
      compared-clean old new r (diff_snapshots codec old new (top_field field)) h
  with_snapshot-clean field old r (err e) h = cc

  apply_evidence_check-actual :
      (e : Evidence) (r : TestResult) → (apply_evidence_check e r).actual ≡ r.actual
  unfolding apply_evidence_check
  apply_evidence_check-actual e r = elim (Option-cases e.failure) [
    | inl n ↦ ground (arith, n)
    | inr (x, n) ↦ ground (arith, n)
  ]

  observed_result-passed :
      (t : UpdateTest) (a : Attempt) (start : TestResult)
      → (observed_result codec t a start).passed ≡ true
      → (observed_result codec t a start).failure ≡ none
      → IsRead t a (observed_result codec t a start).actual
        × (matches codec t (observed_result codec t a start).actual ≡ true)
        × IsEvidenced a
  observed_result-passed t a start p h =
      let e = evidence_outcome a.events_before a.counts a.last_count in
      let poll = poll_field codec t a.reads a.last_read in
      let compared_result = polled_result codec t poll start in
      let (m, f, v) =
        apply_evidence_check-passed e compared_result
          (evidence_outcome-checked a.events_before a.counts a.last_count) p h in
      let shown = apply_evidence_check-actual e compared_result in
      (
        subst (IsRead t a) (sym shown) (poll_field-IsRead t a.reads a.last_read f),
        ap (matches codec t) shown ∙ m,
        evidence_outcome-IsEvidenced a v,
      )

  -- A field test whose result is passed and carries no error was no no-op; its patch was built and
  -- accepted and both reconciliations succeeded; the value that it reports was read from one of the
  -- answers of the poll and matches the expected value; and the provider recorded an update event
  -- beyond those before the patch.
  pub run_field_test-passed :
      (t : UpdateTest) (snapshot : Text) (a : Attempt)
      → (run_field_test codec t snapshot a).0.passed ≡ true
      → (run_field_test codec t snapshot a).0.failure ≡ none
      → (is_no_op codec t (then_do a.current (λ o. read_current_value codec o t.field)) ≡ false)
        × (apply_patch_and_reconcile codec t a ≡ none)
        × IsRead t a (run_field_test codec t snapshot a).0.actual
        × (matches codec t (run_field_test codec t snapshot a).0.actual ≡ true)
        × IsEvidenced a
  unfolding run_field_test
  run_field_test-passed t snapshot a p h =
      let before = then_do a.current (λ o. read_current_value codec o t.field) in
      let start = with_before codec before (result_for t.field) in
      elim (Bool-cases (is_no_op codec t before)) [
        | inl y ↦ absurd (let e = rw (run_field_test, y) at h in some_none e)
        | inr n ↦ elim (Option-cases (apply_patch_and_reconcile codec t a)) [
          | inr (x, y) ↦ absurd (let e = rw (run_field_test, n, y) at h in some_none e)
          | inl m ↦
              let r = observed_result codec t a start in
              let s = then_do a.after (λ o. snapshot_of codec o) in
              let run : run_field_test codec t snapshot a
                  ≡ with_snapshot codec t.field snapshot r s =
                rw (run_field_test, n, m) refl in
              let (clean, same, shown) =
                with_snapshot-clean t.field snapshot r s
                  (subst (λ (q : TestResult × Text). q.0.failure ≡ none) run h) in
              let (read, match, evidenced) =
                observed_result-passed t a start
                  (sym same ∙ subst (λ (q : TestResult × Text). q.0.passed ≡ true) run p) clean in
              let same_actual = ap (λ (q : TestResult × Text). q.0.actual) run ∙ shown in
              (
                n,
                m,
                subst (IsRead t a) (sym same_actual) read,
                ap (matches codec t) same_actual ∙ match,
                evidenced,
              )
        ]
      ]
    where
      some_none : {e : Failure} → some e ≡ none → ⊥
      some_none q = cc
