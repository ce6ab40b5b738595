-- ===== src/Runner/Unchanged/Once.antt =====
-- A guarded field is reported once, and for a change.
use mathlib.Core.Path.{subst}
use crossplane_update_tester.Base.{
  Text, List, [], ◌∷◌, ◌++◌, append_assoc, append-nil, map, Option, none, ◌==◌, ==_iff, list_eq,
  nat_eq, elem, elem-false, lookup, In, In-append_cases, All, All-append, ◌≡◌, ◌≢◌, inl, inr, refl,
  sym, ap, Bool-cases, Result, ok, err,
}
use crossplane_update_tester.Json.{Codec}
use crossplane_update_tester.Runner.Values.{Failure}
use crossplane_update_tester.Runner.Unchanged.{
  UnchangedAssertion, Checked, check_field, check_read, check_fields, check_assert_unchanged,
  read_snapshot_field, text_or_empty,
}

-- No name stands twice.
abbrev pub IsDistinct : List Text → Type 0
IsDistinct [] = Unit
IsDistinct (x ∷ xs) = (¬ In x xs) × IsDistinct xs

IsDistinct-append :
    (xs : List Text) (x : Text) → IsDistinct xs → ¬ In x xs → IsDistinct (xs ++ x ∷ [])
IsDistinct-append [] x h n = ((λ i. i), tt)
IsDistinct-append (y ∷ ys) x h n = (
  λ i. elim (In-append_cases y ys (x ∷ []) i) [
    | inl j ↦ h.0 j
    | inr j ↦ elim j [ inl e ↦ n (inl (sym e)) | inr k ↦ k ]
  ],
  IsDistinct-append ys x h.1 (λ i. n (inr i)),
)

abbrev pub names_of : List UnchangedAssertion → List Text
names_of vs = map (λ (v : UnchangedAssertion). v.field) vs

names_of-append :
    (vs : List UnchangedAssertion) (v : UnchangedAssertion)
    → names_of (vs ++ v ∷ []) ≡ names_of vs ++ v.field ∷ []
names_of-append [] v = refl
names_of-append (w ∷ vs) v = ap (λ xs. w.field ∷ xs) (names_of-append vs v)

-- The assertion is that a guarded field has another value than its baseline.
abbrev pub IsViolation : List Text → List (Text × Text) → UnchangedAssertion → Type 0
IsViolation guarded baselines v =
    In v.field guarded
    × (v.baseline ≡ text_or_empty (lookup v.field baselines))
    × (v.observed ≢ v.baseline)

-- The violations so far are violations, of distinct fields, all of them marked.
pub record AreViolations (guarded : List Text) (baselines : List (Text × Text))
    (vs : List UnchangedAssertion) (violated : List Text) : Type 0 where
  pub distinct : IsDistinct (names_of vs)
  pub marked : (f : Text) → In f (names_of vs) → In f violated
  pub all : All (IsViolation guarded baselines) vs

add_violation :
    (guarded : List Text) (baselines : List (Text × Text)) (vs : List UnchangedAssertion)
    (violated : List Text) (v : UnchangedAssertion)
    → AreViolations guarded baselines vs violated
    → IsViolation guarded baselines v
    → ¬ In v.field violated
    → AreViolations guarded baselines (vs ++ v ∷ []) (v.field ∷ violated)
add_violation guarded baselines vs violated v h is n = record {
  distinct =
      subst IsDistinct (sym (names_of-append vs v))
        (IsDistinct-append (names_of vs) v.field h.distinct (λ i. n (h.marked v.field i)));
  marked = λ f i.
      elim (In-append_cases f (names_of vs) (v.field ∷ [])
        (subst (In f) (names_of-append vs v) i)) [
          | inl j ↦ inr (h.marked f j)
          | inr j ↦ elim j [ inl e ↦ inl e | inr k ↦ absurd k ]
        ];
  all = All-append (IsViolation guarded baselines) vs (v ∷ []) h.all (is, tt);
}

module _ (guarded : List Text) (baselines : List (Text × Text))
    (prior : List UnchangedAssertion) where
  -- The check adds to the violations `prior` of the run.
  abbrev pub Extends : Checked → Type 0
  Extends c = AreViolations guarded baselines (prior ++ c.found) c.violated

  check_read-Extends :
      (after f : Text) (r : Result Failure (Option Text)) (c : Checked)
      → In f guarded
      → ¬ In f c.violated
      → Extends c
      → Extends (check_read after baselines f r c)
  check_read-Extends after f (err e) c i n h = h
  check_read-Extends after f (ok v) c i n h =
      let observed = text_or_empty v in
      let baseline = text_or_empty (lookup f baselines) in
      let found : UnchangedAssertion = record {
        field = f;
        baseline = baseline;
        observed = observed;
        after_field = after;
      } in
      elim (Bool-cases (observed == baseline)) [
        | inl same ↦ rw same h
        | inr other ↦ rw other (
            subst (λ vs. AreViolations guarded baselines vs (f ∷ c.violated))
              (append_assoc prior c.found (found ∷ []))
              (add_violation guarded baselines (prior ++ c.found) c.violated found h
                (i, refl, λ e. cc (other, (==_iff observed baseline).1 e)) n))
      ]

  check_fields-Extends :
      (codec : Codec) (after snapshot : Text) (fs : List Text) (c : Checked)
      → ((f : Text) → In f fs → In f guarded)
      → Extends c
      → Extends (check_fields codec after snapshot baselines fs c)
  unfolding check_fields
  check_fields-Extends codec after snapshot [] c all h = h
  check_fields-Extends codec after snapshot (f ∷ fs) c all h =
      check_fields-Extends codec after snapshot fs (check_field codec after snapshot baselines f c)
        (λ g i. all g (inr i))
        (elim (Bool-cases (elem f c.violated)) [
          | inl y ↦ rw y h
          | inr n ↦ rw n (
              check_read-Extends after f (read_snapshot_field codec snapshot f) c (all f (inl refl))
                (elem-false f c.violated n) h)
        ])

  -- checkAssertUnchanged adds violations of fields that the run has not reported yet.
  pub check_assert_unchanged-AreViolations :
      (codec : Codec) (snapshot : Text) (violated : List Text) (after : Text)
      → AreViolations guarded baselines prior violated
      → Extends (check_assert_unchanged codec snapshot guarded baselines violated after)
  check_assert_unchanged-AreViolations codec snapshot violated after h =
      check_fields-Extends codec after snapshot guarded
        (record { found = []; violated = violated; failure = none }) (λ f i. i)
        (subst (λ vs. AreViolations guarded baselines vs violated) (sym (append-nil prior)) h)
