-- ===== src/Runner/Clears/Checking.antt =====
-- What checkClearAssertions does for each of the credits that wait for a field.
use crossplane_update_tester.Base.{
  Text, text, true, List, [], ◌∷◌, Option, none, some, ==_iff, list_eq, nat_eq, is_empty_iff, In,
  In-append_left, In-append_right, Result, ok, err, ◌≡◌, ◌⊎◌, inl, inr, refl, Bool-cases, arith,
}
use crossplane_update_tester.Json.{Codec}
use crossplane_update_tester.Runner.Values.{Failure}
use crossplane_update_tester.Runner.Unchanged.{read_snapshot_field, text_or_empty, first_error}
use crossplane_update_tester.Runner.Clears.{
  ClearAssertion, ClearChecked, PendingClear, check_item, check_items, is_cleared_value,
}

-- The value is gone, or an empty list or map.
abbrev pub IsCleared : Text → Type 0
IsCleared s = (s ≡ []) ⊎ (s ≡ text "[]") ⊎ (s ≡ text "{}")

is_cleared_value-IsCleared : (s : Text) → is_cleared_value s ≡ true → IsCleared s
is_cleared_value-IsCleared s h =
    ground (arith, is_empty_iff s, ==_iff s (text "[]"), ==_iff s (text "{}"))

-- The report of a credit that is seen not to be cleared.
abbrev pub violation_of : Text → PendingClear → Option Text → ClearAssertion
violation_of after item v = record {
  representative = item.representative;
  route = item.route;
  trigger_field = after;
  observed = text_or_empty v;
}

-- What becomes of a credit by what is read of its representative: it is cleared, reported as it is
-- read, or the reading failed and the failure is kept.
abbrev pub IsAccounted :
    Type 0 → List ClearAssertion → Text → PendingClear → Result Failure (Option Text) → Type 0
IsAccounted Failed vs after item (err e) = Failed
IsAccounted Failed vs after item (ok v) =
    IsCleared (text_or_empty v) ⊎ In (violation_of after item v) vs

pub IsAccounted-map :
    {F G : Type 0} (vs ws : List ClearAssertion) (after : Text) (item : PendingClear)
    (read : Result Failure (Option Text))
    → (F → G)
    → ((x : ClearAssertion) → In x vs → In x ws)
    → IsAccounted F vs after item read
    → IsAccounted G ws after item read
IsAccounted-map vs ws after item (err e) f k h = f h
IsAccounted-map vs ws after item (ok v) f k (inl c) = inl c
IsAccounted-map vs ws after item (ok v) f k (inr i) = inr (k _ i)

abbrev pub HasFailure : Option Failure → Type 0
HasFailure o = (e : Failure) × (o ≡ some e)

HasFailure-first_error : (o : Option Failure) (e : Failure) → HasFailure (first_error o e)
HasFailure-first_error none e = (e, refl)
HasFailure-first_error (some d) e = (d, refl)

module _ (codec : Codec) where
  -- The later credits take nothing back.
  abbrev Extends : ClearChecked → ClearChecked → Type 0
  Extends c d =
      ((x : ClearAssertion) → In x c.found → In x d.found)
      × (HasFailure c.failure → HasFailure d.failure)

  check_read_item :
      (after : Text) (item : PendingClear) (c : ClearChecked) (snapshot : Text)
      (read : Result Failure (Option Text))
      → read_snapshot_field codec snapshot item.representative ≡ read
      → Extends c (check_item codec after snapshot item c)
        × IsAccounted
            (HasFailure (check_item codec after snapshot item c).failure)
            (check_item codec after snapshot item c).found
            after
            item
            read
  check_read_item after item c snapshot (err e) p =
      rw (check_item, p)
        (
          (
            (λ x i. i),
            (λ h. HasFailure-first_error c.failure (Failure.reading item.representative)),
          ),
          HasFailure-first_error c.failure (Failure.reading item.representative),
        )
  check_read_item after item c snapshot (ok v) p =
      elim (Bool-cases (is_cleared_value (text_or_empty v))) [
        | inl t ↦
            rw (check_item, p, t)
              (((λ x i. i), (λ h. h)), inl (is_cleared_value-IsCleared (text_or_empty v) t))
        | inr f ↦
            let report = violation_of after item v ∷ [] in
            rw (check_item, p, f)
              (
                ((λ x i. In-append_left x c.found report i), (λ h. h)),
                inr (In-append_right (violation_of after item v) c.found report (inl refl)),
              )
      ]

  Extends-check_items :
      (after snapshot : Text) (items : List PendingClear) (c : ClearChecked)
      → Extends c (check_items codec after snapshot items c)
  unfolding check_items
  Extends-check_items after snapshot [] c = ((λ x i. i), (λ h. h))
  Extends-check_items after snapshot (item ∷ items) c =
      let next = check_item codec after snapshot item c in
      let (found, failed) = (check_read_item after item c snapshot _ refl).0 in
      let (more, kept) = Extends-check_items after snapshot items next in
      ((λ x i. more x (found x i)), (λ h. kept (failed h)))

  pub check_items-IsAccounted :
      (after snapshot : Text) (items : List PendingClear) (c : ClearChecked) (item : PendingClear)
      → In item items
      → IsAccounted
          (HasFailure (check_items codec after snapshot items c).failure)
          (check_items codec after snapshot items c).found
          after
          item
          (read_snapshot_field codec snapshot item.representative)
  unfolding check_items
  check_items-IsAccounted after snapshot [] c item i = absurd i
  check_items-IsAccounted after snapshot (x ∷ items) c item (inr i) =
      check_items-IsAccounted after snapshot items (check_item codec after snapshot x c) item i
  check_items-IsAccounted after snapshot (x ∷ items) c item (inl e) =
      let next = check_item codec after snapshot x c in
      let (more, kept) = Extends-check_items after snapshot items next in
      let read = read_snapshot_field codec snapshot x.representative in
      let here =
        IsAccounted-map next.found (check_items codec after snapshot items next).found after x read
          kept more (check_read_item after x c snapshot read refl).1 in
      rw e here
