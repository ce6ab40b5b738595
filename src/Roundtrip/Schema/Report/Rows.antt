-- ===== src/Roundtrip/Schema/Report/Rows.antt =====
-- Which rows DiffReport has.
use mathlib.Core.Path.{subst}
use crossplane_update_tester.Base.{
  Text, Bool, true, false, not, List, [], ◌∷◌, ◌++◌, Option, none, some, list_eq, nat_eq, elem,
  elem-false, sort, In, In-sort, In-sort_by, In-filter, In-append_cases, ◌≡◌, ◌⊎◌, inl, inr, refl,
  sym, ap, ◌∙◌, Bool-cases, some_eq, arith,
}
use crossplane_update_tester.Value.{Value}
use crossplane_update_tester.Json.{deep_equal}
use crossplane_update_tester.Roundtrip.Cell.{Classification, Row}
use crossplane_update_tester.Roundtrip.Clearing.{is_some}
use crossplane_update_tester.Roundtrip.Schema.{immutable_paths, leaf_paths}
use crossplane_update_tester.Roundtrip.Schema.Report.{
  classify, get_value, mirror_only, mirror_row, mirror_rows, row_with, rows_of, spec_rows,
}

-- The side of the row that has the value: what the classification says of the two sides.
abbrev pub IsClassified : Option Value → Option Value → Classification → Type 0
IsClassified (some v) (some w) Classification.equal = deep_equal v w ≡ true
IsClassified (some v) (some w) Classification.value_changed = deep_equal v w ≡ false
IsClassified (some v) none Classification.present_in_spec_absent_from_mirror = Unit
IsClassified none (some w) Classification.defaulted_by_server = Unit
IsClassified _ _ _ = ⊥

classify-IsClassified :
    (spec mirror : Option Value) {c : Classification}
    → classify spec mirror ≡ some c
    → IsClassified spec mirror c
unfolding classify
classify-IsClassified (some v) (some w) h = elim (Bool-cases (deep_equal v w)) [
  | inl t ↦ subst (IsClassified (some v) (some w)) (some_eq (rw t at h)) t
  | inr f ↦ subst (IsClassified (some v) (some w)) (some_eq (rw f at h)) f
]
classify-IsClassified (some v) none h = subst (IsClassified (some v) none) (some_eq h) tt
classify-IsClassified none (some w) h = subst (IsClassified none (some w)) (some_eq h) tt
classify-IsClassified none none h = cc

In-row_with :
    (immutable : Bool) (p : Text) (spec mirror : Option Value) (c : Option Classification) (r : Row)
    → In r (row_with immutable p spec mirror c)
    → (p ≡ r.path) × (c ≡ some r.classification) × (r.immutable ≡ immutable)
In-row_with immutable p spec mirror none r h = absurd h
In-row_with immutable p spec mirror (some c) r (inl e) = (
  sym (ap (λ (x : Row). x.path) e),
  ap some (sym (ap (λ (x : Row). x.classification) e)),
  ap (λ (x : Row). x.immutable) e,
)
In-row_with immutable p spec mirror (some c) r (inr k) = absurd k

In-spec_rows :
    (immutable : List Text) (spec mirror : Value) (ps : List Text) (r : Row)
    → In r (spec_rows immutable spec mirror ps)
    → In r.path ps
      × IsClassified (get_value spec r.path) (get_value mirror r.path) r.classification
      × (r.immutable ≡ elem r.path immutable)
unfolding spec_rows
In-spec_rows immutable spec mirror [] r h = absurd h
In-spec_rows immutable spec mirror (p ∷ ps) r h =
    let c = classify (get_value spec p) (get_value mirror p) in
    let first = row_with (elem p immutable) p (get_value spec p) (get_value mirror p) c in
    elim (In-append_cases r first (spec_rows immutable spec mirror ps) h) [
      | inl i ↦
          let (e, k, m) =
            In-row_with (elem p immutable) p (get_value spec p) (get_value mirror p) c r i in
          (
            inl (sym e),
            subst (λ q. IsClassified (get_value spec q) (get_value mirror q) r.classification) e
                (classify-IsClassified (get_value spec p) (get_value mirror p) k),
            m ∙ ap (λ q. elem q immutable) e,
          )
      | inr i ↦ let (j, k, m) = In-spec_rows immutable spec mirror ps r i in (inr j, k, m)
    ]

In-mirror_row :
    (p : Text) (v : Option Value) (r : Row)
    → In r (mirror_row p v)
    → (p ≡ r.path)
      × (is_some v ≡ true)
      × (r.classification ≡ Classification.present_in_mirror_absent_from_spec)
In-mirror_row p none r h = absurd h
In-mirror_row p (some v) r (inl e) =
    (sym (ap (λ (x : Row). x.path) e), refl, ap (λ (x : Row). x.classification) e)
In-mirror_row p (some v) r (inr k) = absurd k

In-mirror_rows :
    (mirror : Value) (ps : List Text) (r : Row)
    → In r (mirror_rows mirror ps)
    → In r.path ps
      × (is_some (get_value mirror r.path) ≡ true)
      × (r.classification ≡ Classification.present_in_mirror_absent_from_spec)
unfolding mirror_rows
In-mirror_rows mirror [] r h = absurd h
In-mirror_rows mirror (p ∷ ps) r h =
    elim (In-append_cases r (mirror_row p (get_value mirror p)) (mirror_rows mirror ps) h) [
      | inl i ↦
          let (e, k, m) = In-mirror_row p (get_value mirror p) r i in
          (inl (sym e), subst (λ q. is_some (get_value mirror q) ≡ true) e k, m)
      | inr i ↦ let (j, k, m) = In-mirror_rows mirror ps r i in (inr j, k, m)
    ]

-- Every row of DiffReport is of a declared field that holds a value. Either spec.forProvider declares
-- its path: then the classification tells which of the two sides holds a value, and whether the two
-- are deeply equal where both do, and the row is immutable exactly when the schema makes the path so.
-- Or only status.atProvider declares it: then the mirror holds a value and the row is mirror-only.
pub In-rows_of :
    (fp ap spec mirror : Value) (r : Row)
    → In r (rows_of fp ap spec mirror)
    → (In r.path (leaf_paths fp)
        × IsClassified (get_value spec r.path) (get_value mirror r.path) r.classification
        × (r.immutable ≡ elem r.path (immutable_paths fp)))
      ⊎ (In r.path (leaf_paths ap)
          × (¬ In r.path (leaf_paths fp))
          × (is_some (get_value mirror r.path) ≡ true)
          × (r.classification ≡ Classification.present_in_mirror_absent_from_spec))
In-rows_of fp ap spec mirror r h =
    let only = mirror_only (leaf_paths fp) (leaf_paths ap) in
    let firsts = spec_rows (immutable_paths fp) spec mirror (sort (leaf_paths fp)) in
    let seconds = mirror_rows mirror (sort only) in
    let unsorted = (In-sort_by (λ (x : Row). x.path) r (firsts ++ seconds)).0 h in
    elim (In-append_cases r firsts seconds unsorted) [
      | inl i ↦
          let (j, k, m) =
            In-spec_rows (immutable_paths fp) spec mirror (sort (leaf_paths fp)) r i in
          inl ((In-sort r.path (leaf_paths fp)).0 j, k, m)
      | inr i ↦
          let (j, k, m) = In-mirror_rows mirror (sort only) r i in
          let (l, n) =
            (In-filter (λ p. not (elem p (leaf_paths fp))) r.path (leaf_paths ap)).0
              ((In-sort r.path only).0 j) in
          inr (l, elem-false r.path (leaf_paths fp) (not_true n), k, m)
    ]
  where
    not_true : {b : Bool} → not b ≡ true → b ≡ false
    not_true {b} n = ground (arith, n)
