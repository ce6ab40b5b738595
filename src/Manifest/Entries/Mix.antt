-- ===== src/Manifest/Entries/Mix.antt =====
-- What ValidateFieldEntryMix accepts.
use crossplane_update_tester.Base.{
  Text, Bool, true, false, List, [], ◌∷◌, none, some, ◌==◌, ==_iff, list_eq, nat_eq, lookup, insert,
  lookup-insert, All, ◌≡◌, ◌↔◌, inl, inr, refl, ap, sym, ◌∙◌, arith, Bool-cases, Option-cases,
}
use crossplane_update_tester.Manifest.{UpdateTest, present}
use crossplane_update_tester.Manifest.Skip.{and_then-none}
use crossplane_update_tester.Manifest.Entries.{
  carries_tested_content, no_skip_with_test, kind_differs, record_kind, same_kinds,
  validate_field_entry_mix,
}

no_skip_with_test_iff :
    (ts : List UpdateTest)
    → (no_skip_with_test ts ≡ none)
      ↔ All (λ t. present t.skip ≡ true → carries_tested_content t ≡ false) ts
unfolding no_skip_with_test
no_skip_with_test_iff [] = (λ h. tt, λ h. refl)
no_skip_with_test_iff (t ∷ ts) = ground (arith, no_skip_with_test_iff ts)

-- An entry does not contradict the kind recorded for its field.
abbrev Fits : List (Text × Bool) → UpdateTest → Type 0
Fits kinds u = kind_differs (lookup u.field kinds) (present u.skip) ≡ false

-- Two entries of one field are both skipped or both tested.
abbrev pub SameKind : UpdateTest → UpdateTest → Type 0
SameKind t u = t.field ≡ u.field → present t.skip ≡ present u.skip

abbrev pub PairwiseSameKind : List UpdateTest → Type 0
PairwiseSameKind [] = Unit
PairwiseSameKind (t ∷ ts) = All (SameKind t) ts × PairwiseSameKind ts

kind_differs_iff : (b p : Bool) → (kind_differs (some b) p ≡ false) ↔ (p ≡ b)
kind_differs_iff true p = ground arith
kind_differs_iff false p = ground arith

module _ (kinds : List (Text × Bool)) (t u : UpdateTest) where
  Fits-new :
      lookup t.field kinds ≡ none
      → Fits (insert t.field (present t.skip) kinds) u ↔ (SameKind t u × Fits kinds u)
  Fits-new new = elim (Bool-cases (t.field == u.field)) [
    | inl same ↦
        let e = (==_iff t.field u.field).0 same in
        let absent : lookup u.field kinds ≡ none = ap (λ f. lookup f kinds) (sym e) ∙ new in
        rw (lookup-insert t.field u.field (present t.skip) kinds, same, absent)
          (
            λ h. (λ f. sym ((kind_differs_iff _ _).0 h), refl),
            λ h. (kind_differs_iff _ _).1 (sym (h.0 e)),
          )
    | inr other ↦
        rw (lookup-insert t.field u.field (present t.skip) kinds, other)
          (λ h. (λ f. cc (other, (==_iff t.field u.field).1 f), h), λ h. h.1)
  ]

  Fits-old :
      (b : Bool)
      → lookup t.field kinds ≡ some b
      → Fits kinds t
      → Fits kinds u ↔ (SameKind t u × Fits kinds u)
  Fits-old b old fits = (λ h. (λ e. same_kind e h, h), λ h. h.1)
    where
      same_kind : t.field ≡ u.field → Fits kinds u → present t.skip ≡ present u.skip
      same_kind e h =
          let old' : lookup u.field kinds ≡ some b = ap (λ f. lookup f kinds) (sym e) ∙ old in
          (kind_differs_iff b _).0 (rw old at fits) ∙ sym ((kind_differs_iff b _).0 (rw old' at h))

  -- Recording an entry that fits adds the demand that later entries of its field have its kind.
  Fits-record :
      Fits kinds t
      → Fits (record_kind (lookup t.field kinds) t.field (present t.skip) kinds) u
        ↔ (SameKind t u × Fits kinds u)
  Fits-record h = elim (Option-cases (lookup t.field kinds)) [
    | inl new ↦ rw new (Fits-new new)
    | inr (b, old) ↦ rw old (Fits-old b old h)
  ]

All_Fits_record :
    (kinds : List (Text × Bool)) (t : UpdateTest) (ts : List UpdateTest)
    → Fits kinds t
    → All (Fits (record_kind (lookup t.field kinds) t.field (present t.skip) kinds)) ts
      ↔ (All (SameKind t) ts × All (Fits kinds) ts)
All_Fits_record kinds t [] h = (λ _. (tt, tt), λ _. tt)
All_Fits_record kinds t (u ∷ us) h =
    let (to, from) = Fits-record kinds t u h in
    let (tos, froms) = All_Fits_record kinds t us h in
    (
      λ a. (((to a.0).0, (tos a.1).0), ((to a.0).1, (tos a.1).1)),
      λ a. (from (a.0.0, a.1.0), froms (a.0.1, a.1.1)),
    )

same_kinds_iff :
    (kinds : List (Text × Bool)) (ts : List UpdateTest)
    → (same_kinds kinds ts ≡ none) ↔ (All (Fits kinds) ts × PairwiseSameKind ts)
unfolding same_kinds
same_kinds_iff kinds [] = (λ h. (tt, tt), λ h. refl)
same_kinds_iff kinds (t ∷ ts) =
    elim (Bool-cases (kind_differs (lookup t.field kinds) (present t.skip))) [
      | inl clash ↦ rw clash (λ h. cc, λ h. cc (h.0.0))
      | inr fits ↦
          let (to, from) =
            same_kinds_iff (record_kind (lookup t.field kinds) t.field (present t.skip) kinds) ts in
          let (tos, froms) = All_Fits_record kinds t ts fits in
          rw fits (
            λ h. ((refl, (tos (to h).0).1), ((tos (to h).0).0, (to h).1)),
            λ h. from (froms (h.1.0, h.0.1), h.1.1),
          )
    ]

All_Fits_nil : (ts : List UpdateTest) → All (Fits []) ts
unfolding lookup
All_Fits_nil [] = tt
All_Fits_nil (t ∷ ts) = (refl, All_Fits_nil ts)

-- ValidateFieldEntryMix accepts exactly the annotations in which no entry both carries skip: and
-- tests something, and in which all entries of one field are skipped or all are tested.
pub validate_field_entry_mix_iff :
    (ts : List UpdateTest)
    → (validate_field_entry_mix ts ≡ none) ↔ (
        All (λ t. present t.skip ≡ true → carries_tested_content t ≡ false) ts
        × PairwiseSameKind ts)
unfolding validate_field_entry_mix
validate_field_entry_mix_iff ts =
    let (to, from) = no_skip_with_test_iff ts in
    let (tos, froms) = same_kinds_iff [] ts in
    (
      λ h.
          let (a, b) = and_then-none (no_skip_with_test ts) (same_kinds [] ts) h in
          (to a, (tos b).1),
      λ h. rw (from h.0) (froms (All_Fits_nil ts, h.1)),
    )
