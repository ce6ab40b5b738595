-- ===== src/Manifest/Entries/Siblings.antt =====
-- What the validation of clear:, withValues: and the ignored keys accepts.
use mathlib.Core.Path.{subst, sym}
use crossplane_update_tester.Base.{
  Text, false, List, [], ◌∷◌, is_empty, is_empty_iff, map, none, ==_iff, list_eq, nat_eq, elem_iff,
  contains_byte, In, In-map, In-map_of, All, All-In, All_of_In, In-sort, sort, ◌≡◌, ◌≢◌, ◌↔◌, ◌⊎◌,
  inl, inr, refl, arith, Bool-cases,
}
use crossplane_update_tester.Value.{Value}
use crossplane_update_tester.Manifest.Entries.{
  validate_ignore_fields, clear_entries, validate_clear, with_values_entries, validate_with_values,
}

-- The name has no dot: it is a field of the top level.
abbrev pub IsTopLevel : Text → Type 0
IsTopLevel s = contains_byte b'.' s ≡ false

-- ValidateIgnoreFields accepts exactly the lists of top-level names.
pub validate_ignore_fields_iff :
    (fs : List Text) → (validate_ignore_fields fs ≡ none) ↔ All IsTopLevel fs
unfolding validate_ignore_fields
validate_ignore_fields_iff [] = (λ h. tt, λ h. refl)
validate_ignore_fields_iff (f ∷ fs) = ground (arith, validate_ignore_fields_iff fs)

clear_entries_iff :
    (field : Text) (cs : List Text)
    → (clear_entries field cs ≡ none) ↔ All (λ c. IsTopLevel c × (c ≢ field)) cs
unfolding clear_entries
clear_entries_iff field [] = (λ h. tt, λ h. refl)
clear_entries_iff field (c ∷ cs) = ground (arith, clear_entries_iff field cs, ==_iff c field)

-- ValidateClear accepts exactly an empty list, or a list of top-level fields other than the field
-- of the entry, which is itself at the top level.
pub validate_clear_iff :
    (field : Text) (clear : List Text)
    → (validate_clear field clear ≡ none)
      ↔ ((clear ≡ []) ⊎ (IsTopLevel field × All (λ c. IsTopLevel c × (c ≢ field)) clear))
unfolding validate_clear
validate_clear_iff field clear = ground (arith, is_empty_iff clear, clear_entries_iff field clear)

-- A sibling that withValues: may name.
abbrev pub IsSibling : Text → List Text → Text → Type 0
IsSibling field clear k = IsTopLevel k × (k ≢ field) × (¬ In k clear)

with_values_entries_iff :
    (field : Text) (clear keys : List Text)
    → (with_values_entries field clear keys ≡ none) ↔ All (IsSibling field clear) keys
unfolding with_values_entries
with_values_entries_iff field clear [] = (λ h. tt, λ h. refl)
with_values_entries_iff field clear (k ∷ ks) =
    ground (arith, with_values_entries_iff field clear ks, ==_iff k field, elem_iff k clear)

keys_iff :
    (P : Text → Type 0) (m : List (Text × Value))
    → All P (sort (map (λ e. e.0) m)) ↔ ((e : Text × Value) → In e m → P e.0)
keys_iff P m = (
  λ h e i. All-In P _ h ((In-sort e.0 _).1 (In-map_of (λ (d : Text × Value). d.0) e m i)),
  λ h. All_of_In P _ (λ k i.
      let (e, j, p) = In-map (λ (d : Text × Value). d.0) k m ((In-sort k _).0 i) in
      subst P (sym p) (h e j)),
)

-- ValidateWithValues accepts exactly an empty map, or one whose keys are top-level fields other than
-- the field of the entry, itself at the top level, and not named in clear:, in whatever order the
-- map is read.
pub validate_with_values_iff :
    (field : Text) (with_values : List (Text × Value)) (clear : List Text)
    → (validate_with_values field with_values clear ≡ none) ↔ (
        (with_values ≡ [])
        ⊎ (IsTopLevel field × ((e : Text × Value) → In e with_values → IsSibling field clear e.0)))
unfolding validate_with_values
validate_with_values_iff field with_values clear =
    let entries = with_values_entries_iff field clear (sort (map (λ e. e.0) with_values)) in
    let sorted = keys_iff (IsSibling field clear) with_values in
    elim (Bool-cases (is_empty with_values)) [
      | inl e ↦ rw e (λ h. inl ((is_empty_iff with_values).0 e), λ h. refl)
      | inr some_key ↦ elim (Bool-cases (contains_byte b'.' field)) [
        | inl dotted ↦
            rw (some_key, dotted)
              (
                λ h. cc,
                λ h. elim h [
                  | inl none_left ↦ cc (some_key, (is_empty_iff with_values).1 none_left)
                  | inr k ↦ cc (k.0)
                ],
              )
        | inr plain ↦
            rw (some_key, plain)
              (
                λ h. inr (refl, sorted.0 (entries.0 h)),
                λ h. elim h [
                  | inl none_left ↦ cc (some_key, (is_empty_iff with_values).1 none_left)
                  | inr k ↦ entries.1 (sorted.1 k.1)
                ],
              )
      ]
    ]
