-- ===== src/Manifest/Entries/IgnoredKeys.antt =====
-- What the validation of ignoreMapKeys: and ignoreListElementKeys: accepts.
use crossplane_update_tester.Base.{
  Text, Bool, true, false, List, [], ◌∷◌, is_empty, is_empty_iff, Option, none, some, if◌then◌else◌,
  ==_iff, list_eq, nat_eq, elem, elem_iff, In, All, ◌≡◌, ◌≢◌, ◌↔◌, ◌⊎◌, inl, inr, refl, arith,
  Bool-cases,
}
use crossplane_update_tester.Value.{Value}
use crossplane_update_tester.Manifest.{Error, UpdateTest, present}
use crossplane_update_tester.Manifest.Skip.{◌and_then◌, and_then-none}
use crossplane_update_tester.Manifest.Entries.{
  distinct_keys, key_present, asserted_keys, as_map, as_list, asserted_in_map, asserted_in_elements,
  asserted_in_list, effective_value, validate_ignore_map_keys, validate_ignore_list_element_keys,
}

-- No key is empty, and none is repeated.
abbrev pub AreDistinctKeys : List Text → Type 0
AreDistinctKeys [] = Unit
AreDistinctKeys (k ∷ ks) = (k ≢ []) × All (λ j. j ≢ k) ks × AreDistinctKeys ks

-- The key is none of the keys of the map.
abbrev pub IsAbsent : List (Text × Value) → Text → Type 0
IsAbsent m k = All (λ e. e.0 ≢ k) m

-- A value is a map with none of the keys, or no map.
abbrev pub AreUnasserted : List Text → Option (List (Text × Value)) → Type 0
AreUnasserted ks none = Unit
AreUnasserted ks (some m) = All (IsAbsent m) ks

abbrev pub AreUnassertedInElements : List Text → Option (List Value) → Type 0
AreUnassertedInElements ks none = Unit
AreUnassertedInElements ks (some vs) = All (λ v. AreUnasserted ks (as_map v)) vs

abbrev Unseen : List Text → List Text → Type 0
Unseen seen ks = All (λ j. ¬ In j seen) ks

Unseen-cons :
    (k : Text) (seen ks : List Text) → Unseen (k ∷ seen) ks ↔ (All (λ j. j ≢ k) ks × Unseen seen ks)
Unseen-cons k seen [] = (λ _. (tt, tt), λ _. tt)
Unseen-cons k seen (j ∷ js) =
    let (to, from) = Unseen-cons k seen js in
    (
      λ h. ((λ e. h.0 (inl e), (to h.1).0), (λ m. h.0 (inr m), (to h.1).1)),
      λ h. (elim [ inl e ↦ h.0.0 e | inr m ↦ h.1.0 m ], from (h.0.1, h.1.1)),
    )

distinct_keys_iff :
    (seen ks : List Text) → (distinct_keys seen ks ≡ none) ↔ (AreDistinctKeys ks × Unseen seen ks)
unfolding distinct_keys
distinct_keys_iff seen [] = (λ h. (tt, tt), λ h. refl)
distinct_keys_iff seen (k ∷ ks) = elim (Bool-cases (is_empty k)) [
  | inl e ↦ rw e (λ h. cc, λ h. absurd (h.0.0 ((is_empty_iff k).0 e)))
  | inr some_key ↦ elim (Bool-cases (elem k seen)) [
    | inl old ↦ rw (some_key, old) (λ h. cc, λ h. absurd (h.1.0 ((elem_iff k seen).0 old)))
    | inr new ↦
        let (to, from) = distinct_keys_iff (k ∷ seen) ks in
        let (apart, join) = Unseen-cons k seen ks in
        rw (some_key, new)
          (
            λ h.
                let (d, u) = to h in
                (
                  (λ e. cc (some_key, (is_empty_iff k).1 e), (apart u).0, d),
                  (λ m. cc (new, (elem_iff k seen).1 m), (apart u).1),
                ),
            λ h. from (h.0.2, join (h.0.1, h.1.1)),
          )
  ]
]

key_present_iff : (k : Text) (m : List (Text × Value)) → (key_present k m ≡ false) ↔ IsAbsent m k
unfolding key_present
key_present_iff k [] = (λ h. tt, λ h. refl)
key_present_iff k ((j, v) ∷ m) = ground (arith, key_present_iff k m, ==_iff j k)

asserted_keys_iff :
    (ks : List Text) (m : List (Text × Value)) → (asserted_keys ks m ≡ none) ↔ All (IsAbsent m) ks
unfolding asserted_keys
asserted_keys_iff [] m = (λ h. tt, λ h. refl)
asserted_keys_iff (k ∷ ks) m = ground (arith, asserted_keys_iff ks m, key_present_iff k m)

asserted_in_map_iff :
    (ks : List Text) (o : Option (List (Text × Value)))
    → (asserted_in_map ks o ≡ none) ↔ AreUnasserted ks o
asserted_in_map_iff ks none = (λ h. tt, λ h. refl)
asserted_in_map_iff ks (some m) = asserted_keys_iff ks m

asserted_in_elements_iff :
    (ks : List Text) (vs : List Value)
    → (asserted_in_elements ks vs ≡ none) ↔ All (λ v. AreUnasserted ks (as_map v)) vs
unfolding asserted_in_elements
asserted_in_elements_iff ks [] = (λ h. tt, λ h. refl)
asserted_in_elements_iff ks (v ∷ vs) =
    let (to, from) = asserted_in_map_iff ks (as_map v) in
    let (tos, froms) = asserted_in_elements_iff ks vs in
    (
      λ h.
          let (a, b) =
            and_then-none (asserted_in_map ks (as_map v)) (asserted_in_elements ks vs) h in
          (to a, tos b),
      λ h. rw (from h.0) (froms h.1),
    )

asserted_in_list_iff :
    (ks : List Text) (o : Option (List Value))
    → (asserted_in_list ks o ≡ none) ↔ AreUnassertedInElements ks o
asserted_in_list_iff ks none = (λ h. tt, λ h. refl)
asserted_in_list_iff ks (some vs) = asserted_in_elements_iff ks vs

Unseen-nil : (ks : List Text) → Unseen [] ks
Unseen-nil [] = tt
Unseen-nil (k ∷ ks) = (λ m. m, Unseen-nil ks)

-- The shape of both validations, over the list of keys and the check of the value.
ignored_keys_iff :
    (ks : List Text) (skipped : Bool) (rest : Option Error) {P : Type 0}
    → (rest ≡ none) ↔ P
    → ((if is_empty ks
          then none
          else if skipped
          then some Error.ignore_keys_with_skip
          else distinct_keys [] ks and_then rest)
        ≡ none)
      ↔ ((ks ≡ []) ⊎ ((skipped ≡ false) × AreDistinctKeys ks × P))
ignored_keys_iff [] skipped rest e = (λ h. inl refl, λ h. refl)
ignored_keys_iff (k ∷ ks) true rest e = (λ h. cc, elim [ inl p ↦ cc | inr p ↦ cc (p.0) ])
ignored_keys_iff (k ∷ ks) false rest e =
    let (to, from) = distinct_keys_iff [] (k ∷ ks) in
    (
      λ h.
          let (a, b) = and_then-none (distinct_keys [] (k ∷ ks)) rest h in
          inr (refl, (to a).0, e.0 b),
      elim [ inl p ↦ cc | inr p ↦ rw (from (p.1, Unseen-nil (k ∷ ks))) (e.1 p.2) ],
    )

-- ValidateIgnoreMapKeys accepts exactly an entry with no such keys, or one with no skip: whose keys
-- are distinct, not empty, and absent from the compared value where that is a map.
pub validate_ignore_map_keys_iff :
    (t : UpdateTest)
    → (validate_ignore_map_keys t ≡ none) ↔ (
        (t.ignore_map_keys ≡ [])
        ⊎ ((present t.skip ≡ false)
            × AreDistinctKeys t.ignore_map_keys
            × AreUnasserted t.ignore_map_keys (as_map (effective_value t))))
unfolding validate_ignore_map_keys
validate_ignore_map_keys_iff t =
    ignored_keys_iff t.ignore_map_keys (present t.skip) _
      (asserted_in_map_iff t.ignore_map_keys (as_map (effective_value t)))

-- ValidateIgnoreListElementKeys accepts exactly an entry with no such keys, or one with no skip:
-- whose keys are distinct, not empty, and absent from each map among the elements of the compared
-- value where that is a list.
pub validate_ignore_list_element_keys_iff :
    (t : UpdateTest)
    → (validate_ignore_list_element_keys t ≡ none) ↔ (
        (t.ignore_list_element_keys ≡ [])
        ⊎ ((present t.skip ≡ false)
            × AreDistinctKeys t.ignore_list_element_keys
            × AreUnassertedInElements t.ignore_list_element_keys (as_list (effective_value t))))
unfolding validate_ignore_list_element_keys
validate_ignore_list_element_keys_iff t =
    ignored_keys_iff t.ignore_list_element_keys (present t.skip) _
      (asserted_in_list_iff t.ignore_list_element_keys (as_list (effective_value t)))
