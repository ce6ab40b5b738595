-- ===== src/Manifest/Annotation/Laws.antt =====
-- What an annotation that parses is known to satisfy, and what is needed for it to parse.
use mathlib.Core.Path.{subst, ◌∙◌}
use crossplane_update_tester.Base.{
  ℕ, suc, Text, Bool, true, false, not, ◌&&◌, List, [], ◌∷◌, is_empty, is_empty_iff, Option, none,
  some, list_eq, nat_eq, elem_iff, In, All, trim_space, ok, then_do-ok, unless-ok, ok_eq, ◌≡◌, ◌≢◌,
  ◌↔◌, ◌⊎◌, inl, inr, refl, ap, sym, arith, Bool-cases,
}
use crossplane_update_tester.Manifest.{Error, UpdateTest, present, backend_discards}
use crossplane_update_tester.Manifest.Skip.{
  ◌and_then◌, and_then-none, wrap, validate_entry_disposition,
}
use crossplane_update_tester.Manifest.Skip.Laws.{validate_entry_disposition_iff}
use crossplane_update_tester.Manifest.Entries.{
  is_null, carries_tested_content, effective_value, as_map, as_list, validate_ignore_fields,
  validate_clear, validate_with_values, validate_ignore_map_keys, validate_ignore_list_element_keys,
  validate_field_entry_mix,
}
use crossplane_update_tester.Value.{Value, null}
use crossplane_update_tester.Manifest.Entries.Siblings.{
  IsTopLevel, IsSibling, validate_ignore_fields_iff, validate_clear_iff, validate_with_values_iff,
}
use crossplane_update_tester.Manifest.Entries.IgnoredKeys.{
  AreDistinctKeys, AreUnasserted, AreUnassertedInElements, validate_ignore_map_keys_iff,
  validate_ignore_list_element_keys_iff,
}
use crossplane_update_tester.Manifest.Entries.Mix.{PairwiseSameKind, validate_field_entry_mix_iff}
use crossplane_update_tester.Manifest.Directives.{Yaml, Extracted, extract_directives, rest_of}
use crossplane_update_tester.Manifest.Annotation.{
  Annotation, check_directives_of, check_entry, check_entries, fields_of, check_unchanged,
  parse_tests, parse_annotation,
}

-- An entry as the rules of the annotation want it.
pub record IsWellFormedEntry (t : UpdateTest) : Type 0 where
  pub named : t.field ≢ []
  pub valued : (t.value ≡ null) → (t.value_explicit ≡ true) ⊎ (present t.skip ≡ true)
  pub clear :
      (t.clear ≡ []) ⊎ (IsTopLevel t.field × All (λ c. IsTopLevel c × (c ≢ t.field)) t.clear)
  pub with_values :
      (t.with_values ≡ [])
      ⊎ (IsTopLevel t.field
          × ((e : Text × Value) → In e t.with_values → IsSibling t.field t.clear e.0))
  pub map_keys :
      (t.ignore_map_keys ≡ [])
      ⊎ ((present t.skip ≡ false)
          × AreDistinctKeys t.ignore_map_keys
          × AreUnasserted t.ignore_map_keys (as_map (effective_value t)))
  pub list_keys :
      (t.ignore_list_element_keys ≡ [])
      ⊎ ((present t.skip ≡ false)
          × AreDistinctKeys t.ignore_list_element_keys
          × AreUnassertedInElements t.ignore_list_element_keys (as_list (effective_value t)))
  pub disposition :
      (t.disposition ≡ []) ⊎ ((t.disposition ≡ backend_discards) × (present t.skip ≡ false))

is_null_iff : (v : Value) → (is_null v ≡ true) ↔ (v ≡ null)
is_null_iff null = (λ h. refl, λ h. refl)
is_null_iff v = (λ h. cc, λ h. cc)

wrap-none : (f : Error → Error) (o : Option Error) → (wrap f o ≡ none) ↔ (o ≡ none)
wrap-none f none = (λ h. refl, λ h. refl)
wrap-none f (some e) = (λ h. cc, λ h. cc)

-- The five validations of one entry, all passed.
record PassesDirectives (t : UpdateTest) : Type 0 where
  clear : validate_clear t.field t.clear ≡ none
  with_values : validate_with_values t.field t.with_values t.clear ≡ none
  map_keys : validate_ignore_map_keys t ≡ none
  list_keys : validate_ignore_list_element_keys t ≡ none
  disposition : validate_entry_disposition t ≡ none

check_directives_iff : (t : UpdateTest) → (check_directives_of t ≡ none) ↔ PassesDirectives t
check_directives_iff t = ground arith

PassesDirectives-entry :
    (t : UpdateTest)
    → t.field ≢ []
    → ((t.value ≡ null) → (t.value_explicit ≡ true) ⊎ (present t.skip ≡ true))
    → PassesDirectives t
    → IsWellFormedEntry t
PassesDirectives-entry t named valued p = record {
  named = named;
  valued = valued;
  clear = (validate_clear_iff t.field t.clear).0 p.clear;
  with_values = (validate_with_values_iff t.field t.with_values t.clear).0 p.with_values;
  map_keys = (validate_ignore_map_keys_iff t).0 p.map_keys;
  list_keys = (validate_ignore_list_element_keys_iff t).0 p.list_keys;
  disposition = (validate_entry_disposition_iff t).0 p.disposition;
}

entry-PassesDirectives : (t : UpdateTest) → IsWellFormedEntry t → PassesDirectives t
entry-PassesDirectives t w = record {
  clear = (validate_clear_iff t.field t.clear).1 w.clear;
  with_values = (validate_with_values_iff t.field t.with_values t.clear).1 w.with_values;
  map_keys = (validate_ignore_map_keys_iff t).1 w.map_keys;
  list_keys = (validate_ignore_list_element_keys_iff t).1 w.list_keys;
  disposition = (validate_entry_disposition_iff t).1 w.disposition;
}

-- The first two tests of an entry.
abbrev needs_value : UpdateTest → Bool
needs_value t = is_null t.value && not t.value_explicit && not (present t.skip)

needs_value_iff :
    (t : UpdateTest)
    → (needs_value t ≡ false)
      ↔ ((t.value ≡ null) → (t.value_explicit ≡ true) ⊎ (present t.skip ≡ true))
needs_value_iff t = ground (arith, is_null_iff t.value)

check_entry_iff : (i : ℕ) (t : UpdateTest) → (check_entry i t ≡ none) ↔ IsWellFormedEntry t
unfolding check_entry
check_entry_iff i t = elim (Bool-cases (is_empty t.field)) [
  | inl e ↦ rw e (λ h. cc, λ w. absurd (w.named ((is_empty_iff t.field).0 e)))
  | inr named ↦ elim (Bool-cases (needs_value t)) [
    | inl v ↦ rw (named, v) (λ h. cc, λ w. cc (v, (needs_value_iff t).1 w.valued))
    | inr v ↦
        let (to, from) = wrap-none (Error.entry i t.field) (check_directives_of t) in
        rw (named, v)
          (
            λ h.
                PassesDirectives-entry t (λ e. cc (named, (is_empty_iff t.field).1 e))
                  ((needs_value_iff t).0 v) ((check_directives_iff t).0 (to h)),
            λ w. from ((check_directives_iff t).1 (entry-PassesDirectives t w)),
          )
  ]
]

check_entries_iff :
    (i : ℕ) (ts : List UpdateTest) → (check_entries i ts ≡ none) ↔ All IsWellFormedEntry ts
unfolding check_entries
check_entries_iff i [] = (λ h. tt, λ h. refl)
check_entries_iff i (t ∷ ts) =
    let (to, from) = check_entry_iff i t in
    let (tos, froms) = check_entries_iff (suc i) ts in
    (
      λ h.
          let (a, b) = and_then-none (check_entry i t) (check_entries (suc i) ts) h in
          (to a, tos b),
      λ h. rw (from h.0) (froms h.1),
    )

check_unchanged_iff :
    (tested fs : List Text) → (check_unchanged tested fs ≡ none) ↔ All (λ f. ¬ In f tested) fs
unfolding check_unchanged
check_unchanged_iff tested [] = (λ h. tt, λ h. refl)
check_unchanged_iff tested (f ∷ fs) =
    ground (arith, check_unchanged_iff tested fs, elem_iff f tested)

-- The entries and the directives together.
pub record IsWellFormed (a : Annotation) : Type 0 where
  pub entries : All IsWellFormedEntry a.tests
  pub separate : All (λ t. present t.skip ≡ true → carries_tested_content t ≡ false) a.tests
  pub consistent : PairwiseSameKind a.tests
  pub unchanged : All (λ f. ¬ In f (fields_of a.tests)) a.assert_unchanged
  pub ignored : All IsTopLevel a.ignore_fields

checks_iff :
    (a : Annotation)
    → ((validate_ignore_fields a.ignore_fields ≡ none)
        × ((check_entries 0 a.tests
              and_then validate_field_entry_mix a.tests
              and_then check_unchanged (fields_of a.tests) a.assert_unchanged)
            ≡ none))
      ↔ IsWellFormed a
checks_iff a =
    let (to₁, from₁) = check_entries_iff 0 a.tests in
    let (to₂, from₂) = validate_field_entry_mix_iff a.tests in
    let (to₃, from₃) = check_unchanged_iff (fields_of a.tests) a.assert_unchanged in
    let (to₄, from₄) = validate_ignore_fields_iff a.ignore_fields in
    (
      λ h.
          let (e, r) = and_then-none (check_entries 0 a.tests) _ h.1 in
          let (m, u) = and_then-none (validate_field_entry_mix a.tests) _ r in
          record {
            entries = to₁ e;
            separate = (to₂ m).0;
            consistent = (to₂ m).1;
            unchanged = to₃ u;
            ignored = to₄ h.0;
          },
      λ w. (
        from₄ w.ignored,
        rw (from₁ w.entries, from₂ (w.separate, w.consistent)) (from₃ w.unchanged),
      ),
    )

-- What ParseAnnotation returns, when it returns no error, with the directives that were extracted.
abbrev pub annotation_of : Extracted → List UpdateTest → Annotation
annotation_of e tests = record {
  tests = tests;
  converge_skip = e.converge_skip;
  assert_unchanged = e.assert_unchanged;
  ignore_fields = e.ignore_fields;
}

-- The directives can be extracted, what they leave parses as the entries of `a`, `a` has the
-- directives, and it is well formed.
abbrev pub IsParsed : Yaml → Text → Annotation → Type 0
IsParsed yaml annotation a =
    (e : Extracted) × (extract_directives yaml annotation ≡ ok e)
    × (parse_tests yaml (trim_space (rest_of e)) ≡ ok a.tests)
    × (annotation_of e a.tests ≡ a)
    × IsWellFormed a

-- An annotation parses to `a` exactly when its directives can be extracted, what they leave parses
-- as the entries of `a` (no entry where only white space is left), `a` has those directives, and the
-- whole is well formed. Every other annotation is refused.
pub parse_annotation_iff :
    (yaml : Yaml) (annotation : Text) (a : Annotation)
    → (parse_annotation yaml annotation ≡ ok a) ↔ IsParsed yaml annotation a
unfolding parse_annotation
parse_annotation_iff yaml annotation a = (forward, backward)
  where
    forward : parse_annotation yaml annotation ≡ ok a → IsParsed yaml annotation a
    forward h =
        let (e, extracted, h₁) = then_do-ok (extract_directives yaml annotation) _ h in
        let (ignored, h₂) = unless-ok (validate_ignore_fields e.ignore_fields) _ h₁ in
        let (tests, parsed, h₃) = then_do-ok (parse_tests yaml (trim_space (rest_of e))) _ h₂ in
        let (checked, h₄) =
          unless-ok
            (check_entries 0 tests
              and_then validate_field_entry_mix tests
              and_then check_unchanged (fields_of tests) e.assert_unchanged)
            _ h₃ in
        let same : annotation_of e tests ≡ a = ok_eq h₄ in
        let same_tests : tests ≡ a.tests = ap (λ (x : Annotation). x.tests) same in
        (
          e,
          extracted,
          parsed ∙ ap ok same_tests,
          subst (λ ts. annotation_of e ts ≡ a) same_tests same,
          subst IsWellFormed same ((checks_iff (annotation_of e tests)).0 (ignored, checked)),
        )

    backward : IsParsed yaml annotation a → parse_annotation yaml annotation ≡ ok a
    backward (e, extracted, parsed, same, w) =
        let (ignored, checked) =
          (checks_iff (annotation_of e a.tests)).1 (subst IsWellFormed (sym same) w) in
        rw (extracted, ignored, parsed, checked) (ap ok same)
