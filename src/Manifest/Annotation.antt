-- ===== src/Manifest/Annotation.antt =====
-- ParseAnnotation: the directives, the YAML entries and their validation, in the code's order.
pub mod Laws
use crossplane_update_tester.Base.{
  ℕ, suc, Text, text, Bool, true, false, not, ◌&&◌, ◌||◌, List, [], ◌∷◌, is_empty, map, Option,
  none, some, if◌then◌else◌, ◌==◌, list_eq, nat_eq, elem, trim_space, Result, ok, err, then_do,
  unless,
}
use crossplane_update_tester.Manifest.{Error, UpdateTest, present}
use crossplane_update_tester.Manifest.Skip.{◌and_then◌, wrap, validate_entry_disposition}
use crossplane_update_tester.Manifest.Entries.{
  is_null, validate_ignore_fields, validate_clear, validate_with_values, validate_ignore_map_keys,
  validate_ignore_list_element_keys, validate_field_entry_mix,
}
use crossplane_update_tester.Manifest.Directives.{Yaml, Extracted, extract_directives, rest_of}

pub record Annotation : Type 0 where
  pub tests : List UpdateTest
  pub converge_skip : Text
  pub assert_unchanged : List Text
  pub ignore_fields : List Text

-- The checks of one entry that the code wraps with its index and its field.
abbrev pub check_directives_of : UpdateTest → Option Error
check_directives_of t =
    validate_clear t.field t.clear
    and_then validate_with_values t.field t.with_values t.clear
    and_then validate_ignore_map_keys t
    and_then validate_ignore_list_element_keys t
    and_then validate_entry_disposition t

unfoldable pub check_entry : ℕ → UpdateTest → Option Error
check_entry i t =
    if is_empty t.field
    then some (Error.field_required i)
    else if is_null t.value && not t.value_explicit && not (present t.skip)
    then some (Error.value_required i t.field)
    else wrap (Error.entry i t.field) (check_directives_of t)

unfoldable pub check_entries : ℕ → List UpdateTest → Option Error
check_entries i [] = none
check_entries i (t ∷ ts) = check_entry i t and_then check_entries (suc i) ts

abbrev pub fields_of : List UpdateTest → List Text
fields_of ts = map (λ t. t.field) ts

-- `tested` is the set of the fields that have an entry.
unfoldable pub check_unchanged : List Text → List Text → Option Error
check_unchanged tested [] = none
check_unchanged tested (f ∷ fs) =
    if elem f tested then some (Error.patched_and_unchanged f) else check_unchanged tested fs

module _ (yaml : Yaml) where
  abbrev pub or_bad_yaml : Text → Option (List UpdateTest) → Result Error (List UpdateTest)
  or_bad_yaml rest none = err (Error.bad_yaml rest)
  or_bad_yaml rest (some ts) = ok ts

  -- No YAML is read where nothing but white space is left.
  abbrev pub parse_tests : Text → Result Error (List UpdateTest)
  parse_tests rest = if is_empty rest then ok [] else or_bad_yaml rest (yaml.unmarshal_tests rest)

  unfoldable pub parse_annotation : Text → Result Error Annotation
  parse_annotation annotation = then_do (extract_directives yaml annotation) λ e.
      unless (validate_ignore_fields e.ignore_fields) (
        then_do (parse_tests (trim_space (rest_of e))) λ tests.
          unless
            (check_entries 0 tests
              and_then validate_field_entry_mix tests
              and_then check_unchanged (fields_of tests) e.assert_unchanged)
            (ok (record {
              tests = tests;
              converge_skip = e.converge_skip;
              assert_unchanged = e.assert_unchanged;
              ignore_fields = e.ignore_fields;
            })))
