-- ===== src/Manifest/Entries.antt =====
-- The validation of clear:, withValues:, ignoreMapKeys: and ignoreListElementKeys:, and of the
-- entries of one annotation together.
pub mod Siblings
pub mod Mix
pub mod IgnoredKeys
use crossplane_update_tester.Base.{
  Text, text, Bool, true, false, not, ◌&&◌, ◌||◌, List, [], ◌∷◌, is_empty, map, Option, none, some,
  if◌then◌else◌, ◌==◌, list_eq, nat_eq, elem, contains_byte, lookup, insert, sort, any,
}
use crossplane_update_tester.Value.{Value, null, arr, obj, fields, items, Fields}
use crossplane_update_tester.Manifest.{Error, UpdateTest, present}
use crossplane_update_tester.Manifest.Skip.{◌and_then◌}

-- The loop of ValidateIgnoreFields.
unfoldable pub validate_ignore_fields : List Text → Option Error
validate_ignore_fields [] = none
validate_ignore_fields (f ∷ fs) =
    if contains_byte b'.' f then some (Error.dotted_ignore_field f) else validate_ignore_fields fs

unfoldable pub clear_entries : Text → List Text → Option Error
clear_entries field [] = none
clear_entries field (c ∷ cs) =
    if contains_byte b'.' c
    then some (Error.dotted_entry c)
    else if c == field
    then some (Error.names_itself c)
    else clear_entries field cs

unfoldable pub validate_clear : Text → List Text → Option Error
validate_clear field clear =
    if is_empty clear
    then none
    else if contains_byte b'.' field
    then some (Error.nested_field field)
    else clear_entries field clear

unfoldable pub with_values_entries : Text → List Text → List Text → Option Error
with_values_entries field clear [] = none
with_values_entries field clear (k ∷ ks) =
    if contains_byte b'.' k
    then some (Error.dotted_entry k)
    else if k == field
    then some (Error.names_itself k)
    else if elem k clear
    then some (Error.named_in_clear k)
    else with_values_entries field clear ks

-- The keys of the map are visited in sorted order.
unfoldable pub validate_with_values : Text → List (Text × Value) → List Text → Option Error
validate_with_values field with_values clear =
    if is_empty with_values
    then none
    else if contains_byte b'.' field
    then some (Error.nested_field field)
    else with_values_entries field clear (sort (map (λ e. e.0) with_values))

-- The first loop of both ignore validations; `seen` is the map of the keys that came before.
unfoldable pub distinct_keys : List Text → List Text → Option Error
distinct_keys seen [] = none
distinct_keys seen (k ∷ ks) =
    if is_empty k
    then some Error.empty_key
    else if elem k seen
    then some (Error.repeated_key k)
    else distinct_keys (k ∷ seen) ks

abbrev pub is_null : Value → Bool
is_null null = true
is_null _ = false

-- The value that the observation is compared with: expect: if it is given, else value:.
unfoldable pub effective_value : UpdateTest → Value
effective_value t = if is_null t.expect then t.value else t.expect

unfoldable pub key_present : Text → List (Text × Value) → Bool
key_present k [] = false
key_present k ((j, v) ∷ m) = j == k || key_present k m

unfoldable pub asserted_keys : List Text → List (Text × Value) → Option Error
asserted_keys [] m = none
asserted_keys (k ∷ ks) m =
    if key_present k m then some (Error.key_is_asserted k) else asserted_keys ks m

-- effective.(map[string]interface{})
abbrev pub as_map : Value → Option (List (Text × Value))
as_map (obj fs) = some (fields fs)
as_map _ = none

abbrev pub as_list : Value → Option (List Value)
as_list (arr vs) = some (items vs)
as_list _ = none

abbrev pub asserted_in_map : List Text → Option (List (Text × Value)) → Option Error
asserted_in_map ks none = none
asserted_in_map ks (some m) = asserted_keys ks m

unfoldable pub asserted_in_elements : List Text → List Value → Option Error
asserted_in_elements ks [] = none
asserted_in_elements ks (v ∷ vs) = asserted_in_map ks (as_map v) and_then asserted_in_elements ks vs

abbrev pub asserted_in_list : List Text → Option (List Value) → Option Error
asserted_in_list ks none = none
asserted_in_list ks (some vs) = asserted_in_elements ks vs

unfoldable pub validate_ignore_map_keys : UpdateTest → Option Error
validate_ignore_map_keys t =
    if is_empty t.ignore_map_keys
    then none
    else if present t.skip
    then some Error.ignore_keys_with_skip
    else distinct_keys [] t.ignore_map_keys
      and_then asserted_in_map t.ignore_map_keys (as_map (effective_value t))

unfoldable pub validate_ignore_list_element_keys : UpdateTest → Option Error
validate_ignore_list_element_keys t =
    if is_empty t.ignore_list_element_keys
    then none
    else if present t.skip
    then some Error.ignore_keys_with_skip
    else distinct_keys [] t.ignore_list_element_keys
      and_then asserted_in_list t.ignore_list_element_keys (as_list (effective_value t))

-- entryCarriesTestedContent
unfoldable pub carries_tested_content : UpdateTest → Bool
carries_tested_content t =
    not (is_null t.value)
    || t.value_explicit
    || not (is_null t.expect)
    || not (is_empty t.clear)
    || not (is_empty t.with_values)

unfoldable pub no_skip_with_test : List UpdateTest → Option Error
no_skip_with_test [] = none
no_skip_with_test (t ∷ ts) =
    if present t.skip && carries_tested_content t
    then some (Error.skip_with_test t.field)
    else no_skip_with_test ts

-- kindByField: whether the first entry of a field carried skip:.
abbrev pub kind_differs : Option Bool → Bool → Bool
kind_differs none skipped = false
kind_differs (some true) skipped = not skipped
kind_differs (some false) skipped = skipped

abbrev pub record_kind : Option Bool → Text → Bool → List (Text × Bool) → List (Text × Bool)
record_kind none field skipped kinds = insert field skipped kinds
record_kind (some _) field skipped kinds = kinds

unfoldable pub same_kinds : List (Text × Bool) → List UpdateTest → Option Error
same_kinds kinds [] = none
same_kinds kinds (t ∷ ts) =
    if kind_differs (lookup t.field kinds) (present t.skip)
    then some (Error.mixed_entries t.field)
    else same_kinds (record_kind (lookup t.field kinds) t.field (present t.skip) kinds) ts

unfoldable pub validate_field_entry_mix : List UpdateTest → Option Error
validate_field_entry_mix tests = no_skip_with_test tests and_then same_kinds [] tests
