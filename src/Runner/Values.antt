-- ===== src/Runner/Values.antt =====
-- internal/runner/runner.go: reading a field of a resource, comparing it, and the merge patch.
pub mod Navigation
pub mod Patching
use crossplane_update_tester.Base.{
  Text, text, Bool, true, false, ◌&&◌, List, [], ◌∷◌, ◌++◌, is_empty, map, Option, none, some,
  ◌>>=◌, if◌then◌else◌, ◌==◌, list_eq, nat_eq, lookup, insert, split, has_prefix, Result, ok, err,
  then_do, unless,
}
use crossplane_update_tester.Value.{Value, null, arr, obj, str, items, fields}
use crossplane_update_tester.Json.{Codec, as_object, object, to_items, deep_equal, without}
use crossplane_update_tester.Manifest.{Error}
use crossplane_update_tester.Manifest.Entries.{is_null, validate_clear, validate_with_values}

-- The errors that the runner reports, with the values their messages show. `call` is an error of
-- the cluster client.
pub data Failure : Type 0 where
  call : Text → Failure
  container_not_object : List Text → Failure
  parent_not_object parsing_snapshot marshalling reading : Text → Failure
  invalid_patch : Error → Failure
  not_a_map : Text → Failure
  no_such_field : Text → Failure
  no_op : Text → Failure
  counting_before counting_after : Failure → Failure
  not_evidenced : Text → Failure
  post_update_snapshot diffing checking_unchanged checking_clears : Failure → Failure
  initial_snapshot waiting_for_synced : Failure → Failure
  synced_timeout : Failure

-- The two loops of navigateJSONPath; `refuse` is the loop's error at a parent that is no object.
unfoldable pub descend : (Text → Failure) → Value → List Text → Result Failure (Option Value)
descend refuse curr [] = ok (some curr)
descend refuse curr (key ∷ keys) = elim (as_object curr) [
  | none ↦ err (refuse key)
  | some m ↦ elim (lookup key m) [ none ↦ ok none | some v ↦ descend refuse v keys ]
]

abbrev pub descend_from : Option Value → List Text → Result Failure (Option Value)
descend_from none parts = ok none
descend_from (some curr) parts = descend Failure.parent_not_object curr parts

unfoldable pub navigate_json_path : Value → List Text → Text → Result Failure (Option Value)
unfolding descend
navigate_json_path o container path =
    then_do (descend (λ _. Failure.container_not_object container) o container)
      (λ curr. descend_from curr (split b'.' path))

abbrev pub navigate_at_provider : Value → Text → Result Failure (Option Value)
navigate_at_provider o path = navigate_json_path o (text "status" ∷ text "atProvider" ∷ []) path

abbrev pub navigate_spec_for_provider : Value → Text → Result Failure (Option Value)
navigate_spec_for_provider o path =
    navigate_json_path o (text "spec" ∷ text "forProvider" ∷ []) path

-- The value that the navigation returns beside its flag: nil where nothing is found.
abbrev pub or_null : Option Value → Value
or_null none = null
or_null (some v) = v

-- for i := len(parts) - 1; i >= 0; i--
unfoldable pub nest : List Text → Value → Value
nest [] v = v
nest (part ∷ parts) v = object ((part, nest parts v) ∷ [])

unfoldable pub clear_all : List Text → List (Text × Value) → List (Text × Value)
clear_all [] m = m
clear_all (c ∷ cs) m = clear_all cs (insert c null m)

-- The entries of a map are written in any order: its keys are distinct.
unfoldable pub set_all : List (Text × Value) → List (Text × Value) → List (Text × Value)
set_all [] m = m
set_all ((k, v) ∷ r) m = insert k v (set_all r m)

abbrev pub with_siblings : Text → Value → List Text → List (Text × Value) → Result Failure Value
with_siblings path inner clear with_values =
    if is_empty clear && is_empty with_values then ok inner else elim (as_object inner) [
      | none ↦ err (Failure.not_a_map path)
      | some m ↦ ok (object (set_all with_values (clear_all clear m)))
    ]

abbrev pub patch_of : Value → Value
patch_of inner = object ((text "spec", object ((text "forProvider", inner) ∷ [])) ∷ [])

abbrev pub invalid : {A : Type 0} → Option Error → Result Failure A → Result Failure A
invalid none r = r
invalid (some e) r = err (Failure.invalid_patch e)

-- buildMergePatch up to its json.Marshal
unfoldable pub merge_patch : Text → Value → List Text → List (Text × Value) → Result Failure Value
merge_patch path v clear with_values = invalid (validate_clear path clear) (
    invalid (validate_with_values path with_values clear) (
      then_do (with_siblings path (nest (split b'.' path) v) clear with_values)
        (λ inner. ok (patch_of inner))))

abbrev pub marshalled : Text → Option Text → Result Failure Text
marshalled path none = err (Failure.marshalling path)
marshalled path (some t) = ok t

-- stripKeys
abbrev pub strip_keys : List Text → Value → Value
strip_keys keys (obj fs) = object (without keys (fields fs))
strip_keys keys v = v

-- stripListElementKeys
abbrev pub strip_list_element_keys : List Text → Value → Value
strip_list_element_keys keys (arr vs) =
    if is_empty keys then arr vs else arr (to_items (map (strip_keys keys) (items vs)))
strip_list_element_keys keys v = v

module _ (codec : Codec) where
  -- stringifyFieldValue
  abbrev pub stringify : Value → Text → Result Failure Text
  stringify null path = ok []
  stringify (str s) path = ok s
  stringify v path = marshalled path (codec.marshal v)

  unfoldable pub build_merge_patch :
      Text → Value → List Text → List (Text × Value) → Result Failure Text
  unfolding merge_patch
  build_merge_patch path v clear with_values =
      then_do (merge_patch path v clear with_values) (λ p. marshalled path (codec.marshal p))

  -- ReadField, of the object that GetObject returns
  unfoldable pub read_field : Value → Text → Result Failure Text
  unfolding navigate_json_path
  read_field o path = then_do (navigate_at_provider o path) (λ v. stringify (or_null v) path)

  abbrev pub at_provider_unless : Result Failure (Option Value) → Value → Text → Result Failure Text
  at_provider_unless (ok (some v)) o path =
      if is_null v then read_field o path else stringify v path
  at_provider_unless _ o path = read_field o path

  -- readCurrentValue, of the object that GetObject returns
  unfoldable pub read_current_value : Value → Text → Result Failure Text
  unfolding navigate_json_path read_field
  read_current_value o path = at_provider_unless (navigate_spec_for_provider o path) o path

  -- formatExpected
  abbrev pub format_expected : Value → Text
  format_expected (str s) = s
  format_expected v = elim (codec.marshal v) [ none ↦ codec.print v | some t ↦ t ]

  -- The comparison of the two normal forms; of the texts where one of them is no JSON.
  abbrev pub equal_texts : Text → Text → Option Value → Option Value → Bool
  equal_texts expected actual (some v) (some w) = deep_equal v w
  equal_texts expected actual _ _ = expected == actual

  unfoldable pub json_equal : Value → Text → Bool
  json_equal (str s) actual = s == actual
  json_equal null actual = is_empty actual
  json_equal v actual = elim (codec.marshal v) [
    | none ↦ codec.print v == actual
    | some t ↦ equal_texts t actual (codec.unmarshal t) (codec.unmarshal actual)
  ]

  abbrev pub stripped : List Text → List Text → Value → Value
  stripped map_keys element_keys v = strip_list_element_keys element_keys (strip_keys map_keys v)

  abbrev pub equal_stripped : List Text → List Text → Option Value → Option Value → Bool
  equal_stripped map_keys element_keys (some v) (some w) =
      deep_equal (stripped map_keys element_keys v) (stripped map_keys element_keys w)
  equal_stripped map_keys element_keys _ _ = false

  unfoldable pub compare_field_value : Value → Text → List Text → List Text → Bool
  unfolding json_equal
  compare_field_value expected actual map_keys element_keys =
      if is_empty map_keys && is_empty element_keys
      then json_equal expected actual
      else equal_stripped map_keys element_keys (codec.marshal expected >>= codec.unmarshal)
          (codec.unmarshal actual)

-- CheckExternalNamePrefix: the error is its reason.
pub data NameFault : Type 0 where
  absent : NameFault
  other_prefix : Text → Text → NameFault

unfoldable pub check_external_name_prefix : Text → Text → Result NameFault Unit
check_external_name_prefix name expected =
    if is_empty name
    then err NameFault.absent
    else if has_prefix name expected
    then ok tt
    else err (NameFault.other_prefix name expected)
