-- ===== src/Validator.antt =====
-- internal/validator/validator.go, ValidateManifest: which declared fields of a type the annotation of
-- a manifest covers. The fields come from the parser of the Go types.
pub mod Coverage
use crossplane_update_tester.Base.{
  Text, text, Bool, true, false, not, ◌&&◌, ◌||◌, List, [], ◌∷◌, ◌++◌, is_empty, map, filter, any,
  Option, none, some, if◌then◌else◌, ◌==◌, list_eq, nat_eq, elem, lookup, insert, sort,
  contains_byte, has_suffix, length, ℕ, zero, suc, ◌-◌,
}
use crossplane_update_tester.Value.{Value}
use crossplane_update_tester.Manifest.{UpdateTest, Manifest, present}
use crossplane_update_tester.Runner.Field.{top_field}

pub record FieldInfo : Type 0 where
  pub go_name : Text
  pub json_name : Text
  pub immutable : Bool
  pub go_type : Text
  pub omitempty : Bool

pub data Status : Type 0 where
  tested skipped skipped_unstructured immutable reference_plumbing : Status
  cleared_by_sibling covered_nested guarded_assert_unchanged missing : Status
  field_target_unknown clear_target_unknown with_values_target_unknown : Status

pub record FieldValidation : Type 0 where
  pub json_name : Text
  pub status : Status

pub record ValidationResult : Type 0 where
  pub kind : Text
  pub fields : List FieldValidation
  pub all_good : Bool

abbrev pub reference_plumbing_suffixes : List Text
reference_plumbing_suffixes = text "Ref" ∷ text "Refs" ∷ text "Selector" ∷ []

abbrev pub keep : ℕ → Text → Text
keep zero s = []
keep (suc n) [] = []
keep (suc n) (c ∷ s) = c ∷ keep n s

-- strings.TrimSuffix of a suffix that is there
abbrev pub without_suffix : Text → Text → Text
without_suffix s suffix = keep (length s - length suffix) s

abbrev pub is_plumbing_by : Text → List Text → Text → Bool
is_plumbing_by name names suffix =
    has_suffix name suffix
    && (not (is_empty (without_suffix name suffix)) && elem (without_suffix name suffix) names)

-- isReferencePlumbingField
unfoldable pub is_reference_plumbing_field : Text → List Text → Bool
unfolding has_suffix
is_reference_plumbing_field name names = any (is_plumbing_by name names) reference_plumbing_suffixes

abbrev pub Tested : Type 0
Tested = List (Text × Status)

abbrev pub has_status : Text → Tested → Bool
has_status k m = elim (lookup k m) [ none ↦ false | some s ↦ true ]

abbrev pub status_of_test : UpdateTest → Status
status_of_test t =
    if t.skip.legacy
    then Status.skipped_unstructured
    else if present t.skip
    then Status.skipped
    else Status.tested

abbrev pub is_known : List Text → UpdateTest → Bool
is_known names t = elem (top_field t.field) names

abbrev pub is_top : UpdateTest → Bool
is_top t = top_field t.field == t.field

-- The first loop: the entries of top-level fields.
unfoldable pub tested_from : Tested → List UpdateTest → Tested
unfolding insert
tested_from m [] = m
tested_from m (t ∷ ts) = tested_from (insert t.field (status_of_test t) m) ts

-- if _, ok := tested[key]; !ok { tested[key] = status }, for each of the keys
unfoldable pub credit_all : Status → List Text → Tested → Tested
unfolding insert lookup
credit_all status [] m = m
credit_all status (k ∷ ks) m =
    credit_all status ks (if has_status k m then m else insert k status m)

unfoldable pub cleared_names : List UpdateTest → List Text
unfolding present
cleared_names [] = []
cleared_names (t ∷ ts) =
    let rest = cleared_names ts in if present t.skip then rest else t.clear ++ rest

unfoldable pub sibling_names : List UpdateTest → List Text
unfolding present sort
sibling_names [] = []
sibling_names (t ∷ ts) =
    let rest = sibling_names ts in
    if present t.skip then rest else sort (map (λ (e : Text × Value). e.0) t.with_values) ++ rest

abbrev pub unknown_names : List Text → List Text → List Text
unknown_names names ks = filter (λ k. not (elem k names)) ks

abbrev pub known_names : List Text → List Text → List Text
known_names names ks = filter (λ k. elem k names) ks

abbrev pub unknown_fields : List Text → List UpdateTest → List Text
unknown_fields names ts =
    map (λ (t : UpdateTest). t.field) (filter (λ t. not (is_known names t)) ts)

abbrev pub top_entries : List Text → List UpdateTest → List UpdateTest
top_entries names ts = filter (λ t. is_known names t && is_top t) ts

abbrev pub nested_tops : List Text → List UpdateTest → List Text
nested_tops names ts =
    map (λ (t : UpdateTest). top_field t.field)
      (filter (λ t. is_known names t && not (is_top t)) ts)

-- The map `tested`, as it is when the fields are visited.
unfoldable pub tested_of : List Text → Manifest → Tested
unfolding tested_from credit_all cleared_names top_field
tested_of names m =
    credit_all Status.cleared_by_sibling (known_names names (cleared_names m.tests)) (
      credit_all Status.guarded_assert_unchanged
        (known_names names (map top_field m.assert_unchanged))
        (credit_all Status.covered_nested (nested_tops names m.tests)
          (tested_from [] (top_entries names m.tests))))

abbrev pub status_in : Option Status → Status
status_in none = Status.missing
status_in (some s) = s

unfoldable pub validate_field : List Text → Tested → FieldInfo → FieldValidation
unfolding is_reference_plumbing_field lookup
validate_field names by_name f = record {
  json_name = f.json_name;
  status =
      if f.immutable
      then Status.immutable
      else if is_reference_plumbing_field f.json_name names
      then Status.reference_plumbing
      else status_in (lookup f.json_name by_name);
}

-- The default case of the switch, where the map has no status for the field.
abbrev pub is_missing : List Text → Tested → FieldInfo → Bool
is_missing names by_name f =
    not f.immutable
    && (not (is_reference_plumbing_field f.json_name names) && not (has_status f.json_name by_name))

abbrev pub invalid_entries : Status → List Text → List FieldValidation
invalid_entries status names = map (λ k. record { json_name = k; status = status }) names

abbrev pub names_of_fields : List FieldInfo → List Text
names_of_fields fs = map (λ (f : FieldInfo). f.json_name) fs

abbrev pub targets_known : List Text → Manifest → Bool
targets_known names m =
    is_empty (unknown_fields names m.tests)
    && (is_empty (unknown_names names (cleared_names m.tests))
        && is_empty (unknown_names names (sibling_names m.tests)))

-- ValidateManifest
unfoldable pub validate_manifest : Manifest → List FieldInfo → ValidationResult
unfolding tested_of validate_field cleared_names sibling_names top_field
validate_manifest m fs =
    let names = names_of_fields fs in
    let validated = map (validate_field names (tested_of names m)) fs in
    record {
      kind = m.kind;
      fields =
          invalid_entries Status.field_target_unknown (unknown_fields names m.tests)
          ++ (invalid_entries Status.clear_target_unknown
                (unknown_names names (cleared_names m.tests))
              ++ (invalid_entries Status.with_values_target_unknown
                    (unknown_names names (sibling_names m.tests))
                  ++ validated));
      all_good = targets_known names m && not (any (is_missing names (tested_of names m)) fs);
    }
