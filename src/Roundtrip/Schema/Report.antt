-- ===== src/Roundtrip/Schema/Report.antt =====
-- internal/roundtrip/roundtrip.go, DiffReport: the rows of the declared fields that hold a value.
pub mod Rows
use crossplane_update_tester.Base.{
  Text, text, Bool, true, false, not, ◌&&◌, ◌||◌, List, [], ◌∷◌, ◌++◌, map, filter, Option, none,
  some, if◌then◌else◌, list_eq, nat_eq, elem, lookup, sort, sort_by, split, Result, ok, err,
  then_do,
}
use crossplane_update_tester.Value.{Value, null}
use crossplane_update_tester.Json.{as_object, deep_equal, object, object_of}
use crossplane_update_tester.Roundtrip.Cell.{Classification, Row}
use crossplane_update_tester.Roundtrip.Clearing.{is_some}
use crossplane_update_tester.Roundtrip.Schema.{
  Node, SchemaError, field_schema, immutable_paths, leaf_paths, served_schema, visit,
}

-- The loop of getValue, and of valueAtPath, over the segments.
unfoldable pub value_under : List Text → Value → Option Value
unfolding lookup
value_under [] v = some v
value_under (seg ∷ segs) v = elim (as_object v) [
  | none ↦ none
  | some m ↦ elim (lookup seg m) [ none ↦ none | some w ↦ value_under segs w ]
]

abbrev pub get_value : Value → Text → Option Value
get_value v path = value_under (split b'.' path) v

-- classify
unfoldable pub classify : Option Value → Option Value → Option Classification
unfolding deep_equal
classify (some v) (some w) =
    some (if deep_equal v w then Classification.equal else Classification.value_changed)
classify (some v) none = some Classification.present_in_spec_absent_from_mirror
classify none (some w) = some Classification.defaulted_by_server
classify none none = none

abbrev pub value_or_null : Option Value → Value
value_or_null none = null
value_or_null (some v) = v

abbrev pub row_with : Bool → Text → Option Value → Option Value → Option Classification → List Row
row_with immutable path spec mirror none = []
row_with immutable path spec mirror (some c) =
    record {
      path = path;
      classification = c;
      spec_value = value_or_null spec;
      spec_found = is_some spec;
      mirror_value = value_or_null mirror;
      mirror_found = is_some mirror;
      immutable = immutable;
    }
    ∷ []

-- The rows of the first loop.
unfoldable pub spec_rows : List Text → Value → Value → List Text → List Row
unfolding value_under classify
spec_rows immutable spec mirror [] = []
spec_rows immutable spec mirror (p ∷ ps) =
    row_with (elem p immutable) p (get_value spec p) (get_value mirror p)
      (classify (get_value spec p) (get_value mirror p))
    ++ spec_rows immutable spec mirror ps

abbrev pub mirror_row : Text → Option Value → List Row
mirror_row path none = []
mirror_row path (some v) =
    record {
      path = path;
      classification = Classification.present_in_mirror_absent_from_spec;
      spec_value = null;
      spec_found = false;
      mirror_value = v;
      mirror_found = true;
      immutable = false;
    }
    ∷ []

-- The rows of the second loop, over the paths that only status.atProvider declares.
unfoldable pub mirror_rows : Value → List Text → List Row
unfolding value_under
mirror_rows mirror [] = []
mirror_rows mirror (p ∷ ps) = mirror_row p (get_value mirror p) ++ mirror_rows mirror ps

abbrev pub or_empty_object : Option Value → Value
or_empty_object none = object []
or_empty_object (some v) = elim (as_object v) [ none ↦ object [] | some m ↦ object m ]

abbrev pub mirror_only : List Text → List Text → List Text
mirror_only fp ap = filter (λ p. not (elem p fp)) ap

abbrev pub rows_of : Value → Value → Value → Value → List Row
rows_of fp ap spec mirror =
    sort_by (λ r. r.path)
      (spec_rows (immutable_paths fp) spec mirror (sort (leaf_paths fp))
        ++ mirror_rows mirror (sort (mirror_only (leaf_paths fp) (leaf_paths ap))))

unfoldable pub diff_report : Node → Value → Result SchemaError (List Row)
unfolding served_schema field_schema visit spec_rows mirror_rows sort sort_by value_under
diff_report crd o = then_do (served_schema crd) (λ schema.
    then_do (field_schema (text "spec" ∷ text "forProvider" ∷ []) schema) (λ fp.
      then_do (field_schema (text "status" ∷ text "atProvider" ∷ []) schema) (λ ap. ok (
        rows_of fp ap (or_empty_object (get_value o (text "spec.forProvider")))
          (or_empty_object (get_value o (text "status.atProvider")))))))
