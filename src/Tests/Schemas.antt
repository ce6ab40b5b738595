-- ===== src/Tests/Schemas.antt =====
-- A schema with a scalar, a list and a map, and the rows of an object of it.
use crossplane_update_tester.Base.{
  Text, text, true, false, List, [], ◌∷◌, In, inl, refl, elem, list_eq, nat_eq, ◌≡◌, ◌⊎◌, lookup,
  sort, sort_by, insert_by, text_le, split,
}
use crossplane_update_tester.Value.{Value, str}
use crossplane_update_tester.Json.{object, deep_equal}
use crossplane_update_tester.Roundtrip.Cell.{Classification, Row}
use crossplane_update_tester.Roundtrip.Clearing.{is_some}
use crossplane_update_tester.Roundtrip.Schema.{
  immutable_paths, is_immutable_rule, leaf_paths, node_has_immutable_marker, visit,
}
use crossplane_update_tester.Roundtrip.Schema.Report.{
  classify, get_value, mirror_rows, rows_of, spec_rows, value_under,
}
use crossplane_update_tester.Roundtrip.Schema.Report.Rows.{IsClassified, In-rows_of}
use crossplane_update_tester.Roundtrip.Ineligible.{strip_outer_parens}
use crossplane_update_tester.Roundtrip.Ineligible.Parentheses.{Strips, strip_outer_parens-Strips}

abbrev node : Text → List (Text × Value) → Value
node kind rest = object ((text "type", str kind) ∷ rest)

abbrev schema : Value
schema = node (text "object") (
    (
      text "properties",
      object (
          (text "size", node (text "string") [])
          ∷ (
            text "network",
            node (text "object")
                ((text "properties", object ((text "rules", node (text "array") []) ∷ [])) ∷ []),
          )
          ∷ []),
    )
    ∷ [])

abbrev size_only : Text → Value
size_only s = object ((text "size", str s) ∷ [])

abbrev changed : Row
changed = record {
  path = text "size";
  classification = Classification.value_changed;
  spec_value = str (text "1");
  spec_found = true;
  mirror_value = str (text "2");
  mirror_found = true;
  immutable = false;
}

changed_reported : In changed (rows_of schema schema (size_only (text "1")) (size_only (text "2")))
unfolding visit lookup sort sort_by insert_by text_le spec_rows mirror_rows classify deep_equal
    value_under split is_immutable_rule node_has_immutable_marker
changed_reported = inl refl

In-rows_of_example :
    (In (text "size") (leaf_paths schema)
      × IsClassified
          (get_value (size_only (text "1")) (text "size"))
          (get_value (size_only (text "2")) (text "size"))
          Classification.value_changed
      × (false ≡ elem (text "size") (immutable_paths schema)))
    ⊎ (In (text "size") (leaf_paths schema)
        × (¬ In (text "size") (leaf_paths schema))
        × (is_some (get_value (size_only (text "2")) (text "size")) ≡ true)
        × (Classification.value_changed ≡ Classification.present_in_mirror_absent_from_spec))
In-rows_of_example =
    In-rows_of schema schema (size_only (text "1")) (size_only (text "2")) changed changed_reported

strip_outer_parens-Strips_example :
    Strips (text "((a || b))") (strip_outer_parens (text "((a || b))"))
strip_outer_parens-Strips_example = strip_outer_parens-Strips (text "((a || b))")
