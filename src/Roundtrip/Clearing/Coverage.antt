-- ===== src/Roundtrip/Clearing/Coverage.antt =====
-- internal/roundtrip/containerclear.go, ContainerClearCoverage, with what ineligible.go says of a leaf
-- that the manifest gives no value; a copied value is the value.
pub mod Credits
pub mod Findings
pub mod Clashes
pub mod Presence
use crossplane_update_tester.Base.{
  Text, Bool, true, false, ◌&&◌, ◌||◌, not, List, [], ◌∷◌, Option, none, some, if◌then◌else◌,
  list_eq, nat_eq, elem, lookup, insert, split, is_empty, Result, ◌++◌,
}
use crossplane_update_tester.Value.{Value}
use crossplane_update_tester.Json.{as_object, object}
use crossplane_update_tester.Manifest.{UpdateTest, Manifest, present}
use crossplane_update_tester.Roundtrip.Cell.{Shape, CellKey, cell_key_eq}
use crossplane_update_tester.Roundtrip.Clearing.{
  ContainerLeaf, IneligibilityReason, Reasons, ContainerClearFinding, BothVerdicts, Routes,
  clear_key, routes_of, coverage_for, findings_for, is_some,
}

abbrev pub object_at : Text → List (Text × Value) → Option (List (Text × Value))
object_at seg m = elim (lookup seg m) [ none ↦ none | some v ↦ as_object v ]

-- The loop of presentAtPath over the segments. (A path has a segment.)
unfoldable pub present_under : List Text → List (Text × Value) → Bool
unfolding lookup
present_under [] m = false
present_under (seg ∷ []) m = is_some (lookup seg m)
present_under (seg ∷ next ∷ segs) m = elim (object_at seg m) [
  | none ↦ false
  | some below ↦ present_under (next ∷ segs) below
]

abbrev pub present_at_path : List (Text × Value) → Text → Bool
present_at_path root dotted = present_under (split b'.' dotted) root

abbrev pub or_new : Option (List (Text × Value)) → List (Text × Value)
or_new none = []
or_new (some m) = m

-- The loop of setAtPath over the segments.
unfoldable pub set_under : List Text → Value → List (Text × Value) → List (Text × Value)
unfolding insert
set_under [] v m = m
set_under (seg ∷ []) v m = insert seg v m
set_under (seg ∷ next ∷ segs) v m =
    insert seg (object (set_under (next ∷ segs) v (or_new (object_at seg m)))) m

abbrev pub set_at_path : List (Text × Value) → Text → Value → List (Text × Value)
set_at_path tree dotted v = set_under (split b'.' dotted) v tree

unfoldable pub set_each : List (Text × Value) → List (Text × Value) → List (Text × Value)
unfolding set_under
set_each tree [] = tree
set_each tree ((sibling, v) ∷ rest) = set_each (set_at_path tree sibling v) rest

abbrev pub add_data : List (Text × Value) → UpdateTest → List (Text × Value)
add_data tree t =
    if present t.skip
    then tree
    else set_each (if is_empty t.field then tree else set_at_path tree t.field t.value)
        t.with_values

unfoldable pub data_tree_from : List (Text × Value) → List UpdateTest → List (Text × Value)
unfolding set_each set_under
data_tree_from tree [] = tree
data_tree_from tree (t ∷ ts) = data_tree_from (add_data tree t) ts

-- testEntryDataTree
abbrev pub test_entry_data_tree : Manifest → List (Text × Value)
test_entry_data_tree m = data_tree_from [] m.tests

-- The cells with a covered leaf that the structural reasons leave eligible.
unfoldable pub covered_cells : Routes → Reasons → List ContainerLeaf → List CellKey
unfolding coverage_for lookup
covered_cells r structural [] = []
covered_cells r structural (leaf ∷ leaves) =
    let rest = covered_cells r structural leaves in
    if not (is_some (lookup leaf.path structural)) && is_some (coverage_for r leaf)
    then clear_key leaf.shape leaf.path ∷ rest
    else rest

-- A marker counts where its cell has no covered leaf.
unfoldable pub add_markers : List CellKey → Reasons → Reasons → Reasons
unfolding insert
add_markers cells [] reasons = reasons
add_markers cells ((path, reason) ∷ markers) reasons =
    add_markers cells markers
      (if elem (clear_key Shape.list path) cells then reasons else insert path reason reasons)

-- classifyAbsentFromManifest
unfoldable pub classify_absent_from_manifest :
    List ContainerLeaf → Manifest → Reasons → List CellKey → Reasons
unfolding present_under data_tree_from lookup insert
classify_absent_from_manifest [] m reasons cells = []
classify_absent_from_manifest (leaf ∷ leaves) m reasons cells =
    let rest = classify_absent_from_manifest leaves m reasons cells in
    if is_some (lookup leaf.path reasons)
      || elem (clear_key leaf.shape leaf.path) cells
      || present_at_path m.for_provider leaf.path
      || present_at_path (test_entry_data_tree m) leaf.path
    then rest
    else insert leaf.path IneligibilityReason.absent_from_manifest rest

unfoldable pub insert_all : Reasons → Reasons → Reasons
unfolding insert
insert_all [] reasons = reasons
insert_all ((path, reason) ∷ more) reasons = insert_all more (insert path reason reasons)

abbrev pub ineligible_leaves : Manifest → List ContainerLeaf → Reasons → Reasons → Reasons
ineligible_leaves m leaves structural marker_only =
    let cells = covered_cells (routes_of m.tests) structural leaves in
    let marked = add_markers cells marker_only structural in
    insert_all (classify_absent_from_manifest leaves m marked cells) marked

-- ContainerClearCoverage, from the leaves that the CRD declares and classifyIneligibility's verdicts
-- on them.
unfoldable pub container_clear_coverage :
    Manifest
    → List ContainerLeaf
    → Reasons
    → Reasons
    → Result BothVerdicts (List ContainerClearFinding)
unfolding findings_for
container_clear_coverage m leaves structural marker_only =
    findings_for (routes_of m.tests) (ineligible_leaves m leaves structural marker_only) leaves
