-- ===== src/Tests/Clearings.antt =====
-- A list leaf and a map leaf, one cleared by a test and one of a cell that blocks.
use crossplane_update_tester.Base.{
  text, true, false, List, [], ◌∷◌, map, some, In, refl, ok, list_eq, nat_eq, ◌≡◌, ◌≢◌, ◌↔◌, ◌⊎◌,
  contains_byte, lookup, insert, split, join,
}
use crossplane_update_tester.Value.{null, num, str}
use crossplane_update_tester.Json.{object}
use crossplane_update_tester.Manifest.{
  UpdateTest, Manifest, no_skip, backend_discards, present, effective_disposition,
}
use crossplane_update_tester.Roundtrip.Cell.{CellKey, CellKey-discrete, Shape}
use crossplane_update_tester.Roundtrip.Clearing.{
  ClearRoute, ContainerClearFinding, ContainerLeaf, clear_key, coverage_for, disposition_for,
  eligible_finding, finding_for, findings_for, routes_of, routes_from, cleared_ancestor,
  ancestor_up_to, self_tombstoned,
}
use crossplane_update_tester.Roundtrip.Clearing.Coverage.{
  add_markers, classify_absent_from_manifest, container_clear_coverage, covered_cells,
  data_tree_from, insert_all, present_under, present_at_path, set_at_path, set_each, set_under,
}
use crossplane_update_tester.Roundtrip.Clearing.Coverage.Credits.{Removes}
use crossplane_update_tester.Roundtrip.Clearing.Coverage.Findings.{container_clear_coverage-Removes}
use crossplane_update_tester.Roundtrip.Clearing.Coverage.Presence.{present_at_path-set_at_path}
use crossplane_update_tester.Roundtrip.Clearing.Cells.{build_clear_cell_report, is_undispositioned}
use crossplane_update_tester.Roundtrip.Clearing.Cells.Verdict.{
  blocks, build_clear_cell_report-blocks, is_contradictory, is_credited,
}

abbrev clearing : UpdateTest
clearing = record {
  field = text "size";
  value = num (text "2");
  expect = null;
  skip = no_skip;
  clear = text "network" ∷ [];
  with_values = [];
  ignore_map_keys = [];
  ignore_list_element_keys = [];
  value_explicit = true;
  disposition = [];
}

abbrev server : Manifest
server = record {
  api_version = text "compute.crossplane.io/v1";
  kind = text "Server";
  name = text "web";
  namespace = text "default";
  tests = clearing ∷ [];
  converge_skip = [];
  expect_external_name_prefix = [];
  assert_unchanged = [];
  ignore_fields = [];
  for_provider = (text "labels", object []) ∷ [];
  path = text "examples/web.yaml";
  ready_conditions = [];
}

-- Below the cleared `network`, and beside it.
abbrev rules : ContainerLeaf
rules = record { path = text "network.rules"; shape = Shape.list }

abbrev labels : ContainerLeaf
labels = record { path = text "labels"; shape = Shape.map_shape }

abbrev leaves : List ContainerLeaf
leaves = rules ∷ labels ∷ []

abbrev findings : List ContainerClearFinding
findings =
    record (eligible_finding rules) { covered = true; route = some ClearRoute.ancestor_tombstone }
    ∷ eligible_finding labels
    ∷ []

coverage_findings : container_clear_coverage server leaves [] [] ≡ ok findings
unfolding container_clear_coverage findings_for finding_for coverage_for cleared_ancestor
    ancestor_up_to self_tombstoned routes_from lookup insert covered_cells add_markers
    classify_absent_from_manifest present_under data_tree_from set_each set_under insert_all split
    join present effective_disposition contains_byte CellKey-discrete
coverage_findings = refl

container_clear_coverage-Removes_example :
    (map (λ (f : ContainerClearFinding). f.path) findings
      ≡ map (λ (l : ContainerLeaf). l.path) leaves)
    × ((f : ContainerClearFinding)
        → In f findings
        → f.covered ≡ true
        → (leaf : ContainerLeaf) × (t : UpdateTest) × (route : ClearRoute) × In leaf leaves
          × (f.path ≡ leaf.path)
          × (f.route ≡ some route)
          × In t server.tests
          × Removes t leaf route
          × (f.ineligible ≡ false)
          × (f.contradiction ≡ false)
          × (disposition_for (routes_of server.tests) leaf ≢ backend_discards))
container_clear_coverage-Removes_example =
    container_clear_coverage-Removes server leaves [] [] coverage_findings

present_at_path-set_at_path_example :
    present_at_path
      (set_at_path ((text "network", str (text "a")) ∷ []) (text "network.rules") null)
      (text "network.rules")
    ≡ true
present_at_path-set_at_path_example =
    present_at_path-set_at_path ((text "network", str (text "a")) ∷ []) (text "network.rules") null

abbrev map_cell : CellKey
map_cell = clear_key Shape.map_shape (text "labels")

build_clear_cell_report-blocks_example :
    (blocks (build_clear_cell_report map_cell (eligible_finding labels ∷ [])) ≡ true) ↔ (
      ((f : ContainerClearFinding) × In f (eligible_finding labels ∷ [])
        × (is_contradictory f ≡ true))
      ⊎ ((¬ (
            (f : ContainerClearFinding) × In f (eligible_finding labels ∷ [])
            × (is_credited f ≡ true)))
          × ((f : ContainerClearFinding) × In f (eligible_finding labels ∷ [])
              × (is_undispositioned f ≡ true))))
build_clear_cell_report-blocks_example =
    build_clear_cell_report-blocks map_cell (eligible_finding labels ∷ [])
