-- ===== src/Roundtrip/Clearing/Cells.antt =====
-- internal/roundtrip/containerclear.go: the clear-direction cells, their reports and the count of the
-- cells that block.
pub mod Verdict
use crossplane_update_tester.Base.{
  ℕ, suc, ◌+◌, Text, Bool, true, false, not, ◌&&◌, List, [], ◌∷◌, ◌++◌, is_empty, map, filter,
  Option, none, some, if◌then◌else◌, list_eq, nat_eq, nat_beq, elem, lookup, insert, sort_by,
  text_le, length, ◌-◌,
}
use crossplane_update_tester.Roundtrip.Cell.{CellKey, cell_key_eq, or_nil}
use crossplane_update_tester.Roundtrip.Rotation.{cell_key_string}
use crossplane_update_tester.Roundtrip.Clearing.{
  ContainerClearFinding, ClearRoute, IneligibilityReason, Reasons, clear_key,
}

abbrev pub ClearCells : Type 0
ClearCells = List (CellKey × List ContainerClearFinding)

-- GroupClearCells, from the cells that are there.
unfoldable pub group_clear_from : ClearCells → List ContainerClearFinding → ClearCells
unfolding lookup insert
group_clear_from cells [] = cells
group_clear_from cells (f ∷ fs) =
    let key = clear_key f.shape f.path in
    group_clear_from (insert key (or_nil (lookup key cells) ++ f ∷ []) cells) fs

abbrev pub group_clear_cells : List ContainerClearFinding → ClearCells
group_clear_cells fs = group_clear_from [] fs

pub record ClearCellReport : Type 0 where
  pub key : CellKey
  pub members : List Text
  pub ineligible_members : List Text
  pub ineligibility_reasons : Reasons
  pub covered : Bool
  pub vacuous : Bool
  pub representative : Text
  pub route : Option ClearRoute
  pub undispositioned_members : List Text
  pub contradictory : List Text

-- What the first loop of buildClearCellReport collects.
pub record Collected : Type 0 where
  pub members : List Text
  pub ineligible_members : List Text
  pub ineligibility_reasons : Reasons
  pub contradictory : List Text
  pub covered_eligible : List ContainerClearFinding
  pub eligible_count : ℕ

abbrev pub nothing_collected : Collected
nothing_collected = record {
  members = [];
  ineligible_members = [];
  ineligibility_reasons = [];
  contradictory = [];
  covered_eligible = [];
  eligible_count = 0;
}

abbrev pub reason_entry : Text → Option IneligibilityReason → Reasons → Reasons
reason_entry path none reasons = reasons
reason_entry path (some reason) reasons = (path, reason) ∷ reasons

abbrev pub add_eligible : ContainerClearFinding → Collected → Collected
add_eligible f c =
    if f.contradiction
    then record c { contradictory = f.path ∷ c.contradictory }
    else if f.covered
    then record c { covered_eligible = f ∷ c.covered_eligible }
    else c

abbrev pub add_member : ContainerClearFinding → Collected → Collected
add_member f c =
    if f.ineligible
    then record c {
      members = f.path ∷ c.members;
      ineligible_members = f.path ∷ c.ineligible_members;
      ineligibility_reasons = reason_entry f.path f.reason c.ineligibility_reasons;
    }
    else add_eligible f
        (record c { members = f.path ∷ c.members; eligible_count = suc c.eligible_count })

-- The loop over the sorted members: each is put before those that follow it.
unfoldable pub collect : List ContainerClearFinding → Collected
collect [] = nothing_collected
collect (f ∷ fs) = add_member f (collect fs)

-- The second loop, over the members that are neither ineligible, covered nor contradictory.
abbrev pub is_undispositioned : ContainerClearFinding → Bool
is_undispositioned f =
    not f.ineligible && (not f.covered && (not f.contradiction && is_empty f.disposition))

abbrev pub paths_of : List ContainerClearFinding → List Text
paths_of fs = map (λ (f : ContainerClearFinding). f.path) fs

abbrev pub report_of :
    CellKey → List ContainerClearFinding → Collected → List ContainerClearFinding → ClearCellReport
report_of key sorted c [] = record {
  key = key;
  members = c.members;
  ineligible_members = c.ineligible_members;
  ineligibility_reasons = c.ineligibility_reasons;
  covered = false;
  vacuous = nat_beq c.eligible_count 0;
  representative = [];
  route = none;
  undispositioned_members =
      if nat_beq c.eligible_count 0 then [] else paths_of (filter is_undispositioned sorted);
  contradictory = c.contradictory;
}
report_of key sorted c (rep ∷ rest) = record {
  key = key;
  members = c.members;
  ineligible_members = c.ineligible_members;
  ineligibility_reasons = c.ineligibility_reasons;
  covered = true;
  vacuous = nat_beq c.eligible_count 0;
  representative = rep.path;
  route = rep.route;
  undispositioned_members = [];
  contradictory = c.contradictory;
}

abbrev pub by_path : List ContainerClearFinding → List ContainerClearFinding
by_path fs = sort_by (λ f. f.path) fs

-- buildClearCellReport
unfoldable pub build_clear_cell_report : CellKey → List ContainerClearFinding → ClearCellReport
unfolding sort_by collect
build_clear_cell_report key members =
    report_of key (by_path members) (collect (by_path members))
      (collect (by_path members)).covered_eligible

-- BuildClearCellReport
unfoldable pub build_clear_cell_reports : List ContainerClearFinding → List ClearCellReport
unfolding sort_by group_clear_from build_clear_cell_report lookup cell_key_string
build_clear_cell_reports fs =
    let cells = group_clear_cells fs in
    map (λ key. build_clear_cell_report key (or_nil (lookup key cells)))
      (sort_by cell_key_string (map (λ (c : CellKey × List ContainerClearFinding). c.0) cells))

-- EligibleMembers
unfoldable pub eligible_members : ClearCellReport → List Text
eligible_members r =
    if is_empty r.ineligible_members
    then r.members
    else filter (λ m. not (elem m r.ineligible_members)) r.members

-- The counters of PrintClearCellReport.
pub record ClearTally : Type 0 where
  pub covered_cells : ℕ
  pub vacuous_cells : ℕ
  pub blocking_cells : ℕ
  pub total_leaves : ℕ
  pub covered_leaves : ℕ

abbrev pub eligible_size : ClearCellReport → ℕ
eligible_size r = length r.members - length r.ineligible_members

-- The body of its loop, and the loop.
abbrev pub tally_report : ClearCellReport → ClearTally → ClearTally
tally_report r t =
    if not (is_empty r.contradictory)
    then record t {
      blocking_cells = suc t.blocking_cells;
      total_leaves = t.total_leaves + eligible_size r;
    }
    else if r.vacuous
    then record t { vacuous_cells = suc t.vacuous_cells }
    else if r.covered
    then record t {
      covered_cells = suc t.covered_cells;
      covered_leaves = t.covered_leaves + eligible_size r;
      total_leaves = t.total_leaves + eligible_size r;
    }
    else if is_empty r.undispositioned_members
    then record t { total_leaves = t.total_leaves + eligible_size r }
    else record t {
      blocking_cells = suc t.blocking_cells;
      total_leaves = t.total_leaves + eligible_size r;
    }

unfoldable pub tally_from : ClearTally → List ClearCellReport → ClearTally
tally_from t [] = t
tally_from t (r ∷ rs) = tally_from (tally_report r t) rs

abbrev pub no_tally : ClearTally
no_tally = record {
  covered_cells = 0;
  vacuous_cells = 0;
  blocking_cells = 0;
  total_leaves = 0;
  covered_leaves = 0;
}

-- PrintClearCellReport returns the number of blocking cells.
unfoldable pub print_clear_cell_report : List ClearCellReport → ℕ
unfolding tally_from
print_clear_cell_report reports = (tally_from no_tally reports).blocking_cells
