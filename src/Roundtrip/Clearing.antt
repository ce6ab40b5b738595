-- ===== src/Roundtrip/Clearing.antt =====
-- internal/roundtrip/containerclear.go: which container leaves of a manifest have the removal of
-- their value tested. A leaf, its schema's verdicts and the manifest come in; the texts of a
-- finding's details are not kept, only what they say.
pub mod Coverage
pub mod Cells
use crossplane_update_tester.Base.{
  ℕ, zero, suc, Text, text, Bool, true, false, not, ◌&&◌, ◌||◌, List, [], ◌∷◌, ◌++◌, length, map,
  any, Option, none, some, if◌then◌else◌, ◌==◌, list_eq, nat_eq, elem, lookup, insert, split, join,
  is_empty, contains_byte, Result, ok, err, then_do, ◌-◌,
}
use crossplane_update_tester.Value.{Value, null, arr, obj, nil, cons, fields}
use crossplane_update_tester.Json.{as_object, object}
use crossplane_update_tester.Manifest.{
  UpdateTest, Manifest, present, effective_disposition, backend_discards,
}
use crossplane_update_tester.Manifest.Entries.{is_null}
use crossplane_update_tester.Roundtrip.Cell.{
  Classification, Shape, Direction, Depth, CellKey, cell_key_eq,
}

-- The shape is that of a list or of a map.
pub record ContainerLeaf : Type 0 where
  pub path : Text
  pub shape : Shape

pub data ClearRoute : Type 0 where
  sibling_clear sibling_with_values ancestor_tombstone per_key_null self_tombstone : ClearRoute

-- The reasons of ineligible.go; a list's reasons name what blocks the empty list.
pub data IneligibilityReason : Type 0 where
  reference_resolution required_by_cel_map cel_immutable absent_from_manifest : IneligibilityReason
  list_required_by_cel list_never_empty list_conditionally_empty : Text → IneligibilityReason

abbrev pub Reasons : Type 0
Reasons = List (Text × IneligibilityReason)

pub record ContainerClearFinding : Type 0 where
  pub path : Text
  pub shape : Shape
  pub covered : Bool
  pub ineligible : Bool
  pub reason : Option IneligibilityReason
  pub disposition : Text
  pub route : Option ClearRoute
  pub contradiction : Bool

abbrev pub is_list : Shape → Bool
is_list Shape.list = true
is_list _ = false

-- l, ok := v.([]interface{}); ok && len(l) == 0
abbrev pub is_empty_list : Value → Bool
is_empty_list (arr nil) = true
is_empty_list _ = false

abbrev pub depth_of : Text → Depth
depth_of path = if contains_byte b'.' path then Depth.nested else Depth.top

abbrev pub clear_key : Shape → Text → CellKey
clear_key shape path = record {
  classification = Classification.na;
  shape = shape;
  direction = Direction.clear;
  depth = depth_of path;
}

abbrev pub has_nested_null_member : Value → Bool
has_nested_null_member (obj fs) = any (λ e. is_null e.1) (fields fs)
has_nested_null_member _ = false

unfoldable pub self_tombstoned : UpdateTest → Shape → Bool
self_tombstoned t shape =
    if is_null t.value then t.value_explicit else is_list shape && is_empty_list t.value

-- The four maps that ContainerClearCoverage makes of the tests.
pub record Routes : Type 0 where
  pub cleared_siblings : List Text
  pub with_values_empty_list : List Text
  pub per_key_nulled : List Text
  pub self_by_field : List (Text × UpdateTest)

abbrev pub empty_list_keys : List (Text × Value) → List Text
empty_list_keys [] = []
empty_list_keys ((k, v) ∷ m) = if is_empty_list v then k ∷ empty_list_keys m else empty_list_keys m

abbrev pub add_test : UpdateTest → Routes → Routes
add_test t r = record {
  cleared_siblings = t.clear ++ r.cleared_siblings;
  with_values_empty_list = empty_list_keys t.with_values ++ r.with_values_empty_list;
  per_key_nulled =
      if has_nested_null_member t.value then t.field ∷ r.per_key_nulled else r.per_key_nulled;
  self_by_field = insert t.field t r.self_by_field;
}

unfoldable pub routes_from : Routes → List UpdateTest → Routes
routes_from r [] = r
routes_from r (t ∷ ts) = routes_from (add_test t r) ts

abbrev pub no_routes : Routes
no_routes = record {
  cleared_siblings = [];
  with_values_empty_list = [];
  per_key_nulled = [];
  self_by_field = [];
}

abbrev pub routes_of : List UpdateTest → Routes
routes_of tests = routes_from no_routes tests

abbrev pub take : ℕ → List Text → List Text
take zero xs = []
take (suc n) [] = []
take (suc n) (x ∷ xs) = x ∷ take n xs

-- The loop of clearedAncestor, at its index.
unfoldable pub ancestor_up_to : List Text → List Text → ℕ → Option Text
ancestor_up_to cleared segments zero = none
ancestor_up_to cleared segments (suc i) =
    let shorter = ancestor_up_to cleared segments i in
    let candidate = join (text ".") (take (suc i) segments) in
    if elem candidate cleared then some candidate else shorter

unfoldable pub cleared_ancestor : Text → List Text → Option Text
unfolding ancestor_up_to
cleared_ancestor path cleared =
    let segments = split b'.' path in ancestor_up_to cleared segments (length segments - 1)

abbrev pub is_self_tombstoned : Option UpdateTest → Shape → Bool
is_self_tombstoned none shape = false
is_self_tombstoned (some t) shape = self_tombstoned t shape

abbrev pub is_some : {A : Type 0} → Option A → Bool
is_some none = false
is_some (some a) = true

-- coverageFor: `none` is no coverage.
unfoldable pub coverage_for : Routes → ContainerLeaf → Option ClearRoute
unfolding cleared_ancestor self_tombstoned
coverage_for r leaf =
    if elem leaf.path r.cleared_siblings
    then some ClearRoute.sibling_clear
    else if is_list leaf.shape && elem leaf.path r.with_values_empty_list
    then some ClearRoute.sibling_with_values
    else if is_some (cleared_ancestor leaf.path r.cleared_siblings)
    then some ClearRoute.ancestor_tombstone
    else if elem leaf.path r.per_key_nulled
    then some ClearRoute.per_key_null
    else if is_self_tombstoned (lookup leaf.path r.self_by_field) leaf.shape
    then some ClearRoute.self_tombstone
    else none

abbrev pub disposition_of : Option UpdateTest → Text
disposition_of none = []
disposition_of (some t) = effective_disposition t

abbrev pub disposition_for : Routes → ContainerLeaf → Text
disposition_for r leaf = disposition_of (lookup leaf.path r.self_by_field)

abbrev pub ineligible_finding : ContainerLeaf → IneligibilityReason → ContainerClearFinding
ineligible_finding leaf reason = record {
  path = leaf.path;
  shape = leaf.shape;
  covered = false;
  ineligible = true;
  reason = some reason;
  disposition = [];
  route = none;
  contradiction = false;
}

abbrev pub eligible_finding : ContainerLeaf → ContainerClearFinding
eligible_finding leaf = record {
  path = leaf.path;
  shape = leaf.shape;
  covered = false;
  ineligible = false;
  reason = none;
  disposition = [];
  route = none;
  contradiction = false;
}

abbrev pub finding_of_route : ContainerLeaf → Text → Option ClearRoute → ContainerClearFinding
finding_of_route leaf disposition none = record (eligible_finding leaf) {
  disposition = disposition;
}
finding_of_route leaf disposition (some route) =
    if disposition == backend_discards
    then record (eligible_finding leaf) { contradiction = true }
    else record (eligible_finding leaf) { covered = true; route = some route }

-- The error of a leaf that is both ineligible and covered.
pub record BothVerdicts : Type 0 where
  pub path : Text
  pub reason : IneligibilityReason

abbrev pub tolerates_coverage : IneligibilityReason → Bool
tolerates_coverage IneligibilityReason.reference_resolution = true
tolerates_coverage IneligibilityReason.absent_from_manifest = true
tolerates_coverage _ = false

-- The body of the last loop.
unfoldable pub finding_for :
    Routes → Reasons → ContainerLeaf → Result BothVerdicts ContainerClearFinding
unfolding coverage_for
finding_for r reasons leaf = elim (lookup leaf.path reasons) [
  | none ↦ ok (finding_of_route leaf (disposition_for r leaf) (coverage_for r leaf))
  | some reason ↦
      if tolerates_coverage reason
      then ok (ineligible_finding leaf reason)
      else if is_some (coverage_for r leaf)
      then err (record { path = leaf.path; reason = reason })
      else ok (ineligible_finding leaf reason)
]

unfoldable pub findings_for :
    Routes → Reasons → List ContainerLeaf → Result BothVerdicts (List ContainerClearFinding)
unfolding finding_for
findings_for r reasons [] = ok []
findings_for r reasons (leaf ∷ leaves) =
    then_do (finding_for r reasons leaf)
      (λ f. then_do (findings_for r reasons leaves) (λ fs. ok (f ∷ fs)))
