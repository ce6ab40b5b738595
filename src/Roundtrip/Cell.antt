-- ===== src/Roundtrip/Cell.antt =====
-- internal/roundtrip/cell.go, and the row that roundtrip.go declares.
pub mod Grouping
use crossplane_update_tester.Base.{
  ℕ, Text, text, Bool, true, false, not, ◌&&◌, ◌||◌, List, [], ◌∷◌, ◌++◌, map, Option, none, some,
  Eq, ◌==◌, ==_iff, list_eq, nat_eq, ◌≡◌, ◌↔◌, arith, if◌then◌else◌, refl, lookup, insert, sort,
  eq_of_discrete,
}
use crossplane_update_tester.Value.{Value, null, bool, num, str, arr, obj}

-- A slice read from a map, `nil` where the key is missing.
abbrev pub or_nil : {A : Type 0} → Option (List A) → List A
or_nil none = []
or_nil (some xs) = xs

-- The five classifications of a row, and `ClassNA`.
pub data Classification : Type 0 where
  equal value_changed defaulted_by_server : Classification
  present_in_spec_absent_from_mirror present_in_mirror_absent_from_spec : Classification
  na : Classification

pub data Shape : Type 0 where
  scalar list map_shape : Shape

pub data Direction : Type 0 where
  set clear : Direction

-- `unset` is the empty string, which every set-direction key holds.
pub data Depth : Type 0 where
  unset top nested : Depth

pub record CellKey : Type 0 where
  pub classification : Classification
  pub shape : Shape
  pub direction : Direction
  pub depth : Depth

abbrev pub classification_text : Classification → Text
classification_text equal = text "equal"
classification_text value_changed = text "value-changed"
classification_text defaulted_by_server = text "defaulted-by-server"
classification_text present_in_spec_absent_from_mirror = text "present-in-spec-absent-from-mirror"
classification_text present_in_mirror_absent_from_spec = text "present-in-mirror-absent-from-spec"
classification_text na = text "n/a"

abbrev pub shape_text : Shape → Text
shape_text scalar = text "scalar"
shape_text list = text "list"
shape_text map_shape = text "map"

abbrev pub direction_text : Direction → Text
direction_text set = text "set"
direction_text clear = text "clear"

abbrev pub depth_text : Depth → Text
depth_text unset = []
depth_text top = text "top"
depth_text nested = text "nested"

pub record Row : Type 0 where
  pub path : Text
  pub classification : Classification
  pub spec_value : Value
  pub spec_found : Bool
  pub mirror_value : Value
  pub mirror_found : Bool
  pub immutable : Bool

abbrev pub shape_of_value : Value → Shape
shape_of_value (arr vs) = list
shape_of_value (obj fs) = map_shape
shape_of_value _ = scalar

unfoldable pub shape_of : Row → Shape
shape_of r =
    if r.spec_found
    then shape_of_value r.spec_value
    else if r.mirror_found
    then shape_of_value r.mirror_value
    else scalar

unfoldable pub CellKey-discrete : Discrete CellKey
CellKey-discrete = hlevel

instance abbrev pub cell_key_eq : Eq CellKey
cell_key_eq = eq_of_discrete CellKey-discrete

abbrev pub is_mirror_only : Classification → Bool
is_mirror_only present_in_mirror_absent_from_spec = true
is_mirror_only _ = false

-- The cell of a row.
abbrev pub key_of : Row → CellKey
key_of r = record {
  classification = r.classification;
  shape = shape_of r;
  direction = set;
  depth = unset;
}

-- out[key] = append(out[key], r)
unfoldable pub append_row : CellKey → Row → List (CellKey × List Row) → List (CellKey × List Row)
unfolding lookup insert
append_row k r cells = insert k (or_nil (lookup k cells) ++ r ∷ []) cells

unfoldable pub group_from : List (CellKey × List Row) → List Row → List (CellKey × List Row)
unfolding append_row
group_from cells [] = cells
group_from cells (r ∷ rs) =
    group_from (if is_mirror_only r.classification then cells else append_row (key_of r) r cells) rs

unfoldable pub group_cells : List Row → List (CellKey × List Row)
unfolding group_from
group_cells rows = group_from [] rows

unfoldable pub sorted_paths : List Row → List Text
unfolding sort
sorted_paths rows = sort (map (λ r. r.path) rows)

-- The rows that belong to a cell, in their order.
abbrev pub in_cell : CellKey → Row → Bool
in_cell k r = not (is_mirror_only r.classification) && key_of r == k

abbrev pub cell_rows : List (CellKey × List Row) → CellKey → List Row
unfolding lookup
cell_rows cells k = or_nil (lookup k cells)
