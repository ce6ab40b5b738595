-- ===== src/Roundtrip/Credit.antt =====
-- internal/roundtrip/credit.go: one representative subset for each `equal` cell, the rest credited.
-- The cells are the entries of the code's map in the order of its iteration.
pub mod Partition
use crossplane_update_tester.Base.{
  ℕ, Text, Bool, true, false, not, List, [], ◌∷◌, Option, none, some, ◌>>=◌, if◌then◌else◌, filter,
  elem, list_eq, nat_eq,
}
use crossplane_update_tester.Roundtrip.Cell.{Classification, CellKey, Row, sorted_paths}
use crossplane_update_tester.Roundtrip.Rotation.{Random, RotationState, Selection, select}

pub record CellCredit : Type 0 where
  pub key : CellKey
  pub members : List Text
  pub representatives : List Text
  pub credited : List Text
  pub sticky : List Text

pub record Credits : Type 0 where
  pub credits : List CellCredit
  pub non_equal : List (CellKey × List Row)
  pub state : RotationState

abbrev pub is_equal_class : Classification → Bool
is_equal_class Classification.equal = true
is_equal_class _ = false

abbrev pub credit_of : CellKey → List Text → Selection → CellCredit
credit_of key members r = record {
  key = key;
  members = members;
  representatives = r.representatives;
  credited = filter (λ m. not (elem m r.representatives)) members;
  sticky = r.sticky;
}

module _ (random : Random) where
  abbrev pub select_cell : RotationState → Text → CellKey → List Row → Option Selection
  select_cell s scope key rows = select random s scope key (sorted_paths rows)

  unfoldable pub credit_cells : RotationState → Text → List (CellKey × List Row) → Option Credits
  unfolding select sorted_paths
  credit_cells s scope [] = some (record { credits = []; non_equal = []; state = s })
  credit_cells s scope ((key, rows) ∷ cells) = elim (is_equal_class key.classification) [
    | false ↦
        credit_cells s scope cells
        >>= (λ c. some (record c { non_equal = (key, rows) ∷ c.non_equal }))
    | true ↦ select_cell s scope key rows >>= (λ r.
        credit_cells r.state scope cells
        >>= (λ c. some (record c { credits = credit_of key (sorted_paths rows) r ∷ c.credits })))
  ]
