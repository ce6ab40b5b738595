-- ===== src/Roundtrip/Credit/Partition.antt =====
-- What CreditCells makes of each cell.
use mathlib.Core.Path.{subst}
use crossplane_update_tester.Base.{
  Text, Bool, true, not, List, [], ◌∷◌, some, filter, elem, elem_iff, list_eq, nat_eq, In,
  In-filter, ◌≡◌, ◌↔◌, ◌⊎◌, inl, inr, refl, ap, sym, arith, Bool-cases,
}
use crossplane_update_tester.Roundtrip.Cell.{CellKey, Row, sorted_paths}
use crossplane_update_tester.Roundtrip.Rotation.{
  Random, IsShuffle, RotationState, Selection, select,
}
use crossplane_update_tester.Roundtrip.Rotation.Choice.{select-IsSelection}
use crossplane_update_tester.Roundtrip.Credit.{
  CellCredit, Credits, is_equal_class, credit_of, credit_cells,
}

abbrev pub is_equal_cell : CellKey × List Row → Bool
is_equal_cell c = is_equal_class c.0.classification

-- The credit of a cell: its members are the paths of the rows, and every member is either a
-- representative or credited, never both; every representative is a member or sticky.
pub record IsCredited (cell : CellKey × List Row) (c : CellCredit) : Type 0 where
  pub key : c.key ≡ cell.0
  pub members : c.members ≡ sorted_paths cell.1
  pub credited : (x : Text) → In x c.credited ↔ (In x c.members × ¬ In x c.representatives)
  pub sticky : (x : Text) → In x c.sticky → In x c.representatives
  pub only : (x : Text) → In x c.representatives → In x c.members ⊎ In x c.sticky

-- The cells and their credits, in step.
abbrev pub AreCredited : List (CellKey × List Row) → List CellCredit → Type 0
AreCredited [] [] = Unit
AreCredited (cell ∷ cells) (c ∷ cs) = IsCredited cell c × AreCredited cells cs
AreCredited _ _ = ⊥

module _ (random : Random) (shuffles : IsShuffle random) where
  -- A selection of sticky members among the representatives, which are members or sticky.
  record IsChoice (members : List Text) (r : Selection) : Type 0 where
    sticky : (x : Text) → In x r.sticky → In x r.representatives
    only : (x : Text) → In x r.representatives → In x members ⊎ In x r.sticky

  select-IsChoice :
      (s : RotationState) (scope : Text) (key : CellKey) (members : List Text)
      → (r : Selection) × (select random s scope key members ≡ some r) × IsChoice members r
  unfolding select
  select-IsChoice s scope key [] =
      (_, refl, record { sticky = λ x h. absurd h; only = λ x h. absurd h })
  select-IsChoice s scope key (m ∷ ms) =
      let (r, e, i) = select-IsSelection random shuffles s scope key m ms in
      (
        r,
        e,
        record {
          sticky = λ x h. i.includes_sticky x (subst (In x) i.reported h);
          only = λ x h. elim (i.only x h) [
            | inl k ↦ inl k
            | inr k ↦ inr (subst (In x) (sym i.reported) k)
          ];
        },
      )

  credit_of-IsCredited :
      (key : CellKey) (rows : List Row) (r : Selection)
      → IsChoice (sorted_paths rows) r
      → IsCredited (key, rows) (credit_of key (sorted_paths rows) r)
  credit_of-IsCredited key rows r i = record {
    key = refl;
    members = refl;
    credited = λ x. (
      λ h.
          let (m, t) =
            (In-filter (λ m. not (elem m r.representatives)) x (sorted_paths rows)).0 h in
          (m, λ k. let q = (elem_iff x r.representatives).1 k in ground arith),
      λ h.
          (In-filter (λ m. not (elem m r.representatives)) x (sorted_paths rows)).1
            (h.0, unchosen x h.1),
    );
    sticky = i.sticky;
    only = i.only;
  }
    where
      unchosen : (x : Text) → ¬ In x r.representatives → not (elem x r.representatives) ≡ true
      unchosen x h = ground (arith, elem_iff x r.representatives)

  -- Where the shuffle exchanges indices in range only, CreditCells returns. The cells of any other class come back untouched; each `equal` cell, in
  -- order, gets one credit with the cell's key and the sorted paths of its rows as members, where
  -- every member is a representative or credited and none is both, every sticky member is a
  -- representative, and every representative is a member or sticky.
  pub credit_cells-IsCredited :
      (s : RotationState) (scope : Text) (cells : List (CellKey × List Row))
      → (c : Credits) × (credit_cells random s scope cells ≡ some c)
        × (c.non_equal ≡ filter (λ cell. not (is_equal_cell cell)) cells)
        × AreCredited (filter is_equal_cell cells) c.credits
  unfolding credit_cells
  credit_cells-IsCredited s scope [] = (_, refl, refl, tt)
  credit_cells-IsCredited s scope ((key, rows) ∷ cells) =
      elim (Bool-cases (is_equal_class key.classification)) [
        | inr e ↦
            let (c, p, q, a) = credit_cells-IsCredited s scope cells in
            (
              record c { non_equal = (key, rows) ∷ c.non_equal },
              rw (credit_cells, e, p) refl,
              rw e (ap (λ x. (key, rows) ∷ x) q),
              rw e a,
            )
        | inl e ↦
            let (r, one, i) = select-IsChoice s scope key (sorted_paths rows) in
            let (c, p, q, a) = credit_cells-IsCredited r.state scope cells in
            (
              record c { credits = credit_of key (sorted_paths rows) r ∷ c.credits },
              rw (credit_cells, e, one, p) refl,
              rw e q,
              rw e (credit_of-IsCredited key rows r i, a),
            )
      ]
