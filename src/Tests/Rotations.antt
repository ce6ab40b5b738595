-- ===== src/Tests/Rotations.antt =====
-- Runs of the rotation over a cell of three members.
use crossplane_update_tester.Base.{
  ℕ, zero, suc, ◌≤◌, ◌<◌, Text, text, not, List, [], ◌∷◌, some, length, filter, In, Any, ◌≡◌, ◌≢◌,
  inl, inr, refl, arith, ◌*◌,
}
use crossplane_update_tester.Roundtrip.Rotation.{
  Random, IsShuffle, RotationState, Selection, state_key, target_runs, representatives_per_run,
  div_ceil, cursor_of, sticky_of, select, promote_failure,
}
use crossplane_update_tester.Roundtrip.Rotation.Budget.{representatives_per_run_bounds}
use crossplane_update_tester.Roundtrip.Rotation.Choice.{IsSelection, select-IsSelection}
use crossplane_update_tester.Roundtrip.Rotation.Coverage.{runs, runs-cover}
use crossplane_update_tester.Roundtrip.Rotation.Sticky.{choose, promote, steps, promoted_stays}
use crossplane_update_tester.Roundtrip.Rotation.Scopes.{select-independent}
use crossplane_update_tester.Roundtrip.Credit.{Credits, credit_cells}
use crossplane_update_tester.Roundtrip.Credit.Partition.{
  is_equal_cell, AreCredited, credit_cells-IsCredited,
}
use crossplane_update_tester.Tests.Cells.{rows, equal_scalars}

-- A shuffle that exchanges the first and the last element.
abbrev ends : ℕ → ℕ → List (ℕ × ℕ)
ends source zero = []
ends source (suc n) = (n, 0) ∷ []

abbrev random : Random
random = record { decimal = λ n. n ∷ []; sum64 = λ t. length t; exchanges = ends }

shuffles : IsShuffle random
shuffles source zero = tt
shuffles source (suc n) = ((omega arith, omega arith), tt)

abbrev state : RotationState
state = record { seed = 42; cursors = []; sticky = [] }

abbrev scope : Text
scope = text "examples/instance.yaml"

abbrev other_scope : Text
other_scope = text "examples/bucket.yaml"

abbrev members : List Text
members = text "engine" ∷ text "region" ∷ text "size" ∷ []

representatives_per_run_bounds_example :
    (0 < representatives_per_run 20)
    × (representatives_per_run 20 ≤ 20)
    × (20 ≤ representatives_per_run 20 * target_runs 20)
representatives_per_run_bounds_example = representatives_per_run_bounds 20 (omega arith)

select-IsSelection_example :
    (r : Selection) × (select random state scope equal_scalars members ≡ some r)
    × IsSelection random state scope equal_scalars members r
select-IsSelection_example =
    select-IsSelection random shuffles state scope equal_scalars (text "engine")
      (text "region" ∷ text "size" ∷ [])

runs-cover_example : Any (In (text "size")) (runs random scope equal_scalars members 2 state)
unfolding target_runs div_ceil
runs-cover_example =
    runs-cover random scope equal_scalars members 2 state (text "size") shuffles (omega arith)
      (inr (inr (inl refl)))

promoted_stays_example :
    (s' : RotationState) × (steps random
        (choose scope equal_scalars members ∷ promote scope equal_scalars (text "region") ∷ [])
        (promote_failure state scope equal_scalars (text "size"))
      ≡ some s')
    × (r : Selection) × (select random s' scope equal_scalars members ≡ some r)
    × In (text "size") r.representatives
promoted_stays_example =
    promoted_stays random state scope equal_scalars (text "size")
      (choose scope equal_scalars members ∷ promote scope equal_scalars (text "region") ∷ [])
      (text "engine") (text "region" ∷ text "size" ∷ []) shuffles

abbrev selected : Selection
selected =
    (select-IsSelection random shuffles state scope equal_scalars (text "engine")
      (text "region" ∷ text "size" ∷ [])).0

select-independent_example :
    (cursor_of selected.state (state_key other_scope equal_scalars)
      ≡ cursor_of state (state_key other_scope equal_scalars))
    × (sticky_of selected.state (state_key other_scope equal_scalars)
        ≡ sticky_of state (state_key other_scope equal_scalars))
select-independent_example =
    select-independent random state scope other_scope equal_scalars equal_scalars members selected
      (select-IsSelection random shuffles state scope equal_scalars (text "engine")
        (text "region" ∷ text "size" ∷ [])).1
      (λ same same_key. scopes_differ same)
  where
    scopes_differ : scope ≢ other_scope
    scopes_differ h = cc

credit_cells-IsCredited_example :
    (c : Credits) × (credit_cells random state scope ((equal_scalars, rows) ∷ []) ≡ some c)
    × (c.non_equal ≡ filter (λ cell. not (is_equal_cell cell)) ((equal_scalars, rows) ∷ []))
    × AreCredited (filter is_equal_cell ((equal_scalars, rows) ∷ [])) c.credits
credit_cells-IsCredited_example =
    credit_cells-IsCredited random shuffles state scope ((equal_scalars, rows) ∷ [])
