-- ===== src/Roundtrip/Rotation/Coverage.antt =====
-- Within the target number of runs, the rotation tests every member of a cell.
use native.Mathlib.Nat.{
  mod-add-mod, add-mod-mod, mod-lt, div-add-mod, mod-eq_of_lt, add-mul-mod_self_left,
}
use native.Mathlib.Decide.{dec_lt}
use crossplane_update_tester.Base.{
  ℕ, zero, suc, ◌+◌, ◌-◌, ◌*◌, ◌%◌, ◌/◌, ◌<◌, ◌≤◌, ◌≡◌, ap, ◌∙◌, arith, List, [], ◌∷◌, none, some,
  inl, inr, Text, In, Any, In-index, length, get_elem?,
}
use crossplane_update_tester.Roundtrip.Cell.{CellKey}
use crossplane_update_tester.Roundtrip.Rotation.{
  Random, IsShuffle, RotationState, Selection, state_key, shuffled_order, target_runs,
  representatives_per_run, cursor_of, select,
}
use crossplane_update_tester.Roundtrip.Rotation.Budget.{representatives_per_run_bounds}
use crossplane_update_tester.Roundtrip.Rotation.Shuffle.{
  length-shuffled_order, In-shuffled_order_iff,
}
use crossplane_update_tester.Roundtrip.Rotation.Choice.{IsSelection, select-IsSelection}

-- The representatives of k runs after one another, each on the state that the one before it saved.
unfoldable pub runs : Random → Text → CellKey → List Text → ℕ → RotationState → List (List Text)
runs random scope key members zero s = []
runs random scope key members (suc k) s = elim (select random s scope key members) [
  | none ↦ []
  | some r ↦ r.representatives ∷ runs random scope key members k r.state
]

-- The distance from a cursor to a position, going round.
window_distance : (c p n : ℕ) → p < n → (c + (p + n - c % n) % n) % n ≡ p
window_distance c p n h =
    let whole : c + (p + n - c % n) ≡ p + n * (c / n + 1) =
      omega (arith, div-add-mod c n, mod-lt c (lt_pos h)) in
    add-mod-mod c (p + n - c % n) n
    ∙ ap (λ t. t % n) whole
    ∙ add-mul-mod_self_left p n (c / n + 1)
    ∙ mod-eq_of_lt h
  where
    lt_pos : p < n → 0 < n
    lt_pos l = omega arith

later_window : (c b d n : ℕ) → b ≤ d → ((c + b) % n + (d - b)) % n ≡ (c + d) % n
later_window c b d n h = mod-add-mod (c + b) n (d - b) ∙ ap (λ t. t % n) (omega arith)

reaches : (n b t k : ℕ) {e : ℕ} → e < n → n ≤ b * t → t ≤ k → e < k * b
reaches n b t k h r l = grind arith

module _ (random : Random) (shuffles : IsShuffle random) (scope : Text) (key : CellKey) (m : Text)
    (ms : List Text) where
  abbrev members : List Text
  members = m ∷ ms

  abbrev budget : ℕ
  budget = representatives_per_run (length members)

  runs-suc :
      (k : ℕ) (s : RotationState) {r : Selection}
      → select random s scope key members ≡ some r
      → runs random scope key members (suc k) s
        ≡ r.representatives ∷ runs random scope key members k r.state
  unfolding runs
  runs-suc k s e = rw (e, runs)

  -- The member that stands `d` places behind the cursor is reached in the runs that walk so far.
  window_covered :
      (k : ℕ) (s : RotationState) (d j : ℕ) (x : Text)
      → d < k * budget
      → get_elem?
          (shuffled_order random s.seed key (length members))
          ((cursor_of s (state_key scope key) + d) % length members)
        ≡ some j
      → get_elem? members j ≡ some x
      → Any (In x) (runs random scope key members k s)
  window_covered zero s d j x l a b = absurd (omega arith)
  window_covered (suc k) s d j x l a b =
      let (r, e, sel) = select-IsSelection random shuffles s scope key m ms in
      rw (runs-suc k s e) (elim (dec_lt d budget) [
        | yes now ↦ inl (sel.window d j x now a b)
        | no later ↦
            inr (window_covered k r.state (d - budget) j x (omega arith) (moved r sel later) b)
      ])
    where
      moved :
          (r : Selection)
          → IsSelection random s scope key members r
          → ¬ (d < budget)
          → get_elem?
              (shuffled_order random r.state.seed key (length members))
              ((cursor_of r.state (state_key scope key) + (d - budget)) % length members)
            ≡ some j
      moved r sel later =
          rw
            (
              sel.advanced,
              later_window (cursor_of s (state_key scope key)) budget d (length members)
                  (omega arith),
              sel.seed,
            )
            a

  -- Where the shuffle exchanges indices in range only: from any state, each member of a cell that is not empty is a representative in one of the runs,
  -- as soon as there are max(2, ceil(size / 8)) of them.
  runs-cover_nonempty :
      (k : ℕ) (s : RotationState) (x : Text)
      → target_runs (length members) ≤ k
      → In x members
      → Any (In x) (runs random scope key members k s)
  runs-cover_nonempty k s x l h =
      let (j, below, at_j) = In-index x members h in
      let (p, p_below, at_p) =
        In-index j _
          ((In-shuffled_order_iff random shuffles s.seed key (length members) j).1 below) in
      let c : ℕ = cursor_of s (state_key scope key) in
      let in_range : p < length members =
        rw (← length-shuffled_order random shuffles s.seed key (length members)) p_below in
      window_covered k s ((p + length members - c % length members) % length members) j x
        (reaches (length members) budget (target_runs (length members)) k
          (mod-lt (p + length members - c % length members) (omega arith))
          (representatives_per_run_bounds (length members) (omega arith)).2 l)
        (rw (window_distance c p (length members) in_range) at_p) at_j

-- Where the shuffle exchanges indices in range only: from any state, each member of a cell is a representative in one of k runs after one another, as
-- soon as k is at least max(2, ceil(size / 8)), the target of the budget.
pub runs-cover :
    (random : Random) (scope : Text) (key : CellKey) (members : List Text) (k : ℕ)
    (s : RotationState) (x : Text)
    → IsShuffle random
    → target_runs (length members) ≤ k
    → In x members
    → Any (In x) (runs random scope key members k s)
runs-cover random scope key [] k s x shuffles l h = absurd h
runs-cover random scope key (m ∷ ms) k s x shuffles l h =
    runs-cover_nonempty random shuffles scope key m ms k s x l h
