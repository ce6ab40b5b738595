-- ===== src/Roundtrip/Rotation/Budget.antt =====
-- The budget of RepresentativesPerRun, in the numbers that its comment promises.
use native.Mathlib.Nat.{div-add-mod', mod-lt}
use crossplane_update_tester.Base.{
  ℕ, zero, suc, ◌+◌, ◌-◌, ◌*◌, ◌/◌, ◌%◌, ◌≤◌, ◌<◌, ◌≡◌, arith, nat_beq, Bool-cases, inl, inr, ◌⊎◌,
}
use crossplane_update_tester.Roundtrip.Rotation.{div_ceil, target_runs, representatives_per_run}

-- The target number of runs is max(2, ceil(size / 8)), told by bounds: it is at least 2, eight times
-- it is at least the size, and it is at most 2 + (size - 9) / 8, where the subtraction stops at 0.
pub target_runs_bounds :
    (size : ℕ)
    → (2 ≤ target_runs size)
      × (size ≤ 8 * target_runs size)
      × (target_runs size ≤ 2 + (size - 9) / 8)
unfolding target_runs div_ceil
target_runs_bounds size = ground arith

pub target_runs-pos : (size : ℕ) → 0 < target_runs size
target_runs-pos size = omega (arith, target_runs_bounds size)

-- Rounding the quotient up gives a multiple that reaches the size.
pub div_ceil-reaches : (size t : ℕ) → 0 < t → size ≤ div_ceil size t * t
unfolding div_ceil
div_ceil-reaches size t h = elim (Bool-cases (nat_beq (size % t) 0)) [
  | inl e ↦ rw e (ground (arith, div-add-mod' size t))
  | inr e ↦ rw e (grind (arith, div-add-mod' size t, mod-lt size h))
]

pos_of_le-mul : (size a t : ℕ) → 0 < size → size ≤ a * t → 0 < a
pos_of_le-mul size zero t h k = absurd (omega arith)
pos_of_le-mul size (suc a) t h k = omega arith

le-mul_of_pos : (a t : ℕ) → 0 < t → a ≤ a * t
le-mul_of_pos a t h = grind arith

budget_cases :
    (size : ℕ)
    → 0 < size
    → (representatives_per_run size ≡ size)
      ⊎ ((representatives_per_run size ≡ div_ceil size (target_runs size))
          × (div_ceil size (target_runs size) ≤ size))
unfolding representatives_per_run
budget_cases size h = ground arith

-- For a cell that is not empty the budget is positive and at most its size, and that many
-- representatives in each of max(2, ceil(size / 8)) runs make at least its size.
pub representatives_per_run_bounds :
    (size : ℕ)
    → 0 < size
    → (0 < representatives_per_run size)
      × (representatives_per_run size ≤ size)
      × (size ≤ representatives_per_run size * target_runs size)
representatives_per_run_bounds size h = elim (budget_cases size h) [
  | inl e ↦ rw e (h, omega arith, le-mul_of_pos size _ (target_runs-pos size))
  | inr e ↦ rw (e.0) (
    pos_of_le-mul size _ _ h (div_ceil-reaches size _ (target_runs-pos size)),
    e.1,
    div_ceil-reaches size _ (target_runs-pos size),
  )
]
