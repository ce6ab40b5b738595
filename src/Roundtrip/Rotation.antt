-- ===== src/Roundtrip/Rotation.antt =====
-- internal/roundtrip/rotation.go: the per-run budget, the shuffled order of a cell, the cursors and
-- the sticky registry. The loading and the saving of the state file are not modelled.
--
-- Go's `fmt`, `hash/fnv` and `math/rand` are parameters. `math/rand.Shuffle` is known by the list of
-- the exchanges that it makes. A map is an association list and a nil map the empty one, so the
-- code's `if s.Cursors == nil { make }` has nothing to do. A cursor is a natural number: the code
-- writes no other.
pub mod Budget
pub mod Shuffle
pub mod Picking
pub mod Choice
pub mod Coverage
pub mod Sticky
pub mod Scopes
use crossplane_update_tester.Base.{
  ℕ, zero, suc, ◌+◌, ◌/◌, ◌%◌, ◌<◌, ltb, leb, nat_beq, Text, text, Bool, List, [], ◌∷◌, ◌++◌,
  Option, none, some, ◌==◌, list_eq, nat_eq, elem, if◌then◌else◌, length, get_elem?, swap_at,
  range_from, lookup, insert, sort, All, ◌>>=◌,
}
use crossplane_update_tester.Roundtrip.Cell.{
  CellKey, classification_text, shape_text, direction_text, depth_text, or_nil,
}

-- n := a / b; if a % b != 0 { n++ }
unfoldable pub div_ceil : ℕ → ℕ → ℕ
div_ceil a b = if nat_beq (a % b) 0 then a / b else a / b + 1

-- The code's `target`: the number of runs within which a cell of that size is to be exhausted.
unfoldable pub target_runs : ℕ → ℕ
target_runs size = if ltb (div_ceil size 8) 2 then 2 else div_ceil size 8

unfoldable pub representatives_per_run : ℕ → ℕ
representatives_per_run size =
    if leb size 0
    then 0
    else if ltb size (div_ceil size (target_runs size))
    then size
    else div_ceil size (target_runs size)

pub record RotationState : Type 0 where
  pub seed : ℕ
  pub cursors : List (Text × ℕ)
  pub sticky : List (Text × List Text)

unfoldable pub cell_key_string : CellKey → Text
cell_key_string k =
    classification_text k.classification
    ++ (b'|'
        ∷ (shape_text k.shape
            ++ (b'|' ∷ (direction_text k.direction ++ (b'|' ∷ depth_text k.depth)))))

unfoldable pub state_key : Text → CellKey → Text
unfolding cell_key_string
state_key scope key = scope ++ (0 ∷ cell_key_string key)

-- The parts of Go's library that the shuffle uses: `%d` of the seed, the 64-bit FNV-1a sum of the
-- bytes written, and the exchanges of `Shuffle(n, swap)` under a source with that seed.
pub record Random : Type 0 where
  pub decimal : ℕ → Text
  pub sum64 : Text → ℕ
  pub exchanges : ℕ → ℕ → List (ℕ × ℕ)

-- What `math/rand` documents of Shuffle: it exchanges elements with indexes i and j below n.
abbrev pub IsShuffle : Random → Type 0
IsShuffle r = (source n : ℕ) → All (λ p. (p.0 < n) × (p.1 < n)) (r.exchanges source n)

unfoldable pub apply_exchanges : List (ℕ × ℕ) → List ℕ → List ℕ
apply_exchanges [] order = order
apply_exchanges ((i, j) ∷ rest) order = apply_exchanges rest (swap_at i j order)

-- if !picked[m] { picked[m] = true; result = append(result, m) }: `picked` holds what `result` holds.
unfoldable pub add_new : Text → List Text → List Text
add_new m result = if elem m result then result else result ++ m ∷ []

-- The loop of Select over the budget; `none` is an index out of range.
unfoldable pub rotate : List Text → List ℕ → ℕ → ℕ → ℕ → List Text → Option (List Text)
rotate members order cursor i zero result = some result
rotate members order cursor i (suc left) result = do
  j ← get_elem? order ((cursor + i) % length members)
  m ← get_elem? members j
  rotate members order cursor (i + 1) left (add_new m result)

unfoldable pub add_sticky : List Text → List Text → List Text
add_sticky result [] = result
add_sticky result (m ∷ ms) = add_sticky (add_new m result) ms

-- m[k] of a map of numbers, zero where the key is missing
abbrev pub or_zero : Option ℕ → ℕ
or_zero none = 0
or_zero (some n) = n

unfoldable pub cursor_of : RotationState → Text → ℕ
unfolding lookup
cursor_of s k = or_zero (lookup k s.cursors)

unfoldable pub sticky_of : RotationState → Text → List Text
unfolding lookup
sticky_of s k = or_nil (lookup k s.sticky)

pub record Selection : Type 0 where
  pub representatives : List Text
  pub sticky : List Text
  pub state : RotationState

-- What Select does behind its loop: it advances the cursor and adds the sticky members.
unfoldable pub finish : RotationState → Text → ℕ → ℕ → List Text → Selection
finish s skey n budget result = record {
  representatives = sort (add_sticky result (sticky_of s skey));
  sticky = sticky_of s skey;
  state = record s { cursors = insert skey ((cursor_of s skey + budget) % n) s.cursors };
}

module _ (random : Random) where
  unfoldable pub shuffled_order : ℕ → CellKey → ℕ → List ℕ
  unfolding apply_exchanges cell_key_string
  shuffled_order seed key n =
      apply_exchanges
        (random.exchanges (random.sum64 (random.decimal seed ++ (b'|' ∷ cell_key_string key))) n)
        (range_from 0 n)

  unfoldable pub select : RotationState → Text → CellKey → List Text → Option Selection
  select s scope key [] = some (record { representatives = []; sticky = []; state = s })
  select s scope key (m ∷ ms) = do
    let members = m ∷ ms
    let order = shuffled_order s.seed key (length members)
    let budget = representatives_per_run (length members)
    result ← rotate members order (cursor_of s (state_key scope key)) 0 budget []
    some (finish s (state_key scope key) (length members) budget result)

unfoldable pub promote_failure : RotationState → Text → CellKey → Text → RotationState
promote_failure s scope key field =
    let skey = state_key scope key in
    if elem field (sticky_of s skey)
    then s
    else record s { sticky = insert skey (sort (sticky_of s skey ++ field ∷ [])) s.sticky }
