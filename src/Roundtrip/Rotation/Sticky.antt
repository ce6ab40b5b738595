-- ===== src/Roundtrip/Rotation/Sticky.antt =====
-- PromoteFailure: a field once promoted is chosen by every later Select of its cell.
use mathlib.Core.Path.{subst}
use crossplane_update_tester.Base.{
  ◌≡◌, refl, sym, arith, List, [], ◌∷◌, ◌++◌, Option, some, inl, inr, Text, list_eq, nat_eq, ◌==◌,
  ==_iff, ==_refl, ==_eq, ◌>>=◌, elem, elem_sound, Bool-cases, if◌then◌else◌, In, In-append_left,
  In-append_right, insert, lookup, lookup-insert, sort, In-sort,
}
use crossplane_update_tester.Roundtrip.Cell.{CellKey, or_nil}
use crossplane_update_tester.Roundtrip.Rotation.{
  Random, IsShuffle, RotationState, Selection, state_key, sticky_of, select, promote_failure,
}
use crossplane_update_tester.Roundtrip.Rotation.Choice.{select-IsSelection}

sticky_of-insert :
    (s : RotationState) (k j : Text) (xs : List Text)
    → sticky_of (record s { sticky = insert k xs s.sticky }) j
      ≡ (if k == j then xs else sticky_of s j)
unfolding sticky_of
sticky_of-insert s k j xs = rw lookup-insert (ground (arith, ==_iff k j))

-- The promoted field is in the registry of its cell.
pub promote_failure-registers :
    (s : RotationState) (scope : Text) (key : CellKey) (field : Text)
    → In field (sticky_of (promote_failure s scope key field) (state_key scope key))
unfolding promote_failure
promote_failure-registers s scope key field =
    let k : Text = state_key scope key in
    elim (Bool-cases (elem field (sticky_of s k))) [
      | inl old ↦ rw old (elem_sound field _ old)
      | inr new ↦
          rw (new, sticky_of-insert s k k (sort (sticky_of s k ++ field ∷ [])), ==_refl k)
            ((In-sort field _).1 (In-append_right field (sticky_of s k) _ (inl refl)))
    ]

-- Writing the sorted longer list of one cell keeps what every cell had.
registry-keeps :
    (s : RotationState) (k j field x : Text)
    → In x (sticky_of s j)
    → In x (if k == j then sort (sticky_of s k ++ field ∷ []) else sticky_of s j)
registry-keeps s k j field x h = elim (Bool-cases (k == j)) [
  | inl same ↦ rw same (
      (In-sort x _).1 (
        In-append_left x (sticky_of s k) _
          (subst (λ t. In x (sticky_of s t)) (sym (==_eq same)) h)))
  | inr other ↦ rw other h
]

-- No promotion takes a field out of a registry.
pub promote_failure-keeps :
    (s : RotationState) (scope : Text) (key : CellKey) (field : Text) (k x : Text)
    → In x (sticky_of s k)
    → In x (sticky_of (promote_failure s scope key field) k)
unfolding promote_failure
promote_failure-keeps s scope key field k x h =
    elim (Bool-cases (elem field (sticky_of s (state_key scope key)))) [
      | inl old ↦ rw old h
      | inr new ↦
          rw
            (
              new,
              sticky_of-insert s (state_key scope key) k
                  (sort (sticky_of s (state_key scope key) ++ field ∷ [])),
            )
            (registry-keeps s (state_key scope key) k field x h)
    ]

-- What the caller does with a state, in any order: it selects, or it promotes a failure.
pub data Operation : Type 0 where
  choose : Text → CellKey → List Text → Operation
  promote : Text → CellKey → Text → Operation

unfoldable pub step : Random → Operation → RotationState → Option RotationState
step random (choose scope key members) s = do r ← select random s scope key members; some r.state
step random (promote scope key field) s = some (promote_failure s scope key field)

unfoldable pub steps : Random → List Operation → RotationState → Option RotationState
steps random [] s = some s
steps random (o ∷ os) s = do s' ← step random o s; steps random os s'

same_registry :
    (s s' : RotationState)
    → s'.sticky ≡ s.sticky
    → (k x : Text) → In x (sticky_of s k)
    → In x (sticky_of s' k)
unfolding sticky_of
same_registry s s' e k x h = subst (λ m. In x (or_nil (lookup k m))) (sym e) h

module _ (random : Random) (shuffles : IsShuffle random) where
  step-keeps :
      (o : Operation) (s : RotationState)
      → (s' : RotationState) × (step random o s ≡ some s')
        × ((k x : Text) → In x (sticky_of s k) → In x (sticky_of s' k))
  unfolding step
  step-keeps (promote scope key field) s =
      (promote_failure s scope key field, refl, promote_failure-keeps s scope key field)
  step-keeps (choose scope key []) s = (s, unfold select in refl, λ k x h. h)
  step-keeps (choose scope key (m ∷ ms)) s =
      let (r, e, sel) = select-IsSelection random shuffles s scope key m ms in
      (r.state, rw e, λ k x h. same_registry s r.state sel.registry k x h)

  steps-keep :
      (os : List Operation) (s : RotationState)
      → (s' : RotationState) × (steps random os s ≡ some s')
        × ((k x : Text) → In x (sticky_of s k) → In x (sticky_of s' k))
  unfolding steps
  steps-keep [] s = (s, refl, λ k x h. h)
  steps-keep (o ∷ os) s =
      let (s', e, keep) = step-keeps o s in
      let (s'', e', keep') = steps-keep os s' in (s'', rw e e', λ k x h. keep' k x (keep k x h))

-- Where the shuffle exchanges indices in range only: after a field was promoted, whatever selections and promotions follow, they all return, and a
-- selection on the cell of the field, if it has members, returns and chooses the field.
pub promoted_stays :
    (random : Random) (s : RotationState) (scope : Text) (key : CellKey) (field : Text)
    (os : List Operation) (m : Text) (ms : List Text)
    → IsShuffle random
    → (s' : RotationState) × (steps random os (promote_failure s scope key field) ≡ some s')
      × (r : Selection) × (select random s' scope key (m ∷ ms) ≡ some r)
      × In field r.representatives
promoted_stays random s scope key field os m ms shuffles =
    let (s', e, keep) = steps-keep random shuffles os (promote_failure s scope key field) in
    let (r, e', sel) = select-IsSelection random shuffles s' scope key m ms in
    (
      s',
      e,
      r,
      e',
      sel.includes_sticky field
          (keep (state_key scope key) field (promote_failure-registers s scope key field)),
    )
