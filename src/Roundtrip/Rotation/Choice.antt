-- ===== src/Roundtrip/Rotation/Choice.antt =====
-- One call of Select: it returns, and what it returns.
use native.Mathlib.Nat.{zero-add}
use crossplane_update_tester.Base.{
  ℕ, ◌+◌, ◌%◌, ◌<◌, ◌≡◌, refl, arith, List, [], ◌∷◌, some, ◌⊎◌, inl, inr, Text, list_eq, nat_eq, In,
  length, get_elem?, insert, lookup-insert_self, In-sort,
}
use crossplane_update_tester.Roundtrip.Cell.{CellKey}
use crossplane_update_tester.Roundtrip.Rotation.{
  Random, IsShuffle, RotationState, Selection, state_key, shuffled_order, representatives_per_run,
  add_sticky, finish, cursor_of, sticky_of, select,
}
use crossplane_update_tester.Roundtrip.Rotation.Shuffle.{
  length-shuffled_order, In-shuffled_order_iff,
}
use crossplane_update_tester.Roundtrip.Rotation.Picking.{In-add_sticky, rotate-Picked}

module _ (random : Random) (s : RotationState) (scope : Text) (key : CellKey)
    (members : List Text) where
  -- What a call has chosen, read against the state that it was given.
  pub record IsSelection (r : Selection) : Type 0 where
    pub seed : r.state.seed ≡ s.seed
    pub registry : r.state.sticky ≡ s.sticky
    pub advanced :
        cursor_of r.state (state_key scope key)
        ≡ (cursor_of s (state_key scope key) + representatives_per_run (length members))
          % length members
    pub reported : r.sticky ≡ sticky_of s (state_key scope key)
    pub includes_sticky :
        (x : Text) → In x (sticky_of s (state_key scope key)) → In x r.representatives
    pub only :
        (x : Text)
        → In x r.representatives
        → In x members ⊎ In x (sticky_of s (state_key scope key))
    pub window :
        (t j : ℕ) (x : Text)
        → t < representatives_per_run (length members)
        → get_elem?
            (shuffled_order random s.seed key (length members))
            ((cursor_of s (state_key scope key) + t) % length members)
          ≡ some j
        → get_elem? members j ≡ some x
        → In x r.representatives

cursor_of-insert :
    (s : RotationState) (k : Text) (n : ℕ)
    → cursor_of (record s { cursors = insert k n s.cursors }) k ≡ n
unfolding cursor_of
cursor_of-insert s k n = rw lookup-insert_self

module _ (random : Random) (shuffles : IsShuffle random) (s : RotationState) (scope : Text)
    (key : CellKey) (m : Text) (ms : List Text) where
  abbrev all_members : List Text
  all_members = m ∷ ms

  abbrev order : List ℕ
  order = shuffled_order random s.seed key (length all_members)

  -- Where the shuffle exchanges indices in range only, Select on a cell that is not empty returns, with no index out of range, and its result is a
  -- selection: the seed and the registry are kept, the cursor has advanced by the budget modulo the
  -- size, every sticky member is chosen, nothing but members and sticky ones is, and every member in
  -- the window of the shuffled order that starts at the cursor is.
  pub select-IsSelection :
      (r : Selection) × (select random s scope key (m ∷ ms) ≡ some r)
      × IsSelection random s scope key (m ∷ ms) r
  unfolding select finish
  select-IsSelection =
      let (picked, e, p) =
        rotate-Picked all_members order (cursor_of s (state_key scope key))
          (length-shuffled_order random shuffles s.seed key (length all_members))
          (λ c. (In-shuffled_order_iff random shuffles s.seed key (length all_members) c).0)
          (omega arith) 0 (representatives_per_run (length all_members)) [] in
      let chosen : List Text = add_sticky picked (sticky_of s (state_key scope key)) in
      (
        finish s (state_key scope key) (length all_members)
            (representatives_per_run (length all_members)) picked,
        rw e,
        record {
          seed = refl;
          registry = refl;
          advanced = cursor_of-insert s (state_key scope key) _;
          reported = refl;
          includes_sticky = λ x h. (In-sort x chosen).1 ((In-add_sticky x picked _).1 (inr h));
          only = λ x h. elim ((In-add_sticky x picked _).0 ((In-sort x chosen).0 h)) [
            | inl k ↦ elim (p.only x k) [ inl none_yet ↦ absurd none_yet | inr q ↦ inl q ]
            | inr k ↦ inr k
          ];
          window = λ t j x l a b.
              (In-sort x chosen).1
                ((In-add_sticky x picked _).1 (inl (p.rounds t j x l (rw (zero-add t) a) b)));
        },
      )
