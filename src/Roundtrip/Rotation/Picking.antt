-- ===== src/Roundtrip/Rotation/Picking.antt =====
-- The loops of Select: what they pick, and that they stay in range.
use native.Mathlib.Nat.{mod-lt}
use crossplane_update_tester.Base.{
  ℕ, zero, suc, ◌+◌, ◌%◌, ◌<◌, ◌≡◌, refl, arith, List, [], ◌∷◌, some, ◌⊎◌, inl, inr, ◌↔◌, Text,
  list_eq, nat_eq, elem, elem_sound, Bool-cases, In, In-append_left, In-append_right,
  In-append_cases, length, get_elem?, get_elem?-lt, In-get_elem?,
}
use crossplane_update_tester.Roundtrip.Rotation.{add_new, rotate, add_sticky}

In-add_new_cases :
    (x m : Text) (result : List Text) → In x (add_new m result) ↔ ((x ≡ m) ⊎ In x result)
unfolding add_new
In-add_new_cases x m result = elim (Bool-cases (elem m result)) [
  | inl t ↦ rw t (λ h. inr h, elim [ inl p ↦ rw p (elem_sound m result t) | inr h ↦ h ])
  | inr f ↦ rw f (
    λ h. elim (In-append_cases x result (m ∷ []) h) [
      | inl k ↦ inr k
      | inr k ↦ elim k [ inl p ↦ inl p | inr no_more ↦ absurd no_more ]
    ],
    elim [ inl p ↦ In-append_right x result _ (inl p) | inr h ↦ In-append_left x result _ h ],
  )
]

-- add_sticky adds the sticky members and no other.
pub In-add_sticky :
    (x : Text) (result ms : List Text) → In x (add_sticky result ms) ↔ (In x result ⊎ In x ms)
unfolding add_sticky
In-add_sticky x result [] = (λ h. inl h, elim [ inl h ↦ h | inr h ↦ absurd h ])
In-add_sticky x result (m ∷ ms) =
    let (to, from) = In-add_sticky x (add_new m result) ms in
    let (here, back) = In-add_new_cases x m result in
    (
      λ h. elim (to h) [
        | inl k ↦ elim (here k) [ inl p ↦ inr (inl p) | inr q ↦ inl q ]
        | inr k ↦ inr (inr k)
      ],
      elim [
        | inl k ↦ from (inl (back (inr k)))
        | inr k ↦ elim k [ inl p ↦ from (inl (back (inl p))) | inr q ↦ from (inr q) ]
      ],
    )

module _ (members : List Text) (order : List ℕ) (cursor : ℕ) where
  -- What the loop has done when it ends: the picks of the rounds i, i + 1, … are in the result.
  pub record Picked (i left : ℕ) (result picked : List Text) : Type 0 where
    pub kept : (x : Text) → In x result → In x picked
    pub only : (x : Text) → In x picked → In x result ⊎ In x members
    pub rounds :
        (t j : ℕ) (x : Text)
        → t < left
        → get_elem? order ((cursor + (i + t)) % length members) ≡ some j
        → get_elem? members j ≡ some x
        → In x picked

  -- A round that picked `m` in front of rounds that did the rest.
  Picked-step :
      {i left : ℕ} {result picked : List Text} {j : ℕ} {m : Text}
      → get_elem? order ((cursor + i) % length members) ≡ some j
      → get_elem? members j ≡ some m
      → Picked (i + 1) left (add_new m result) picked
      → Picked i (suc left) result picked
  Picked-step {i} {left} {result} {picked} {j} {m} ej em p = record {
    kept = λ x h. p.kept x ((In-add_new_cases x m result).1 (inr h));
    only = λ x h. elim (p.only x h) [
      | inl k ↦ elim ((In-add_new_cases x m result).0 k) [
        | inl e ↦ inr (rw e (In-get_elem? members j em))
        | inr q ↦ inl q
      ]
      | inr k ↦ inr k
    ];
    rounds = λ t. round t;
  }
    where
      round :
          (t j' : ℕ) (x : Text)
          → t < suc left
          → get_elem? order ((cursor + (i + t)) % length members) ≡ some j'
          → get_elem? members j' ≡ some x
          → In x picked
      round zero j' x l a b =
          let same : i + 0 ≡ i = omega arith in
          p.kept x ((In-add_new_cases x m result).1 (inl (cc (a, b, ej, em, same))))
      round (suc t) j' x l a b =
          let moved : i + suc t ≡ i + 1 + t = omega arith in
          p.rounds t j' x (omega arith) (rw moved at a) b

  module _ (full : length order ≡ length members)
      (below : (c : ℕ) → In c order → c < length members) (some_member : 0 < length members) where
    pub rotate-Picked :
        (i left : ℕ) (result : List Text)
        → (picked : List Text) × (rotate members order cursor i left result ≡ some picked)
          × Picked i left result picked
    unfolding rotate
    rotate-Picked i zero result = (
      result,
      refl,
      record { kept = λ x h. h; only = λ x h. inl h; rounds = λ t j x l. absurd (omega arith) },
    )
    rotate-Picked i (suc left) result =
        let (j, ej) =
          get_elem?-lt order ((cursor + i) % length members) (rw full (mod-lt _ some_member)) in
        let (m, em) = get_elem?-lt members j (below j (In-get_elem? order _ ej)) in
        let (picked, e, p) = rotate-Picked (i + 1) left (add_new m result) in
        (picked, rw (ej, em) e, Picked-step ej em p)
