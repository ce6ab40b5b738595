-- ===== src/Roundtrip/Rotation/Shuffle.antt =====
-- shuffledOrder is a permutation of [0, n): the exchanges lose no index and bring none in.
use native.Mathlib.Decide.{ℕ_discrete}
use crossplane_update_tester.Base.{
  ℕ, ◌<◌, ◌≡◌, sym, ap, ◌∙◌, arith, List, [], ◌∷◌, some, inl, inr, ◌↔◌, length, get_elem?, set,
  swap_at, length-set, get_elem?-set_self, get_elem?-set_ne, get_elem?-bound, get_elem?-lt,
  In-get_elem?, In, In-set, In-index, range_from, length-range_from, In-range_from,
  range_from_bounds, All,
}
use crossplane_update_tester.Roundtrip.Cell.{CellKey}
use crossplane_update_tester.Roundtrip.Rotation.{Random, IsShuffle, apply_exchanges, shuffled_order}

module _ {A : Type 0} (xs : List A) (i j : ℕ) {a b : A} (hi : get_elem? xs i ≡ some a)
    (hj : get_elem? xs j ≡ some b) where
  swap_at-eq : swap_at i j xs ≡ set (set xs i b) j a
  swap_at-eq = ground arith

  length-swap_at : length (swap_at i j xs) ≡ length xs
  length-swap_at = rw (swap_at-eq, length-set, length-set)

  -- What stands at `k` before stands somewhere after.
  swap_at-keeps : (k : ℕ) (c : A) → get_elem? xs k ≡ some c → In c (swap_at i j xs)
  swap_at-keeps k c e = rw swap_at-eq (elim (ℕ_discrete k i) [
    | yes p ↦ In-get_elem? _ j (
        get_elem?-set_self (set xs i b) j a (rw length-set (get_elem?-bound xs j hj))
        ∙ sym hi
        ∙ ap (get_elem? xs) (sym p)
        ∙ e)
    | no p ↦ elim (ℕ_discrete k j) [
      | yes q ↦ In-get_elem? _ i (
          get_elem?-set_ne (set xs i b) j i a (λ r. p (q ∙ r))
          ∙ get_elem?-set_self xs i b (get_elem?-bound xs i hi)
          ∙ sym hj
          ∙ ap (get_elem? xs) (sym q)
          ∙ e)
      | no q ↦ In-get_elem? _ k (
          get_elem?-set_ne (set xs i b) j k a (λ r. q (sym r))
          ∙ get_elem?-set_ne xs i k b (λ r. p (sym r))
          ∙ e)
    ]
  ])

  swap_at-only : (c : A) → In c (swap_at i j xs) → In c xs
  swap_at-only c h = elim (In-set c a (set xs i b) j (rw swap_at-eq at h)) [
    | inl p ↦ rw p (In-get_elem? xs i hi)
    | inr m ↦ elim (In-set c b xs i m) [ inl p ↦ rw p (In-get_elem? xs j hj) | inr k ↦ k ]
  ]

-- One exchange of indexes in range.
exchange_facts :
    {A : Type 0} (xs : List A) (i j : ℕ)
    → i < length xs
    → j < length xs
    → (length (swap_at i j xs) ≡ length xs) × ((c : A) → In c (swap_at i j xs) ↔ In c xs)
exchange_facts xs i j hi hj =
    let (a, ea) = get_elem?-lt xs i hi in
    let (b, eb) = get_elem?-lt xs j hj in
    (
      length-swap_at xs i j ea eb,
      λ c. (
        swap_at-only xs i j ea eb c,
        λ m. let (k, l, e) = In-index c xs m in swap_at-keeps xs i j ea eb k c e,
      ),
    )

apply_exchanges_facts :
    (n : ℕ) (ps : List (ℕ × ℕ)) (order : List ℕ)
    → length order ≡ n
    → All (λ p. (p.0 < n) × (p.1 < n)) ps
    → (length (apply_exchanges ps order) ≡ n)
      × ((c : ℕ) → In c (apply_exchanges ps order) ↔ In c order)
unfolding apply_exchanges
apply_exchanges_facts n [] order e h = (e, λ c. (λ m. m, λ m. m))
apply_exchanges_facts n ((i, j) ∷ ps) order e h =
    let (len, same) = exchange_facts order i j (rw e h.0.0) (rw e h.0.1) in
    let (len', same') = apply_exchanges_facts n ps (swap_at i j order) (len ∙ e) h.1 in
    (len', λ c. (λ m. (same c).0 ((same' c).0 m), λ m. (same' c).1 ((same c).1 m)))

module _ (random : Random) (shuffles : IsShuffle random) (seed : ℕ) (key : CellKey) (n : ℕ) where
  shuffled_order_facts :
      (length (shuffled_order random seed key n) ≡ n)
      × ((c : ℕ) → In c (shuffled_order random seed key n) ↔ In c (range_from 0 n))
  unfolding shuffled_order
  shuffled_order_facts =
      apply_exchanges_facts n _ (range_from 0 n) (length-range_from 0 n) (shuffles _ n)

  pub length-shuffled_order : length (shuffled_order random seed key n) ≡ n
  length-shuffled_order = shuffled_order_facts.0

  -- Where the shuffle exchanges indices below n only, as math/rand documents, the shuffled order for n
  -- members holds exactly the numbers below n.
  pub In-shuffled_order_iff : (c : ℕ) → In c (shuffled_order random seed key n) ↔ (c < n)
  In-shuffled_order_iff c = (
    λ m. omega (arith, (range_from_bounds 0 n c ((shuffled_order_facts.1 c).0 m)).1),
    λ l. (shuffled_order_facts.1 c).1 (In-range_from 0 n c (omega arith) (omega arith)),
  )
