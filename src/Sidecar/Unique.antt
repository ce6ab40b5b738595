-- ===== src/Sidecar/Unique.antt =====
-- One element left of a filtered range of indices, the test `len(candidates) == 1`.
use mathlib.Core.Path.{subst}
use crossplane_update_tester.Base.{
  ℕ, zero, suc, ◌<◌, Bool, true, List, [], ◌∷◌, filter, range_from, range_from_bounds,
  In-range_from, In, In-filter, Bool-cases, ◌≡◌, ◌↔◌, inl, inr, refl, ap, arith,
}

-- Exactly one index below `n` passes the test.
abbrev pub IsOnly : (ℕ → Bool) → ℕ → ℕ → Type 0
IsOnly p n i = (i < n) × (p i ≡ true) × ((j : ℕ) → j < n → p j ≡ true → j ≡ i)

filter_range-lt :
    (p : ℕ → Bool) (k n a b : ℕ) (r : List ℕ) → In b r → filter p (range_from k n) ≡ a ∷ r → a < b
filter_range-lt p k zero a b r m = λ h. cc
filter_range-lt p k (suc n) a b r m = elim (Bool-cases (p k)) [
  | inl t ↦ rw t (first (filter p (range_from (suc k) n)) refl)
  | inr f ↦ rw f (filter_range-lt p (suc k) n a b r m)
]
  where
    first : (xs : List ℕ) → filter p (range_from (suc k) n) ≡ xs → k ∷ xs ≡ a ∷ r → a < b
    first xs same h =
        let q : r ≡ xs = cc in
        let e : k ≡ a = cc in
        let m' : In b (filter p (range_from (suc k) n)) = rw (same, ← q) m in
        let (l, u) = range_from_bounds (suc k) n b ((In-filter p b _).0 m').0 in omega arith

pub IsOnly-iff : (p : ℕ → Bool) (n i : ℕ) → (filter p (range_from 0 n) ≡ i ∷ []) ↔ IsOnly p n i
IsOnly-iff p n i = (forward, λ o. backward o (filter p (range_from 0 n)) refl)
  where
    found : (j : ℕ) → j < n → p j ≡ true → In j (filter p (range_from 0 n))
    found j l t =
        (In-filter p j (range_from 0 n)).1 (In-range_from 0 n j (omega arith) (omega arith), t)

    kept : (j : ℕ) → In j (filter p (range_from 0 n)) → (j < n) × (p j ≡ true)
    kept j m =
        let (r, t) = (In-filter p j (range_from 0 n)).0 m in
        let (l, u) = range_from_bounds 0 n j r in (omega arith, t)

    forward : filter p (range_from 0 n) ≡ i ∷ [] → IsOnly p n i
    forward h =
        let (l, t) = kept i (rw h (inl refl)) in
        (l, t, λ j u s. In-single j (subst (In j) h (found j u s)))
      where
        In-single : (j : ℕ) → In j (i ∷ []) → j ≡ i
        In-single j (inl e) = e
        In-single j (inr m) = absurd m

    backward : IsOnly p n i → (xs : List ℕ) → filter p (range_from 0 n) ≡ xs → xs ≡ i ∷ []
    backward o [] h = absurd (subst (In i) h (found i o.0 o.1))
    backward o (a ∷ []) h = let (l, t) = kept a (rw h (inl refl)) in ap (λ x. x ∷ []) (o.2 a l t)
    backward o (a ∷ b ∷ r) h =
        let (l, t) = kept a (rw h (inl refl)) in
        let (u, s) = kept b (rw h (inr (inl refl))) in
        let less = filter_range-lt p 0 n a b (b ∷ r) (inl refl) h in
        absurd (omega (arith, o.2 a l t, o.2 b u s))
