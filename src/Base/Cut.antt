-- ===== src/Base/Cut.antt =====
-- What strings.LastIndex finds, and predicates over the keys of a map.
use mathlib.Core.Path.{◌≡◌, refl, ap}
use mathlib.Core.Option.{none, some}
use mathlib.Core.Bool.{false}
use mathlib.Core.List.{List, [], ◌∷◌, ◌++◌}
use mathlib.Core.Logic.{inl, inr}
use Prim.Native.Nat.{ℕ, suc}
use native.Mathlib.Omega.{arith}
use crossplane_update_tester.Base.Tests.{Bool-cases, Option-cases}
use crossplane_update_tester.Base.Lists.{All}
use crossplane_update_tester.Base.Equality.{Eq, ◌==◌, ==_iff, nat_eq, insert}
use crossplane_update_tester.Base.Strings.{Text, contains_byte, last_index, take, drop}

pub last_index-none : (b : ℕ) (s : Text) → last_index b s ≡ none → contains_byte b s ≡ false
unfolding last_index contains_byte
last_index-none b [] h = refl
last_index-none b (c ∷ s) h = elim (Option-cases (last_index b s)) [
  | inl e ↦ ground (arith, last_index-none b s e)
  | inr (i, e) ↦ ground arith
]

-- The text is what stands before the last such byte, the byte, and a rest without it.
pub last_index-some :
    (b : ℕ) (s : Text) (i : ℕ)
    → last_index b s ≡ some i
    → (s ≡ take i s ++ b ∷ drop (suc i) s) × (contains_byte b (drop (suc i) s) ≡ false)
unfolding last_index contains_byte
last_index-some b [] i = λ h. cc
last_index-some b (c ∷ s) i = elim (Option-cases (last_index b s)) [
  | inl e ↦ rw e (elim (Bool-cases (c == b)) [
    | inl t ↦ rw t (λ h.
        let z : i ≡ 0 = cc in rw z (ap (λ x. x ∷ s) ((==_iff c b).0 t), last_index-none b s e))
    | inr f ↦ rw f (λ h. cc)
  ])
  | inr (j, e) ↦ rw e (λ h.
      let z : i ≡ suc j = cc in let (p, q) = last_index-some b s j e in rw z (ap (λ x. c ∷ x) p, q))
]

module _ {K V : Type 0} ⦃e : Eq K⦄ where
  -- A write keeps what all the entries of a map satisfy.
  pub All-insert :
      (P : K × V → Type 0) (k : K) (v : V) (m : List (K × V))
      → P (k, v)
      → All P m
      → All P (insert k v m)
  unfolding insert
  All-insert P k v [] p h = (p, tt)
  All-insert P k v ((j, w) ∷ m) p h = elim (Bool-cases (j == k)) [
    | inl t ↦ rw t (p, h.1)
    | inr f ↦ rw f (h.0, All-insert P k v m p h.1)
  ]
