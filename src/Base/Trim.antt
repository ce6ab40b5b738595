-- ===== src/Base/Trim.antt =====
-- Laws of `strings.TrimSpace`.
use mathlib.Core.Path.{◌≡◌, refl, ap, ◌∙◌}
use mathlib.Core.Bool.{Bool, false}
use mathlib.Core.Logic.{inl, inr}
use mathlib.Core.List.{[], ◌∷◌}
use native.Mathlib.Omega.{arith}
use crossplane_update_tester.Base.Tests.{Bool-cases}
use crossplane_update_tester.Base.Equality.{◌==◌, nat_eq}
use crossplane_update_tester.Base.Strings.{
  Text, contains_byte, is_space, keep_last, trim_left, trim_right, trim_space,
}
use Prim.Native.Nat.{ℕ}

module _ (p : ℕ → Bool) where
  trim_left-free :
      (b : ℕ) (s : Text) → contains_byte b s ≡ false → contains_byte b (trim_left p s) ≡ false
  unfolding contains_byte trim_left
  trim_left-free b [] h = refl
  trim_left-free b (c ∷ s) h = ground (arith, trim_left-free b s)

  keep_last-free :
      (b c : ℕ) (s : Text)
      → (c == b) ≡ false
      → contains_byte b s ≡ false
      → contains_byte b (keep_last p c s) ≡ false
  unfolding contains_byte keep_last
  keep_last-free b c [] h k = ground arith
  keep_last-free b c (d ∷ s) h k = ground arith

  trim_right-free :
      (b : ℕ) (s : Text) → contains_byte b s ≡ false → contains_byte b (trim_right p s) ≡ false
  unfolding contains_byte trim_right
  trim_right-free b [] h = refl
  trim_right-free b (c ∷ s) h =
      keep_last-free b c (trim_right p s) (ground arith) (trim_right-free b s (ground arith))

  trim_right-keep_last :
      (c : ℕ) (s : Text) → trim_right p s ≡ s → trim_right p (keep_last p c s) ≡ keep_last p c s
  unfolding trim_right keep_last
  trim_right-keep_last c [] h = elim (Bool-cases (p c)) [ inl t ↦ rw t | inr f ↦ rw (f, f) ]
  trim_right-keep_last c (d ∷ s) h = ap (keep_last p c) h

  trim_right_idem : (s : Text) → trim_right p (trim_right p s) ≡ trim_right p s
  unfolding trim_right
  trim_right_idem [] = refl
  trim_right_idem (c ∷ s) = trim_right-keep_last c (trim_right p s) (trim_right_idem s)

  trim_left-keep_last :
      (c : ℕ) (s : Text) → p c ≡ false → trim_left p (keep_last p c s) ≡ keep_last p c s
  unfolding trim_left keep_last
  trim_left-keep_last c [] h = rw (h, h)
  trim_left-keep_last c (d ∷ s) h = rw h

  -- What is left of a text begins with a byte that is kept on both ends.
  trim_left-trim_right-trim_left :
      (s : Text) → trim_left p (trim_right p (trim_left p s)) ≡ trim_right p (trim_left p s)
  unfolding trim_left trim_right
  trim_left-trim_right-trim_left [] = refl
  trim_left-trim_right-trim_left (c ∷ s) = elim (Bool-cases (p c)) [
    | inl t ↦ rw t (trim_left-trim_right-trim_left s)
    | inr f ↦ rw f (trim_left-keep_last c (trim_right p s) f)
  ]

-- Trimming brings in no byte.
pub trim_space-free :
    (b : ℕ) (s : Text) → contains_byte b s ≡ false → contains_byte b (trim_space s) ≡ false
unfolding trim_space
trim_space-free b s h = trim_right-free is_space b _ (trim_left-free is_space b s h)

-- Trimming twice changes nothing more.
pub trim_space_idem : (s : Text) → trim_space (trim_space s) ≡ trim_space s
unfolding trim_space
trim_space_idem s =
    ap (trim_right is_space) (trim_left-trim_right-trim_left is_space s)
    ∙ trim_right_idem is_space (trim_left is_space s)
