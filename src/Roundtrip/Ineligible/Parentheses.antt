-- ===== src/Roundtrip/Ineligible/Parentheses.antt =====
-- What stripOuterParens takes off, and that its loop ends.
use crossplane_update_tester.Base.{
  ℕ, zero, suc, ◌≤◌, ◌<◌, Text, Bool, false, [], ◌∷◌, length, trim_space, trim_left, trim_right,
  keep_last, is_space, ◌≡◌, refl, inl, inr, Bool-cases, arith,
}
use crossplane_update_tester.Roundtrip.Ineligible.{
  drop_last, inside, is_enclosed, strip_outer_parens, strip_rounds,
}
use crossplane_update_tester.Roundtrip.Ineligible.Balance.{
  Encloses, Encloses-is_enclosed, is_enclosed-Encloses,
}

length-trim_left : (p : ℕ → Bool) (s : Text) → length (trim_left p s) ≤ length s
unfolding trim_left
length-trim_left p [] = omega arith
length-trim_left p (c ∷ s) = elim (Bool-cases (p c)) [
  | inl t ↦ rw t (omega (arith, length-trim_left p s))
  | inr f ↦ rw f (omega arith)
]

length-keep_last : (p : ℕ → Bool) (c : ℕ) (s : Text) → length (keep_last p c s) ≤ suc (length s)
unfolding keep_last
length-keep_last p c [] = ground arith
length-keep_last p c (d ∷ s) = ground arith

length-drop_last : (c : ℕ) (s : Text) → suc (length (drop_last (c ∷ s))) ≡ length (c ∷ s)
length-drop_last c [] = refl
length-drop_last c (d ∷ s) = omega (arith, length-drop_last d s)

length-trim_right : (p : ℕ → Bool) (s : Text) → length (trim_right p s) ≤ length s
unfolding trim_right
length-trim_right p [] = omega arith
length-trim_right p (c ∷ s) =
    omega (arith, length-keep_last p c (trim_right p s), length-trim_right p s)

length-trim_space : (s : Text) → length (trim_space s) ≤ length s
unfolding trim_space
length-trim_space s =
    omega (arith, length-trim_right is_space (trim_left is_space s), length-trim_left is_space s)

-- A round takes two bytes off at least.
length-inside :
    (c d : ℕ) (s : Text) → suc (length (trim_space (inside (c ∷ d ∷ s)))) < length (c ∷ d ∷ s)
length-inside c d s = omega (arith, length-trim_space (drop_last (d ∷ s)), length-drop_last d s)

-- The outer pair of parentheses and the white space inside are taken off, round by round, until no
-- pair encloses the text.
pub data Strips : Text → Text → Type 0 where
  stop : {s : Text} → ((inner : Text) → ¬ Encloses s inner) → Strips s s
  strip : {s inner r : Text} → Encloses s inner → Strips (trim_space inner) r → Strips s r

stop_at : (s : Text) → is_enclosed s ≡ false → Strips s s
stop_at s f = stop (λ inner h. cc (f, (Encloses-is_enclosed s inner h).0))

strip_rounds-Strips : (n : ℕ) (s : Text) → length s ≤ n → Strips s (strip_rounds n s)
unfolding strip_rounds
strip_rounds-Strips zero [] h = stop_at [] refl
strip_rounds-Strips zero (c ∷ s) h = absurd (omega arith)
strip_rounds-Strips (suc n) [] h = stop_at [] refl
strip_rounds-Strips (suc n) (c ∷ []) h = stop_at (c ∷ []) refl
strip_rounds-Strips (suc n) (c ∷ d ∷ s) h = elim (Bool-cases (is_enclosed (c ∷ d ∷ s))) [
  | inl t ↦
      rw (strip_rounds, t)
        (strip (is_enclosed-Encloses (c ∷ d ∷ s) t) (
          strip_rounds-Strips n (trim_space (inside (c ∷ d ∷ s)))
            (omega (arith, length-inside c d s, h))))
  | inr f ↦ rw (strip_rounds, f) (stop_at (c ∷ d ∷ s) f)
]

-- stripOuterParens ends, within as many rounds as the text has bytes, and takes off exactly the pairs
-- of parentheses around the whole text, with the white space inside each. A pair is around the text
-- when its two parentheses match: no part of the text between them, from its start on, closes more
-- parentheses than it opens. What it returns is enclosed by no pair.
pub strip_outer_parens-Strips : (s : Text) → Strips s (strip_outer_parens s)
unfolding strip_outer_parens
strip_outer_parens-Strips s = strip_rounds-Strips (length s) s (omega arith)
