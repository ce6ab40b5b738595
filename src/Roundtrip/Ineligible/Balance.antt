-- ===== src/Roundtrip/Ineligible/Balance.antt =====
-- The inner loop of stripOuterParens against the counts of parentheses in the parts of a text.
use crossplane_update_tester.Base.{
  ℕ, zero, suc, ◌+◌, ◌≤◌, Text, true, false, not, ◌&&◌, [], ◌∷◌, ◌++◌, if◌then◌else◌, nat_beq,
  nat_beq_iff, ◌≡◌, ◌↔◌, ◌⊎◌, ◌∙◌, refl, ap, sym, inl, inr, Bool-cases, arith,
}
use crossplane_update_tester.Roundtrip.Ineligible.{
  depth_after, drop_last, inside, is_enclosed, last_is, stays_open,
}

-- How often a byte occurs.
unfoldable pub count_byte : ℕ → Text → ℕ
count_byte b [] = 0
count_byte b (c ∷ s) = (if nat_beq c b then 1 else 0) + count_byte b s

-- No part of the text up to some byte closes more parentheses than it opens, beyond `d`.
abbrev pub StaysOpen : ℕ → Text → Type 0
StaysOpen d inner = (p q : Text) → inner ≡ p ++ q → count_byte b')' p ≤ d + count_byte b'(' p

-- The text is one pair of parentheses that match each other, around `inner`.
abbrev pub Encloses : Text → Text → Type 0
Encloses s inner = (s ≡ b'(' ∷ (inner ++ b')' ∷ [])) × StaysOpen 0 inner

stays_open_step :
    (c : ℕ) (inner : Text) (d : ℕ)
    → stays_open (c ∷ (inner ++ b')' ∷ [])) d ≡ (
        not (nat_beq c b')' && nat_beq (depth_after c d) 0)
        && stays_open (inner ++ b')' ∷ []) (depth_after c d))
unfolding stays_open
stays_open_step c [] d = refl
stays_open_step c (e ∷ inner) d = refl

-- The parts of a text with a byte in front, from the parts of the rest.
StaysOpen-cons :
    (c : ℕ) (inner : Text) (d k : ℕ)
    → ((m n : ℕ)
        → ((if nat_beq c b')' then 1 else 0) + m ≤ d + ((if nat_beq c b'(' then 1 else 0) + n))
          ↔ (m ≤ k + n))
    → StaysOpen d (c ∷ inner) ↔ StaysOpen k inner
unfolding count_byte
StaysOpen-cons c inner d k same = (
  λ h p q e. (same (count_byte b')' p) (count_byte b'(' p)).0 (h (c ∷ p) q (ap (λ x. c ∷ x) e)),
  from,
)
  where
    from : StaysOpen k inner → StaysOpen d (c ∷ inner)
    from h [] q e = omega arith
    from h (x ∷ p) q e =
        let eq : c ≡ x = cc in
        let rest : inner ≡ p ++ q = cc in
        rw (sym eq) ((same (count_byte b')' p) (count_byte b'(' p)).1 (h p q rest))

-- A byte that is not the last leaves the depth positive.
stays_open-passes :
    (c : ℕ) (inner : Text) (d k : ℕ)
    → (nat_beq c b')' ≡ false) ⊎ (1 ≤ k)
    → depth_after c d ≡ k
    → stays_open (c ∷ (inner ++ b')' ∷ [])) d ≡ stays_open (inner ++ b')' ∷ []) k
stays_open-passes c inner d k h e =
    let passed : (not (nat_beq c b')' && nat_beq k 0)) ≡ true = ground arith in
    stays_open_step c inner d ∙ rw (e, passed) refl

-- One more byte in front of a text for which the two views agree.
abbrev Agree : ℕ → Text → Type 0
Agree d inner = (stays_open (inner ++ b')' ∷ []) (suc d) ≡ true) ↔ StaysOpen d inner

Agree-passes :
    (c : ℕ) (inner : Text) (d k : ℕ)
    → stays_open (c ∷ (inner ++ b')' ∷ [])) (suc d) ≡ stays_open (inner ++ b')' ∷ []) (suc k)
    → StaysOpen d (c ∷ inner) ↔ StaysOpen k inner
    → Agree k inner
    → Agree d (c ∷ inner)
Agree-passes c inner d k e (u, v) (to, from) = (λ h. v (to (sym e ∙ h)), λ h. e ∙ from (u h))

Agree-refused :
    (c : ℕ) (inner : Text) → nat_beq c b')' ≡ true → nat_beq c b'(' ≡ false → Agree 0 (c ∷ inner)
unfolding count_byte
Agree-refused c inner t f = (
  λ h. absurd (let e : false ≡ true = sym shut ∙ h in cc),
  λ h. absurd (omega (arith, (rw (t, f) at (h (c ∷ []) inner refl)))),
)
  where
    shut : stays_open (c ∷ (inner ++ b')' ∷ [])) 1 ≡ false
    shut = stays_open_step c inner 1 ∙ rw (depth_after, t, f) refl

stays_open-append_last : (inner : Text) (d : ℕ) → Agree d inner
unfolding stays_open count_byte
stays_open-append_last [] d = (λ h p q e. no_part p q e, λ h. refl)
  where
    no_part : (p q : Text) → [] ≡ p ++ q → count_byte b')' p ≤ d + count_byte b'(' p
    no_part [] q e = omega arith
    no_part (x ∷ p) q e = cc
stays_open-append_last (c ∷ inner) d = elim (Bool-cases (nat_beq c b'(')) [
  | inl t ↦
      Agree-passes c inner d (suc d)
        (stays_open-passes c inner (suc d) (suc (suc d)) (inr (omega arith)) (ground arith))
        (StaysOpen-cons c inner d (suc d) (λ m n. ground arith))
        (stays_open-append_last inner (suc d))
  | inr f ↦ elim (Bool-cases (nat_beq c b')')) [
    | inr o ↦
        Agree-passes c inner d d (stays_open-passes c inner (suc d) (suc d) (inl o) (ground arith))
          (StaysOpen-cons c inner d d (λ m n. ground arith)) (stays_open-append_last inner d)
    | inl o ↦ closed d o f (λ k. stays_open-append_last inner k)
  ]
]
  where
    closed :
        (d : ℕ)
        → nat_beq c b')' ≡ true
        → nat_beq c b'(' ≡ false
        → ((k : ℕ) → Agree k inner)
        → Agree d (c ∷ inner)
    closed zero o f ih = Agree-refused c inner o f
    closed (suc d) o f ih =
        Agree-passes c inner (suc d) d
          (stays_open-passes c inner (suc (suc d)) (suc d) (inr (omega arith)) (ground arith))
          (StaysOpen-cons c inner (suc d) d (λ m n. ground arith)) (ih d)

last_is-drop_last :
    (b c : ℕ) (s : Text) → last_is b (c ∷ s) ≡ true → c ∷ s ≡ drop_last (c ∷ s) ++ b ∷ []
last_is-drop_last b c [] h = ap (λ x. x ∷ []) ((nat_beq_iff c b).0 h)
last_is-drop_last b c (d ∷ s) h = ap (λ x. c ∷ x) (last_is-drop_last b d s h)

last_is-append : (b : ℕ) (s : Text) → last_is b (s ++ b ∷ []) ≡ true
last_is-append b [] = (nat_beq_iff b b).1 refl
last_is-append b (c ∷ []) = (nat_beq_iff b b).1 refl
last_is-append b (c ∷ d ∷ s) = last_is-append b (d ∷ s)

drop_last-append : (b : ℕ) (s : Text) → drop_last (s ++ b ∷ []) ≡ s
drop_last-append b [] = refl
drop_last-append b (c ∷ []) = refl
drop_last-append b (c ∷ d ∷ s) = ap (λ x. c ∷ x) (drop_last-append b (d ∷ s))

is_enclosed-append :
    (inner : Text) → is_enclosed (b'(' ∷ (inner ++ b')' ∷ [])) ≡ stays_open (inner ++ b')' ∷ []) 1
unfolding stays_open
is_enclosed-append [] = refl
is_enclosed-append (c ∷ inner) =
    rw (is_enclosed, last_is-append b')' (c ∷ inner)) (stays_open_step b'(' (c ∷ inner) 0)

pub is_enclosed-Encloses : (s : Text) → is_enclosed s ≡ true → Encloses s (inside s)
is_enclosed-Encloses [] h = cc
is_enclosed-Encloses (c ∷ []) h = cc
is_enclosed-Encloses (c ∷ d ∷ s) h =
    let first : nat_beq c b'(' ≡ true = ground arith in
    let last : last_is b')' (d ∷ s) ≡ true = ground arith in
    let inner = drop_last (d ∷ s) in
    let e : c ∷ d ∷ s ≡ b'(' ∷ (inner ++ b')' ∷ []) =
      ap (λ x. x ∷ d ∷ s) ((nat_beq_iff c b'(').0 first)
      ∙ ap (λ x. b'(' ∷ x) (last_is-drop_last b')' d s last) in
    (
      e,
      (stays_open-append_last inner 0).0
          (sym (is_enclosed-append inner) ∙ sym (ap is_enclosed e) ∙ h),
    )

pub Encloses-is_enclosed :
    (s inner : Text) → Encloses s inner → (is_enclosed s ≡ true) × (inside s ≡ inner)
Encloses-is_enclosed s inner (e, h) = (
  ap is_enclosed e ∙ is_enclosed-append inner ∙ (stays_open-append_last inner 0).1 h,
  ap inside e ∙ drop_last-append b')' inner,
)
