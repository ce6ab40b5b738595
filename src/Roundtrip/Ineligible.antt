-- ===== src/Roundtrip/Ineligible.antt =====
-- internal/roundtrip/ineligible.go: stripOuterParens, which takes the disjunct of a CEL rule out of the
-- parentheses around it.
pub mod Balance
pub mod Parentheses
use crossplane_update_tester.Base.{
  ℕ, zero, suc, ◌-◌, Text, Bool, true, false, not, ◌&&◌, List, [], ◌∷◌, length, if◌then◌else◌,
  nat_beq, trim_space,
}

-- The depth after a byte. (It is not 0 where a parenthesis closes.)
abbrev pub depth_after : ℕ → ℕ → ℕ
depth_after c d = if nat_beq c b'(' then suc d else if nat_beq c b')' then d - 1 else d

-- The inner loop, from depth `d` on: the depth does not come back to 0 before the last byte.
unfoldable pub stays_open : Text → ℕ → Bool
stays_open [] d = true
stays_open (c ∷ []) d = true
stays_open (c ∷ e ∷ rest) d =
    let later = stays_open (e ∷ rest) (depth_after c d) in
    not (nat_beq c b')' && nat_beq (depth_after c d) 0) && later

abbrev pub last_is : ℕ → Text → Bool
last_is b [] = false
last_is b (c ∷ []) = nat_beq c b
last_is b (c ∷ e ∷ rest) = last_is b (e ∷ rest)

-- The text is one pair of parentheses with something, or nothing, in it.
abbrev pub is_enclosed : Text → Bool
is_enclosed [] = false
is_enclosed (c ∷ []) = false
is_enclosed (c ∷ e ∷ rest) =
    nat_beq c b'(' && (last_is b')' (e ∷ rest) && stays_open (c ∷ e ∷ rest) 0)

abbrev pub drop_last : Text → Text
drop_last [] = []
drop_last (c ∷ []) = []
drop_last (c ∷ e ∷ rest) = c ∷ drop_last (e ∷ rest)

-- s[1 : len(s)-1]
abbrev pub inside : Text → Text
inside [] = []
inside (c ∷ rest) = drop_last rest

-- The outer loop, for at most as many rounds as there are bytes.
unfoldable pub strip_rounds : ℕ → Text → Text
unfolding stays_open trim_space
strip_rounds zero s = s
strip_rounds (suc n) s =
    let rest = strip_rounds n (trim_space (inside s)) in if is_enclosed s then rest else s

unfoldable pub strip_outer_parens : Text → Text
unfolding strip_rounds
strip_outer_parens s = strip_rounds (length s) s
