-- ===== src/Base/Strings.antt =====
-- Go's `string`, a sequence of bytes, with the functions of package `strings` that the code calls.
use Prim.Native.Nat.{ℕ, zero, suc}
use Prim.Native.Char.{code}
use Prim.Native.String.{String}
use mathlib.Core.Path.{◌≡◌, refl, ap, sym}
use mathlib.Core.Logic.{inl, inr, ◌↔◌}
use mathlib.Core.Bool.{Bool, true, false, ◌&&◌, ◌||◌}
use mathlib.Core.Option.{Option, none, some}
use mathlib.Core.List.{List, [], ◌∷◌, ◌++◌, reverse}
use native.Mathlib.Omega.{arith}
use crossplane_update_tester.Base.Tests.{if◌then◌else◌, leb, Bool-cases}
use crossplane_update_tester.Base.Equality.{◌==◌, nat_eq}
use crossplane_update_tester.Base.Lists.{All}

abbrev pub Text : Type 0
Text = List ℕ

-- A literal of the source; all of them are ASCII.
abbrev pub text : String → Text
text String.[] = []
text (String.◌∷◌ c s) = code c ∷ text s

abbrev pub is_empty {ℓ} : {A : Type ℓ} → List A → Bool
is_empty [] = true
is_empty (x ∷ xs) = false

-- strings.HasPrefix
unfoldable pub has_prefix : Text → Text → Bool
has_prefix s [] = true
has_prefix [] (p ∷ ps) = false
has_prefix (c ∷ s) (p ∷ ps) = c == p && has_prefix s ps

-- strings.Contains
unfoldable pub contains : Text → Text → Bool
unfolding has_prefix
contains [] p = is_empty p
contains (c ∷ s) p = has_prefix (c ∷ s) p || contains s p

-- strings.ContainsRune for one byte, which is what `Contains(s, ".")` asks
unfoldable pub contains_byte : ℕ → Text → Bool
contains_byte b [] = false
contains_byte b (c ∷ s) = c == b || contains_byte b s

-- strings.HasSuffix
unfoldable pub has_suffix : Text → Text → Bool
unfolding has_prefix
has_suffix s p = has_prefix (reverse s) (reverse p)

-- The white space of ASCII. (Go's `TrimSpace` also takes that of Unicode, which is not modelled.)
abbrev pub is_space : ℕ → Bool
is_space c = (leb 9 c && leb c 13) || c == 32

unfoldable pub trim_left : (ℕ → Bool) → Text → Text
trim_left p [] = []
trim_left p (c ∷ s) = if p c then trim_left p s else c ∷ s

-- `c` before what is left of the text behind it: dropped where nothing is left and `p` holds of it.
unfoldable pub keep_last : (ℕ → Bool) → ℕ → Text → Text
keep_last p c [] = if p c then [] else c ∷ []
keep_last p c (d ∷ t) = c ∷ d ∷ t

unfoldable pub trim_right : (ℕ → Bool) → Text → Text
unfolding keep_last
trim_right p [] = []
trim_right p (c ∷ s) = keep_last p c (trim_right p s)

-- strings.TrimSpace
unfoldable pub trim_space : Text → Text
unfolding trim_left trim_right
trim_space s = trim_right is_space (trim_left is_space s)

abbrev pub push_first : ℕ → List Text → List Text
push_first c [] = (c ∷ []) ∷ []
push_first c (x ∷ xs) = (c ∷ x) ∷ xs

-- strings.Split at one byte
unfoldable pub split : ℕ → Text → List Text
split b [] = [] ∷ []
split b (c ∷ s) = if c == b then [] ∷ split b s else push_first c (split b s)

-- strings.Join
unfoldable pub join : Text → List Text → Text
join sep [] = []
join sep (x ∷ []) = x
join sep (x ∷ y ∷ xs) = x ++ (sep ++ join sep (y ∷ xs))

-- strings.LastIndex of one byte
unfoldable pub last_index : ℕ → Text → Option ℕ
last_index b [] = none
last_index b (c ∷ s) = elim (last_index b s) [
  | none ↦ if c == b then some 0 else none
  | some i ↦ some (suc i)
]

module _ {ℓ} {A : Type ℓ} where
  -- s[:n] and s[n:]
  abbrev pub take : ℕ → List A → List A
  take zero xs = []
  take (suc n) [] = []
  take (suc n) (x ∷ xs) = x ∷ take n xs

  abbrev pub drop : ℕ → List A → List A
  drop zero xs = xs
  drop (suc n) [] = []
  drop (suc n) (x ∷ xs) = drop n xs

-- A byte parts a text in one way only, where the parts before it do not hold it.
pub cut_unique :
    (b : ℕ) (s s' t t' : Text)
    → contains_byte b s ≡ false
    → contains_byte b s' ≡ false
    → s ++ b ∷ t ≡ s' ++ b ∷ t'
    → (s ≡ s') × (t ≡ t')
unfolding contains_byte
cut_unique b [] [] t t' h k e = (refl, ap (drop 1) e)
cut_unique b [] (c ∷ s') t t' h k e = ground arith
cut_unique b (c ∷ s) [] t t' h k e = ground arith
cut_unique b (c ∷ s) (d ∷ s') t t' h k e =
    let (p, q) = cut_unique b s s' t t' (ground arith) (ground arith) (ap (drop 1) e) in
    (ground arith, q)

pub contains_byte-append :
    (b : ℕ) (s t : Text) → contains_byte b (s ++ t) ≡ (contains_byte b s || contains_byte b t)
unfolding contains_byte
contains_byte-append b [] t = refl
contains_byte-append b (c ∷ s) t = ground (arith, contains_byte-append b s t)

-- The parts of a split hold no separator.
pub split-free : (b : ℕ) (s : Text) → All (λ x. contains_byte b x ≡ false) (split b s)
unfolding split contains_byte
split-free b [] = (refl, tt)
split-free b (c ∷ s) = elim (Bool-cases (c == b)) [
  | inl t ↦ rw t (refl, split-free b s)
  | inr f ↦ rw f (push_first-free (split b s) f (split-free b s))
]
  where
    push_first-free :
        (xs : List Text)
        → (c == b) ≡ false
        → All (λ x. contains_byte b x ≡ false) xs
        → All (λ x. contains_byte b x ≡ false) (push_first c xs)
    push_first-free [] f h = (ground arith, tt)
    push_first-free (x ∷ xs) f h = (ground arith, h.1)

push_first-ne-nil : (c : ℕ) (xs : List Text) → is_empty (push_first c xs) ≡ false
push_first-ne-nil c [] = refl
push_first-ne-nil c (x ∷ xs) = refl

pub split-ne-nil : (b : ℕ) (s : Text) → is_empty (split b s) ≡ false
unfolding split
split-ne-nil b [] = refl
split-ne-nil b (c ∷ s) = elim (Bool-cases (c == b)) [
  | inl t ↦ rw t
  | inr f ↦ rw f (push_first-ne-nil c (split b s))
]

join-push_first :
    (sep : Text) (c : ℕ) (xs : List Text) → join sep (push_first c xs) ≡ c ∷ join sep xs
unfolding join
join-push_first sep c [] = refl
join-push_first sep c (x ∷ []) = refl
join-push_first sep c (x ∷ y ∷ xs) = refl

join-cons :
    (sep : Text) (x : Text) (xs : List Text)
    → is_empty xs ≡ false
    → join sep (x ∷ xs) ≡ x ++ (sep ++ join sep xs)
unfolding join
join-cons sep x [] h = cc
join-cons sep x (y ∷ xs) h = refl

-- Joining what a split gave is the text.
pub join-split : (b : ℕ) (s : Text) → join (b ∷ []) (split b s) ≡ s
unfolding split
join-split b [] = unfold join in refl
join-split b (c ∷ s) = elim (Bool-cases (c == b)) [
  | inl t ↦
      rw (t, join-cons (b ∷ []) [] (split b s) (split-ne-nil b s), join-split b s) (ground arith)
  | inr f ↦ rw (f, join-push_first (b ∷ []) c (split b s), join-split b s)
]

held_behind : (b : ℕ) (s t u : Text) → u ≡ s ++ b ∷ t → contains_byte b u ≡ false → ⊥
unfolding contains_byte
held_behind b s t u e h = ground (arith, contains_byte-append b s (b ∷ t))

-- So it does where the parts behind it do not hold it.
pub cut_unique_right :
    (b : ℕ) (s s' t t' : Text)
    → contains_byte b t ≡ false
    → contains_byte b t' ≡ false
    → s ++ b ∷ t ≡ s' ++ b ∷ t'
    → (s ≡ s') × (t ≡ t')
cut_unique_right b [] [] t t' h k e = (refl, ap (drop 1) e)
cut_unique_right b [] (c ∷ s') t t' h k e = absurd (held_behind b s' t' t (ap (drop 1) e) h)
cut_unique_right b (c ∷ s) [] t t' h k e = absurd (held_behind b s t t' (sym (ap (drop 1) e)) k)
cut_unique_right b (c ∷ s) (d ∷ s') t t' h k e =
    let (p, q) = cut_unique_right b s s' t t' h k (ap (drop 1) e) in (ground arith, q)

pub is_empty_iff {ℓ} : {A : Type ℓ} (xs : List A) → (is_empty xs ≡ true) ↔ (xs ≡ [])
is_empty_iff [] = (λ h. refl, λ h. refl)
is_empty_iff (x ∷ xs) = (λ h. cc, λ h. cc)
