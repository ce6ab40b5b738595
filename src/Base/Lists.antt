-- ===== src/Base/Lists.antt =====
-- Lists measured and indexed by native numbers, and predicates over lists.
use Prim.Native.Nat.{ℕ, zero, suc, ◌+◌, ◌<◌, ◌≤◌}
use mathlib.Core.Path.{◌≡◌, ◌∙◌, refl, ap, sym, subst}
use mathlib.Core.Logic.{◌⊎◌, inl, inr, ◌↔◌, ◌≢◌}
use mathlib.Core.Bool.{Bool, true, false, ◌||◌}
use mathlib.Core.Option.{Option, none, some}
use mathlib.Core.List.{List, [], ◌∷◌, ◌++◌, map}
use native.Mathlib.Omega.{arith}
use native.Mathlib.Decide.{dec_lt}
use crossplane_update_tester.Base.Tests.{if◌then◌else◌, Bool-cases}

module _ {ℓ} {A : Type ℓ} where
  abbrev pub length : List A → ℕ
  length [] = 0
  length (x ∷ xs) = suc (length xs)

  abbrev pub get_elem? : List A → ℕ → Option A
  get_elem? [] i = none
  get_elem? (x ∷ xs) zero = some x
  get_elem? (x ∷ xs) (suc i) = get_elem? xs i

  abbrev pub any : (A → Bool) → List A → Bool
  any p [] = false
  any p (x ∷ xs) = p x || any p xs

  -- `filter` of the library decides into `Dec`; the code tests Booleans.
  abbrev pub filter : (A → Bool) → List A → List A
  filter p [] = []
  filter p (x ∷ xs) = if p x then x ∷ filter p xs else filter p xs

  pub length-append : (xs ys : List A) → length (xs ++ ys) ≡ length xs + length ys
  length-append [] ys = omega arith
  length-append (x ∷ xs) ys = omega (arith, length-append xs ys)

module _ {A : Type 0} where
  -- The element stands in the list. (The program's values all live in `Type 0`.)
  abbrev pub In : A → List A → Type 0
  In a [] = ⊥
  In a (x ∷ xs) = (a ≡ x) ⊎ In a xs

  pub In-append_left : (a : A) (xs ys : List A) → In a xs → In a (xs ++ ys)
  In-append_left a [] ys h = absurd h
  In-append_left a (x ∷ xs) ys (inl p) = inl p
  In-append_left a (x ∷ xs) ys (inr h) = inr (In-append_left a xs ys h)

  pub In-append_right : (a : A) (xs ys : List A) → In a ys → In a (xs ++ ys)
  In-append_right a [] ys h = h
  In-append_right a (x ∷ xs) ys h = inr (In-append_right a xs ys h)

  pub In-append_cases : (a : A) (xs ys : List A) → In a (xs ++ ys) → In a xs ⊎ In a ys
  In-append_cases a [] ys h = inr h
  In-append_cases a (x ∷ xs) ys (inl p) = inl (inl p)
  In-append_cases a (x ∷ xs) ys (inr h) = elim (In-append_cases a xs ys h) [
    | inl k ↦ inl (inr k)
    | inr k ↦ inr k
  ]

  pub In-get_elem? : (xs : List A) (i : ℕ) {a : A} → get_elem? xs i ≡ some a → In a xs
  In-get_elem? [] i h = cc
  In-get_elem? (x ∷ xs) zero h = inl (cc)
  In-get_elem? (x ∷ xs) (suc i) h = inr (In-get_elem? xs i h)

  pub get_elem?-lt : (xs : List A) (i : ℕ) → i < length xs → (a : A) × (get_elem? xs i ≡ some a)
  get_elem?-lt [] i h = absurd (omega arith)
  get_elem?-lt (x ∷ xs) zero h = (x, refl)
  get_elem?-lt (x ∷ xs) (suc i) h = get_elem?-lt xs i (omega arith)

  pub In-index :
      (a : A) (xs : List A) → In a xs → (i : ℕ) × (i < length xs) × (get_elem? xs i ≡ some a)
  In-index a [] h = absurd h
  In-index a (x ∷ xs) (inl p) = (0, omega arith, ap some (sym p))
  In-index a (x ∷ xs) (inr h) = let (i, l, e) = In-index a xs h in (suc i, omega arith, e)

  -- A predicate holds of every element.
  abbrev pub All {κ} : (A → Type κ) → List A → Type κ
  All P [] = Unit
  All P (x ∷ xs) = P x × All P xs

  pub All-In {κ} : (P : A → Type κ) (xs : List A) → All P xs → {a : A} → In a xs → P a
  All-In P [] h m = absurd m
  All-In P (x ∷ xs) h (inl p) = subst P (sym p) h.0
  All-In P (x ∷ xs) h (inr m) = All-In P xs h.1 m

  pub All_of_In {κ} : (P : A → Type κ) (xs : List A) → ((a : A) → In a xs → P a) → All P xs
  All_of_In P [] h = tt
  All_of_In P (x ∷ xs) h = (h x (inl refl), All_of_In P xs (λ a m. h a (inr m)))

  pub All-append {κ} : (P : A → Type κ) (xs ys : List A) → All P xs → All P ys → All P (xs ++ ys)
  All-append P [] ys h k = k
  All-append P (x ∷ xs) ys h k = (h.0, All-append P xs ys h.1 k)

  In-filter_keep :
      (p : A → Bool) (a x : A) (xs : List A)
      → p x ≡ true
      → In a (filter p xs) ↔ (In a xs × (p a ≡ true))
      → In a (x ∷ filter p xs) ↔ (In a (x ∷ xs) × (p a ≡ true))
  In-filter_keep p a x xs t ih = (
    elim [ inl e ↦ (inl e, ap p e ∙ t) | inr h ↦ (inr (ih.0 h).0, (ih.0 h).1) ],
    λ h. elim h.0 [ inl e ↦ inl e | inr m ↦ inr (ih.1 (m, h.1)) ],
  )

  In-filter_drop :
      (p : A → Bool) (a x : A) (xs : List A)
      → p x ≡ false
      → In a (filter p xs) ↔ (In a xs × (p a ≡ true))
      → In a (filter p xs) ↔ (In a (x ∷ xs) × (p a ≡ true))
  In-filter_drop p a x xs f ih = (
    λ h. (inr (ih.0 h).0, (ih.0 h).1),
    λ h. elim h.0 [ inl e ↦ cc (ap p e, f, h.1) | inr m ↦ ih.1 (m, h.1) ],
  )

  pub In-filter :
      (p : A → Bool) (a : A) (xs : List A) → In a (filter p xs) ↔ (In a xs × (p a ≡ true))
  In-filter p a [] = (λ h. absurd h, λ h. h.0)
  In-filter p a (x ∷ xs) = elim (Bool-cases (p x)) [
    | inl t ↦ rw t (In-filter_keep p a x xs t (In-filter p a xs))
    | inr f ↦ rw f (In-filter_drop p a x xs f (In-filter p a xs))
  ]

module _ {ℓ} {A : Type ℓ} where
  -- A write out of bounds changes nothing.
  abbrev pub set : List A → ℕ → A → List A
  set [] i v = []
  set (x ∷ xs) zero v = v ∷ xs
  set (x ∷ xs) (suc i) v = x ∷ set xs i v

  pub length-set : (xs : List A) (i : ℕ) (v : A) → length (set xs i v) ≡ length xs
  length-set [] i v = refl
  length-set (x ∷ xs) zero v = refl
  length-set (x ∷ xs) (suc i) v = ap suc (length-set xs i v)

  pub get_elem?-set_self :
      (xs : List A) (i : ℕ) (v : A) → i < length xs → get_elem? (set xs i v) i ≡ some v
  get_elem?-set_self [] i v h = elim h [ ]
  get_elem?-set_self (x ∷ xs) zero v h = refl
  get_elem?-set_self (x ∷ xs) (suc i) v h = get_elem?-set_self xs i v (omega arith)

  pub get_elem?-set_ne :
      (xs : List A) (i j : ℕ) (v : A) → i ≢ j → get_elem? (set xs i v) j ≡ get_elem? xs j
  get_elem?-set_ne [] i j v h = refl
  get_elem?-set_ne (x ∷ xs) zero zero v h = absurd (h refl)
  get_elem?-set_ne (x ∷ xs) zero (suc j) v h = refl
  get_elem?-set_ne (x ∷ xs) (suc i) zero v h = refl
  get_elem?-set_ne (x ∷ xs) (suc i) (suc j) v h = get_elem?-set_ne xs i j v (λ e. h (ap suc e))

  pub get_elem?-bound : (xs : List A) (i : ℕ) {a : A} → get_elem? xs i ≡ some a → i < length xs
  get_elem?-bound [] i h = cc
  get_elem?-bound (x ∷ xs) zero h = omega arith
  get_elem?-bound (x ∷ xs) (suc i) h = omega (arith, get_elem?-bound xs i h)

module _ {A : Type 0} where
  pub In-set : (a v : A) (xs : List A) (i : ℕ) → In a (set xs i v) → (a ≡ v) ⊎ In a xs
  In-set a v [] i h = absurd h
  In-set a v (x ∷ xs) zero h = elim h [ inl p ↦ inl p | inr m ↦ inr (inr m) ]
  In-set a v (x ∷ xs) (suc i) h = elim h [
    | inl p ↦ inr (inl p)
    | inr m ↦ elim (In-set a v xs i m) [ inl p ↦ inl p | inr k ↦ inr (inr k) ]
  ]

  -- order[i], order[j] = order[j], order[i]
  abbrev pub swap_at : ℕ → ℕ → List A → List A
  swap_at i j xs = elim (get_elem? xs i) [
    | none ↦ xs
    | some a ↦ elim (get_elem? xs j) [ none ↦ xs | some b ↦ set (set xs i b) j a ]
  ]

-- The numbers from `k` on, `n` of them.
abbrev pub range_from : ℕ → ℕ → List ℕ
range_from k zero = []
range_from k (suc n) = k ∷ range_from (suc k) n

pub length-range_from : (k n : ℕ) → length (range_from k n) ≡ n
length-range_from k zero = refl
length-range_from k (suc n) = ap suc (length-range_from (suc k) n)

pub In-range_from : (k n j : ℕ) → k ≤ j → j < k + n → In j (range_from k n)
In-range_from k zero j h l = absurd (omega arith)
In-range_from k (suc n) j h l = elim (dec_lt k j) [
  | yes p ↦ inr (In-range_from (suc k) n j p (omega arith))
  | no p ↦ inl (omega arith)
]

pub range_from_bounds : (k n j : ℕ) → In j (range_from k n) → (k ≤ j) × (j < k + n)
range_from_bounds k zero j h = absurd h
range_from_bounds k (suc n) j (inl p) = (omega arith, omega arith)
range_from_bounds k (suc n) j (inr m) =
    let (l, u) = range_from_bounds (suc k) n j m in (omega arith, omega arith)

-- A chain of lookups that may be out of range.
infixl 5 ◌>>=◌
abbrev pub ◌>>=◌ {ℓ κ} : {A : Type ℓ} {B : Type κ} → Option A → (A → Option B) → Option B
none >>= f = none
some a >>= f = f a

module _ {A : Type 0} where
  -- A predicate holds of some element.
  abbrev pub Any : (A → Type 0) → List A → Type 0
  Any P [] = ⊥
  Any P (x ∷ xs) = P x ⊎ Any P xs

-- Inversion of a chain that succeeds.
pub >>=-eq-some {ℓ κ} :
    {A : Type ℓ} {B : Type κ} (m : Option A) (f : A → Option B) {b : B}
    → (m >>= f) ≡ some b
    → (a : A) × (m ≡ some a) × (f a ≡ some b)
>>=-eq-some none f h = cc
>>=-eq-some (some a) f h = (a, refl, h)

pub some_eq {ℓ} : {A : Type ℓ} {a b : A} → some a ≡ some b → a ≡ b
some_eq h = cc

module _ {A B : Type 0} where
  pub In-map : (f : A → B) (b : B) (xs : List A) → In b (map f xs) → (a : A) × In a xs × (b ≡ f a)
  In-map f b [] h = absurd h
  In-map f b (x ∷ xs) (inl p) = (x, inl refl, p)
  In-map f b (x ∷ xs) (inr h) = let (a, m, e) = In-map f b xs h in (a, inr m, e)

  pub In-map_of : (f : A → B) (a : A) (xs : List A) → In a xs → In (f a) (map f xs)
  In-map_of f a [] h = absurd h
  In-map_of f a (x ∷ xs) (inl p) = inl (ap f p)
  In-map_of f a (x ∷ xs) (inr h) = inr (In-map_of f a xs h)

module _ {A : Type 0} where
  pub any_iff :
      (p : A → Bool) (xs : List A) → (any p xs ≡ true) ↔ ((a : A) × In a xs × (p a ≡ true))
  any_iff p [] = (λ h. cc, λ h. absurd h.1)
  any_iff p (x ∷ xs) = elim (Bool-cases (p x)) [
    | inl t ↦ (λ h. (x, inl refl, t), λ h. rw t refl)
    | inr f ↦ rw f (
      λ h. let (a, i, e) = (any_iff p xs).0 h in (a, inr i, e),
      λ h. elim h.1 [ inl e ↦ cc (ap p e, f, h.2) | inr i ↦ (any_iff p xs).1 (h.0, i, h.2) ],
    )
  ]

  pub any-false : (p : A → Bool) (xs : List A) (a : A) → In a xs → any p xs ≡ false → p a ≡ false
  any-false p xs a i h = elim (Bool-cases (p a)) [
    | inl t ↦ cc (h, (any_iff p xs).1 (a, i, t))
    | inr f ↦ f
  ]
