-- ===== src/Base/Equality.antt =====
-- Equality tests as an interface, membership, and the association lists that stand for Go maps.
use Prim.Native.Nat.{ℕ}
use mathlib.Core.Path.{◌≡◌, refl}
use mathlib.Core.Logic.{◌↔◌, ◌≢◌}
use mathlib.Core.Bool.{Bool, true, false, ◌&&◌, ◌||◌}
use mathlib.Core.Option.{Option, none, some}
use mathlib.Core.List.{List, [], ◌∷◌}
use native.Mathlib.Omega.{arith}
use crossplane_update_tester.Base.Tests.{nat_beq, nat_beq_iff, if◌then◌else◌}
use crossplane_update_tester.Base.Lists.{In}

-- Go's `==` on a comparable type.
pub record Eq {ℓ} (A : Type ℓ) : Type ℓ where
  pub beq : A → A → Bool
  pub beq_iff : (x y : A) → (beq x y ≡ true) ↔ (x ≡ y)

infix 45 ◌==◌
abbrev pub ◌==◌ {κ} : {K : Type κ} ⦃test : Eq K⦄ → K → K → Bool
◌==◌ ⦃test⦄ x y = test.beq x y

instance abbrev pub nat_eq : Eq ℕ
nat_eq = record { beq = nat_beq; beq_iff = nat_beq_iff }

module _ {ℓ} {A : Type ℓ} ⦃e : Eq A⦄ where
  pub ==_iff : (a b : A) → ((a == b) ≡ true) ↔ (a ≡ b)
  ==_iff a b = e.beq_iff a b

  pub ==_refl : (a : A) → (a == a) ≡ true
  ==_refl a = (e.beq_iff a a).1 refl

  pub ==_eq : {a b : A} → (a == b) ≡ true → a ≡ b
  ==_eq {a} {b} h = (e.beq_iff a b).0 h

  pub ==_ne : (a b : A) → (a == b) ≡ false → a ≢ b
  ==_ne a b h p = ground (arith, ==_iff a b)

  abbrev pub list_beq : List A → List A → Bool
  list_beq [] [] = true
  list_beq (x ∷ xs) (y ∷ ys) = x == y && list_beq xs ys
  list_beq _ _ = false

  pub list_beq_iff : (xs ys : List A) → (list_beq xs ys ≡ true) ↔ (xs ≡ ys)
  list_beq_iff [] [] = ground arith
  list_beq_iff [] (y ∷ ys) = ground arith
  list_beq_iff (x ∷ xs) [] = ground arith
  list_beq_iff (x ∷ xs) (y ∷ ys) = ground (arith, ==_iff x y, list_beq_iff xs ys)

  -- Membership in a set that Go keeps as a `map[string]bool` built from a list.
  abbrev pub elem : A → List A → Bool
  elem a [] = false
  elem a (x ∷ xs) = a == x || elem a xs

instance abbrev pub list_eq {ℓ} : {A : Type ℓ} ⦃e : Eq A⦄ → Eq (List A)
list_eq = record { beq = list_beq; beq_iff = list_beq_iff }

module _ {A : Type 0} ⦃e : Eq A⦄ where
  pub elem_sound : (a : A) (xs : List A) → elem a xs ≡ true → In a xs
  elem_sound a (x ∷ xs) h = ground (arith, ==_iff a x, elem_sound a xs)
  elem_sound a [] h = ground arith

  pub elem_complete : (a : A) (xs : List A) → In a xs → elem a xs ≡ true
  elem_complete a (x ∷ xs) h = ground (arith, ==_iff a x, elem_complete a xs)
  elem_complete a [] h = absurd h

  pub elem-false : (a : A) (xs : List A) → elem a xs ≡ false → ¬ In a xs
  elem-false a xs h m = ground (arith, elem_complete a xs m)

-- A Go map as an association list. `insert` writes through the first entry of the key.
module _ {ℓ κ} {K : Type ℓ} {V : Type κ} ⦃e : Eq K⦄ where
  unfoldable pub lookup : K → List (K × V) → Option V
  lookup key [] = none
  lookup key ((first, v) ∷ rest) = if first == key then some v else lookup key rest

  unfoldable pub insert : K → V → List (K × V) → List (K × V)
  insert key v [] = (key, v) ∷ []
  insert key v ((first, w) ∷ rest) =
      if first == key then (key, v) ∷ rest else (first, w) ∷ insert key v rest

  pub lookup-insert :
      (written read : K) (v : V) (m : List (K × V))
      → lookup read (insert written v m) ≡ (if written == read then some v else lookup read m)
  unfolding lookup insert
  lookup-insert written read v [] = refl
  lookup-insert written read v ((first, w) ∷ rest) = ground (
    arith,
    ==_iff written read,
    ==_iff first written,
    ==_iff first read,
    lookup-insert written read v rest,
  )

  pub lookup-insert_self : (k : K) (v : V) (m : List (K × V)) → lookup k (insert k v m) ≡ some v
  lookup-insert_self k v m = simp (lookup-insert, ==_refl)

  pub lookup-insert_ne :
      (k j : K) (v : V) (m : List (K × V)) → k ≢ j → lookup j (insert k v m) ≡ lookup j m
  lookup-insert_ne k j v m h = ground (arith, lookup-insert k j v m, ==_iff k j)

-- Equality decided by cases gives the test, as for the enumerations and the structs of them.
abbrev pub decided {ℓ} : {A : Type ℓ} → Dec A → Bool
decided (yes p) = true
decided (no p) = false

pub decided_iff {ℓ} : {A : Type ℓ} (d : Dec A) → (decided d ≡ true) ↔ A
decided_iff (yes p) = (λ h. p, λ h. refl)
decided_iff (no p) = (λ h. cc, λ h. absurd (p h))

abbrev pub eq_of_discrete {ℓ} : {A : Type ℓ} → Discrete A → Eq A
eq_of_discrete d = record { beq = λ a b. decided (d a b); beq_iff = λ a b. decided_iff (d a b) }

pub elem_iff : {A : Type 0} ⦃e : Eq A⦄ → (a : A) (xs : List A) → (elem a xs ≡ true) ↔ In a xs
elem_iff a xs = (elem_sound a xs, elem_complete a xs)
