-- ===== src/Base/Sort.antt =====
-- `sort.Strings` and `sort.Slice` on a text key, as insertion sort by the bytewise order. The sort is
-- generic in the key, and all that is said of it are its members and its order.
use mathlib.Core.Path.{◌≡◌, refl}
use mathlib.Core.Logic.{◌↔◌, ◌⊎◌, inl, inr}
use mathlib.Core.Bool.{Bool, true, false, ◌&&◌, ◌||◌}
use mathlib.Core.List.{List, [], ◌∷◌, Permᴰ}
use mathlib.Core.List.Permᴰ
use native.Mathlib.Omega.{arith}
use crossplane_update_tester.Base.Tests.{ltb, nat_beq, if◌then◌else◌, Bool-cases}
use crossplane_update_tester.Base.Lists.{In, All}
use crossplane_update_tester.Base.Strings.{Text}

-- Go's `<=` on strings.
unfoldable pub text_le : Text → Text → Bool
text_le [] t = true
text_le (c ∷ s) [] = false
text_le (c ∷ s) (d ∷ t) = ltb c d || (nat_beq c d && text_le s t)

pub text_le_total : (s t : Text) → text_le s t ≡ false → text_le t s ≡ true
unfolding text_le
text_le_total [] t h = cc
text_le_total (c ∷ s) [] h = refl
text_le_total (c ∷ s) (d ∷ t) h = ground (arith, text_le_total s t)

pub text_le_trans : (s t u : Text) → text_le s t ≡ true → text_le t u ≡ true → text_le s u ≡ true
unfolding text_le
text_le_trans [] t u h k = refl
text_le_trans (c ∷ s) [] u h k = cc
text_le_trans (c ∷ s) (d ∷ t) [] h k = cc
text_le_trans (c ∷ s) (d ∷ t) (e ∷ u) h k = ground (arith, text_le_trans s t u)

pub text_le_antisym : (s t : Text) → text_le s t ≡ true → text_le t s ≡ true → s ≡ t
unfolding text_le
text_le_antisym [] [] h k = refl
text_le_antisym [] (d ∷ t) h k = cc
text_le_antisym (c ∷ s) [] h k = cc
text_le_antisym (c ∷ s) (d ∷ t) h k = ground (arith, text_le_antisym s t)

module _ {A : Type 0} (key : A → Text) where
  unfoldable pub insert_by : A → List A → List A
  insert_by a [] = a ∷ []
  insert_by a (x ∷ xs) =
      let rest = insert_by a xs in if text_le (key a) (key x) then a ∷ x ∷ xs else x ∷ rest

  unfoldable pub sort_by : List A → List A
  unfolding insert_by text_le
  sort_by [] = []
  sort_by (x ∷ xs) = insert_by x (sort_by xs)

  -- Each element stands before all that follow it.
  abbrev pub IsSortedBy : List A → Type 0
  IsSortedBy [] = Unit
  IsSortedBy (x ∷ xs) = All (λ y. text_le (key x) (key y) ≡ true) xs × IsSortedBy xs

  insert_by-perm : (a : A) (xs : List A) → Permᴰ (a ∷ xs) (insert_by a xs)
  unfolding insert_by
  insert_by-perm a [] = Permᴰ.refl _
  insert_by-perm a (x ∷ xs) = elim (Bool-cases (text_le (key a) (key x))) [
    | inl t ↦ rw t (Permᴰ.refl _)
    | inr f ↦ rw f (Permᴰ.trans (Permᴰ.swap refl refl) (Permᴰ.cons refl (insert_by-perm a xs)))
  ]

  pub sort_by-perm : (xs : List A) → Permᴰ xs (sort_by xs)
  unfolding sort_by
  sort_by-perm [] = Permᴰ.refl _
  sort_by-perm (x ∷ xs) =
      Permᴰ.trans (Permᴰ.cons refl (sort_by-perm xs)) (insert_by-perm x (sort_by xs))

  In-insert_by : (a b : A) (xs : List A) → In b (insert_by a xs) ↔ ((b ≡ a) ⊎ In b xs)
  unfolding insert_by
  In-insert_by a b [] = (λ h. h, λ h. h)
  In-insert_by a b (x ∷ xs) = elim (Bool-cases (text_le (key a) (key x))) [
    | inl t ↦ rw t (λ h. h, λ h. h)
    | inr f ↦ rw f (In_swap (In-insert_by a b xs))
  ]
    where
      In_swap :
          In b (insert_by a xs) ↔ ((b ≡ a) ⊎ In b xs)
          → In b (x ∷ insert_by a xs) ↔ ((b ≡ a) ⊎ In b (x ∷ xs))
      In_swap ih = (
        elim [
          | inl p ↦ inr (inl p)
          | inr h ↦ elim (ih.0 h) [ inl p ↦ inl p | inr m ↦ inr (inr m) ]
        ],
        elim [
          | inl p ↦ inr (ih.1 (inl p))
          | inr h ↦ elim h [ inl p ↦ inl p | inr m ↦ inr (ih.1 (inr m)) ]
        ],
      )

  -- Sorting keeps the members.
  pub In-sort_by : (b : A) (xs : List A) → In b (sort_by xs) ↔ In b xs
  unfolding sort_by
  In-sort_by b [] = (λ h. h, λ h. h)
  In-sort_by b (x ∷ xs) = (
    λ h. elim ((In-insert_by x b (sort_by xs)).0 h) [
      | inl p ↦ inl p
      | inr m ↦ inr ((In-sort_by b xs).0 m)
    ],
    λ h.
        (In-insert_by x b (sort_by xs)).1
          (elim h [ inl p ↦ inl p | inr m ↦ inr ((In-sort_by b xs).1 m) ]),
  )

  All_le_trans :
      (a x : A) (xs : List A)
      → text_le (key a) (key x) ≡ true
      → All (λ y. text_le (key x) (key y) ≡ true) xs
      → All (λ y. text_le (key a) (key y) ≡ true) xs
  All_le_trans a x [] t h = tt
  All_le_trans a x (y ∷ ys) t h =
      (text_le_trans (key a) (key x) (key y) t h.0, All_le_trans a x ys t h.1)

  All-insert_by :
      (x a : A) (xs : List A)
      → text_le (key x) (key a) ≡ true
      → All (λ y. text_le (key x) (key y) ≡ true) xs
      → All (λ y. text_le (key x) (key y) ≡ true) (insert_by a xs)
  unfolding insert_by
  All-insert_by x a [] t h = (t, tt)
  All-insert_by x a (y ∷ ys) t h = elim (Bool-cases (text_le (key a) (key y))) [
    | inl le ↦ rw le (t, h)
    | inr gt ↦ rw gt (h.0, All-insert_by x a ys t h.1)
  ]

  insert_by-IsSortedBy : (a : A) (xs : List A) → IsSortedBy xs → IsSortedBy (insert_by a xs)
  unfolding insert_by
  insert_by-IsSortedBy a [] h = (tt, tt)
  insert_by-IsSortedBy a (x ∷ xs) h = elim (Bool-cases (text_le (key a) (key x))) [
    | inl le ↦ rw le ((le, All_le_trans a x xs le h.0), h)
    | inr gt ↦
        rw gt (
          All-insert_by x a xs (text_le_total (key a) (key x) gt) h.0,
          insert_by-IsSortedBy a xs h.1,
        )
  ]

  pub sort_by-IsSortedBy : (xs : List A) → IsSortedBy (sort_by xs)
  unfolding sort_by
  sort_by-IsSortedBy [] = tt
  sort_by-IsSortedBy (x ∷ xs) = insert_by-IsSortedBy x (sort_by xs) (sort_by-IsSortedBy xs)

-- sort.Strings
unfoldable pub sort : List Text → List Text
unfolding sort_by
sort xs = sort_by (λ s. s) xs

pub In-sort : (s : Text) (xs : List Text) → In s (sort xs) ↔ In s xs
unfolding sort
In-sort s xs = In-sort_by (λ t. t) s xs
