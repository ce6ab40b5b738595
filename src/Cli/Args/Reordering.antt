-- ===== src/Cli/Args/Reordering.antt =====
-- ReorderArgs keeps the arguments, puts the flags first, and changes nothing the second time.
use mathlib.Core.List.{Permᴰ}
use mathlib.Core.List.Permᴰ
use crossplane_update_tester.Base.{
  Text, Bool, true, false, List, [], ◌∷◌, ◌++◌, Option, All, ◌≡◌, refl, ap, ◌⊎◌, inl, inr,
}
use crossplane_update_tester.Cli.Args.{
  Token, positional, flag_alone, flag_with_value, token_of, add_flag, add_positional, separate,
  reorder_args,
}

module _ (flags : Text → Option Bool) where
  Token-cases : (t : Token) → (t ≡ positional) ⊎ (t ≡ flag_alone) ⊎ (t ≡ flag_with_value)
  Token-cases positional = inl refl
  Token-cases flag_alone = inr (inl refl)
  Token-cases flag_with_value = inr (inr refl)

  abbrev takes_value : Token → Bool
  takes_value flag_with_value = true
  takes_value _ = false

  -- The arguments end where a flag wants its value.
  unfoldable pub is_dangling : Bool → List Text → Bool
  is_dangling b [] = b
  is_dangling true (a ∷ rest) = is_dangling false rest
  is_dangling false (a ∷ rest) = elim (token_of flags a) [
    | flag_with_value ↦ is_dangling true rest
    | _ ↦ is_dangling false rest
  ]

  separate-positional :
      (b : Bool) (args : List Text)
      → All (λ a. token_of flags a ≡ positional) (separate flags b args).1
  unfolding separate
  separate-positional b [] = tt
  separate-positional true (a ∷ rest) = separate-positional false rest
  separate-positional false (a ∷ rest) = elim (Token-cases (token_of flags a)) [
    | inl e ↦ rw (All, separate, e) (e, separate-positional false rest)
    | inr (inl e) ↦ rw (separate, e) (separate-positional false rest)
    | inr (inr e) ↦ rw (separate, e) (separate-positional true rest)
  ]

  separate-all_positional :
      (args : List Text)
      → All (λ a. token_of flags a ≡ positional) args
      → separate flags false args ≡ ([], args)
  unfolding separate
  separate-all_positional [] p = refl
  separate-all_positional (a ∷ rest) p =
      rw (separate, p.0) (ap (add_positional flags a) (separate-all_positional rest p.1))

  separate-again :
      (b : Bool) (args rest : List Text)
      → is_dangling b args ≡ false
      → All (λ a. token_of flags a ≡ positional) rest
      → separate flags b ((separate flags b args).0 ++ rest) ≡ ((separate flags b args).0, rest)
  unfolding separate is_dangling
  separate-again true [] rest = λ d p. cc
  separate-again false [] rest = λ d p. separate-all_positional rest p
  separate-again true (a ∷ args) rest =
      λ d p. ap (add_flag flags a) (separate-again false args rest d p)
  separate-again false (a ∷ args) rest = elim (Token-cases (token_of flags a)) [
    | inl e ↦ rw (separate, is_dangling, e) (λ d p. separate-again false args rest d p)
    | inr (inl e) ↦
        rw (separate, is_dangling, e)
          (λ d p. rw (separate, e) (ap (add_flag flags a) (separate-again false args rest d p)))
    | inr (inr e) ↦
        rw (separate, is_dangling, e)
          (λ d p. rw (separate, e) (ap (add_flag flags a) (separate-again true args rest d p)))
  ]

  -- Where the arguments do not end with a flag that still wants its value, what ReorderArgs returns
  -- is read again as the same flags and the same positional arguments, so that a second call
  -- changes nothing.
  pub reorder_args-stable :
      (args : List Text)
      → is_dangling false args ≡ false
      → (separate flags false (reorder_args flags args) ≡ separate flags false args)
        × (reorder_args flags (reorder_args flags args) ≡ reorder_args flags args)
  unfolding reorder_args
  reorder_args-stable args d =
      let same = separate-again false args _ d (separate-positional false args) in
      (same, ap (λ s. s.0 ++ s.1) same)

  perm-middle : (a : Text) (xs ys : List Text) → Permᴰ (a ∷ (xs ++ ys)) (xs ++ a ∷ ys)
  perm-middle a [] ys = Permᴰ.refl _
  perm-middle a (x ∷ xs) ys =
      Permᴰ.trans (Permᴰ.swap refl refl) (Permᴰ.cons refl (perm-middle a xs ys))

  separate-perm :
      (b : Bool) (args : List Text)
      → Permᴰ args ((separate flags b args).0 ++ (separate flags b args).1)
  unfolding separate
  separate-perm b [] = Permᴰ.refl _
  separate-perm true (a ∷ rest) = Permᴰ.cons refl (separate-perm false rest)
  separate-perm false (a ∷ rest) = elim (Token-cases (token_of flags a)) [
    | inl e ↦
        rw (separate, e)
          (Permᴰ.trans (Permᴰ.cons refl (separate-perm false rest)) (perm-middle a _ _))
    | inr (inl e) ↦ rw (separate, e) (Permᴰ.cons refl (separate-perm false rest))
    | inr (inr e) ↦ rw (separate, e) (Permᴰ.cons refl (separate-perm true rest))
  ]

  -- ReorderArgs neither drops nor adds nor repeats an argument.
  pub reorder_args-perm : (args : List Text) → Permᴰ args (reorder_args flags args)
  unfolding reorder_args
  reorder_args-perm args = separate-perm false args
