-- ===== src/Cli/Args/Separation.antt =====
-- What ReorderArgs does to the arguments, from what each token is.
use mathlib.Core.Path.{subst}
use crossplane_update_tester.Base.{
  ℕ, ◌≤◌, Text, text, Bool, true, false, not, ◌||◌, List, [], ◌∷◌, ◌++◌, Option, none, some, ◌==◌,
  ==_iff, list_eq, nat_eq, nat_beq, nat_beq_iff, length, ltb, trim_left, contains_byte, In, ◌≡◌,
  ◌↔◌, ◌⊎◌, inl, inr, refl, ap, ◌∙◌, sym, arith, Bool-cases,
}
use crossplane_update_tester.Cli.Args.{
  Token, positional, flag_alone, flag_with_value, dash, starts_with_dash, token_of, token_of_name,
  token_of_flag, separate, reorder_args,
}

-- A token of less than two bytes, without a dash in front, or the terminator "--".
abbrev pub IsPositional : Text → Type 0
IsPositional a = (length a ≤ 1) ⊎ (starts_with_dash a ≡ false) ⊎ (a ≡ text "--")

-- What is left of a token without the dashes in front.
pub data IsName : Text → Text → Type 0 where
  bare : {s : Text} → starts_with_dash s ≡ false → IsName s s
  dashed : {s n : Text} → IsName s n → IsName (b'-' ∷ s) n

IsName-trim_left : (s : Text) → IsName s (trim_left (λ c. c == dash) s)
unfolding trim_left
IsName-trim_left [] = bare refl
IsName-trim_left (c ∷ s) = elim (Bool-cases (nat_beq c dash)) [
  | inl t ↦
      rw (trim_left, t)
        (subst (λ d. IsName (d ∷ s) (trim_left (λ c. c == dash) s)) (sym ((nat_beq_iff c dash).0 t))
          (dashed (IsName-trim_left s)))
  | inr f ↦ rw (trim_left, f) (bare f)
]

trim_left-IsName : (s n : Text) → IsName s n → trim_left (λ c. c == dash) s ≡ n
unfolding trim_left
trim_left-IsName [] n (bare h) = refl
trim_left-IsName (c ∷ s) n (bare h) = rw (trim_left, h) refl
trim_left-IsName (c ∷ s) n (dashed h) = trim_left-IsName s n h

contains_byte_iff : (b : ℕ) (s : Text) → (contains_byte b s ≡ true) ↔ In b s
unfolding contains_byte
contains_byte_iff b [] = ground arith
contains_byte_iff b (c ∷ s) = ground (arith, nat_beq_iff c b, contains_byte_iff b s)

module _ (flags : Text → Option Bool) where
  -- A flag that the flag set knows as one that is not Boolean, and that has no value behind '='.
  abbrev pub TakesValue : Text → Type 0
  TakesValue a =
      (¬ IsPositional a)
      × ((name : Text) × IsName a name × (¬ In b'=' name) × (flags name ≡ some false))

  -- The arguments, the flags with the values that they take, and the positional arguments, each in
  -- the order of the arguments.
  pub data Separated : List Text → List Text → List Text → Type 0 where
    nothing : Separated [] [] []
    argument :
        {a : Text} {args fs ps : List Text}
        → IsPositional a
        → Separated args fs ps
        → Separated (a ∷ args) fs (a ∷ ps)
    alone :
        {a : Text} {args fs ps : List Text}
        → ¬ IsPositional a
        → ¬ TakesValue a
        → Separated args fs ps
        → Separated (a ∷ args) (a ∷ fs) ps
    valued :
        {a v : Text} {args fs ps : List Text}
        → TakesValue a
        → Separated args fs ps
        → Separated (a ∷ v ∷ args) (a ∷ v ∷ fs) ps
    dangling : {a : Text} → TakesValue a → Separated (a ∷ []) (a ∷ []) []

  -- What a token is, by its class.
  abbrev IsToken : Text → Token → Type 0
  IsToken a positional = IsPositional a
  IsToken a flag_alone = (¬ IsPositional a) × (¬ TakesValue a)
  IsToken a flag_with_value = TakesValue a

  same_name : {a name other : Text} → IsName a name → IsName a other → name ≡ other
  same_name {a} {name} {other} h k = sym (trim_left-IsName a name h) ∙ trim_left-IsName a other k

  IsToken-token_of_flag :
      (a name : Text) (found : Option Bool)
      → (¬ IsPositional a)
      → IsName a name
      → (¬ In b'=' name)
      → flags name ≡ found
      → IsToken a (token_of_flag found)
  IsToken-token_of_flag a name none n h free e = (
    n,
    λ (_, (other, k, _, p)). let q : none ≡ some false = sym e ∙ ap flags (same_name h k) ∙ p in cc,
  )
  IsToken-token_of_flag a name (some true) n h free e = (
    n,
    λ (_, (other, k, _, p)).
        let q : some true ≡ some false = sym e ∙ ap flags (same_name h k) ∙ p in cc,
  )
  IsToken-token_of_flag a name (some false) n h free e = (n, (name, h, free, e))

  IsToken-token_of_name :
      (a name : Text) → (¬ IsPositional a) → IsName a name → IsToken a (token_of_name flags name)
  IsToken-token_of_name a name n h = elim (Bool-cases (contains_byte b'=' name)) [
    | inl t ↦
        rw (token_of_name, t)
          (
            n,
            λ (_, (other, k, free, _)).
                free (subst (In b'=') (same_name h k) ((contains_byte_iff b'=' name).0 t)),
          )
    | inr f ↦
        rw (token_of_name, f)
          (IsToken-token_of_flag a name (flags name) n h
            (λ i. cc (f, (contains_byte_iff b'=' name).1 i)) refl)
  ]

  IsToken-token_of : (a : Text) → IsToken a (token_of flags a)
  unfolding token_of
  IsToken-token_of a =
      elim (Bool-cases (ltb (length a) 2 || not (starts_with_dash a) || a == text "--")) [
        | inl t ↦ rw (token_of, t) (ground (arith, ==_iff a (text "--")))
        | inr f ↦
            rw (token_of, f)
              (IsToken-token_of_name a _ (ground (arith, ==_iff a (text "--")))
                (IsName-trim_left a))
      ]

  -- The arguments, separated by the code.
  abbrev AreSeparated : List Text → Type 0
  AreSeparated args = Separated args (separate flags false args).0 (separate flags false args).1

  AreSeparated-last :
      (a : Text) (t : Token) → IsToken a t → token_of flags a ≡ t → AreSeparated (a ∷ [])
  unfolding separate
  AreSeparated-last a positional h e = rw (separate, e) (argument h nothing)
  AreSeparated-last a flag_alone h e = rw (separate, e) (alone h.0 h.1 nothing)
  AreSeparated-last a flag_with_value h e = rw (separate, e) (dangling h)

  AreSeparated-more :
      (a v : Text) (rest : List Text) (t : Token)
      → IsToken a t
      → token_of flags a ≡ t
      → AreSeparated (v ∷ rest)
      → AreSeparated rest
      → AreSeparated (a ∷ v ∷ rest)
  unfolding separate
  AreSeparated-more a v rest positional h e next later = rw (separate, e) (argument h next)
  AreSeparated-more a v rest flag_alone h e next later = rw (separate, e) (alone h.0 h.1 next)
  AreSeparated-more a v rest flag_with_value h e next later = rw (separate, e) (valued h later)

  separate-AreSeparated : (args : List Text) → AreSeparated args
  unfolding separate
  separate-AreSeparated [] = nothing
  separate-AreSeparated (a ∷ []) = AreSeparated-last a (token_of flags a) (IsToken-token_of a) refl
  separate-AreSeparated (a ∷ v ∷ rest) =
      AreSeparated-more a v rest (token_of flags a) (IsToken-token_of a) refl
        (separate-AreSeparated (v ∷ rest)) (separate-AreSeparated rest)

  -- ReorderArgs returns the flags, each with the value that it takes, and behind them the positional
  -- arguments, both in the order of the arguments. A token is positional when it has less than two
  -- bytes, no dash in front, or is "--"; a flag takes the token behind it as its value, whatever that
  -- token is, exactly when its name has no '=' and the flag set has a flag of that name that is not
  -- Boolean.
  pub reorder_args-Separated :
      (args : List Text)
      → (fs ps : List Text) × (reorder_args flags args ≡ fs ++ ps) × Separated args fs ps
  unfolding reorder_args
  reorder_args-Separated args = (
    (separate flags false args).0,
    (separate flags false args).1,
    refl,
    separate-AreSeparated args,
  )
