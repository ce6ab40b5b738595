-- ===== src/Cli/Args.antt =====
-- internal/cli/args.go: flags ahead of positional arguments.
pub mod Reordering
pub mod Separation
use crossplane_update_tester.Base.{
  ℕ, Text, text, Bool, true, false, ◌||◌, not, List, [], ◌∷◌, ◌++◌, Option, none, some,
  if◌then◌else◌, ◌==◌, list_eq, nat_eq, length, ltb, trim_left, contains_byte,
}

-- What a token is to the loop.
pub data Token : Type 0 where
  positional flag_alone flag_with_value : Token

abbrev pub dash : ℕ
dash = 45

abbrev pub starts_with_dash : Text → Bool
starts_with_dash [] = false
starts_with_dash (c ∷ s) = c == dash

-- A flag that fs.Lookup finds: whether it is a boolean one.
abbrev pub token_of_flag : Option Bool → Token
token_of_flag none = flag_alone
token_of_flag (some true) = flag_alone
token_of_flag (some false) = flag_with_value

-- The flag set is a parameter: fs.Lookup, with IsBoolFlag of the flag found.
module _ (flags : Text → Option Bool) where
  abbrev pub token_of_name : Text → Token
  token_of_name name = if contains_byte 61 name then flag_alone else token_of_flag (flags name)

  unfoldable pub token_of : Text → Token
  unfolding contains_byte trim_left
  token_of a =
      if ltb (length a) 2 || not (starts_with_dash a) || a == text "--"
      then positional
      else token_of_name (trim_left (λ c. c == dash) a)

  abbrev pub add_flag : Text → List Text × List Text → List Text × List Text
  add_flag a s = (a ∷ s.0, s.1)

  abbrev pub add_positional : Text → List Text × List Text → List Text × List Text
  add_positional a s = (s.0, a ∷ s.1)

  -- The two streams. The Boolean is set where the token is the value of the flag before it.
  unfoldable pub separate : Bool → List Text → List Text × List Text
  separate b [] = ([], [])
  separate true (a ∷ rest) = add_flag a (separate false rest)
  separate false (a ∷ rest) = elim (token_of a) [
    | positional ↦ add_positional a (separate false rest)
    | flag_alone ↦ add_flag a (separate false rest)
    | flag_with_value ↦ add_flag a (separate true rest)
  ]

  unfoldable pub reorder_args : List Text → List Text
  unfolding separate token_of
  reorder_args args = (separate false args).0 ++ (separate false args).1
