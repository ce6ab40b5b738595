-- ===== src/Manifest/Directives/Laws.antt =====
-- Which lines stay, which directive counts, and what a list of names can hold.
use crossplane_update_tester.Base.{
  Text, Bool, true, false, List, [], ◌∷◌, ◌++◌, append_assoc, append-nil, Option, none, some,
  if◌then◌else◌, list_eq, nat_eq, split, join-split, lookup, ok, All, ◌≡◌, refl, ◌∙◌,
}
use crossplane_update_tester.Manifest.Directives.{
  Yaml, Directive, converge_skip, assert_unchanged, ignore_fields, directive_key, directive_of,
  split_field_list, Extracted, nothing_extracted, or_empty, read_lines, extract_directives, rest_of,
  newline,
}

abbrev pub is_default : Option Directive → Bool
is_default none = true
is_default (some d) = false

-- The line is none of the three directives.
abbrev pub is_entry_line : Text → Bool
is_entry_line line = is_default (directive_of line)

-- What the line adds to the kept ones.
abbrev own_line : Text → Option Directive → List Text
own_line line none = line ∷ []
own_line line (some d) = []

abbrev is_same : Directive → Directive → Bool
is_same converge_skip converge_skip = true
is_same assert_unchanged assert_unchanged = true
is_same ignore_fields ignore_fields = true
is_same _ _ = false

-- The directive `d` of the result, read against the one of the state before: a value `o` replaces it.
abbrev pub Holds : Directive → Option Text → Extracted → Extracted → Type 0
Holds converge_skip o e e' = e'.converge_skip ≡ (elim o [ none ↦ e.converge_skip | some v ↦ v ])
Holds assert_unchanged o e e' =
    e'.assert_unchanged ≡ (elim o [ none ↦ e.assert_unchanged | some v ↦ split_field_list v ])
Holds ignore_fields o e e' =
    e'.ignore_fields ≡ (elim o [ none ↦ e.ignore_fields | some v ↦ split_field_list v ])

module _ (yaml : Yaml) where
  read_lines-none :
      (lines : List Text) (e : Extracted)
      → All (λ l. directive_of l ≡ none) lines
      → read_lines yaml lines e ≡ ok (record e { kept = e.kept ++ lines })
  unfolding read_lines
  read_lines-none [] e h = rw append-nil
  read_lines-none (l ∷ ls) e h =
      rw h.0 (read_lines-none ls (record e { kept = e.kept ++ l ∷ [] }) h.1 ∙ rw append_assoc)

module _ (yaml : Yaml) where
  -- The value that a line gives to the directive `d`.
  abbrev pub given_for :
      Directive → Text → Option Directive → Option (List (Text × Text)) → Option Text
  given_for d line (some d') (some single) =
      if is_same d d' then some (or_empty (lookup (directive_key d') single)) else none
  given_for d line _ _ = none

  -- The value of the last line that is the directive `d`.
  unfoldable pub last_value : Directive → List Text → Option Text
  last_value d [] = none
  last_value d (line ∷ lines) = elim (last_value d lines) [
    | none ↦ given_for d line (directive_of line) (yaml.unmarshal_map line)
    | some v ↦ some v
  ]

  -- An annotation with no directive line comes through unchanged, and the YAML library is not asked.
  pub extract_directives-none :
      (annotation : Text)
      → All (λ l. directive_of l ≡ none) (split newline annotation)
      → (e : Extracted) × (extract_directives yaml annotation ≡ ok e)
        × (rest_of e ≡ annotation)
        × (e.converge_skip ≡ [])
        × (e.assert_unchanged ≡ [])
        × (e.ignore_fields ≡ [])
  unfolding extract_directives
  extract_directives-none annotation h = (
    record nothing_extracted { kept = split newline annotation },
    read_lines-none yaml (split newline annotation) nothing_extracted h,
    join-split newline annotation,
    refl,
    refl,
    refl,
  )
