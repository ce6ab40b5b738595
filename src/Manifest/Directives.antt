-- ===== src/Manifest/Directives.antt =====
-- extractDirectives, splitFieldList and parseReadyConditions: the lines of an annotation that are
-- not update-test entries. The YAML library is a parameter.
pub mod Laws
pub mod Names
use crossplane_update_tester.Base.{
  ℕ, ◌-◌, Text, text, Bool, true, false, not, ◌&&◌, ◌||◌, List, [], ◌∷◌, ◌++◌, is_empty, Option,
  none, some, if◌then◌else◌, ◌==◌, list_eq, nat_eq, nat_beq, length, has_prefix, trim_left,
  trim_space, split, join, lookup, Result, ok, err, then_do,
}
use crossplane_update_tester.Manifest.{Error, UpdateTest}

-- gopkg.in/yaml.v3: `Unmarshal` into map[string]string and into []UpdateTest, `none` for an error.
pub record Yaml : Type 0 where
  pub unmarshal_map : Text → Option (List (Text × Text))
  pub unmarshal_tests : Text → Option (List UpdateTest)

pub data Directive : Type 0 where
  converge_skip assert_unchanged ignore_fields : Directive

abbrev pub directive_key : Directive → Text
directive_key converge_skip = text "converge-skip"
directive_key assert_unchanged = text "assert-unchanged"
directive_key ignore_fields = text "ignore-fields"

abbrev pub is_blank : ℕ → Bool
is_blank c = c == b' ' || c == 9

abbrev pub newline : ℕ
newline = 10

abbrev pub starts : Directive → Text → Bool
starts d line = has_prefix line (directive_key d ++ b':' ∷ [])

-- The case of the switch that a line takes, `none` for its default. The line must not be indented.
unfoldable pub directive_of : Text → Option Directive
directive_of line =
    let trimmed = trim_left is_blank line in
    if not (nat_beq (length line - length trimmed) 0)
    then none
    else if starts converge_skip trimmed
    then some converge_skip
    else if starts assert_unchanged trimmed
    then some assert_unchanged
    else if starts ignore_fields trimmed
    then some ignore_fields
    else none

-- The names of a comma-separated list, trimmed, the empty ones dropped.
unfoldable pub trimmed_names : List Text → List Text
trimmed_names [] = []
trimmed_names (f ∷ fs) =
    if is_empty (trim_space f) then trimmed_names fs else trim_space f ∷ trimmed_names fs

unfoldable pub split_field_list : Text → List Text
split_field_list raw = trimmed_names (split b',' raw)

-- The loop is the one of splitFieldList.
unfoldable pub parse_ready_conditions : Text → List Text
parse_ready_conditions raw = trimmed_names (split b',' raw)

pub record Extracted : Type 0 where
  pub kept : List Text
  pub converge_skip : Text
  pub assert_unchanged : List Text
  pub ignore_fields : List Text

abbrev pub nothing_extracted : Extracted
nothing_extracted = record {
  kept = [];
  converge_skip = [];
  assert_unchanged = [];
  ignore_fields = [];
}

-- single[key], the empty string where the key is missing
abbrev pub or_empty : Option Text → Text
or_empty none = []
or_empty (some v) = v

abbrev pub store : Directive → Text → Extracted → Extracted
store converge_skip v e = record e { converge_skip = v }
store assert_unchanged v e = record e { assert_unchanged = split_field_list v }
store ignore_fields v e = record e { ignore_fields = split_field_list v }

module _ (yaml : Yaml) where
  abbrev pub read_directive :
      Directive → Text → Option (List (Text × Text)) → Extracted → Result Error Extracted
  read_directive d line none e = err (Error.bad_directive line)
  read_directive d line (some single) e =
      ok (store d (or_empty (lookup (directive_key d) single)) e)

  -- One line of the loop.
  abbrev pub read_line : Text → Option Directive → Extracted → Result Error Extracted
  read_line line none e = ok (record e { kept = e.kept ++ line ∷ [] })
  read_line line (some d) e = read_directive d line (yaml.unmarshal_map line) e

  unfoldable pub read_lines : List Text → Extracted → Result Error Extracted
  read_lines [] e = ok e
  read_lines (line ∷ lines) e = then_do (read_line line (directive_of line) e) (read_lines lines)

  -- The result's `kept`, joined by newlines, is the code's `rest`.
  unfoldable pub extract_directives : Text → Result Error Extracted
  extract_directives annotation = read_lines (split newline annotation) nothing_extracted

abbrev pub rest_of : Extracted → Text
rest_of e = join (newline ∷ []) e.kept
