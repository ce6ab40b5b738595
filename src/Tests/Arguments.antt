-- ===== src/Tests/Arguments.antt =====
-- A command line whose flags stand behind the manifest.
use crossplane_update_tester.Base.{
  Text, text, Bool, true, false, List, [], ◌∷◌, ◌++◌, Option, none, some, ◌≡◌, if◌then◌else◌, ◌==◌,
  list_eq, nat_eq,
}
use crossplane_update_tester.Cli.Args.{reorder_args}
use crossplane_update_tester.Cli.Args.Separation.{Separated, reorder_args-Separated}

-- --timeout takes a value and --verbose is a Boolean flag.
abbrev flags : Text → Option Bool
flags name =
    if name == text "timeout"
    then some false
    else if name == text "verbose"
    then some true
    else none

abbrev args : List Text
args = text "manifest.yaml" ∷ text "--timeout" ∷ text "600" ∷ text "--verbose" ∷ []

reorder_args-Separated_example :
    (fs : List Text) × (ps : List Text) × (reorder_args flags args ≡ fs ++ ps)
    × Separated flags args fs ps
reorder_args-Separated_example = reorder_args-Separated flags args
