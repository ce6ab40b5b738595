-- ===== src/Tests/Fleets.antt =====
-- A fleet of a target that settles, one that is armed late and one that cannot be read.
use crossplane_update_tester.Base.{text, Bool, true, List, [], ◌∷◌, some, ◌≡◌, ◌↔◌, ok}
use crossplane_update_tester.Runner.Values.{Failure}
use crossplane_update_tester.Runner.Converge.{ConvergeResult, Message}
use crossplane_update_tester.Runner.ConvergeAll.{Arming, Checking, ConvergeTarget, run_converge_all}
use crossplane_update_tester.Runner.ConvergeAll.Window.{Observed, run_converge_all-Observed}
use crossplane_update_tester.Runner.ConvergeAll.Summary.{
  Summary, AreClean, format_converge_all_summary, format_converge_all_summary-run_converge_all,
}

abbrev settled : ConvergeResult
settled = record { passed = true; message = Message.stable 1 1; diagnostics = [] }

abbrev early_one : ConvergeTarget
early_one = record {
  label = text "database";
  poll_interval = 0;
  arming = Arming.armed_at 5;
  lag = 2;
  asserted = λ window. ok (Checking.checked settled);
}

abbrev fleet : List ConvergeTarget
fleet =
    early_one
    ∷ record early_one { label = text "network"; arming = Arming.armed_at 90; poll_interval = 10 }
    ∷ record early_one {
      label = text "zone";
      arming = Arming.refused (Failure.reading (text "status"));
    }
    ∷ []

run_converge_all-Observed_example : Observed fleet (run_converge_all fleet)
run_converge_all-Observed_example = run_converge_all-Observed fleet

format_converge_all_summary-run_converge_all_example :
    (s : Summary) × (passes : Bool) × (format_converge_all_summary (run_converge_all fleet) []
      ≡ some (s, passes))
    × ((passes ≡ true) ↔ AreClean (run_converge_all fleet))
format_converge_all_summary-run_converge_all_example =
    format_converge_all_summary-run_converge_all fleet []
