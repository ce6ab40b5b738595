-- ===== src/Runner/ConvergeAll/Summary.antt =====
-- formatConvergeAllSummary of convergeall.go: the lines and the tally of a fleet run. A line is kept as
-- what its format shows; `none` is the dereference of a nil result.
use mathlib.Core.Path.{subst}
use crossplane_update_tester.Base.{
  ℕ, suc, Text, Bool, ◌&&◌, List, [], ◌∷◌, ◌++◌, map, is_empty, Option, none, some, if◌then◌else◌,
  nat_beq, list_eq, nat_eq, lookup, split, ◌≡◌, refl, sym, ap, ◌∙◌, ◌↔◌, Result, ok, err, true,
  false, arith,
}
use crossplane_update_tester.Runner.Values.{Failure}
use crossplane_update_tester.Runner.Converge.{Diagnostic, Message, ConvergeResult}
use crossplane_update_tester.Runner.ConvergeAll.{
  Arming, refused, early, armed_at, Checking, skipping, checked, ConvergeTarget, Outcome, unfilled,
  result, errored, ConvergeAllResult, run_converge_all, settle,
}
use crossplane_update_tester.Runner.ConvergeAll.Window.{
  Observes, Observed, run_converge_all-Observed,
}

pub data SummaryLine : Type 0 where
  error_line : Text → Failure → SummaryLine
  skip_line : Text → Text → SummaryLine
  pass_line fail_line : Text → Message → SummaryLine
  detail_line : Diagnostic → SummaryLine
  finding_line : Text → SummaryLine

pub record Summary : Type 0 where
  pub lines : List SummaryLine
  pub passed : ℕ
  pub failed : ℕ
  pub skipped : ℕ
  pub errors : ℕ

abbrev pub finding_lines : Option Text → List SummaryLine
finding_lines none = []
finding_lines (some f) = if is_empty f then [] else map finding_line (split b'\n' f)

abbrev pub add_checked : List (Text × Text) → Text → ConvergeResult → Bool → Summary → Summary
add_checked findings label r true s = record s {
  passed = suc s.passed;
  lines = s.lines ++ pass_line label r.message ∷ map detail_line r.diagnostics;
}
add_checked findings label r false s = record s {
  failed = suc s.failed;
  lines =
      s.lines
      ++ fail_line label r.message
        ∷ (map detail_line r.diagnostics ++ finding_lines (lookup label findings));
}

abbrev pub add_outcome : List (Text × Text) → Text → Outcome → Summary → Option Summary
add_outcome findings label unfilled s = none
add_outcome findings label (errored e) s =
    some (record s { errors = suc s.errors; lines = s.lines ++ error_line label e ∷ [] })
add_outcome findings label (result (skipping msg)) s =
    some (record s { skipped = suc s.skipped; lines = s.lines ++ skip_line label msg ∷ [] })
add_outcome findings label (result (checked r)) s = some (add_checked findings label r r.passed s)

unfoldable pub summary_from :
    List (Text × Text) → Option Summary → List ConvergeAllResult → Option Summary
unfolding lookup split
summary_from findings none rs = none
summary_from findings (some s) [] = some s
summary_from findings (some s) (r ∷ rs) =
    summary_from findings (add_outcome findings r.label r.outcome s) rs

abbrev pub shown : Option Summary → Option (Summary × Bool)
shown none = none
shown (some s) = some (s, nat_beq s.failed 0 && nat_beq s.errors 0)

-- formatConvergeAllSummary: the summary and whether every target passed.
abbrev pub format_converge_all_summary :
    List ConvergeAllResult → List (Text × Text) → Option (Summary × Bool)
format_converge_all_summary rs findings = shown (
    summary_from findings
      (some (record { lines = []; passed = 0; failed = 0; skipped = 0; errors = 0 })) rs)

-- The checks of the results that count against the run.
abbrev pub IsClean : Outcome → Type 0
IsClean (result (skipping msg)) = Unit
IsClean (result (checked r)) = r.passed ≡ true
IsClean _ = ⊥

abbrev pub AreClean : List ConvergeAllResult → Type 0
AreClean [] = Unit
AreClean (r ∷ rs) = IsClean r.outcome × AreClean rs

abbrev HasNone : Summary → Type 0
HasNone s = (s.failed ≡ 0) × (s.errors ≡ 0)

HasNone-add_checked :
    (findings : List (Text × Text)) (label : Text) (r : ConvergeResult) (b : Bool) (s : Summary)
    → HasNone (add_checked findings label r b s) ↔ (HasNone s × (b ≡ true))
HasNone-add_checked findings label r true s = (λ (f, e). ((f, e), refl), λ ((f, e), _). (f, e))
HasNone-add_checked findings label r false s =
    (λ (f, e). absurd (omega (arith, f)), λ (_, b). absurd (cc))

abbrev Adds : List (Text × Text) → Text → Outcome → Summary → Type 0
Adds findings label o s =
    (n : Summary) × (add_outcome findings label o s ≡ some n)
    × (HasNone n ↔ (HasNone s × IsClean o))

Adds-errored :
    (findings : List (Text × Text)) (label : Text) (e : Failure) (s : Summary)
    → Adds findings label (errored e) s
Adds-errored findings label e s =
    (_, refl, (λ (f, z). absurd (omega (arith, z)), λ (_, b). absurd b))

Adds-result :
    (findings : List (Text × Text)) (label : Text) (c : Checking) (s : Summary)
    → Adds findings label (result c) s
Adds-result findings label (skipping msg) s = (_, refl, (λ h. (h, tt), λ (h, _). h))
Adds-result findings label (checked r) s =
    (_, refl, HasNone-add_checked findings label r r.passed s)

Adds-settle :
    (findings : List (Text × Text)) (label : Text) (a : Result Failure Checking) (s : Summary)
    → Adds findings label (settle a) s
Adds-settle findings label (ok r) s = Adds-result findings label r s
Adds-settle findings label (err e) s = Adds-errored findings label e s

Adds-Observes :
    (findings : List (Text × Text)) (label : Text) (t : ConvergeTarget) (a : Arming) (o : Outcome)
    (s : Summary)
    → Observes t a o
    → Adds findings label o s
Adds-Observes findings label t (refused e) o s h =
    subst (λ o. Adds findings label o s) (sym h) (Adds-errored findings label e s)
Adds-Observes findings label t (early r) o s h =
    subst (λ o. Adds findings label o s) (sym h) (Adds-result findings label r s)
Adds-Observes findings label t (armed_at a) o s (window, _, h) =
    subst (λ o. Adds findings label o s) (sym h) (Adds-settle findings label (t.asserted window) s)

-- The tally over the results of a run.
abbrev Tallies : List (Text × Text) → List ConvergeAllResult → Summary → Type 0
Tallies findings rs s =
    (n : Summary) × (summary_from findings (some s) rs ≡ some n)
    × (HasNone n ↔ (HasNone s × AreClean rs))

Tallies-Observed :
    (findings : List (Text × Text)) (ts : List ConvergeTarget) (rs : List ConvergeAllResult)
    (s : Summary)
    → Observed ts rs
    → Tallies findings rs s
unfolding summary_from
Tallies-Observed findings [] [] s h = (s, refl, (λ z. (z, tt), λ (z, _). z))
Tallies-Observed findings [] (r ∷ rs) s h = absurd h
Tallies-Observed findings (t ∷ ts) [] s h = absurd h
Tallies-Observed findings (t ∷ ts) (r ∷ rs) s (_, o, h) =
    let (n, p, (to, from)) = Adds-Observes findings r.label t t.arming r.outcome s o in
    let (m, q, (to_all, from_all)) = Tallies-Observed findings ts rs n h in
    (
      m,
      ap (λ x. summary_from findings x rs) p ∙ q,
      (
        λ z. let (y, c) = to_all z in let (x, d) = to y in (x, (d, c)),
        λ (z, (d, c)). from_all (from (z, d), c),
      ),
    )

none_counted : (m n : ℕ) → ((nat_beq m 0 && nat_beq n 0) ≡ true) ↔ ((m ≡ 0) × (n ≡ 0))
none_counted m n = (λ h. (ground arith, ground arith), λ (p, q). ground arith)

-- The summary of a fleet run never meets a result that is neither a verdict nor an error, and reports
-- that every target passed exactly when each result is a skipped or a passed check, whatever the
-- round-trip findings are.
pub format_converge_all_summary-run_converge_all :
    (ts : List ConvergeTarget) (findings : List (Text × Text))
    → (s : Summary) × (passes : Bool) × (format_converge_all_summary (run_converge_all ts) findings
        ≡ some (s, passes))
      × ((passes ≡ true) ↔ AreClean (run_converge_all ts))
format_converge_all_summary-run_converge_all ts findings =
    let start : Summary = record { lines = []; passed = 0; failed = 0; skipped = 0; errors = 0 } in
    let (n, p, (to, from)) =
      Tallies-Observed findings ts (run_converge_all ts) start (run_converge_all-Observed ts) in
    let (counted, uncounted) = none_counted n.failed n.errors in
    (
      n,
      (nat_beq n.failed 0 && nat_beq n.errors 0),
      ap shown p,
      (λ z. (to (counted z)).1, λ c. uncounted (from ((refl, refl), c))),
    )
