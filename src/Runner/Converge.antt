-- ===== src/Runner/Converge.antt =====
-- internal/runner/converge.go and resolve.go: the verdict of a convergence check and of a recovery,
-- the count of the events of a resource, and the reading of its conditions. A 32-bit count is its
-- word below 2 ^ 32; the problems of a verdict are kept as what their texts say.
pub mod Verdict
pub mod Counting
use crossplane_update_tester.Base.{
  ℕ, ◌+◌, ◌-◌, ◌%◌, Text, text, Bool, true, false, not, ◌&&◌, ◌||◌, List, [], ◌∷◌, ◌++◌, is_empty,
  map, Option, none, some, if◌then◌else◌, ltb, leb, nat_beq, ◌==◌, list_eq, nat_eq, elem, lookup,
  Result, ok, err,
}
use crossplane_update_tester.Value.{Value, str, null}
use crossplane_update_tester.Json.{as_object, object_of, string_of}
use crossplane_update_tester.Manifest.Entries.{as_list}
use crossplane_update_tester.Differ.{FieldChange}
use crossplane_update_tester.Runner.Values.{Failure, NameFault, check_external_name_prefix}

-- updateLogObservation; the window in seconds.
pub record LogObservation : Type 0 where
  pub calls : ℕ
  pub lines : ℕ
  pub failure : Option Failure
  pub window : ℕ

pub data Diagnostic : Type 0 where
  note : Text → Diagnostic
  log_unavailable : Failure → Diagnostic
  log_silent : ℕ → Diagnostic
  at_provider_changed : List FieldChange → Diagnostic
  new_update_events update_calls : ℕ → Diagnostic
  generation_changed : ℕ → ℕ → Diagnostic
  readiness_flap : Diagnostic

pub data Message : Type 0 where
  stable : ℕ → ℕ → Message
  reconciliation_loop not_in_steady_state : Message

pub record ConvergeResult : Type 0 where
  pub passed : Bool
  pub message : Message
  pub diagnostics : List Diagnostic

-- The cases of the switch on the log.
pub data LogVerdict : Type 0 where
  unavailable : Failure → LogVerdict
  silent quiet : LogVerdict
  looping : ℕ → LogVerdict

unfoldable pub log_verdict : LogObservation → LogVerdict
log_verdict o = elim o.failure [
  | some e ↦ LogVerdict.unavailable e
  | none ↦
      if ltb 0 o.window && nat_beq o.lines 0
      then LogVerdict.silent
      else if ltb 0 o.calls
      then LogVerdict.looping o.calls
      else LogVerdict.quiet
]

-- The variables of buildConvergeResult.
pub record Judging : Type 0 where
  pub passed : Bool
  pub loop_signal : Bool
  pub problems : List Diagnostic
  pub notes : List Diagnostic

abbrev pub with_problem : Diagnostic → Judging → Judging
with_problem d j = record j { passed = false; problems = j.problems ++ d ∷ [] }

abbrev pub with_loop : Diagnostic → Judging → Judging
with_loop d j = record (with_problem d j) { loop_signal = true }

abbrev pub with_note : Diagnostic → Judging → Judging
with_note d j = record j { notes = j.notes ++ d ∷ [] }

abbrev pub judge_diff : List FieldChange → Judging → Judging
judge_diff diff j = if is_empty diff then j else with_loop (Diagnostic.at_provider_changed diff) j

abbrev pub judge_events : ℕ → ℕ → Judging → Judging
judge_events before after j =
    if ltb before after then with_loop (Diagnostic.new_update_events (after - before)) j else j

abbrev pub judge_log : ℕ → LogVerdict → Judging → Judging
judge_log window (LogVerdict.unavailable e) j = with_note (Diagnostic.log_unavailable e) j
judge_log window LogVerdict.silent j = with_note (Diagnostic.log_silent window) j
judge_log window (LogVerdict.looping calls) j = with_loop (Diagnostic.update_calls calls) j
judge_log window LogVerdict.quiet j = j

abbrev pub judge_generation : ℕ → ℕ → Judging → Judging
judge_generation gen after_gen j =
    if nat_beq after_gen gen
    then j
    else with_problem (Diagnostic.generation_changed gen after_gen) j

abbrev pub judge_ready : Bool → Judging → Judging
judge_ready ready j = if ready then j else with_problem Diagnostic.readiness_flap j

abbrev pub message_of : Bool → Bool → ℕ → ℕ → Message
message_of passed loops before after =
    if passed
    then Message.stable before after
    else if loops
    then Message.reconciliation_loop
    else Message.not_in_steady_state

abbrev pub result_of : ℕ → ℕ → Judging → ConvergeResult
result_of before after j = record {
  passed = j.passed;
  message = message_of j.passed j.loop_signal before after;
  diagnostics = j.notes ++ j.problems;
}

-- buildConvergeResult
unfoldable pub build_converge_result :
    List FieldChange → ℕ → ℕ → ℕ → ℕ → Bool → LogObservation → List Text → ConvergeResult
unfolding log_verdict
build_converge_result diff gen after_gen before_events after_events after_ready log notes =
    let opened : Judging = record {
      passed = true;
      loop_signal = false;
      problems = [];
      notes = map Diagnostic.note notes;
    } in
    let counted = judge_events before_events after_events (judge_diff diff opened) in
    let logged = judge_log log.window (log_verdict log) counted in
    result_of before_events after_events
      (judge_ready after_ready (judge_generation gen after_gen logged))

-- buildResolveRecoverResult
pub record ResolveRecoverResult : Type 0 where
  pub external_name_before : Text
  pub external_name_after : Text
  pub create_event_count : ℕ
  pub passed : Bool
  pub name_fault : Option NameFault

abbrev pub fault_of : Result NameFault Unit → Option NameFault
fault_of (ok u) = none
fault_of (err f) = some f

abbrev pub is_fault : Option NameFault → Bool
is_fault none = false
is_fault (some f) = true

unfoldable pub build_resolve_recover_result : Text → Text → Text → ℕ → ResolveRecoverResult
unfolding check_external_name_prefix
build_resolve_recover_result before after expected_prefix create_events =
    let fault = fault_of (check_external_name_prefix after expected_prefix) in
    record {
      external_name_before = before;
      external_name_after = after;
      create_event_count = create_events;
      passed = not (is_fault fault) && nat_beq create_events 1;
      name_fault = fault;
    }

-- The text before the first slash, if there is one.
unfoldable pub before_slash : Text → Option Text
before_slash [] = none
before_slash (c ∷ s) =
    let rest = before_slash s in
    if nat_beq c b'/' then some [] else elim rest [ none ↦ none | some g ↦ some (c ∷ g) ]

-- apiGroup
abbrev pub api_group : Text → Text
api_group version = elim (before_slash version) [ none ↦ [] | some g ↦ g ]

pub record EventItem : Type 0 where
  pub reason : Text
  pub count : ℕ
  pub kind : Text
  pub name : Text
  pub namespace : Text
  pub api_version : Text

-- The resource whose events are counted, and the reasons that count.
pub record EventFilter : Type 0 where
  pub kind : Text
  pub name : Text
  pub namespace : Text
  pub api_version : Text
  pub reasons : List Text

unfoldable pub counts_event : EventFilter → EventItem → Bool
unfolding before_slash
counts_event f e =
    e.kind == f.kind
    && (e.name == f.name
        && (e.namespace == f.namespace
            && ((is_empty e.api_version || api_group e.api_version == api_group f.api_version)
                && elem e.reason f.reasons)))

-- A count that is not positive as an int32 counts as one.
abbrev pub occurrences : EventItem → ℕ
occurrences e = if nat_beq e.count 0 || leb 2147483648 e.count then 1 else e.count

-- The loop of sumEventOccurrencesByReason; `total` is an int32 and wraps around.
unfoldable pub sum_events_from : EventFilter → ℕ → List EventItem → ℕ
unfolding counts_event
sum_events_from f total [] = total
sum_events_from f total (e ∷ es) =
    sum_events_from f (if counts_event f e then (total + occurrences e) % 4294967296 else total) es

abbrev pub sum_event_occurrences_by_reason : EventFilter → List EventItem → ℕ
sum_event_occurrences_by_reason f es = sum_events_from f 0 es

abbrev pub members_of : Option Value → Option (List Value)
members_of none = none
members_of (some v) = as_list v

abbrev pub condition_status : Text → Option (List (Text × Value)) → Option Text
condition_status wanted none = none
condition_status wanted (some c) =
    if string_of (lookup (text "type") c) == wanted
    then some (string_of (lookup (text "status") c))
    else none

-- The first condition of the type.
unfoldable pub find_condition : Text → List Value → Option Text
unfolding lookup
find_condition wanted [] = none
find_condition wanted (v ∷ vs) =
    let rest = find_condition wanted vs in
    elim (condition_status wanted (as_object v)) [ none ↦ rest | some s ↦ some s ]

abbrev pub conditions_in : Option (List (Text × Value)) → List Value
conditions_in none = []
conditions_in (some status) = elim (members_of (lookup (text "conditions") status)) [
  | none ↦ []
  | some cs ↦ cs
]

-- namedCondition, without the generation that it observed
unfoldable pub named_condition : List (Text × Value) → Text → Option Text
unfolding lookup find_condition
named_condition o wanted =
    find_condition wanted (conditions_in (object_of (lookup (text "status") o)))

abbrev pub is_true_status : Option Text → Bool
is_true_status none = false
is_true_status (some s) = s == text "True"

unfoldable pub conditions_all_true : List (Text × Value) → List Text → Bool
unfolding named_condition
conditions_all_true o [] = true
conditions_all_true o (t ∷ ts) = is_true_status (named_condition o t) && conditions_all_true o ts

abbrev pub is_ready_true : List (Text × Value) → Bool
is_ready_true o = is_true_status (named_condition o (text "Ready"))
