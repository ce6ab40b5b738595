-- ===== src/Runner/ConvergeAll.antt =====
-- internal/runner/convergeall.go: the convergence checks of many resources over one shared window.
-- Times and durations are in nanoseconds, durations below 2 ^ 52, where Go's float64 product is exact.
-- What arming and asserting a target answer is data of the target.
pub mod Window
pub mod Summary
use crossplane_update_tester.Base.{
  ℕ, suc, ◌+◌, ◌-◌, ◌*◌, ◌/◌, Text, Bool, List, [], ◌∷◌, map, if◌then◌else◌, ltb, nat_beq, nat_eq,
  Result, ok, err,
}
use crossplane_update_tester.Runner.Values.{Failure}
use crossplane_update_tester.Runner.Converge.{ConvergeResult}

-- A ConvergeResult that is skipped with its text, or checked.
pub data Checking : Type 0 where
  skipping : Text → Checking
  checked : ConvergeResult → Checking

-- What convergeArm answers: an error, an early verdict, or a baseline with its time.
pub data Arming : Type 0 where
  refused : Failure → Arming
  early : Checking → Arming
  armed_at : ℕ → Arming

-- A target, with how long after the shared window closes its assertion starts and what convergeAssert
-- answers over a window.
pub record ConvergeTarget : Type 0 where
  pub label : Text
  pub poll_interval : ℕ
  pub arming : Arming
  pub lag : ℕ
  pub asserted : ℕ → Result Failure Checking

-- Both of Result and Err are nil in `unfilled`.
pub data Outcome : Type 0 where
  unfilled : Outcome
  result : Checking → Outcome
  errored : Failure → Outcome

pub record ConvergeAllResult : Type 0 where
  pub label : Text
  pub outcome : Outcome

-- convergeWait
abbrev pub converge_wait : ℕ → ℕ
converge_wait poll_interval =
    (if nat_beq poll_interval 0 then 60000000000 else poll_interval) * 3 / 2

-- The variables of convergeAllDeadline.
pub record Closing : Type 0 where
  pub latest : ℕ
  pub max_wait : ℕ
  pub armed : ℕ

abbrev pub larger : ℕ → ℕ → ℕ
larger m n = if ltb m n then n else m

abbrev pub close_with : ConvergeTarget → Arming → Closing → Closing
close_with t (armed_at a) c = record {
  latest = larger c.latest a;
  max_wait = larger c.max_wait (converge_wait t.poll_interval);
  armed = suc c.armed;
}
close_with t _ c = c

-- The loop of convergeAllDeadline.
unfoldable pub close_from : Closing → List ConvergeTarget → Closing
close_from c [] = c
close_from c (t ∷ ts) = close_from (close_with t t.arming c) ts

abbrev pub converge_all_deadline : List ConvergeTarget → Closing
converge_all_deadline ts = close_from (record { latest = 0; max_wait = 0; armed = 0 }) ts

-- The first phase.
abbrev pub arm : Arming → Outcome
arm (refused e) = Outcome.errored e
arm (early r) = Outcome.result r
arm (armed_at a) = Outcome.unfilled

abbrev pub settle : Result Failure Checking → Outcome
settle (ok r) = Outcome.result r
settle (err e) = Outcome.errored e

-- The third phase, of the window that closes at the deadline.
abbrev pub finish_assert : ℕ → ConvergeTarget → Arming → Outcome
finish_assert deadline t (armed_at a) = settle (t.asserted ((deadline + t.lag) - a))
finish_assert deadline t a = arm a

abbrev pub armed_result : ConvergeTarget → ConvergeAllResult
armed_result t = record { label = t.label; outcome = arm t.arming }

abbrev pub finished_result : ℕ → ConvergeTarget → ConvergeAllResult
finished_result deadline t = record { label = t.label; outcome = finish_assert deadline t t.arming }

-- RunConvergeAll
unfoldable pub run_converge_all : List ConvergeTarget → List ConvergeAllResult
unfolding close_from
run_converge_all ts =
    let c = converge_all_deadline ts in
    if nat_beq c.armed 0
    then map armed_result ts
    else map (finished_result (c.latest + c.max_wait)) ts
