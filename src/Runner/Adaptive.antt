-- ===== src/Runner/Adaptive.antt =====
-- internal/runner/adaptive.go: the limiter whose ceiling only shrinks. Each method runs under the
-- limiter's mutex, which only cond.Wait gives back, so that falling asleep, and each run of the loop of
-- Acquire after it, is a step. The time of an event comes from the clock, an argument.
pub mod Invariant
pub mod Wakeups
use crossplane_update_tester.Base.{
  ℕ, zero, suc, ◌<◌, Text, Bool, true, false, ◌||◌, List, [], ◌∷◌, ◌++◌, Option, none, some,
  if◌then◌else◌, ltb, leb, nat_beq, ◌≡◌,
}

pub record ThrottleEvent : Type 0 where
  pub at : ℕ
  pub from : ℕ
  pub to : ℕ
  pub reason : Text

pub record AdaptiveLimiter : Type 0 where
  pub limit : ℕ
  pub active : ℕ
  -- The callers asleep in cond.Wait.
  pub waiting : ℕ
  pub events : List ThrottleEvent

-- A ceiling that is negative in Go counts as zero here: the code treats both alike.
unfoldable pub new_adaptive_limiter : ℕ → AdaptiveLimiter
new_adaptive_limiter initial = record {
  limit = if nat_beq initial 0 then 1 else initial;
  active = 0;
  waiting = 0;
  events = [];
}

-- The loop of Acquire, for a caller that enters it or that is woken: `none` is a caller that waits.
unfoldable pub acquire : AdaptiveLimiter → Option AdaptiveLimiter
acquire l = if leb l.limit l.active then none else some (record l { active = suc l.active })

-- cond.Wait: the caller falls asleep and gives the mutex back.
unfoldable pub wait : AdaptiveLimiter → AdaptiveLimiter
wait l = record l { waiting = suc l.waiting }

-- cond.Broadcast: every sleeper is woken, and runs the loop of Acquire again.
abbrev pub broadcast : AdaptiveLimiter → AdaptiveLimiter
broadcast l = record l { waiting = 0 }

abbrev pub released_from : ℕ → AdaptiveLimiter → Option AdaptiveLimiter
released_from zero l = none
released_from (suc n) l = some (broadcast (record l { active = n }))

-- `none` is a release that no acquire precedes, which would make Go's count negative.
unfoldable pub release : AdaptiveLimiter → Option AdaptiveLimiter
release l = released_from l.active l

unfoldable pub throttle : ℕ → Text → ℕ → AdaptiveLimiter → Bool × AdaptiveLimiter
throttle now reason new_limit l = if leb l.limit new_limit || ltb new_limit 1 then (false, l) else (
  true,
  broadcast (record l {
    limit = new_limit;
    events = l.events ++ record { at = now; from = l.limit; to = new_limit; reason = reason } ∷ [];
  }),
)

abbrev pub current_limit : AdaptiveLimiter → ℕ
current_limit l = l.limit

-- The interleavings of the callers, one method at a time. A caller releases what it has acquired.
pub data Step : AdaptiveLimiter → AdaptiveLimiter → Type 0 where
  acquired : {l m : AdaptiveLimiter} → acquire l ≡ some m → Step l m
  waited : {l : AdaptiveLimiter} → acquire l ≡ none → Step l (wait l)
  released : {l m : AdaptiveLimiter} → release l ≡ some m → Step l m
  throttled :
      (now : ℕ) (reason : Text) (n : ℕ) {l : AdaptiveLimiter} → Step l (throttle now reason n l).1

pub data Reachable (initial : ℕ) : AdaptiveLimiter → Type 0 where
  start : Reachable initial (new_adaptive_limiter initial)
  then_step : {l m : AdaptiveLimiter} → Reachable initial l → Step l m → Reachable initial m
