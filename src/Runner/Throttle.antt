-- ===== src/Runner/Throttle.antt =====
-- internal/runner/throttle.go and the handler of batch.go: the streak of responses with status 429,
-- and the halving of the limiter's ceiling on a long one. Observe runs under the tracker's mutex and
-- calls the handler behind it; the time of an event and the %d of a number are arguments.
pub mod Streaks
use crossplane_update_tester.Base.{
  ℕ, suc, ◌/◌, Text, text, Bool, true, false, List, [], ◌∷◌, ◌++◌, if◌then◌else◌, ltb, nat_beq,
}
use crossplane_update_tester.Runner.Adaptive.{AdaptiveLimiter, current_limit, throttle}

pub record RateLimitEvent : Type 0 where
  pub at : ℕ
  pub retry_after : ℕ
  pub url : Text

pub record ThrottleTracker : Type 0 where
  pub consecutive : ℕ
  pub events : List RateLimitEvent

-- newThrottleTracker
abbrev pub new_tracker : ThrottleTracker
new_tracker = record { consecutive = 0; events = [] }

-- The arguments of one call of Observe, with the time that its event would have.
pub record Response : Type 0 where
  pub status : ℕ
  pub retry_after : ℕ
  pub url : Text
  pub at : ℕ

-- http.StatusTooManyRequests
abbrev pub is_throttled : Response → Bool
is_throttled r = nat_beq r.status 429

abbrev pub event_of : Response → RateLimitEvent
event_of r = record { at = r.at; retry_after = r.retry_after; url = r.url }

-- The streak that Observe returns is the tracker's `consecutive` after it.
unfoldable pub observe : Response → ThrottleTracker → ThrottleTracker
observe r t =
    if is_throttled r
    then record t { consecutive = suc t.consecutive; events = t.events ++ event_of r ∷ [] }
    else record t { consecutive = 0 }

unfoldable pub observe_all : List Response → ThrottleTracker → ThrottleTracker
unfolding observe
observe_all [] t = t
observe_all (r ∷ rs) t = observe_all rs (observe r t)

abbrev pub sustained_throttle_streak : ℕ
sustained_throttle_streak = 3

abbrev pub halved : ℕ → ℕ
halved n = if ltb (n / 2) 1 then 1 else n / 2

unfoldable pub adaptive_throttle_handler : (ℕ → Text) → ℕ → ℕ → AdaptiveLimiter → AdaptiveLimiter
unfolding throttle
adaptive_throttle_handler decimal now streak l =
    if ltb streak sustained_throttle_streak
    then l
    else (throttle now (decimal streak ++ text " consecutive 429s from the backend")
        (halved (current_limit l)) l).1
