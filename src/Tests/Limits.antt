-- ===== src/Tests/Limits.antt =====
-- A limiter that one caller enters and that is then throttled, and a tracker of four responses.
use crossplane_update_tester.Base.{[], text, [], refl}
use crossplane_update_tester.Runner.Adaptive.{
  AdaptiveLimiter, new_adaptive_limiter, acquire, wait, throttle, acquired, waited, throttled,
  Reachable, start, then_step,
}
use crossplane_update_tester.Runner.Adaptive.Invariant.{IsSane, Reachable-IsSane}
use crossplane_update_tester.Runner.Adaptive.Wakeups.{IsAwake, Reachable-IsAwake}

abbrev entered : AdaptiveLimiter
entered = record { limit = 3; active = 1; waiting = 0; events = [] }

abbrev slowed : AdaptiveLimiter
slowed = (throttle 7 (text "429") 1 entered).1

reached : Reachable 3 slowed
unfolding new_adaptive_limiter acquire
reached = then_step (then_step start (acquired refl)) (throttled 7 (text "429") 1)

Reachable-IsSane_example : IsSane 3 slowed
Reachable-IsSane_example = Reachable-IsSane 3 slowed reached

abbrev full : AdaptiveLimiter
full = wait slowed

reached_full : Reachable 3 full
unfolding new_adaptive_limiter acquire throttle
reached_full = then_step reached (waited refl)

Reachable-IsAwake_example : IsAwake full
Reachable-IsAwake_example = Reachable-IsAwake 3 full reached_full
