-- ===== src/Runner/Throttle/Streaks.antt =====
-- What the tracker counts, and what the handler does to the ceiling.
use crossplane_update_tester.Base.{
  ℕ, suc, ◌+◌, ◌≤◌, Text, true, false, List, [], ◌∷◌, ◌++◌, length, filter, map, All, ◌≡◌, inl, inr,
  refl, ap, sym, ◌∙◌, arith, Bool-cases, append_assoc, append-nil,
}
use crossplane_update_tester.Runner.Adaptive.{AdaptiveLimiter, throttle}
use crossplane_update_tester.Runner.Throttle.{
  ThrottleTracker, Response, is_throttled, event_of, observe, observe_all,
  sustained_throttle_streak, halved, adaptive_throttle_handler,
}

observe_all-append :
    (xs ys : List Response) (t : ThrottleTracker)
    → observe_all (xs ++ ys) t ≡ observe_all ys (observe_all xs t)
unfolding observe_all
observe_all-append [] ys t = refl
observe_all-append (x ∷ xs) ys t = observe_all-append xs ys (observe x t)

observe_all-throttled :
    (ys : List Response) (t : ThrottleTracker)
    → All (λ r. is_throttled r ≡ true) ys
    → (observe_all ys t).consecutive ≡ t.consecutive + length ys
unfolding observe_all observe
observe_all-throttled [] t h = omega arith
observe_all-throttled (y ∷ ys) t h =
    observe_all-throttled ys (observe y t) h.1
    ∙ ap (λ n. n + length ys) (counted y t h.0)
    ∙ omega arith
  where
    counted :
        (r : Response) (t : ThrottleTracker)
        → is_throttled r ≡ true
        → (observe r t).consecutive ≡ suc t.consecutive
    counted r t e = rw (observe, e) refl

observe_all-events :
    (rs : List Response) (t : ThrottleTracker)
    → (observe_all rs t).events ≡ t.events ++ map event_of (filter is_throttled rs)
unfolding observe_all observe
observe_all-events [] t = sym (append-nil _)
observe_all-events (r ∷ rs) t = elim (Bool-cases (is_throttled r)) [
  | inl e ↦
      rw (observe_all, observe, e)
        (observe_all-events rs
            (record t { consecutive = suc t.consecutive; events = t.events ++ event_of r ∷ [] })
          ∙ append_assoc t.events _ _)
  | inr e ↦ rw (observe_all, observe, e) (observe_all-events rs (record t { consecutive = 0 }))
]

-- After any responses, one that is not a 429 and then only 429s, the tracker's streak is the number
-- of those; and its events are those it had and one for each 429 of all the responses, in order.
pub observe_all_streak :
    (t : ThrottleTracker) (earlier : List Response) (r : Response) (later : List Response)
    → is_throttled r ≡ false
    → All (λ x. is_throttled x ≡ true) later
    → ((observe_all (earlier ++ r ∷ later) t).consecutive ≡ length later)
      × ((observe_all (earlier ++ r ∷ later) t).events
          ≡ t.events ++ map event_of (filter is_throttled (earlier ++ r ∷ later)))
unfolding observe_all observe
observe_all_streak t earlier r later e h = (
  ap (λ s. s.consecutive) (observe_all-append earlier (r ∷ later) t)
      ∙ observe_all-throttled later (observe r (observe_all earlier t)) h
      ∙ ap (λ n. n + length later) (reset (observe_all earlier t))
      ∙ omega arith,
  observe_all-events (earlier ++ r ∷ later) t,
)
  where
    reset : (s : ThrottleTracker) → (observe r s).consecutive ≡ 0
    reset s = rw (observe, e) refl

-- On a streak that reaches the threshold, for a limiter whose ceiling is at least one, the handler
-- makes the ceiling half of what it was, but not less than one, and turns no caller out.
pub adaptive_throttle_handler_halves :
    (decimal : ℕ → Text) (now streak : ℕ) (l : AdaptiveLimiter)
    → 1 ≤ l.limit
    → sustained_throttle_streak ≤ streak
    → ((adaptive_throttle_handler decimal now streak l).limit ≡ halved l.limit)
      × ((adaptive_throttle_handler decimal now streak l).active ≡ l.active)
unfolding adaptive_throttle_handler throttle
adaptive_throttle_handler_halves decimal now streak l pos h = (ground arith, ground arith)
