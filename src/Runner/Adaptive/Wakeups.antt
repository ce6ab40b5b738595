-- ===== src/Runner/Adaptive/Wakeups.antt =====
-- No caller sleeps in Acquire while the limiter has room for it.
use mathlib.Core.Path.{subst}
use crossplane_update_tester.Base.{
  ℕ, suc, ◌≤◌, Text, ◌||◌, none, some, some_eq, ltb, leb, ◌≡◌, inl, inr, arith, Bool-cases,
}
use crossplane_update_tester.Runner.Adaptive.{
  AdaptiveLimiter, new_adaptive_limiter, acquire, wait, release, throttle, acquired, waited,
  released, throttled, Reachable, start, then_step,
}
use crossplane_update_tester.Runner.Adaptive.Invariant.{Reachable-IsSane, released_from-some}

-- Whoever sleeps has no room, and waits for a caller that is active.
abbrev pub IsAwake : AdaptiveLimiter → Type 0
IsAwake l = 1 ≤ l.waiting → (l.limit ≤ l.active) × (1 ≤ l.active)

acquire-IsAwake :
    (l : AdaptiveLimiter) {m : AdaptiveLimiter} → acquire l ≡ some m → IsAwake l → IsAwake m
unfolding acquire
acquire-IsAwake l = elim (Bool-cases (leb l.limit l.active)) [
  | inl e ↦ rw e (λ h. cc)
  | inr e ↦ rw e (λ h s. subst IsAwake (some_eq h) (λ w. absurd (ground (arith, s w))))
]

wait-IsAwake : (l : AdaptiveLimiter) → 1 ≤ l.limit → acquire l ≡ none → IsAwake (wait l)
unfolding acquire wait
wait-IsAwake l p h w = elim (Bool-cases (leb l.limit l.active)) [
  | inl e ↦ (ground arith, ground arith)
  | inr e ↦ absurd (let h2 : some (record l { active = suc l.active }) ≡ none = rw e at h in cc)
]

release-IsAwake : (l : AdaptiveLimiter) {m : AdaptiveLimiter} → release l ≡ some m → IsAwake m
unfolding release
release-IsAwake l h =
    let (n, _, q) = released_from-some l.active l h in
    subst IsAwake q (λ w. absurd (omega (arith, w)))

throttle-IsAwake :
    (now : ℕ) (reason : Text) (n : ℕ) (l : AdaptiveLimiter)
    → IsAwake l
    → IsAwake (throttle now reason n l).1
unfolding throttle
throttle-IsAwake now reason n l s = elim (Bool-cases (leb l.limit n || ltb n 1)) [
  | inl e ↦ rw e s
  | inr e ↦ rw e (λ w. absurd (omega (arith, w)))
]

-- No wake-up is lost: in every state that callers can bring a limiter to, by any interleaving of
-- Acquire, its waits, Release and Throttle, a caller that sleeps in Acquire has no room under the
-- ceiling, and some caller is active, whose Release will wake it.
pub Reachable-IsAwake : (initial : ℕ) (l : AdaptiveLimiter) → Reachable initial l → IsAwake l
unfolding new_adaptive_limiter
Reachable-IsAwake initial l start = λ w. absurd (omega (arith, w))
Reachable-IsAwake initial l (then_step r (acquired h)) =
    acquire-IsAwake _ h (Reachable-IsAwake initial _ r)
Reachable-IsAwake initial l (then_step r (waited h)) =
    wait-IsAwake _ (Reachable-IsSane initial _ r).positive h
Reachable-IsAwake initial l (then_step r (released h)) = release-IsAwake _ h
Reachable-IsAwake initial l (then_step r (throttled now reason n)) =
    throttle-IsAwake now reason n _ (Reachable-IsAwake initial _ r)
