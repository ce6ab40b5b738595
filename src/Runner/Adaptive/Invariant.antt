-- ===== src/Runner/Adaptive/Invariant.antt =====
-- What holds of a limiter whatever its callers do, in any order.
use mathlib.Core.Path.{subst}
use crossplane_update_tester.Base.{
  ℕ, zero, suc, ◌<◌, ◌≤◌, Text, ◌||◌, List, [], ◌∷◌, ◌++◌, some, some_eq, if◌then◌else◌, ltb, leb,
  nat_beq, ◌≡◌, inl, inr, refl, arith, Bool-cases,
}
use crossplane_update_tester.Runner.Adaptive.{
  ThrottleEvent, AdaptiveLimiter, new_adaptive_limiter, acquire, wait, released_from, release,
  throttle, acquired, waited, released, throttled, Reachable, start, then_step,
}

-- The events lead from one ceiling to another, each from where the one before ended, strictly down,
-- and never below one.
abbrev pub IsDescent : ℕ → List ThrottleEvent → ℕ → Type 0
IsDescent a [] b = a ≡ b
IsDescent a (e ∷ es) b = (e.from ≡ a) × (e.to < e.from) × (1 ≤ e.to) × IsDescent e.to es b

IsDescent-append :
    (a b : ℕ) (es : List ThrottleEvent) (e : ThrottleEvent)
    → IsDescent a es b
    → e.from ≡ b
    → e.to < e.from
    → 1 ≤ e.to
    → IsDescent a (es ++ e ∷ []) e.to
IsDescent-append a b [] e d p q r = (omega arith, q, r, refl)
IsDescent-append a b (f ∷ es) e d p q r = (d.0, d.1, d.2, IsDescent-append f.to b es e d.3 p q r)

pub released_from-some :
    (k : ℕ) (l : AdaptiveLimiter) {m : AdaptiveLimiter}
    → released_from k l ≡ some m
    → (n : ℕ) × (k ≡ suc n) × (record l { active = n; waiting = 0 } ≡ m)
released_from-some zero l h = cc
released_from-some (suc n) l h = (n, refl, some_eq h)

-- The ceiling that a limiter starts with.
abbrev pub first_limit : ℕ → ℕ
first_limit initial = if nat_beq initial 0 then 1 else initial

pub record IsSane (initial : ℕ) (l : AdaptiveLimiter) : Type 0 where
  pub positive : 1 ≤ l.limit
  pub not_above : l.limit ≤ first_limit initial
  pub bounded : l.active ≤ first_limit initial
  pub recorded : IsDescent (first_limit initial) l.events l.limit

module _ (initial : ℕ) where
  start-IsSane : IsSane initial (new_adaptive_limiter initial)
  unfolding new_adaptive_limiter
  start-IsSane = record {
    positive = ground arith;
    not_above = omega arith;
    bounded = omega arith;
    recorded = refl;
  }

  throttle-IsSane :
      (now : ℕ) (reason : Text) (n : ℕ) (l : AdaptiveLimiter)
      → IsSane initial l
      → IsSane initial (throttle now reason n l).1
  unfolding throttle
  throttle-IsSane now reason n l s = elim (Bool-cases (leb l.limit n || ltb n 1)) [
    | inl e ↦ rw e (record {
      positive = s.positive;
      not_above = s.not_above;
      bounded = s.bounded;
      recorded = s.recorded;
    })
    | inr e ↦
        let low : n < l.limit = ground arith in
        let pos : 1 ≤ n = ground arith in
        rw e (record {
          positive = pos;
          not_above = omega (arith, s.not_above);
          bounded = s.bounded;
          recorded =
              IsDescent-append (first_limit initial) l.limit l.events _ s.recorded refl low pos;
        })
  ]

  acquire-IsSane :
      (l : AdaptiveLimiter) {m : AdaptiveLimiter}
      → acquire l ≡ some m
      → IsSane initial l
      → IsSane initial m
  unfolding acquire
  acquire-IsSane l = elim (Bool-cases (leb l.limit l.active)) [
    | inl e ↦ rw e (λ h. cc)
    | inr e ↦
        let low : l.active < l.limit = ground arith in
        rw e (λ h s. subst (IsSane initial) (some_eq h) (record {
          positive = s.positive;
          not_above = s.not_above;
          bounded = omega (arith, s.not_above);
          recorded = s.recorded;
        }))
  ]

  wait-IsSane : (l : AdaptiveLimiter) → IsSane initial l → IsSane initial (wait l)
  unfolding wait
  wait-IsSane l s = record {
    positive = s.positive;
    not_above = s.not_above;
    bounded = s.bounded;
    recorded = s.recorded;
  }

  release-IsSane :
      (l : AdaptiveLimiter) {m : AdaptiveLimiter}
      → release l ≡ some m
      → IsSane initial l
      → IsSane initial m
  unfolding release
  release-IsSane l h s =
      let (n, e, q) = released_from-some l.active l h in
      subst (IsSane initial) q (record {
        positive = s.positive;
        not_above = s.not_above;
        bounded = omega (arith, s.bounded);
        recorded = s.recorded;
      })

  -- In every state that callers can bring a limiter to, by any interleaving of Acquire, Release and
  -- Throttle, the ceiling is at least one and at most the first one, no more callers are active than
  -- the first ceiling, and the recorded events lead from the first ceiling to the one in effect,
  -- each from where the one before ended, strictly down.
  pub Reachable-IsSane : (l : AdaptiveLimiter) → Reachable initial l → IsSane initial l
  Reachable-IsSane l start = start-IsSane
  Reachable-IsSane l (then_step r (acquired h)) = acquire-IsSane _ h (Reachable-IsSane _ r)
  Reachable-IsSane l (then_step r (waited h)) = wait-IsSane _ (Reachable-IsSane _ r)
  Reachable-IsSane l (then_step r (released h)) = release-IsSane _ h (Reachable-IsSane _ r)
  Reachable-IsSane l (then_step r (throttled now reason n)) =
      throttle-IsSane now reason n _ (Reachable-IsSane _ r)
