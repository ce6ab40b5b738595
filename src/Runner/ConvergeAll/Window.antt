-- ===== src/Runner/ConvergeAll/Window.antt =====
-- The shared window of RunConvergeAll is long enough for every target.
use crossplane_update_tester.Base.{
  ℕ, ◌+◌, ◌-◌, ◌≤◌, List, [], ◌∷◌, map, nat_beq, ◌≡◌, refl, inl, inr, Bool-cases, arith,
}
use crossplane_update_tester.Runner.ConvergeAll.{
  Arming, refused, early, armed_at, ConvergeTarget, Outcome, ConvergeAllResult, Closing,
  converge_wait, larger, close_with, close_from, converge_all_deadline, arm, settle, finish_assert,
  armed_result, finished_result, run_converge_all,
}

-- A target that is armed is counted, and the window reaches over its own.
abbrev Reaches : Closing → ConvergeTarget → Arming → Type 0
Reaches c t (armed_at a) =
    (a ≤ c.latest) × (converge_wait t.poll_interval ≤ c.max_wait) × (1 ≤ c.armed)
Reaches c t _ = Unit

abbrev Grows : Closing → Closing → Type 0
Grows c d = (c.latest ≤ d.latest) × (c.max_wait ≤ d.max_wait) × (c.armed ≤ d.armed)

larger_bounds : (m n : ℕ) → (m ≤ larger m n) × (n ≤ larger m n)
larger_bounds m n = (ground arith, ground arith)

Grows-close_with : (t : ConvergeTarget) (a : Arming) (c : Closing) → Grows c (close_with t a c)
Grows-close_with t (refused e) c = (omega arith, omega arith, omega arith)
Grows-close_with t (early r) c = (omega arith, omega arith, omega arith)
Grows-close_with t (armed_at a) c = (
  (larger_bounds c.latest a).0,
  (larger_bounds c.max_wait (converge_wait t.poll_interval)).0,
  omega arith,
)

Grows-trans : (c d e : Closing) → Grows c d → Grows d e → Grows c e
Grows-trans c d e (a, b, n) (a2, b2, n2) = (omega arith, omega arith, omega arith)

Grows-close_from : (ts : List ConvergeTarget) (c : Closing) → Grows c (close_from c ts)
unfolding close_from
Grows-close_from [] c = (omega arith, omega arith, omega arith)
Grows-close_from (t ∷ ts) c =
    Grows-trans c (close_with t t.arming c) (close_from (close_with t t.arming c) ts)
      (Grows-close_with t t.arming c) (Grows-close_from ts (close_with t t.arming c))

Reaches-close_with :
    (t : ConvergeTarget) (a : Arming) (c d : Closing) → Grows (close_with t a c) d → Reaches d t a
Reaches-close_with t (refused e) c d g = tt
Reaches-close_with t (early r) c d g = tt
Reaches-close_with t (armed_at a) c d (g, h, n) =
    let (_, l) = larger_bounds c.latest a in
    let (_, w) = larger_bounds c.max_wait (converge_wait t.poll_interval) in
    (omega arith, omega arith, omega arith)

-- What the result of a target is: its answer from arming or, once armed, what asserting it answers over
-- a window that is no shorter than its own wait.
abbrev pub Observes : ConvergeTarget → Arming → Outcome → Type 0
Observes t (armed_at a) o =
    (window : ℕ) × (converge_wait t.poll_interval ≤ window) × (o ≡ settle (t.asserted window))
Observes t a o = o ≡ arm a

-- Each target has its own result, in the order of the targets.
abbrev pub Observed : List ConvergeTarget → List ConvergeAllResult → Type 0
Observed [] [] = Unit
Observed (t ∷ ts) (r ∷ rs) = (r.label ≡ t.label) × Observes t t.arming r.outcome × Observed ts rs
Observed _ _ = ⊥

Observes-finish_assert :
    (c : Closing) (t : ConvergeTarget) (a : Arming)
    → Reaches c t a
    → Observes t a (finish_assert (c.latest + c.max_wait) t a)
Observes-finish_assert c t (refused e) h = refl
Observes-finish_assert c t (early r) h = refl
Observes-finish_assert c t (armed_at a) (l, w, n) =
    (((c.latest + c.max_wait) + t.lag) - a, omega arith, refl)

Observes-arm :
    (c : Closing) (t : ConvergeTarget) (a : Arming)
    → c.armed ≡ 0
    → Reaches c t a
    → Observes t a (arm a)
Observes-arm c t (refused e) z h = refl
Observes-arm c t (early r) z h = refl
Observes-arm c t (armed_at a) z (l, w, n) = absurd (omega arith)

Reaches-head :
    (c d : Closing) (t : ConvergeTarget) (ts : List ConvergeTarget)
    → Grows (close_from c (t ∷ ts)) d
    → Reaches d t t.arming
unfolding close_from
Reaches-head c d t ts g =
    let next = close_with t t.arming c in
    Reaches-close_with t t.arming c d
      (Grows-trans next (close_from next ts) d (Grows-close_from ts next) g)

Observed-finished_result :
    (ts : List ConvergeTarget) (c d : Closing)
    → Grows (close_from c ts) d
    → Observed ts (map (finished_result (d.latest + d.max_wait)) ts)
unfolding close_from
Observed-finished_result [] c d g = tt
Observed-finished_result (t ∷ ts) c d g = (
  refl,
  Observes-finish_assert d t t.arming (Reaches-head c d t ts g),
  Observed-finished_result ts (close_with t t.arming c) d g,
)

Observed-armed_result :
    (ts : List ConvergeTarget) (c d : Closing)
    → d.armed ≡ 0
    → Grows (close_from c ts) d
    → Observed ts (map armed_result ts)
unfolding close_from
Observed-armed_result [] c d z g = tt
Observed-armed_result (t ∷ ts) c d z g = (
  refl,
  Observes-arm d t t.arming z (Reaches-head c d t ts g),
  Observed-armed_result ts (close_with t t.arming c) d z g,
)

-- RunConvergeAll gives each target one result, in the order of the targets and under its label: the
-- error or the early verdict of arming it or, for a target that is armed, what asserting it answers
-- over a window of at least the target's own wait, however late the other targets are armed.
pub run_converge_all-Observed : (ts : List ConvergeTarget) → Observed ts (run_converge_all ts)
unfolding run_converge_all
run_converge_all-Observed ts =
    let start : Closing = record { latest = 0; max_wait = 0; armed = 0 } in
    let c = converge_all_deadline ts in
    elim (Bool-cases (nat_beq c.armed 0)) [
      | inl t ↦
          rw t (
            Observed-armed_result ts start c (ground arith) (omega arith, omega arith, omega arith))
      | inr f ↦ rw f (Observed-finished_result ts start c (omega arith, omega arith, omega arith))
    ]
