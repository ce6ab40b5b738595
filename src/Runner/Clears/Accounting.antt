-- ===== src/Runner/Clears/Accounting.antt =====
-- No credit of a cell that the run owes an observation is lost.
use mathlib.Core.Path.{subst}
use crossplane_update_tester.Base.{
  Text, true, List, [], ◌∷◌, ◌++◌, Option, none, some, some_eq, ◌==◌, ==_iff, list_eq, nat_eq,
  lookup, lookup-insert, lookup-insert_self, In, In-append_left, In-append_right, ◌≡◌, ◌⊎◌, inl,
  inr, refl, sym, Bool-cases,
}
use crossplane_update_tester.Manifest.{UpdateTest}
use crossplane_update_tester.Roundtrip.Clearing.{ClearRoute}
use crossplane_update_tester.Roundtrip.Clearing.Cells.{ClearCellReport}
use crossplane_update_tester.Runner.Clears.{
  Credits, Pending, PendingClear, add_credit, add_owed, add_pending, add_report, no_trigger_credit,
  owed_route, pending_of, trigger_field_for, triggers, unobserved_from,
}

-- The item waits for a test of the field.
abbrev pub Waits : Text → PendingClear → Pending → Type 0
Waits trigger item p = In item (pending_of (lookup trigger p))

abbrev item_of : ClearCellReport → ClearRoute → PendingClear
item_of r route = record { representative = r.representative; route = route }

-- The credit of a report waits for a test that sends its clear, or is listed as unproven.
abbrev pub IsKept : List UpdateTest → Credits → Text → ClearRoute → Type 0
IsKept tests c rep route =
    ((t : UpdateTest) × In t tests
      × (triggers rep route t ≡ true)
      × Waits t.field (record { representative = rep; route = route }) c.pending)
    ⊎ In (no_trigger_credit rep route) c.unresolved

Waits-add_pending_new :
    (trigger : Text) (item : PendingClear) (p : Pending)
    → Waits trigger item (add_pending trigger item p)
unfolding add_pending
Waits-add_pending_new trigger item p =
    let items = pending_of (lookup trigger p) in
    rw (lookup-insert_self trigger (items ++ item ∷ []) p)
      (In-append_right item items (item ∷ []) (inl refl))

Waits-add_pending :
    (f trigger : Text) (item new : PendingClear) (p : Pending)
    → Waits f item p
    → Waits f item (add_pending trigger new p)
unfolding add_pending
Waits-add_pending f trigger item new p h =
    let items = pending_of (lookup trigger p) ++ new ∷ [] in
    elim (Bool-cases (trigger == f)) [
      | inl same ↦
          let e = (==_iff trigger f).0 same in
          rw (lookup-insert trigger f items p, same)
            (In-append_left item (pending_of (lookup trigger p)) (new ∷ []) (rw e h))
      | inr other ↦ rw (lookup-insert trigger f items p, other) h
    ]

trigger_field_for-triggers :
    (rep : Text) (route : ClearRoute) (ts : List UpdateTest) {f : Text}
    → trigger_field_for rep route ts ≡ some f
    → (t : UpdateTest) × In t ts × (triggers rep route t ≡ true) × (t.field ≡ f)
unfolding trigger_field_for
trigger_field_for-triggers rep route [] h = cc
trigger_field_for-triggers rep route (t ∷ ts) h = elim (Bool-cases (triggers rep route t)) [
  | inl y ↦ (t, inl refl, y, some_eq (rw y at h))
  | inr n ↦
      let (u, i, p, e) = trigger_field_for-triggers rep route ts (rw n at h) in (u, inr i, p, e)
]

IsKept-add_credit :
    (tests : List UpdateTest) (other : Text) (along : ClearRoute) (found : Option Text)
    (c : Credits) (rep : Text) (route : ClearRoute)
    → IsKept tests c rep route
    → IsKept tests (add_credit other along found c) rep route
IsKept-add_credit tests other along none c rep route (inl k) = inl k
IsKept-add_credit tests other along none c rep route (inr k) = inr (
    In-append_left (no_trigger_credit rep route) c.unresolved (no_trigger_credit other along ∷ [])
      k)
IsKept-add_credit tests other along (some f) c rep route (inr k) = inr k
IsKept-add_credit tests other along (some f) c rep route (inl (t, i, p, w)) = inl (
  t,
  i,
  p,
  Waits-add_pending t.field f (record { representative = rep; route = route })
      (record { representative = other; route = along }) c.pending w,
)

IsKept-add_owed :
    (tests : List UpdateTest) (other : Text) (owed : Option ClearRoute) (c : Credits) (rep : Text)
    (route : ClearRoute)
    → IsKept tests c rep route
    → IsKept tests (add_owed tests other owed c) rep route
IsKept-add_owed tests other none c rep route h = h
IsKept-add_owed tests other (some along) c rep route h =
    IsKept-add_credit tests other along (trigger_field_for other along tests) c rep route h

IsKept-add_report :
    (tests : List UpdateTest) (r : ClearCellReport) (c : Credits) (rep : Text) (route : ClearRoute)
    → IsKept tests c rep route
    → IsKept tests (add_report tests r c) rep route
IsKept-add_report tests r c rep route h =
    IsKept-add_owed tests r.representative (owed_route r) c rep route h

IsKept-own_credit :
    (tests : List UpdateTest) (rep : Text) (route : ClearRoute) (found : Option Text) (c : Credits)
    → trigger_field_for rep route tests ≡ found
    → IsKept tests (add_credit rep route found c) rep route
IsKept-own_credit tests rep route none c e = inr (
    In-append_right (no_trigger_credit rep route) c.unresolved (no_trigger_credit rep route ∷ [])
      (inl refl))
IsKept-own_credit tests rep route (some f) c e =
    let item : PendingClear = record { representative = rep; route = route } in
    let (t, i, p, q) = trigger_field_for-triggers rep route tests e in
    inl (
      t,
      i,
      p,
      subst (λ x. Waits x item (add_pending f item c.pending)) (sym q)
          (Waits-add_pending_new f item c.pending),
    )

IsKept-own_report :
    (tests : List UpdateTest) (r : ClearCellReport) (c : Credits) {route : ClearRoute}
    → owed_route r ≡ some route
    → IsKept tests (add_report tests r c) r.representative route
IsKept-own_report tests r c {route} e =
    subst (λ o. IsKept tests (add_owed tests r.representative o c) r.representative route) (sym e)
      (IsKept-own_credit tests r.representative route
        (trigger_field_for r.representative route tests) c refl)

IsKept-unobserved_from :
    (tests : List UpdateTest) (rs : List ClearCellReport) (c : Credits) (rep : Text)
    (route : ClearRoute)
    → IsKept tests c rep route
    → IsKept tests (unobserved_from tests c rs) rep route
unfolding unobserved_from
IsKept-unobserved_from tests [] c rep route h = h
IsKept-unobserved_from tests (r ∷ rs) c rep route h =
    IsKept-unobserved_from tests rs (add_report tests r c) rep route
      (IsKept-add_report tests r c rep route h)

-- Every covered report whose route no test asserts by itself is kept.
pub unobserved_from-IsKept :
    (tests : List UpdateTest) (r : ClearCellReport) (rs : List ClearCellReport) (c : Credits)
    {route : ClearRoute}
    → In r rs
    → owed_route r ≡ some route
    → IsKept tests (unobserved_from tests c rs) r.representative route
unfolding unobserved_from
unobserved_from-IsKept tests r [] c i e = absurd i
unobserved_from-IsKept tests r (q ∷ rs) c {route} (inl p) e =
    IsKept-unobserved_from tests rs (add_report tests q c) r.representative route (
      subst (λ x. IsKept tests (add_report tests x c) r.representative route) p
        (IsKept-own_report tests r c e))
unobserved_from-IsKept tests r (q ∷ rs) c (inr i) e =
    unobserved_from-IsKept tests r rs (add_report tests q c) i e
