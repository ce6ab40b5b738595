-- ===== src/Runner/Clears.antt =====
-- internal/runner/clear_assert.go: the credits of clear-direction cells that a run must observe.
pub mod Accounting
pub mod Checking
use crossplane_update_tester.Base.{
  Text, text, Bool, true, false, not, ◌&&◌, ◌||◌, List, [], ◌∷◌, ◌++◌, any, map, Option, none, some,
  if◌then◌else◌, ◌==◌, list_eq, nat_eq, elem, lookup, insert, has_prefix, is_empty, Result, ok, err,
}
use crossplane_update_tester.Value.{Value}
use crossplane_update_tester.Json.{Codec}
use crossplane_update_tester.Manifest.{UpdateTest}
use crossplane_update_tester.Roundtrip.Clearing.{ClearRoute, is_empty_list}
use crossplane_update_tester.Roundtrip.Clearing.Cells.{ClearCellReport}
use crossplane_update_tester.Runner.Values.{Failure}
use crossplane_update_tester.Runner.Unchanged.{read_snapshot_field, text_or_empty, first_error}

pub record ClearAssertion : Type 0 where
  pub representative : Text
  pub route : ClearRoute
  pub trigger_field : Text
  pub observed : Text

pub record PendingClear : Type 0 where
  pub representative : Text
  pub route : ClearRoute

pub data UnprovenReason : Type 0 where
  lender_skipped lender_no_op no_trigger : UnprovenReason

pub record UnprovenClearCredit : Type 0 where
  pub representative : Text
  pub route : ClearRoute
  pub trigger_field : Text
  pub reason : UnprovenReason

-- unassertedClearRoute
abbrev pub is_unasserted : ClearRoute → Bool
is_unasserted ClearRoute.sibling_clear = true
is_unasserted ClearRoute.sibling_with_values = true
is_unasserted ClearRoute.ancestor_tombstone = true
is_unasserted _ = false

abbrev pub is_ancestor_of : Text → Text → Bool
is_ancestor_of ancestor leaf = has_prefix leaf (ancestor ++ text ".")

abbrev pub has_empty_list : Option Value → Bool
has_empty_list none = false
has_empty_list (some v) = is_empty_list v

-- The body of triggerFieldFor's loop: whether the test sends the clear.
abbrev pub triggers : Text → ClearRoute → UpdateTest → Bool
triggers rep ClearRoute.sibling_clear t = any (λ c. c == rep || is_ancestor_of c rep) t.clear
triggers rep ClearRoute.ancestor_tombstone t = any (λ c. c == rep || is_ancestor_of c rep) t.clear
triggers rep ClearRoute.sibling_with_values t = has_empty_list (lookup rep t.with_values)
triggers rep _ t = false

unfoldable pub trigger_field_for : Text → ClearRoute → List UpdateTest → Option Text
unfolding has_prefix lookup
trigger_field_for rep route [] = none
trigger_field_for rep route (t ∷ ts) =
    if triggers rep route t then some t.field else trigger_field_for rep route ts

abbrev pub Pending : Type 0
Pending = List (Text × List PendingClear)

abbrev pub pending_of : Option (List PendingClear) → List PendingClear
pending_of none = []
pending_of (some l) = l

-- out[trigger] = append(out[trigger], item)
unfoldable pub add_pending : Text → PendingClear → Pending → Pending
unfolding lookup insert
add_pending trigger item p = insert trigger (pending_of (lookup trigger p) ++ item ∷ []) p

abbrev pub no_trigger_credit : Text → ClearRoute → UnprovenClearCredit
no_trigger_credit rep route = record {
  representative = rep;
  route = route;
  trigger_field = [];
  reason = UnprovenReason.no_trigger;
}

pub record Credits : Type 0 where
  pub pending : Pending
  pub unresolved : List UnprovenClearCredit

-- A covered report along a route that no test of the run asserts by itself.
abbrev pub owed_route : ClearCellReport → Option ClearRoute
owed_route r = elim r.route [
  | none ↦ none
  | some route ↦ if r.covered && is_unasserted route then some route else none
]

-- The report's credit waits for its trigger, or is unproven for want of one.
abbrev pub add_credit : Text → ClearRoute → Option Text → Credits → Credits
add_credit rep route none c = record c {
  unresolved = c.unresolved ++ no_trigger_credit rep route ∷ [];
}
add_credit rep route (some trigger) c = record c {
  pending = add_pending trigger (record { representative = rep; route = route }) c.pending;
}

abbrev pub add_owed : List UpdateTest → Text → Option ClearRoute → Credits → Credits
add_owed tests rep none c = c
add_owed tests rep (some route) c = add_credit rep route (trigger_field_for rep route tests) c

abbrev pub add_report : List UpdateTest → ClearCellReport → Credits → Credits
add_report tests r c = add_owed tests r.representative (owed_route r) c

-- unobservedClearCredits
unfoldable pub unobserved_from : List UpdateTest → Credits → List ClearCellReport → Credits
unobserved_from tests c [] = c
unobserved_from tests c (r ∷ rs) = unobserved_from tests (add_report tests r c) rs

abbrev pub unobserved_clear_credits : List ClearCellReport → List UpdateTest → Credits
unobserved_clear_credits reports tests =
    unobserved_from tests (record { pending = []; unresolved = [] }) reports

abbrev pub is_cleared_value : Text → Bool
is_cleared_value s = is_empty s || (s == text "[]" || s == text "{}")

pub record ClearChecked : Type 0 where
  pub found : List ClearAssertion
  pub failure : Option Failure

module _ (codec : Codec) where
  abbrev pub check_item : Text → Text → PendingClear → ClearChecked → ClearChecked
  check_item after snapshot item c = elim (read_snapshot_field codec snapshot item.representative) [
    | err e ↦ record c { failure = first_error c.failure (Failure.reading item.representative) }
    | ok v ↦ if is_cleared_value (text_or_empty v) then c else record c {
      found =
          c.found
          ++ record {
            representative = item.representative;
            route = item.route;
            trigger_field = after;
            observed = text_or_empty v;
          }
            ∷ [];
    }
  ]

  unfoldable pub check_items : Text → Text → List PendingClear → ClearChecked → ClearChecked
  check_items after snapshot [] c = c
  check_items after snapshot (item ∷ items) c =
      check_items after snapshot items (check_item after snapshot item c)

  abbrev pub check_clear_assertions : Text → Pending → Text → ClearChecked
  check_clear_assertions snapshot p after =
      check_items after snapshot (pending_of (lookup after p))
        (record { found = []; failure = none })
