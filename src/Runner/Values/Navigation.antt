-- ===== src/Runner/Values/Navigation.antt =====
-- The navigation of a dotted path against the paths of a value.
use crossplane_update_tester.Base.{
  Text, List, [], ◌∷◌, ◌++◌, some, lookup, split, list_eq, nat_eq, ok, then_do-ok, ◌≡◌, ◌↔◌, refl,
  sym, inl, inr, Option-cases,
}
use crossplane_update_tester.Value.{Value}
use crossplane_update_tester.Json.{as_object}
use crossplane_update_tester.Runner.Values.{Failure, descend, navigate_json_path}

-- The value stands in the other at the end of the keys.
pub data At : Value → List Text → Value → Type 0 where
  here : {v : Value} → At v [] v
  below :
      {v u w : Value} {m : List (Text × Value)} {k : Text} {ks : List Text}
      → as_object v ≡ some m
      → lookup k m ≡ some u
      → At u ks w
      → At v (k ∷ ks) w

pub descend-At :
    (refuse : Text → Failure) (v : Value) (ks : List Text) {w : Value}
    → descend refuse v ks ≡ ok (some w)
    → At v ks w
unfolding descend
descend-At refuse v [] {w} h = let e : v ≡ w = cc in rw (sym e) At.here
descend-At refuse v (k ∷ ks) {w} h = elim (Option-cases (as_object v)) [
  | inl n ↦ cc (n, h)
  | inr (m, e) ↦ elim (Option-cases (lookup k m)) [
    | inl n ↦ cc (e, n, h)
    | inr (u, f) ↦ At.below e f (descend-At refuse u ks (rw (descend, e, f) at h))
  ]
]

pub At-descend :
    (refuse : Text → Failure) {v w : Value} {ks : List Text}
    → At v ks w
    → descend refuse v ks ≡ ok (some w)
unfolding descend
At-descend refuse At.here = refl
At-descend refuse (At.below e f a) = rw (descend, e, f) (At-descend refuse a)

append-At : {v u w : Value} {ks ls : List Text} → At v ks u → At u ls w → At v (ks ++ ls) w
append-At At.here b = b
append-At (At.below e f a) b = At.below e f (append-At a b)

split-At :
    (ks : List Text) {v w : Value} {ls : List Text}
    → At v (ks ++ ls) w
    → (u : Value) × At v ks u × At u ls w
split-At [] {v} a = (v, At.here, a)
split-At (k ∷ ks) (At.below e f a) = let (u, b, c) = split-At ks a in (u, At.below e f b, c)

-- navigateJSONPath returns a value exactly when it stands in the object at the end of the keys of
-- the container and the segments of the path.
pub navigate_json_path_iff :
    (o : Value) (container : List Text) (path : Text) (w : Value)
    → (navigate_json_path o container path ≡ ok (some w)) ↔ At o (container ++ split b'.' path) w
unfolding navigate_json_path
navigate_json_path_iff o container path w = (
  λ h.
      let (c, e, f) = then_do-ok (descend _ o container) _ h in
      elim (Option-cases c) [
        | inl n ↦ cc (n, f)
        | inr (u, g) ↦
            append-At
              (descend-At (λ k. Failure.container_not_object container) o container (cc (e, g)))
              (descend-At Failure.parent_not_object u (split b'.' path) (rw g at f))
      ],
  λ a.
      let (u, b, c) = split-At container a in
      rw (navigate_json_path, At-descend (λ _. Failure.container_not_object container) b)
        (At-descend Failure.parent_not_object c),
)
