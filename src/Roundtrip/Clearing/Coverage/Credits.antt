-- ===== src/Roundtrip/Clearing/Coverage/Credits.antt =====
-- The tests that stand behind a leaf's coverage.
use mathlib.Core.Path.{subst}
use crossplane_update_tester.Base.{
  ℕ, zero, suc, ◌-◌, ◌<◌, Text, text, Bool, true, ◌&&◌, List, [], ◌∷◌, ◌++◌, length, Option, none,
  some, some_eq, if◌then◌else◌, ◌==◌, ==_iff, list_eq, nat_eq, elem, elem_iff, lookup,
  lookup-insert, split, split-ne-nil, false, join, join-split, In, In-append_cases, ◌≡◌, ◌⊎◌, inl,
  inr, refl, sym, ap, ◌∙◌, arith, append_assoc, Bool-cases, Option-cases, is_empty,
}
use crossplane_update_tester.Value.{Value}
use crossplane_update_tester.Manifest.{UpdateTest}
use crossplane_update_tester.Roundtrip.Cell.{Shape}
use crossplane_update_tester.Roundtrip.Clearing.{
  ContainerLeaf, ClearRoute, Routes, is_list, is_empty_list, has_nested_null_member,
  self_tombstoned, add_test, routes_from, routes_of, no_routes, empty_list_keys, take,
  ancestor_up_to, cleared_ancestor, is_self_tombstoned, is_some, coverage_for,
}

-- The path stands below the ancestor.
abbrev pub IsBelow : Text → Text → Type 0
IsBelow path ancestor = (rest : Text) × (path ≡ ancestor ++ text "." ++ rest)

-- The test removes the value of the leaf along the route: it names the leaf in clear:, gives it an
-- empty list in withValues:, names an ancestor in clear:, nulls a member of the leaf, or removes the
-- leaf as its own field.
pub data Removes (t : UpdateTest) (leaf : ContainerLeaf) : ClearRoute → Type 0 where
  by_clear : In leaf.path t.clear → Removes t leaf ClearRoute.sibling_clear
  by_with_values :
      (v : Value)
      → leaf.shape ≡ Shape.list
      → In (leaf.path, v) t.with_values
      → is_empty_list v ≡ true
      → Removes t leaf ClearRoute.sibling_with_values
  by_ancestor :
      (ancestor : Text)
      → In ancestor t.clear
      → IsBelow leaf.path ancestor
      → Removes t leaf ClearRoute.ancestor_tombstone
  by_member :
      t.field ≡ leaf.path
      → has_nested_null_member t.value ≡ true
      → Removes t leaf ClearRoute.per_key_null
  by_itself :
      t.field ≡ leaf.path
      → self_tombstoned t leaf.shape ≡ true
      → Removes t leaf ClearRoute.self_tombstone

-- A fact that one of the tests shows, or that was there before them.
abbrev Shown : (UpdateTest → Type 0) → List UpdateTest → Type 0
Shown P ts = (t : UpdateTest) × In t ts × P t

later :
    (P : UpdateTest → Type 0) (t : UpdateTest) (ts : List UpdateTest)
    → Shown P ts
    → Shown P (t ∷ ts)
later P t ts (u, i, p) = (u, inr i, p)

cleared_from :
    (p : Text) (r : Routes) (ts : List UpdateTest)
    → In p (routes_from r ts).cleared_siblings
    → In p r.cleared_siblings ⊎ Shown (λ t. In p t.clear) ts
unfolding routes_from
cleared_from p r [] h = inl h
cleared_from p r (t ∷ ts) h = elim (cleared_from p (add_test t r) ts h) [
  | inr s ↦ inr (later (λ u. In p u.clear) t ts s)
  | inl i ↦ elim (In-append_cases p t.clear r.cleared_siblings i) [
    | inl j ↦ inr (t, inl refl, j)
    | inr j ↦ inl j
  ]
]

abbrev GivesEmptyList : Text → UpdateTest → Type 0
GivesEmptyList p t = (v : Value) × In (p, v) t.with_values × (is_empty_list v ≡ true)

In-empty_list_keys :
    (p : Text) (m : List (Text × Value))
    → In p (empty_list_keys m)
    → (v : Value) × In (p, v) m × (is_empty_list v ≡ true)
In-empty_list_keys p [] h = absurd h
In-empty_list_keys p ((k, v) ∷ m) h = elim (Bool-cases (is_empty_list v)) [
  | inl t ↦ elim (subst (λ b. In p (if b then k ∷ empty_list_keys m else empty_list_keys m)) t h) [
    | inl e ↦ (v, inl (ap (λ q. (q, v)) e), t)
    | inr i ↦ let (w, j, s) = In-empty_list_keys p m i in (w, inr j, s)
  ]
  | inr f ↦
      let (w, j, s) =
        In-empty_list_keys p m
          (subst (λ b. In p (if b then k ∷ empty_list_keys m else empty_list_keys m)) f h) in
      (w, inr j, s)
]

empty_lists_from :
    (p : Text) (r : Routes) (ts : List UpdateTest)
    → In p (routes_from r ts).with_values_empty_list
    → In p r.with_values_empty_list ⊎ Shown (GivesEmptyList p) ts
unfolding routes_from
empty_lists_from p r [] h = inl h
empty_lists_from p r (t ∷ ts) h = elim (empty_lists_from p (add_test t r) ts h) [
  | inr s ↦ inr (later (GivesEmptyList p) t ts s)
  | inl i ↦ elim (In-append_cases p (empty_list_keys t.with_values) r.with_values_empty_list i) [
    | inl j ↦ inr (t, inl refl, In-empty_list_keys p t.with_values j)
    | inr j ↦ inl j
  ]
]

abbrev NullsMember : Text → UpdateTest → Type 0
NullsMember p t = (t.field ≡ p) × (has_nested_null_member t.value ≡ true)

In-per_key_nulled :
    (p : Text) (t : UpdateTest) (r : Routes)
    → In p (add_test t r).per_key_nulled
    → In p r.per_key_nulled ⊎ NullsMember p t
In-per_key_nulled p t r h = elim (Bool-cases (has_nested_null_member t.value)) [
  | inr f ↦ inl (subst (λ b. In p (if b then t.field ∷ r.per_key_nulled else r.per_key_nulled)) f h)
  | inl y ↦
      elim (subst (λ b. In p (if b then t.field ∷ r.per_key_nulled else r.per_key_nulled)) y h) [
        | inl e ↦ inr (sym e, y)
        | inr i ↦ inl i
      ]
]

nulled_from :
    (p : Text) (r : Routes) (ts : List UpdateTest)
    → In p (routes_from r ts).per_key_nulled
    → In p r.per_key_nulled ⊎ Shown (NullsMember p) ts
unfolding routes_from
nulled_from p r [] h = inl h
nulled_from p r (t ∷ ts) h = elim (nulled_from p (add_test t r) ts h) [
  | inr s ↦ inr (later (NullsMember p) t ts s)
  | inl i ↦ elim (In-per_key_nulled p t r i) [ inl j ↦ inl j | inr n ↦ inr (t, inl refl, n) ]
]

abbrev IsEntryOf : Text → UpdateTest → UpdateTest → Type 0
IsEntryOf p u t = (t ≡ u) × (t.field ≡ p)

self_from :
    (p : Text) (u : UpdateTest) (r : Routes) (ts : List UpdateTest)
    → lookup p (routes_from r ts).self_by_field ≡ some u
    → (lookup p r.self_by_field ≡ some u) ⊎ Shown (IsEntryOf p u) ts
unfolding routes_from
self_from p u r [] h = inl h
self_from p u r (t ∷ ts) h = elim (self_from p u (add_test t r) ts h) [
  | inr s ↦ inr (later (IsEntryOf p u) t ts s)
  | inl i ↦ elim (Bool-cases (t.field == p)) [
    | inl y ↦ inr (
      t,
      inl refl,
      (some_eq (cc (lookup-insert t.field p t r.self_by_field, y, i)), (==_iff t.field p).0 y),
    )
    | inr f ↦ inl (cc (lookup-insert t.field p t r.self_by_field, f, i))
  ]
]

-- The segments after the first `i`.
abbrev after : ℕ → List Text → List Text
after zero xs = xs
after (suc n) [] = []
after (suc n) (x ∷ xs) = after n xs

join-take :
    (i : ℕ) (xs : List Text)
    → suc i < length xs
    → join (text ".") xs
      ≡ join (text ".") (take (suc i) xs) ++ text "." ++ join (text ".") (after (suc i) xs)
unfolding join
join-take i [] h = absurd (omega arith)
join-take i (x ∷ []) h = absurd (omega arith)
join-take zero (x ∷ y ∷ xs) h = sym (append_assoc x (text ".") (join (text ".") (y ∷ xs)))
join-take (suc i) (x ∷ y ∷ xs) h =
    ap (λ s. x ++ (text "." ++ s)) (join-take i (y ∷ xs) (omega arith)) ∙ simp append_assoc

ancestor_up_to-IsBelow :
    (cleared segments : List Text) (i : ℕ) {a : Text}
    → i < length segments
    → ancestor_up_to cleared segments i ≡ some a
    → In a cleared × IsBelow (join (text ".") segments) a
unfolding ancestor_up_to
ancestor_up_to-IsBelow cleared segments zero l h = cc
ancestor_up_to-IsBelow cleared segments (suc i) {a} l h =
    let candidate = join (text ".") (take (suc i) segments) in
    elim (Bool-cases (elem candidate cleared)) [
      | inl y ↦
          let e : candidate ≡ a = some_eq (rw y at h) in
          (
            subst (λ c. In c cleared) e ((elem_iff candidate cleared).0 y),
            (
              join (text ".") (after (suc i) segments),
              subst
                  (λ c.
                    join (text ".") segments
                    ≡ c ++ text "." ++ join (text ".") (after (suc i) segments))
                  e (join-take i segments l),
            ),
          )
      | inr n ↦ ancestor_up_to-IsBelow cleared segments i (omega arith) (rw n at h)
    ]

-- An ancestor that clearedAncestor finds is one of the cleared names, and the leaf is below it.
pub cleared_ancestor-IsBelow :
    (path : Text) (cleared : List Text) {a : Text}
    → cleared_ancestor path cleared ≡ some a
    → In a cleared × IsBelow path a
unfolding cleared_ancestor
cleared_ancestor-IsBelow path cleared {a} h =
    let (i, b) =
      ancestor_up_to-IsBelow cleared (split b'.' path) (length (split b'.' path) - 1)
        (segments_remain (split b'.' path) (split-ne-nil b'.' path)) h in
    (i, subst (λ s. IsBelow s a) (join-split b'.' path) b)
  where
    segments_remain : (xs : List Text) → is_empty xs ≡ false → length xs - 1 < length xs
    segments_remain [] e = cc
    segments_remain (x ∷ xs) e = omega arith

-- What each of the five cases shows, without the routes.
unproved : {A : Type 0} → ⊥ ⊎ A → A
unproved (inl h) = absurd h
unproved (inr s) = s

is_list-Shape : (s : Shape) → is_list s ≡ true → s ≡ Shape.list
is_list-Shape Shape.scalar h = cc
is_list-Shape Shape.list h = refl
is_list-Shape Shape.map_shape h = cc

no_entry : (p : Text) {u : UpdateTest} → lookup p no_routes.self_by_field ≡ some u → ⊥
unfolding lookup
no_entry p h = cc

by_itself_shown :
    (tests : List UpdateTest) (leaf : ContainerLeaf)
    → is_self_tombstoned (lookup leaf.path (routes_of tests).self_by_field) leaf.shape ≡ true
    → Shown (λ t. Removes t leaf ClearRoute.self_tombstone) tests
by_itself_shown tests leaf h =
    elim (Option-cases (lookup leaf.path (routes_of tests).self_by_field)) [
      | inl n ↦ cc (n, h)
      | inr (u, e) ↦ elim (self_from leaf.path u no_routes tests e) [
        | inl n ↦ absurd (no_entry leaf.path n)
        | inr (t, i, s) ↦ (t, i, Removes.by_itself s.1 (rw (s.0) (rw e at h)))
      ]
    ]

by_with_values_shown :
    (tests : List UpdateTest) (leaf : ContainerLeaf)
    → is_list leaf.shape ≡ true
    → elem leaf.path (routes_of tests).with_values_empty_list ≡ true
    → Shown (λ t. Removes t leaf ClearRoute.sibling_with_values) tests
by_with_values_shown tests leaf l h =
    let (t, i, (v, j, e)) =
      unproved (empty_lists_from leaf.path no_routes tests ((elem_iff _ _).0 h)) in
    (t, i, Removes.by_with_values v (is_list-Shape leaf.shape l) j e)

by_ancestor_shown :
    (tests : List UpdateTest) (leaf : ContainerLeaf) (a : Text)
    → cleared_ancestor leaf.path (routes_of tests).cleared_siblings ≡ some a
    → Shown (λ t. Removes t leaf ClearRoute.ancestor_tombstone) tests
by_ancestor_shown tests leaf a h =
    let (c, below) = cleared_ancestor-IsBelow leaf.path (routes_of tests).cleared_siblings h in
    let (t, i, d) = unproved (cleared_from a no_routes tests c) in
    (t, i, Removes.by_ancestor a d below)

by_clear_shown :
    (tests : List UpdateTest) (leaf : ContainerLeaf)
    → elem leaf.path (routes_of tests).cleared_siblings ≡ true
    → Shown (λ t. Removes t leaf ClearRoute.sibling_clear) tests
by_clear_shown tests leaf h =
    let (t, i, c) = unproved (cleared_from leaf.path no_routes tests ((elem_iff _ _).0 h)) in
    (t, i, Removes.by_clear c)

by_member_shown :
    (tests : List UpdateTest) (leaf : ContainerLeaf)
    → elem leaf.path (routes_of tests).per_key_nulled ≡ true
    → Shown (λ t. Removes t leaf ClearRoute.per_key_null) tests
by_member_shown tests leaf h =
    let (t, i, n) = unproved (nulled_from leaf.path no_routes tests ((elem_iff _ _).0 h)) in
    (t, i, Removes.by_member n.0 n.1)

abbrev RemovedBy : List UpdateTest → ContainerLeaf → ClearRoute → Type 0
RemovedBy tests leaf route = Shown (λ t. Removes t leaf route) tests

-- One test in the chain of coverageFor.
removed_first :
    (tests : List UpdateTest) (leaf : ContainerLeaf) (test : Bool) (first : ClearRoute)
    (rest : Option ClearRoute) {route : ClearRoute}
    → (test ≡ true → RemovedBy tests leaf first)
    → (rest ≡ some route → RemovedBy tests leaf route)
    → (if test then some first else rest) ≡ some route
    → RemovedBy tests leaf route
removed_first tests leaf true first rest p q h = subst (RemovedBy tests leaf) (some_eq h) (p refl)
removed_first tests leaf false first rest p q h = q h

both_true : (a b : Bool) → a && b ≡ true → (a ≡ true) × (b ≡ true)
both_true true b h = (refl, h)
both_true false b h = cc

some_value : {A : Type 0} (o : Option A) → is_some o ≡ true → (a : A) × (o ≡ some a)
some_value none h = cc
some_value (some a) h = (a, refl)

-- Every leaf that coverageFor credits along a route has a test of the manifest that removes its
-- value along that very route.
pub coverage_for-Removes :
    (tests : List UpdateTest) (leaf : ContainerLeaf) {route : ClearRoute}
    → coverage_for (routes_of tests) leaf ≡ some route
    → (t : UpdateTest) × In t tests × Removes t leaf route
unfolding coverage_for
coverage_for-Removes tests leaf {route} h =
    removed_first tests leaf _ _ _ (by_clear_shown tests leaf)
      (removed_first tests leaf _ _ _
        (λ b. let (l, e) = both_true _ _ b in by_with_values_shown tests leaf l e)
        (removed_first tests leaf _ _ _
          (λ b. let (a, e) = some_value _ b in by_ancestor_shown tests leaf a e)
          (removed_first tests leaf _ _ _ (by_member_shown tests leaf)
            (removed_first tests leaf _ _ _ (by_itself_shown tests leaf) (λ e. cc)))))
      h
