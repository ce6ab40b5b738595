-- ===== src/Runner/Values/Patching.antt =====
-- What the merge patch of a test holds at each path.
use mathlib.Core.Path.{subst}
use crossplane_update_tester.Base.{
  Text, text, false, List, [], ◌∷◌, Option, none, some, lookup, lookup-insert, lookup-insert_self,
  lookup-insert_ne, insert, split, list_eq, nat_eq, ◌==◌, ==_iff, ==_refl, ◌∙◌, ℕ, contains_byte,
  In, ok, then_do-ok, ok_eq, All-In, ◌≡◌, ◌≢◌, refl, sym, ap, inl, inr, arith, Bool-cases,
  Option-cases,
}
use crossplane_update_tester.Value.{Value, null}
use crossplane_update_tester.Json.{object, fields-to_fields}
use crossplane_update_tester.Manifest.Entries.{validate_clear, validate_with_values}
use crossplane_update_tester.Manifest.Entries.Siblings.{
  IsTopLevel, IsSibling, validate_clear_iff, validate_with_values_iff,
}
use crossplane_update_tester.Runner.Values.{
  nest, clear_all, set_all, descend, navigate_json_path, with_siblings, patch_of, merge_patch,
  navigate_spec_for_provider,
}
use crossplane_update_tester.Runner.Values.Navigation.{At, navigate_json_path_iff}

-- The value of a field that the patch names, in the order of the code's writes.
abbrev pub or_else : Option Value → Option Value → Option Value
or_else none d = d
or_else (some v) d = some v

lookup-set_all :
    (k : Text) (r m : List (Text × Value))
    → lookup k (set_all r m) ≡ or_else (lookup k r) (lookup k m)
unfolding set_all lookup
lookup-set_all k [] m = refl
lookup-set_all k ((j, v) ∷ r) m = elim (Bool-cases (j == k)) [
  | inl t ↦ rw (lookup-insert j k v (set_all r m), t) refl
  | inr f ↦ rw (lookup-insert j k v (set_all r m), f) (lookup-set_all k r m)
]

lookup-clear_all_other :
    (k : Text) (cs : List Text) (m : List (Text × Value))
    → ¬ In k cs
    → lookup k (clear_all cs m) ≡ lookup k m
unfolding clear_all
lookup-clear_all_other k [] m h = refl
lookup-clear_all_other k (c ∷ cs) m h =
    lookup-clear_all_other k cs (insert c null m) (λ i. h (inr i))
    ∙ lookup-insert_ne c k null m (λ e. h (inl (sym e)))

lookup-clear_all_kept :
    (k : Text) (cs : List Text) (m : List (Text × Value))
    → lookup k m ≡ some null
    → lookup k (clear_all cs m) ≡ some null
unfolding clear_all
lookup-clear_all_kept k [] m h = h
lookup-clear_all_kept k (c ∷ cs) m h =
    lookup-clear_all_kept k cs (insert c null m) (ground (arith, lookup-insert c k null m, h))

lookup-clear_all :
    (k : Text) (cs : List Text) (m : List (Text × Value))
    → In k cs
    → lookup k (clear_all cs m) ≡ some null
unfolding clear_all
lookup-clear_all k [] m h = absurd h
lookup-clear_all k (c ∷ cs) m (inl e) =
    lookup-clear_all_kept k cs (insert c null m) (rw e (lookup-insert_self c null m))
lookup-clear_all k (c ∷ cs) m (inr h) = lookup-clear_all k cs (insert c null m) h

nest-At : (ks : List Text) (v : Value) → At (nest ks v) ks v
unfolding nest lookup
nest-At [] v = At.here
nest-At (k ∷ ks) v = At.below refl (rw (==_refl k) refl) (nest-At ks v)

split-top : (b : ℕ) (s : Text) → contains_byte b s ≡ false → split b s ≡ s ∷ []
unfolding split contains_byte
split-top b [] h = refl
split-top b (c ∷ s) h = elim (Bool-cases (c == b)) [
  | inl t ↦ cc (t, h)
  | inr f ↦ rw (f, split-top b s (rw f at h)) refl
]

lookup-In :
    (k : Text) (m : List (Text × Value)) {w : Value}
    → lookup k m ≡ some w
    → (e : Text × Value) × In e m × (e.0 ≡ k)
unfolding lookup
lookup-In k [] h = cc
lookup-In k ((j, v) ∷ m) h = elim (Bool-cases (j == k)) [
  | inl t ↦ ((j, v), inl refl, (==_iff j k).0 t)
  | inr f ↦ let (e, i, p) = lookup-In k m (rw f at h) in (e, inr i, p)
]

-- What the two validations leave of the siblings.
IsSibling-of_value :
    (path : Text) (cl : List Text) (wv : List (Text × Value)) (k : Text) {w : Value}
    → validate_with_values path wv cl ≡ none
    → lookup k wv ≡ some w
    → IsTopLevel path × IsSibling path cl k
IsSibling-of_value path cl wv k h l = elim ((validate_with_values_iff path wv cl).0 h) [
  | inl e ↦ let (i, j, p) = lookup-In k wv l in absurd (subst (In i) e j)
  | inr s ↦ let (i, j, p) = lookup-In k wv l in (s.0, subst (IsSibling path cl) p (s.1 i j))
]

clear-IsTopLevel :
    (path : Text) (cl : List Text) (k : Text)
    → validate_clear path cl ≡ none
    → In k cl
    → IsTopLevel path × IsTopLevel k × (k ≢ path)
clear-IsTopLevel path cl k h i = elim ((validate_clear_iff path cl).0 h) [
  | inl e ↦ absurd (subst (In k) e i)
  | inr s ↦ let p = All-In (λ c. IsTopLevel c × (c ≢ path)) cl s.1 i in (s.0, p.0, p.1)
]

-- The patched map: the siblings are written over the nested value.
abbrev written : List Text → List (Text × Value) → Text → Value → List (Text × Value)
written cl wv head inner = set_all wv (clear_all cl ((head, inner) ∷ []))

with_siblings-written :
    (path head : Text) (inner q : Value) (cl : List Text) (wv : List (Text × Value))
    → with_siblings path (object ((head, inner) ∷ [])) cl wv ≡ ok q
    → q ≡ object (written cl wv head inner)
unfolding set_all clear_all
with_siblings-written path head inner q [] [] h = sym (ok_eq h)
with_siblings-written path head inner q [] (e ∷ wv) h = sym (ok_eq h)
with_siblings-written path head inner q (c ∷ cl) wv h = sym (ok_eq h)

-- A name of the top level is looked up in the patched map itself.
navigate-patch_of :
    (k : Text) (m : List (Text × Value))
    → IsTopLevel k
    → navigate_spec_for_provider (patch_of (object m)) k ≡ ok (lookup k m)
unfolding navigate_json_path descend lookup
navigate-patch_of k m top = elim (Option-cases (lookup k m)) [
  | inl n ↦ rw (split-top b'.' k top, descend, fields-to_fields m, n) refl
  | inr (v, e) ↦ rw (split-top b'.' k top, descend, fields-to_fields m, e) refl
]

-- The steps of a patch that is built.
merge_patch-ok :
    (path : Text) (v q : Value) (cl : List Text) (wv : List (Text × Value))
    → merge_patch path v cl wv ≡ ok q
    → (validate_clear path cl ≡ none)
      × (validate_with_values path wv cl ≡ none)
      × ((inner : Value) × (with_siblings path (nest (split b'.' path) v) cl wv ≡ ok inner)
          × (patch_of inner ≡ q))
unfolding merge_patch
merge_patch-ok path v q cl wv h = elim (Option-cases (validate_clear path cl)) [
  | inr (e, p) ↦ cc (p, h)
  | inl p ↦ elim (Option-cases (validate_with_values path wv cl)) [
    | inr (e, r) ↦ cc (p, r, h)
    | inl r ↦
        let (inner, a, b) =
          then_do-ok (with_siblings path (nest (split b'.' path) v) cl wv)
            (λ (i : Value). ok (patch_of i)) (rw (p, r) at h) in
        (p, r, (inner, a, ok_eq b))
  ]
]

-- With a sibling to clear or to set, the field and the siblings are names of the top level.
merge_patch-top :
    (path : Text) (v q : Value) (cl : List Text) (wv : List (Text × Value)) (k : Text)
    → merge_patch path v cl wv ≡ ok q
    → IsTopLevel path
    → IsTopLevel k
    → navigate_spec_for_provider q k ≡ ok (lookup k (written cl wv path v))
unfolding nest
merge_patch-top path v q cl wv k h p t =
    let (e, f, (inner, g, i)) = merge_patch-ok path v q cl wv h in
    let j : inner ≡ object (written cl wv path v) =
      with_siblings-written path path v inner cl wv (rw (split-top b'.' path p, nest) at g) in
    rw (sym i, j) (navigate-patch_of k (written cl wv path v) t)

written-field :
    (path : Text) (v : Value) (cl : List Text) (wv : List (Text × Value))
    → validate_clear path cl ≡ none
    → validate_with_values path wv cl ≡ none
    → lookup path (written cl wv path v) ≡ some v
unfolding lookup
written-field path v cl wv a b =
    lookup-set_all path wv (clear_all cl ((path, v) ∷ [])) ∙ (elim (Option-cases (lookup path wv)) [
      | inr (w, e) ↦
          let (t, (s, ne, out)) = IsSibling-of_value path cl wv path b e in absurd (ne refl)
      | inl n ↦ rw n (
          lookup-clear_all_other path cl ((path, v) ∷ [])
            (λ i. let (t, u, ne) = clear-IsTopLevel path cl path a i in ne refl)
          ∙ rw (==_refl path) refl)
    ])

-- The patch that a test sends sets its field to the value, whatever the path of the field.
merge_patch-field :
    (path : Text) (v q : Value) (cl : List Text) (wv : List (Text × Value))
    → merge_patch path v cl wv ≡ ok q
    → navigate_spec_for_provider q path ≡ ok (some v)
unfolding lookup
merge_patch-field path v q cl wv h =
    let (a, b, (inner, g, i)) = merge_patch-ok path v q cl wv h in
    elim (Bool-cases (contains_byte b'.' path)) [
      | inr top ↦
          merge_patch-top path v q cl wv path h top top ∙ ap ok (written-field path v cl wv a b)
      | inl dotted ↦
          let no_clear : cl ≡ [] = elim ((validate_clear_iff path cl).0 a) [
            | inl e ↦ e
            | inr s ↦ cc (s.0, dotted)
          ] in
          let no_values : wv ≡ [] = elim ((validate_with_values_iff path wv cl).0 b) [
            | inl e ↦ e
            | inr s ↦ cc (s.0, dotted)
          ] in
          let plain : nest (split b'.' path) v ≡ inner = ok_eq (rw (no_clear, no_values) at g) in
          (navigate_json_path_iff q (text "spec" ∷ text "forProvider" ∷ []) path v).1 (
            rw (sym i, sym plain)
              (At.below refl refl (At.below refl refl (nest-At (split b'.' path) v))))
    ]

-- A test whose patch is built reads back, at spec.forProvider of the patch: its value at the path of
-- its field, whatever the path; null at each field of clear:; and at each key of withValues: the
-- value given there. A further name of the top level is not in the patch, when the test has a field
-- of the top level.
pub merge_patch-navigate_spec_for_provider :
    (path : Text) (v q : Value) (cl : List Text) (wv : List (Text × Value))
    → merge_patch path v cl wv ≡ ok q
    → (navigate_spec_for_provider q path ≡ ok (some v))
      × ((k : Text) → In k cl → navigate_spec_for_provider q k ≡ ok (some null))
      × ((k : Text) (w : Value)
          → lookup k wv ≡ some w
          → navigate_spec_for_provider q k ≡ ok (some w))
      × ((k : Text)
          → IsTopLevel path
          → IsTopLevel k
          → k ≢ path
          → ¬ In k cl
          → lookup k wv ≡ none
          → navigate_spec_for_provider q k ≡ ok none)
unfolding lookup
merge_patch-navigate_spec_for_provider path v q cl wv h =
    let (a, b, c) = merge_patch-ok path v q cl wv h in
    (
      merge_patch-field path v q cl wv h,
      λ k i.
          let (top, t, ne) = clear-IsTopLevel path cl k a i in
          merge_patch-top path v q cl wv k h top t
          ∙ ap ok (
              lookup-set_all k wv (clear_all cl ((path, v) ∷ []))
              ∙ (elim (Option-cases (lookup k wv)) [
                | inr (w, e) ↦
                    let (p, (s, d, out)) = IsSibling-of_value path cl wv k b e in absurd (out i)
                | inl n ↦ rw n (lookup-clear_all k cl ((path, v) ∷ []) i)
              ])),
      λ k w e.
          let (top, (t, ne, out)) = IsSibling-of_value path cl wv k b e in
          merge_patch-top path v q cl wv k h top t
          ∙ ap ok (lookup-set_all k wv (clear_all cl ((path, v) ∷ [])) ∙ rw e refl),
      λ k top t ne out n.
          merge_patch-top path v q cl wv k h top t
          ∙ ap ok (
              lookup-set_all k wv (clear_all cl ((path, v) ∷ []))
              ∙ rw n (
                  lookup-clear_all_other k cl ((path, v) ∷ []) out
                  ∙ ground (arith, ==_iff path k, (λ (e : path ≡ k). ne (sym e))))),
    )
