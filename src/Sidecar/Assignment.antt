-- ===== src/Sidecar/Assignment.antt =====
-- What Resolve assigns to the targets, over all the documents of a file.
use mathlib.Core.Path.{subst}
use crossplane_update_tester.Base.{
  ℕ, Text, List, [], ◌∷◌, Option, none, some, list_eq, nat_eq, Result, ok, then_do-ok, ok_eq, All,
  lookup, insert, lookup-insert, lookup-insert_self, lookup-insert_ne, ◌≡◌, ◌≢◌, refl, ap, sym, ◌∙◌,
  arith,
}
use crossplane_update_tester.Sidecar.{
  ObjectId, Doc, File, ConflictError, resolve_one, merge_into, or_empty, unclaimed, resolve_docs,
  resolve,
}

abbrev pub Assigned : Type 0
Assigned = List (ℕ × List (Text × Text))

-- The value of an annotation that target `i` is given.
abbrev pub annotation_at : ℕ → Text → Assigned → Option Text
annotation_at i k out = lookup k (or_empty (lookup i out))

abbrev pub first_of : Option Text → Option Text → Option Text
first_of (some v) o = some v
first_of none o = o

pub lookup-merge_into :
    (k : Text) (m into : List (Text × Text))
    → lookup k (merge_into m into) ≡ first_of (lookup k m) (lookup k into)
unfolding merge_into lookup
lookup-merge_into k [] into = refl
lookup-merge_into k ((j, v) ∷ m) into =
    ground (arith, lookup-insert j k v (merge_into m into), lookup-merge_into k m into)

lookup-merge_into_empty :
    (k : Text) (m : List (Text × Text)) → lookup k (merge_into m []) ≡ lookup k m
unfolding lookup
lookup-merge_into_empty k m = lookup-merge_into k m [] ∙ alone (lookup k m)
  where
    alone : (o : Option Text) → first_of o (lookup k []) ≡ o
    alone none = refl
    alone (some v) = refl

unclaimed-ok :
    {A : Type 0} (o : Option Doc) (f : Doc → ConflictError) (r : Result ConflictError A) {a : A}
    → unclaimed o f r ≡ ok a
    → (o ≡ none) × (r ≡ ok a)
unclaimed-ok none f r h = (refl, h)
unclaimed-ok (some p) f r h = cc

module _ (targets : List ObjectId) where
  -- Each document resolves, to a target that no later document resolves to, and that target has the
  -- annotations of the document and no other.
  abbrev pub IsAssigned : Assigned → List Doc → Type 0
  IsAssigned out [] = Unit
  IsAssigned out (d ∷ ds) =
      ((i : ℕ) × (resolve_one d targets ≡ ok i)
        × All (λ e. resolve_one e targets ≢ ok i) ds
        × ((k : Text) → annotation_at i k out ≡ lookup k d.annotations))
      × IsAssigned out ds

  -- What the rest of the loop does to the targets that are claimed, and to those nobody claims.
  record Rest (claimed : List (ℕ × Doc)) (before after : Assigned) (ds : List Doc) : Type 0 where
    assigned : IsAssigned after ds
    fresh :
        (i : ℕ) (d : Doc) → lookup i claimed ≡ some d → All (λ e. resolve_one e targets ≢ ok i) ds
    kept : (i : ℕ) (d : Doc) → lookup i claimed ≡ some d → lookup i after ≡ lookup i before
    absent :
        (i : ℕ)
        → lookup i before ≡ none
        → All (λ e. resolve_one e targets ≢ ok i) ds
        → lookup i after ≡ none

  abbrev AreClaimed : List (ℕ × Doc) → Assigned → Type 0
  AreClaimed claimed out = (i : ℕ) → lookup i claimed ≡ none → lookup i out ≡ none

  AreClaimed-insert :
      (claimed : List (ℕ × Doc)) (out : Assigned) (i : ℕ) (d : Doc) (m : List (Text × Text))
      → AreClaimed claimed out
      → AreClaimed (insert i d claimed) (insert i m out)
  AreClaimed-insert claimed out i d m h j =
      ground (arith, lookup-insert i j d claimed, lookup-insert i j m out, h j)

  resolve_docs-step :
      (claimed : List (ℕ × Doc)) (before : Assigned) (d : Doc) (ds : List Doc) {after : Assigned}
      → resolve_docs targets claimed before (d ∷ ds) ≡ ok after
      → (i : ℕ) × (resolve_one d targets ≡ ok i)
        × (lookup i claimed ≡ none)
        × (resolve_docs targets
              (insert i d claimed)
              (insert i (merge_into d.annotations (or_empty (lookup i before))) before)
              ds
            ≡ ok after)
  unfolding resolve_docs
  resolve_docs-step claimed before d ds h =
      let (i, one, h₁) = then_do-ok (resolve_one d targets) _ h in
      let (free, h₂) = unclaimed-ok (lookup i claimed) _ _ h₁ in (i, one, free, h₂)

  module _ (claimed : List (ℕ × Doc)) (before after : Assigned) (d : Doc) (ds : List Doc) (i : ℕ)
      (c : AreClaimed claimed before) (one : resolve_one d targets ≡ ok i)
      (free : lookup i claimed ≡ none) where
    abbrev entry : List (Text × Text)
    entry = merge_into d.annotations (or_empty (lookup i before))

    other : (j : ℕ) (e : Doc) → lookup j claimed ≡ some e → i ≢ j
    other j e l q = let l' = subst (λ k. lookup k claimed ≡ none) q free in cc

    Rest-cons :
        Rest (insert i d claimed) (insert i entry before) after ds
        → Rest claimed before after (d ∷ ds)
    Rest-cons r = record {
      assigned = (
        (
          i,
          one,
          r.fresh i d (lookup-insert_self i d claimed),
          λ k.
              ap (λ o. lookup k (or_empty o))
                (r.kept i d (lookup-insert_self i d claimed) ∙ lookup-insert_self i entry before)
              ∙ ap (λ o. lookup k (merge_into d.annotations (or_empty o))) (c i free)
              ∙ lookup-merge_into_empty k d.annotations,
        ),
        r.assigned,
      );
      fresh = λ j e l. (
        (λ q. other j e l (ok_eq (sym one ∙ q))),
        r.fresh j e (lookup-insert_ne i j d claimed (other j e l) ∙ l),
      );
      kept = λ j e l.
          r.kept j e (lookup-insert_ne i j d claimed (other j e l) ∙ l)
          ∙ lookup-insert_ne i j entry before (other j e l);
      absent = λ j l a.
          r.absent j (lookup-insert_ne i j entry before (λ q. a.0 (one ∙ ap ok q)) ∙ l) a.1;
    }

  resolve_docs-Rest :
      (ds : List Doc) (claimed : List (ℕ × Doc)) (before after : Assigned)
      → AreClaimed claimed before
      → resolve_docs targets claimed before ds ≡ ok after
      → Rest claimed before after ds
  unfolding resolve_docs
  resolve_docs-Rest [] claimed before after c h = record {
    assigned = tt;
    fresh = λ i d l. tt;
    kept = λ i d l. ap (lookup i) (sym (ok_eq h));
    absent = λ i l a. ap (lookup i) (sym (ok_eq h)) ∙ l;
  }
  resolve_docs-Rest (d ∷ ds) claimed before after c h =
      let (i, one, free, h₁) = resolve_docs-step claimed before d ds h in
      Rest-cons claimed before after d ds i c one free
        (resolve_docs-Rest ds _ _ after (AreClaimed-insert claimed before i d _ c) h₁)

-- Where Resolve succeeds on a file, every document of it resolves to a target, no two of them to the
-- same one, that target gets exactly the annotations of its document, and a target to which no
-- document resolves gets no entry at all.
pub resolve-IsAssigned :
    (f : File) (targets : List ObjectId) (out : Assigned)
    → resolve (some f) targets ≡ ok out
    → IsAssigned targets out f.docs
      × ((i : ℕ) → All (λ d. resolve_one d targets ≢ ok i) f.docs → lookup i out ≡ none)
unfolding resolve lookup
resolve-IsAssigned f targets out h =
    let r = resolve_docs-Rest targets f.docs [] [] out (λ i l. refl) h in
    (r.assigned, λ i a. r.absent i refl a)
