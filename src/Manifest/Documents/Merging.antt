-- ===== src/Manifest/Documents/Merging.antt =====
-- What the documents of a manifest become under a sidecar, and which of them is the manifest.
use mathlib.Core.Path.{subst}
use crossplane_update_tester.Base.{
  ℕ, suc, Text, true, false, List, [], ◌∷◌, ◌++◌, is_empty, map, Option, none, some, if◌then◌else◌,
  list_eq, nat_eq, lookup, Result, ok, err, then_do, then_do-ok, ok_eq, ◌≡◌, ◌⊎◌, inl, inr, refl,
  ap, sym, Bool-cases, All,
}
use crossplane_update_tester.Sidecar.{File, or_empty, resolve}
use crossplane_update_tester.Sidecar.Assignment.{
  Assigned, annotation_at, first_of, lookup-merge_into,
}
use crossplane_update_tester.Manifest.{Manifest}
use crossplane_update_tester.Manifest.Directives.{Yaml}
use crossplane_update_tester.Manifest.Documents.{
  ManifestDoc, DocError, annotation_key, owned_sidecar_keys, has_key, target_of, inline_key,
  refuse_inline, merge_docs, or_unresolved, decode_manifest_docs, merge_sidecar_docs, select_doc,
  manifest_from_doc, select_from, parse_docs,
}

-- None of the keys stands in the annotations.
abbrev pub HasNone : List Text → List (Text × Text) → Type 0
HasNone ks m = All (λ k. has_key k m ≡ false) ks

inline_key-none : (ks : List Text) (m : List (Text × Text)) → inline_key ks m ≡ none → HasNone ks m
unfolding inline_key
inline_key-none [] m = λ h. tt
inline_key-none (k ∷ ks) m = elim (Bool-cases (has_key k m)) [
  | inl e ↦ rw (inline_key, e) (λ h. cc)
  | inr e ↦ rw (inline_key, e) (λ h. (refl, inline_key-none ks m h))
]

refuse_inline-ok :
    (path : Text) (o : Option Text) (r : Result DocError (List ManifestDoc)) {ds : List ManifestDoc}
    → refuse_inline path o r ≡ ok ds
    → (o ≡ none) × (r ≡ ok ds)
refuse_inline-ok path none r h = (refl, h)
refuse_inline-ok path (some k) r h = cc

or_unresolved-ok : {out : Assigned} (r : Result _ Assigned) → or_unresolved r ≡ ok out → r ≡ ok out
or_unresolved-ok (ok x) h = ap ok (ok_eq h)
or_unresolved-ok (err e) h = cc

-- `d` has no key that the tool reads, and `m` has, beside what `d` has, the annotations of target `i`;
-- a key that both hold has the sidecar's value.
abbrev pub IsMerged : Assigned → ℕ → ManifestDoc → ManifestDoc → Type 0
IsMerged out i d m =
    HasNone owned_sidecar_keys d.annotations
    × ((k : Text)
        → lookup k m.annotations ≡ first_of (annotation_at i k out) (lookup k d.annotations))
    × (target_of m ≡ target_of d)
    × (m.for_provider ≡ d.for_provider)

-- The documents from index `i` on, each with the one that it becomes.
abbrev pub AreMerged : Assigned → ℕ → List ManifestDoc → List ManifestDoc → Type 0
AreMerged out i [] [] = Unit
AreMerged out i (d ∷ ds) (m ∷ ms) = IsMerged out i d m × AreMerged out (suc i) ds ms
AreMerged out i _ _ = ⊥

merge_docs-AreMerged :
    (path : Text) (out : Assigned) (ds : List ManifestDoc) (i : ℕ) (ms : List ManifestDoc)
    → merge_docs path out i ds ≡ ok ms
    → AreMerged out i ds ms
unfolding merge_docs
merge_docs-AreMerged path out [] i ms h = subst (AreMerged out i []) (ok_eq h) tt
merge_docs-AreMerged path out (d ∷ ds) i ms h =
    let (plain, h₁) = refuse_inline-ok path (inline_key owned_sidecar_keys d.annotations) _ h in
    let (rest, merged, h₂) = then_do-ok (merge_docs path out (suc i) ds) _ h₁ in
    subst (AreMerged out i (d ∷ ds)) (ok_eq h₂) (
      (
        inline_key-none owned_sidecar_keys d.annotations plain,
        (λ k. lookup-merge_into k (or_empty (lookup i out)) d.annotations),
        refl,
        refl,
      ),
      merge_docs-AreMerged path out ds (suc i) rest merged,
    )

-- Where a sidecar is merged onto the documents of a manifest without an error, its selectors resolve
-- against the objects of the documents; no document carries a key that the tool reads; and every
-- document keeps its object and its fields and has, beside its own annotations, exactly those that
-- the sidecar assigns to its index.
pub merge_sidecar_docs-AreMerged :
    (docs : List ManifestDoc) (f : File) (path : Text) (merged : List ManifestDoc)
    → merge_sidecar_docs docs (some f) path ≡ ok merged
    → (out : Assigned) × (resolve (some f) (map target_of docs) ≡ ok out)
      × AreMerged out 0 docs merged
unfolding merge_sidecar_docs
merge_sidecar_docs-AreMerged docs f path merged h =
    let (out, resolved, h₁) =
      then_do-ok (or_unresolved (resolve (some f) (map target_of docs))) _ h in
    (out, or_unresolved-ok _ resolved, merge_docs-AreMerged path out docs 0 merged h₁)

-- The first document with the annotation, or the first of all where none has it.
abbrev pub IsSelected : ManifestDoc → List ManifestDoc → Type 0
IsSelected d docs =
    ((before : List ManifestDoc) × (after : List ManifestDoc) × (docs ≡ before ++ d ∷ after)
      × (has_key annotation_key d.annotations ≡ true)
      × All (λ e. has_key annotation_key e.annotations ≡ false) before)
    ⊎ (All (λ e. has_key annotation_key e.annotations ≡ false) docs
        × ((rest : List ManifestDoc) × (docs ≡ d ∷ rest)))

select_doc-cases :
    (first : ManifestDoc) (ds : List ManifestDoc)
    → ((before : List ManifestDoc) × (after : List ManifestDoc) × (ds
          ≡ before ++ select_doc first ds ∷ after)
        × (has_key annotation_key (select_doc first ds).annotations ≡ true)
        × All (λ e. has_key annotation_key e.annotations ≡ false) before)
      ⊎ (All (λ e. has_key annotation_key e.annotations ≡ false) ds × (select_doc first ds ≡ first))
unfolding select_doc
select_doc-cases first [] = inr (tt, refl)
select_doc-cases first (d ∷ ds) = elim (Bool-cases (has_key annotation_key d.annotations)) [
  | inl e ↦ rw (select_doc, e) (inl ([], ds, refl, e, tt))
  | inr e ↦
      rw (select_doc, e)
        (elim (select_doc-cases first ds) [
          | inl (before, after, p, q, r) ↦ inl (d ∷ before, after, ap (λ x. d ∷ x) p, q, (e, r))
          | inr (r, p) ↦ inr ((refl, r), p)
        ])
]

IsSelected-select_doc :
    (d : ManifestDoc) (ds : List ManifestDoc) → IsSelected (select_doc d (d ∷ ds)) (d ∷ ds)
IsSelected-select_doc d ds = elim (select_doc-cases d (d ∷ ds)) [
  | inl found ↦ inl found
  | inr (r, p) ↦ inr (r, (ds, ap (λ x. x ∷ ds) (sym p)))
]

select_from-ok :
    (yaml : Yaml) (ds : List ManifestDoc) (m : Manifest)
    → select_from yaml ds ≡ ok m
    → (d : ManifestDoc) × IsSelected d ds × (manifest_from_doc yaml d ≡ ok m)
select_from-ok yaml [] m h = cc
select_from-ok yaml (d ∷ ds) m h = (select_doc d (d ∷ ds), IsSelected-select_doc d ds, h)

-- A manifest that parseDocs returns is that of the first of the merged documents that has the
-- update-test annotation, or of the first document where none has it; the selection is made after
-- the sidecar is merged.
pub parse_docs-selects :
    (yaml : Yaml) (decoded : List (Option ManifestDoc)) (sc : Option File) (path : Text)
    (m : Manifest)
    → parse_docs yaml decoded sc path ≡ ok m
    → (docs : List ManifestDoc) × (merged : List ManifestDoc) × (d : ManifestDoc)
      × (decode_manifest_docs decoded ≡ ok docs)
      × (merge_sidecar_docs docs sc path ≡ ok merged)
      × IsSelected d merged
      × (manifest_from_doc yaml d ≡ ok m)
unfolding parse_docs
parse_docs-selects yaml decoded sc path m h =
    let (docs, decoded_, h₁) = then_do-ok (decode_manifest_docs decoded) _ h in
    let (merged, together, h₂) =
      then_do-ok (merge_sidecar_docs docs sc path) _ (not_empty docs h₁) in
    let (d, selected, result) = select_from-ok yaml merged m h₂ in
    (docs, merged, d, decoded_, together, selected, result)
  where
    not_empty :
        (docs : List ManifestDoc)
        → (if is_empty docs
            then err DocError.missing_api_version_or_kind
            else then_do (merge_sidecar_docs docs sc path) (select_from yaml))
          ≡ ok m
        → then_do (merge_sidecar_docs docs sc path) (select_from yaml) ≡ ok m
    not_empty [] h = cc
    not_empty (d ∷ ds) h = h
