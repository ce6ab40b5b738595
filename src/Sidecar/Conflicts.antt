-- ===== src/Sidecar/Conflicts.antt =====
-- When Conflicts accepts a file.
use crossplane_update_tester.Base.{
  Text, false, List, [], ◌∷◌, none, some, list_eq, nat_eq, elem, elem_iff, In, All, contains_byte,
  cut_unique, ◌≡◌, ◌↔◌, inl, inr, refl, Bool-cases,
}
use crossplane_update_tester.Sidecar.{Doc, File, selector_key, find_duplicate, conflicts}

-- The triple that a document declares.
abbrev pub Selector : Type 0
Selector = Text × Text × Text

abbrev pub selector_of : Doc → Selector
selector_of d = (d.for_value, d.name, d.namespace)

-- No document declares the selector of a later one.
abbrev pub AreDistinct : List Doc → Type 0
AreDistinct [] = Unit
AreDistinct (d ∷ ds) = All (λ e. ¬ (selector_of e ≡ selector_of d)) ds × AreDistinct ds

-- The values hold no NUL, which the key of the code uses as its separator.
abbrev pub IsPlain : Doc → Type 0
IsPlain d = (contains_byte 0 d.for_value ≡ false) × (contains_byte 0 d.name ≡ false)

selector_key_eq :
    (d e : Doc)
    → IsPlain d
    → IsPlain e
    → selector_key d ≡ selector_key e
    → selector_of d ≡ selector_of e
selector_key_eq d e (p, q) (r, s) h =
    let (f, t) = cut_unique 0 d.for_value e.for_value _ _ p r h in
    let (n, u) = cut_unique 0 d.name e.name _ _ q s t in cc

AreUnseen : List Text → List Doc → Type 0
AreUnseen seen ds = All (λ d. ¬ In (selector_key d) seen) ds

AreUnseen-cons :
    (k : Text) (seen : List Text) (ds : List Doc)
    → AreUnseen (k ∷ seen) ds ↔ (All (λ d. ¬ (selector_key d ≡ k)) ds × AreUnseen seen ds)
unfolding AreUnseen
AreUnseen-cons k seen [] = (λ h. (tt, tt), λ h. tt)
AreUnseen-cons k seen (d ∷ ds) =
    let (to, from) = AreUnseen-cons k seen ds in
    (
      λ h. ((λ e. h.0 (inl e), (to h.1).0), (λ m. h.0 (inr m), (to h.1).1)),
      λ h. (elim [ inl e ↦ h.0.0 e | inr m ↦ h.1.0 m ], from (h.0.1, h.1.1)),
    )

keys-selectors :
    (d : Doc) (ds : List Doc)
    → IsPlain d
    → All IsPlain ds
    → All (λ e. ¬ (selector_key e ≡ selector_key d)) ds
      ↔ All (λ e. ¬ (selector_of e ≡ selector_of d)) ds
keys-selectors d [] p ps = (λ h. tt, λ h. tt)
keys-selectors d (e ∷ es) p ps =
    let (to, from) = keys-selectors d es p ps.1 in
    (λ h. (λ q. h.0 (cc q), to h.1), λ h. (λ q. h.0 (selector_key_eq e d ps.0 p q), from h.1))

find_duplicate_iff :
    (seen : List Text) (ds : List Doc)
    → All IsPlain ds
    → (find_duplicate seen ds ≡ none) ↔ (AreUnseen seen ds × AreDistinct ds)
unfolding find_duplicate AreUnseen
find_duplicate_iff seen [] ps = (λ h. (tt, tt), λ h. refl)
find_duplicate_iff seen (d ∷ ds) ps =
    let (to, from) = find_duplicate_iff (selector_key d ∷ seen) ds ps.1 in
    let (out, in_) = AreUnseen-cons (selector_key d) seen ds in
    let (there, back) = keys-selectors d ds ps.0 ps.1 in
    elim (Bool-cases (elem (selector_key d) seen)) [
      | inl e ↦ rw e (λ h. cc, λ h. absurd (h.0.0 ((elem_iff (selector_key d) seen).0 e)))
      | inr e ↦ rw e (
        λ h.
            let (u, s) = to h in
            (
              (λ m. let t = (elem_iff (selector_key d) seen).1 m in cc, (out u).1),
              (there (out u).0, s),
            ),
        λ h. from (in_ (back h.1.0, h.0.1), h.1.1),
      )
    ]

nothing_seen : (ds : List Doc) → AreUnseen [] ds
unfolding AreUnseen
nothing_seen [] = tt
nothing_seen (d ∷ ds) = (λ h. absurd h, nothing_seen ds)

-- Where the for: and name: values of a file hold no NUL byte, Conflicts accepts the file exactly
-- when no two of its documents declare the same for:, name: and namespace: values.
pub conflicts_iff :
    (f : File) → All IsPlain f.docs → (conflicts (some f) ≡ none) ↔ AreDistinct f.docs
unfolding conflicts
conflicts_iff f ps =
    let (to, from) = find_duplicate_iff [] f.docs ps in
    (λ h. (to h).1, λ h. from (nothing_seen f.docs, h))
