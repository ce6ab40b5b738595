-- ===== src/Differ/Changes.antt =====
-- Which fields diffTopLevel reports.
use mathlib.Core.Path.{subst}
use crossplane_update_tester.Base.{
  Text, true, List, [], ◌∷◌, ◌++◌, map, ==_iff, list_eq, nat_eq, elem, elem_iff, sort_by, In,
  In-sort_by, sort_by-IsSortedBy, IsSortedBy, In-filter, In-map, In-map_of, In-append_cases,
  In-append_left, In-append_right, ◌≡◌, ◌≢◌, ◌↔◌, ◌⊎◌, inl, inr, refl, sym, ◌∙◌, ap, Bool-cases, ok,
  arith,
}
use crossplane_update_tester.Json.{Codec}
use crossplane_update_tester.Differ.{
  FieldChange, BadSnapshot, RawMap, distinct, keys_of, parse_snapshot, raw_value, change_at,
  is_change, changes_between, diff_top_level,
}

pub In-distinct : (k : Text) (ks : List Text) → In k (distinct ks) ↔ In k ks
unfolding distinct
In-distinct k [] = (λ h. h, λ h. h)
In-distinct k (j ∷ ks) = elim (Bool-cases (elem j (distinct ks))) [
  | inl t ↦ rw t (
    λ h. inr ((In-distinct k ks).0 h),
    λ h. elim h [ inl e ↦ rw e ((elem_iff j (distinct ks)).0 t) | inr i ↦ (In-distinct k ks).1 i ],
  )
  | inr f ↦ rw f (
    λ h. elim h [ inl e ↦ inl e | inr i ↦ inr ((In-distinct k ks).0 i) ],
    λ h. elim h [ inl e ↦ inl e | inr i ↦ inr ((In-distinct k ks).1 i) ],
  )
]

is_change_iff :
    (exclude : List Text) (c : FieldChange)
    → (is_change exclude c ≡ true) ↔ ((¬ In c.field exclude) × (c.old_value ≢ c.new_value))
is_change_iff exclude c = ground (arith, elem_iff c.field exclude, ==_iff c.old_value c.new_value)

module _ (codec : Codec) where
  -- A change between two decoded snapshots.
  abbrev pub IsChange : List Text → RawMap → RawMap → FieldChange → Type 0
  IsChange exclude old new c =
      (In c.field (keys_of old) ⊎ In c.field (keys_of new))
      × (¬ In c.field exclude)
      × (c.old_value ≡ raw_value codec old c.field)
      × (c.new_value ≡ raw_value codec new c.field)
      × (c.old_value ≢ c.new_value)

  In-changes_between :
      (exclude : List Text) (old new : RawMap) (c : FieldChange)
      → In c (changes_between codec exclude old new) ↔ IsChange exclude old new c
  In-changes_between exclude old new c =
      let at = change_at codec old new in
      let keys = distinct (keys_of old ++ keys_of new) in
      let filtered = In-filter (is_change exclude) c (map at keys) in
      (
        λ h.
            let (i, p) = filtered.0 h in
            let (k, j, e) = In-map at c keys i in
            let (out, ne) = (is_change_iff exclude c).0 p in
            let f : c.field ≡ k = ap (λ (d : FieldChange). d.field) e in
            (
              In-append_cases c.field (keys_of old) (keys_of new)
                  ((In-distinct c.field _).0 (rw f j)),
              out,
              ap (λ (d : FieldChange). d.old_value) e ∙ ap (raw_value codec old) (sym f),
              ap (λ (d : FieldChange). d.new_value) e ∙ ap (raw_value codec new) (sym f),
              ne,
            ),
        λ h. filtered.1 (
          subst (λ d. In d (map at keys)) (sym (rebuilt h.2 h.3))
              (In-map_of at c.field keys (
                (In-distinct c.field _).1 (elim h.0 [
                  | inl i ↦ In-append_left c.field (keys_of old) (keys_of new) i
                  | inr i ↦ In-append_right c.field (keys_of old) (keys_of new) i
                ]))),
          (is_change_iff exclude c).1 (h.1, h.4),
        ),
      )
    where
      rebuilt :
          c.old_value ≡ raw_value codec old c.field
          → c.new_value ≡ raw_value codec new c.field
          → c ≡ change_at codec old new c.field
      rebuilt p q = λ i. record { field = c.field; old_value = p i; new_value = q i }

  -- When both snapshots parse, changes are returned: exactly those whose field is a key of one of
  -- them, is not excluded, whose values are the compacted values there (empty where the key is
  -- missing), and differ; they stand in the order of their fields.
  pub diff_top_level_iff :
      (old new : Text) (exclude : List Text) (m n : RawMap)
      → parse_snapshot codec old BadSnapshot.before ≡ ok m
      → parse_snapshot codec new BadSnapshot.after ≡ ok n
      → (cs : List FieldChange) × (diff_top_level codec old new exclude ≡ ok cs)
        × ((c : FieldChange) → In c cs ↔ IsChange exclude m n c)
        × IsSortedBy (λ (c : FieldChange). c.field) cs
  unfolding diff_top_level
  diff_top_level_iff old new exclude m n p q =
      let field_of = λ (c : FieldChange). c.field in
      let found = changes_between codec exclude m n in
      (
        sort_by field_of found,
        rw (p, q) refl,
        λ c. (
          λ i. (In-changes_between exclude m n c).0 ((In-sort_by field_of c found).0 i),
          λ k. (In-sort_by field_of c found).1 ((In-changes_between exclude m n c).1 k),
        ),
        sort_by-IsSortedBy field_of found,
      )
