-- ===== src/Roundtrip/Denominator/Buckets.antt =====
-- Which waivers ClassifyWaivers calls false.
use mathlib.Core.Path.{subst}
use crossplane_update_tester.Base.{
  Text, Bool, true, false, List, [], ◌∷◌, map, filter, Option, none, some, In, Any, list_eq, ◌≡◌,
  ◌↔◌, ◌⊎◌, inl, inr, refl, sym, Bool-cases,
}
use crossplane_update_tester.Manifest.{UpdateTest, present}
use crossplane_update_tester.Roundtrip.Cell.{Row}
use crossplane_update_tester.Roundtrip.Denominator.{
  Finding, refuted, keep, Waiver, row_at, finding_at, add_finding, findings, denominator_report,
  waiver_of, classify_waivers,
}
use crossplane_update_tester.Roundtrip.Denominator.Findings.{IsRefuted, Names, Names-finding_at}

abbrev pub is_refuted : Waiver → Bool
is_refuted w = elim w.bucket [ refuted ↦ true | keep ↦ false ]

-- There is a row, and it speaks against the skip.
abbrev pub HasRefutingRow : UpdateTest → Option Row → Type 0
HasRefutingRow t none = ⊥
HasRefutingRow t (some r) = IsRefuted t (some r)

-- A skipped entry for the field that has a row which speaks against its skip.
abbrev pub IsDisproved : List Row → Text → UpdateTest → Type 0
IsDisproved rows x t =
    (present t.skip ≡ true) × (x ≡ t.field) × HasRefutingRow t (row_at t.field rows)

abbrev pub fields_called_false : List Waiver → List Text
fields_called_false ws = map (λ w. w.field) (filter is_refuted ws)

-- The bucket of one entry.
waiver_iff :
    (t : UpdateTest) (o : Option Row) (x : Text) (ws : List Waiver)
    → In x (fields_called_false (waiver_of t o (add_finding (finding_at t o) []) ∷ ws))
      ↔ (((x ≡ t.field) × HasRefutingRow t o) ⊎ In x (fields_called_false ws))
waiver_iff t none x ws = (λ h. inr h, λ h. elim h [ inl p ↦ absurd p.1 | inr m ↦ m ])
waiver_iff t (some r) x ws = with_finding (finding_at t (some r)) refl
  where
    names : IsRefuted t (some r) → Names t.field (finding_at t (some r))
    names i = (Names-finding_at t (some r) t.field).1 (refl, i)

    with_finding :
        (f : Option Finding)
        → finding_at t (some r) ≡ f
        → In x (fields_called_false (waiver_of t (some r) (add_finding f []) ∷ ws))
          ↔ (((x ≡ t.field) × IsRefuted t (some r)) ⊎ In x (fields_called_false ws))
    with_finding none e = (
      λ h. inr h,
      λ h. elim h [ inl p ↦ absurd (subst (Names t.field) e (names p.1)) | inr m ↦ m ],
    )
    with_finding (some f) e = (
      λ h. elim h [
        | inl p ↦
            inl
              (p, ((Names-finding_at t (some r) f.field).0 (subst (Names f.field) (sym e) refl)).1)
        | inr m ↦ inr m
      ],
      λ h. elim h [ inl p ↦ inl p.0 | inr m ↦ inr m ],
    )

-- ClassifyWaivers calls the waiver of a field false exactly when some entry for it is skipped, its
-- field has a row, and that row speaks against the skip: the class is value-changed or
-- defaulted-by-server, or it is present-in-spec-absent-from-mirror while the field is not immutable
-- and the reason is not the structured write-only. A field without a row is never called false.
pub classify_waivers_iff :
    (tests : List UpdateTest) (rows : List Row) (x : Text)
    → In x (fields_called_false (classify_waivers tests rows)) ↔ Any (IsDisproved rows x) tests
unfolding classify_waivers denominator_report findings
classify_waivers_iff [] rows x = (λ h. h, λ h. h)
classify_waivers_iff (t ∷ ts) rows x =
    let (to, from) = classify_waivers_iff ts rows x in
    let (out, in_) = waiver_iff t (row_at t.field rows) x (classify_waivers ts rows) in
    elim (Bool-cases (present t.skip)) [
      | inr e ↦ rw e (λ h. inr (to h), λ h. elim h [ inl k ↦ cc (k.0) | inr m ↦ from m ])
      | inl e ↦ rw e (
        λ h. elim (out h) [ inl n ↦ inl (refl, n.0, n.1) | inr m ↦ inr (to m) ],
        λ h. elim h [ inl k ↦ in_ (inl (k.1, k.2)) | inr m ↦ in_ (inr (from m)) ],
      )
    ]
