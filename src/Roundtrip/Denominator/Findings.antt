-- ===== src/Roundtrip/Denominator/Findings.antt =====
-- Which skipped entries DenominatorReport disproves.
use crossplane_update_tester.Base.{
  Text, true, false, List, [], ◌∷◌, map, Option, none, some, ◌==◌, ==_iff, list_eq, nat_eq, In, Any,
  ◌≡◌, ◌↔◌, ◌⊎◌, inl, inr, refl, arith, Bool-cases,
}
use crossplane_update_tester.Manifest.{UpdateTest, present, skip_write_only}
use crossplane_update_tester.Roundtrip.Cell.{Classification, Row}
use crossplane_update_tester.Roundtrip.Denominator.{
  Finding, is_write_only, no_row_finding, deviating_finding, spec_only_finding, row_finding, row_at,
  finding_at, add_finding, findings, denominator_report,
}

-- The structured reason; a free-prose skip is not it, whatever it says.
abbrev pub IsWriteOnly : UpdateTest → Type 0
IsWriteOnly t = (t.skip.legacy ≡ false) × (t.skip.reason ≡ skip_write_only)

-- What the live row of an entry's field, or that there is none, says against its skip.
abbrev pub IsRefuted : UpdateTest → Option Row → Type 0
IsRefuted t none = (t.skip.legacy ≡ true) ⊎ IsWriteOnly t
IsRefuted t (some r) =
    (r.classification ≡ Classification.value_changed)
    ⊎ (r.classification ≡ Classification.defaulted_by_server)
    ⊎ ((r.classification ≡ Classification.present_in_spec_absent_from_mirror)
        × (r.immutable ≡ false)
        × ¬ IsWriteOnly t)

is_write_only_iff : (t : UpdateTest) → (is_write_only t ≡ true) ↔ IsWriteOnly t
is_write_only_iff t = ground (arith, ==_iff t.skip.reason skip_write_only)

-- The finding, if there is one, names the field.
abbrev pub Names : Text → Option Finding → Type 0
Names x none = ⊥
Names x (some f) = x ≡ f.field

deviating-Names :
    (t : UpdateTest) (r : Row) (x : Text) → Names x (deviating_finding t r) ↔ (x ≡ t.field)
deviating-Names t r x = elim (Bool-cases (is_write_only t)) [
  | inl w ↦ rw w (λ h. h, λ h. h)
  | inr w ↦ rw w (λ h. h, λ h. h)
]

spec_only-Names :
    (t : UpdateTest) (r : Row) (x : Text)
    → Names x (spec_only_finding t r) ↔ ((x ≡ t.field) × (r.immutable ≡ false) × ¬ IsWriteOnly t)
spec_only-Names t r x = elim (Bool-cases r.immutable) [
  | inl i ↦ rw i (λ h. absurd h, λ h. cc)
  | inr i ↦ rw i (elim (Bool-cases (is_write_only t)) [
    | inl w ↦ rw w (λ h. absurd h, λ h. absurd (h.2 ((is_write_only_iff t).0 w)))
    | inr w ↦ rw w (λ h. (h, refl, λ k. let q = (is_write_only_iff t).1 k in cc), λ h. h.0)
  ])
]

row-Names :
    (t : UpdateTest) (r : Row) (x : Text) (c : Classification)
    → r.classification ≡ c
    → Names x (row_finding t r c) ↔ ((x ≡ t.field) × IsRefuted t (some r))
row-Names t r x Classification.equal e = (λ h. absurd h, λ h. ground arith)
row-Names t r x Classification.present_in_mirror_absent_from_spec e =
    (λ h. absurd h, λ h. ground arith)
row-Names t r x Classification.na e = (λ h. absurd h, λ h. ground arith)
row-Names t r x Classification.value_changed e =
    let (to, from) = deviating-Names t r x in (λ h. (to h, inl e), λ h. from h.0)
row-Names t r x Classification.defaulted_by_server e =
    let (to, from) = deviating-Names t r x in (λ h. (to h, inr (inl e)), λ h. from h.0)
row-Names t r x Classification.present_in_spec_absent_from_mirror e =
    let (to, from) = spec_only-Names t r x in
    (
      λ h. let (p, i, w) = to h in (p, inr (inr (e, i, w))),
      λ h. elim h.1 [
        | inl v ↦ absurd (ground arith)
        | inr (inl v) ↦ absurd (ground arith)
        | inr (inr (k, i, w)) ↦ from (h.0, i, w)
      ],
    )

no_row-Names :
    (t : UpdateTest) (x : Text) → Names x (no_row_finding t) ↔ ((x ≡ t.field) × IsRefuted t none)
no_row-Names t x = elim (Bool-cases t.skip.legacy) [
  | inl l ↦ rw l (λ h. (h, inl refl), λ h. h.0)
  | inr l ↦ rw l (elim (Bool-cases (t.skip.reason == skip_write_only)) [
    | inl w ↦ rw w (λ h. (h, inr (refl, (==_iff t.skip.reason skip_write_only).0 w)), λ h. h.0)
    | inr w ↦ rw w (
      λ h. absurd h,
      λ h. elim h.1 [
        | inl k ↦ absurd (ground arith)
        | inr k ↦ let q = (==_iff t.skip.reason skip_write_only).1 k.1 in cc
      ],
    )
  ])
]

pub Names-finding_at :
    (t : UpdateTest) (o : Option Row) (x : Text)
    → Names x (finding_at t o) ↔ ((x ≡ t.field) × IsRefuted t o)
Names-finding_at t none x = no_row-Names t x
Names-finding_at t (some r) x = row-Names t r x r.classification refl

In-add_finding :
    (x : Text) (o : Option Finding) (fs : List Finding)
    → In x (map (λ f. f.field) (add_finding o fs)) ↔ (Names x o ⊎ In x (map (λ f. f.field) fs))
In-add_finding x none fs = (λ h. inr h, λ h. elim h [ inl n ↦ absurd n | inr m ↦ m ])
In-add_finding x (some f) fs = (λ h. h, λ h. h)

-- A skipped entry for the field whose row, or whose lack of one, speaks against its skip.
abbrev pub IsRefutedField : List Row → Text → UpdateTest → Type 0
IsRefutedField rows x t =
    (present t.skip ≡ true) × (x ≡ t.field) × IsRefuted t (row_at t.field rows)

findings_iff :
    (rows : List Row) (x : Text) (ts : List UpdateTest)
    → In x (map (λ f. f.field) (findings rows ts)) ↔ Any (IsRefutedField rows x) ts
unfolding findings
findings_iff rows x [] = (λ h. h, λ h. h)
findings_iff rows x (t ∷ ts) =
    let (to, from) = findings_iff rows x ts in
    let (out, in_) = Names-finding_at t (row_at t.field rows) x in
    let (split_, join_) =
      In-add_finding x (finding_at t (row_at t.field rows)) (findings rows ts) in
    elim (Bool-cases (present t.skip)) [
      | inr e ↦ rw e (λ h. inr (to h), λ h. elim h [ inl k ↦ cc (k.0) | inr m ↦ from m ])
      | inl e ↦ rw e (
        λ h. elim (split_ h) [
          | inl n ↦ let (p, q) = out n in inl (refl, p, q)
          | inr m ↦ inr (to m)
        ],
        λ h. elim h [ inl (k, p, q) ↦ join_ (inl (in_ (p, q))) | inr m ↦ join_ (inr (from m)) ],
      )
    ]

-- DenominatorReport has a finding for a field exactly when some entry for it is skipped and what the
-- live object shows speaks against the skip. That is: there is no row and the skip is free prose or
-- write-only; or the row's class is value-changed or defaulted-by-server, under any reason and even
-- for an immutable field; or its class is present-in-spec-absent-from-mirror, the field is not
-- immutable and the reason is not the structured write-only.
pub denominator_report-findings :
    (tests : List UpdateTest) (rows : List Row) (x : Text)
    → In x (map (λ f. f.field) (denominator_report tests rows).findings)
      ↔ Any (IsRefutedField rows x) tests
unfolding denominator_report
denominator_report-findings tests rows x = findings_iff rows x tests
