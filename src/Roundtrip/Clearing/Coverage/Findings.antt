-- ===== src/Roundtrip/Clearing/Coverage/Findings.antt =====
-- The findings of ContainerClearCoverage.
use mathlib.Core.Path.{subst}
use crossplane_update_tester.Base.{
  Text, true, false, List, [], ◌∷◌, Option, none, some, ◌==◌, ==_iff, list_eq, nat_eq, lookup, In,
  ◌≡◌, ◌≢◌, ◌⊎◌, inl, inr, refl, sym, ◌∙◌, ap, Bool-cases, Option-cases, ok, err, then_do-ok, ok_eq,
  map,
}
use crossplane_update_tester.Manifest.{UpdateTest, Manifest, backend_discards}
use crossplane_update_tester.Roundtrip.Clearing.{
  ContainerLeaf, ClearRoute, Routes, Reasons, BothVerdicts, ContainerClearFinding,
  IneligibilityReason, routes_of, is_some, coverage_for, disposition_for, finding_of_route,
  finding_for, findings_for, ineligible_finding, tolerates_coverage,
}
use crossplane_update_tester.Roundtrip.Clearing.Coverage.{
  container_clear_coverage, ineligible_leaves,
}
use crossplane_update_tester.Roundtrip.Clearing.Coverage.Credits.{Removes, coverage_for-Removes}

-- The findings are one for each leaf, in their order.
findings_for-finding_for :
    (r : Routes) (reasons : Reasons) (leaves : List ContainerLeaf) (f : ContainerClearFinding)
    {fs : List ContainerClearFinding}
    → findings_for r reasons leaves ≡ ok fs
    → In f fs
    → (leaf : ContainerLeaf) × In leaf leaves × (finding_for r reasons leaf ≡ ok f)
unfolding findings_for
findings_for-finding_for r reasons [] f h i = absurd (subst (In f) (sym (ok_eq h)) i)
findings_for-finding_for r reasons (leaf ∷ leaves) f h i =
    let (g, e, k) = then_do-ok (finding_for r reasons leaf) _ h in
    let (gs, d, l) = then_do-ok (findings_for r reasons leaves) _ k in
    elim (subst (In f) (sym (ok_eq l)) i) [
      | inl p ↦ (leaf, inl refl, rw p e)
      | inr j ↦ let (x, m, n) = findings_for-finding_for r reasons leaves f d j in (x, inr m, n)
    ]

-- A finding is that of an ineligible leaf, or follows from the leaf's coverage.
finding_for_cases :
    (r : Routes) (reasons : Reasons) (leaf : ContainerLeaf) {f : ContainerClearFinding}
    → finding_for r reasons leaf ≡ ok f
    → ((reason : IneligibilityReason) × (f ≡ ineligible_finding leaf reason))
      ⊎ (f ≡ finding_of_route leaf (disposition_for r leaf) (coverage_for r leaf))
unfolding finding_for
finding_for_cases r reasons leaf {f} h = elim (Option-cases (lookup leaf.path reasons)) [
  | inl n ↦ inr (sym (ok_eq (rw (finding_for, n) at h)))
  | inr (reason, e) ↦ elim (Bool-cases (tolerates_coverage reason)) [
    | inl t ↦ inl (reason, sym (ok_eq (rw (finding_for, e, t) at h)))
    | inr t ↦ elim (Bool-cases (is_some (coverage_for r leaf))) [
      | inl c ↦ absurd (refused (rw (finding_for, e, t, c) at h))
      | inr c ↦ inl (reason, sym (ok_eq (rw (finding_for, e, t, c) at h)))
    ]
  ]
]
  where
    refused : {e : BothVerdicts} → err e ≡ ok f → ⊥
    refused p = cc

finding_of_route-path :
    (leaf : ContainerLeaf) (d : Text) (c : Option ClearRoute)
    → (finding_of_route leaf d c).path ≡ leaf.path
finding_of_route-path leaf d none = refl
finding_of_route-path leaf d (some route) = elim (Bool-cases (d == backend_discards)) [
  | inl t ↦ rw t refl
  | inr n ↦ rw n refl
]

finding_for-path :
    (r : Routes) (reasons : Reasons) (leaf : ContainerLeaf) {f : ContainerClearFinding}
    → finding_for r reasons leaf ≡ ok f
    → f.path ≡ leaf.path
finding_for-path r reasons leaf h = elim (finding_for_cases r reasons leaf h) [
  | inl (reason, e) ↦ ap (λ (g : ContainerClearFinding). g.path) e
  | inr e ↦
      ap (λ (g : ContainerClearFinding). g.path) e
      ∙ finding_of_route-path leaf (disposition_for r leaf) (coverage_for r leaf)
]

-- A covered finding comes from a route, and its own entry does not declare that nothing evidences it.
finding_of_route-covered :
    (leaf : ContainerLeaf) (d : Text) (c : Option ClearRoute)
    → (finding_of_route leaf d c).covered ≡ true
    → (route : ClearRoute) × (c ≡ some route)
      × (d ≢ backend_discards)
      × ((finding_of_route leaf d c).route ≡ some route)
      × ((finding_of_route leaf d c).ineligible ≡ false)
      × ((finding_of_route leaf d c).contradiction ≡ false)
finding_of_route-covered leaf d none h = cc
finding_of_route-covered leaf d (some route) h = elim (Bool-cases (d == backend_discards)) [
  | inl t ↦ absurd (let e : false ≡ true = rw t at h in cc)
  | inr n ↦ rw n (route, refl, (λ e. cc (n, (==_iff d backend_discards).1 e)), refl, refl, refl)
]

findings_for-paths :
    (r : Routes) (reasons : Reasons) (leaves : List ContainerLeaf) {fs : List ContainerClearFinding}
    → findings_for r reasons leaves ≡ ok fs
    → map (λ (f : ContainerClearFinding). f.path) fs ≡ map (λ (l : ContainerLeaf). l.path) leaves
unfolding findings_for
findings_for-paths r reasons [] h = ap (map (λ (f : ContainerClearFinding). f.path)) (sym (ok_eq h))
findings_for-paths r reasons (leaf ∷ leaves) h =
    let (g, e, k) = then_do-ok (finding_for r reasons leaf) _ h in
    let (gs, d, l) = then_do-ok (findings_for r reasons leaves) _ k in
    rw (sym (ok_eq l), finding_for-path r reasons leaf e, findings_for-paths r reasons leaves d)
      refl

-- When ContainerClearCoverage returns, its findings are those of the leaves, in their order, and each
-- finding that is covered has a leaf and a test of the manifest that removes the leaf's value along the
-- finding's route; it is neither ineligible nor a contradiction, and the entry of the leaf's own field,
-- if there is one, does not declare backend-discards.
pub container_clear_coverage-Removes :
    (m : Manifest) (leaves : List ContainerLeaf) (structural marker_only : Reasons)
    {fs : List ContainerClearFinding}
    → container_clear_coverage m leaves structural marker_only ≡ ok fs
    → (map (λ (f : ContainerClearFinding). f.path) fs ≡ map (λ (l : ContainerLeaf). l.path) leaves)
      × ((f : ContainerClearFinding)
          → In f fs
          → f.covered ≡ true
          → (leaf : ContainerLeaf) × (t : UpdateTest) × (route : ClearRoute) × In leaf leaves
            × (f.path ≡ leaf.path)
            × (f.route ≡ some route)
            × In t m.tests
            × Removes t leaf route
            × (f.ineligible ≡ false)
            × (f.contradiction ≡ false)
            × (disposition_for (routes_of m.tests) leaf ≢ backend_discards))
unfolding container_clear_coverage
container_clear_coverage-Removes m leaves structural marker_only h =
    let r = routes_of m.tests in
    let reasons = ineligible_leaves m leaves structural marker_only in
    (
      findings_for-paths r reasons leaves h,
      λ f i c.
          let (leaf, j, e) = findings_for-finding_for r reasons leaves f h i in
          elim (finding_for_cases r reasons leaf e) [
            | inl (reason, p) ↦ absurd (not_covered p c)
            | inr p ↦
                let (route, q, d, u, v, w) =
                  finding_of_route-covered leaf _ _
                    (subst (λ (g : ContainerClearFinding). g.covered ≡ true) p c) in
                let (t, k, s) = coverage_for-Removes m.tests leaf q in
                (
                  leaf,
                  t,
                  route,
                  j,
                  finding_for-path r reasons leaf e,
                  ap (λ (g : ContainerClearFinding). g.route) p ∙ u,
                  k,
                  s,
                  ap (λ (g : ContainerClearFinding). g.ineligible) p ∙ v,
                  ap (λ (g : ContainerClearFinding). g.contradiction) p ∙ w,
                  d,
                )
          ],
    )
  where
    not_covered :
        {f : ContainerClearFinding} {leaf : ContainerLeaf} {reason : IneligibilityReason}
        → f ≡ ineligible_finding leaf reason
        → f.covered ≡ true
        → ⊥
    not_covered p c =
        let e : false ≡ true = sym (ap (λ (g : ContainerClearFinding). g.covered) p) ∙ c in cc
