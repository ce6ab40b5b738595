-- ===== src/Roundtrip/Clearing/Coverage/Clashes.antt =====
-- When ContainerClearCoverage fails: the predicate and the manifest disagree on a leaf.
use crossplane_update_tester.Base.{true, false, some, list_eq, nat_eq, lookup, ◌≡◌, ◌≢◌}
use crossplane_update_tester.Manifest.{Manifest}
use crossplane_update_tester.Roundtrip.Clearing.{
  ContainerLeaf, IneligibilityReason, Reasons, Routes, coverage_for, is_some, tolerates_coverage,
}

-- The code's test: the leaf is ineligible, its reason tolerates no coverage, and it is covered.
abbrev Clashes : Routes → Reasons → ContainerLeaf → IneligibilityReason → Type 0
Clashes r reasons leaf reason =
    (lookup leaf.path reasons ≡ some reason)
    × (tolerates_coverage reason ≡ false)
    × (is_some (coverage_for r leaf) ≡ true)

-- Every reason but the two under which a manifest may cover an ineligible leaf.
abbrev pub Contradicts : IneligibilityReason → Type 0
Contradicts reason =
    (reason ≢ IneligibilityReason.reference_resolution)
    × (reason ≢ IneligibilityReason.absent_from_manifest)
