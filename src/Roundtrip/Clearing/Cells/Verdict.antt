-- ===== src/Roundtrip/Clearing/Cells/Verdict.antt =====
-- When a clear cell blocks, and what its credit rests on.
use crossplane_update_tester.Base.{
  Bool, true, not, ◌&&◌, ◌||◌, List, [], ◌∷◌, any, any_iff, is_empty, filter, nat_beq, In,
  In-sort_by, ◌≡◌, ◌↔◌, ◌⊎◌, inl, inr, refl, ◌∙◌, arith, Bool-cases, length, ◌+◌,
}
use crossplane_update_tester.Roundtrip.Cell.{CellKey}
use crossplane_update_tester.Roundtrip.Clearing.{ContainerClearFinding}
use crossplane_update_tester.Roundtrip.Clearing.Cells.{
  ClearCellReport, collect, report_of, by_path, paths_of, is_undispositioned,
  build_clear_cell_report, ClearTally, tally_report, tally_from, no_tally, print_clear_cell_report,
}

abbrev pub is_eligible : ContainerClearFinding → Bool
is_eligible f = not f.ineligible

abbrev pub is_contradictory : ContainerClearFinding → Bool
is_contradictory f = not f.ineligible && f.contradiction

abbrev pub is_credited : ContainerClearFinding → Bool
is_credited f = not f.ineligible && (not f.contradiction && f.covered)

-- The cell fails the run.
abbrev pub blocks : ClearCellReport → Bool
blocks r =
    not (is_empty r.contradictory)
    || (not r.vacuous && (not r.covered && not (is_empty r.undispositioned_members)))

collect-contradictory :
    (fs : List ContainerClearFinding)
    → is_empty (collect fs).contradictory ≡ not (any is_contradictory fs)
unfolding collect
collect-contradictory [] = refl
collect-contradictory (f ∷ fs) = ground (arith, collect-contradictory fs)

collect-credited :
    (fs : List ContainerClearFinding)
    → is_empty (collect fs).covered_eligible ≡ not (any is_credited fs)
unfolding collect
collect-credited [] = refl
collect-credited (f ∷ fs) = ground (arith, collect-credited fs)

collect-eligible :
    (fs : List ContainerClearFinding)
    → nat_beq (collect fs).eligible_count 0 ≡ not (any is_eligible fs)
unfolding collect
collect-eligible [] = refl
collect-eligible (f ∷ fs) = ground (arith, collect-eligible fs)

is_empty-filter :
    (p : ContainerClearFinding → Bool) (fs : List ContainerClearFinding)
    → is_empty (paths_of (filter p fs)) ≡ not (any p fs)
is_empty-filter p [] = refl
is_empty-filter p (f ∷ fs) = elim (Bool-cases (p f)) [
  | inl t ↦ rw t refl
  | inr n ↦ rw n (is_empty-filter p fs)
]

undispositioned-eligible :
    (fs : List ContainerClearFinding) → any is_undispositioned fs ≡ true → any is_eligible fs ≡ true
undispositioned-eligible [] h = cc
undispositioned-eligible (f ∷ fs) h = ground (arith, undispositioned-eligible fs)

blocks-report_of :
    (key : CellKey) (fs reps : List ContainerClearFinding)
    → is_empty reps ≡ not (any is_credited fs)
    → blocks (report_of key fs (collect fs) reps)
      ≡ any is_contradictory fs || (not (any is_credited fs) && any is_undispositioned fs)
blocks-report_of key fs [] h = ground (
  arith,
  h,
  collect-contradictory fs,
  collect-eligible fs,
  is_empty-filter is_undispositioned fs,
  undispositioned-eligible fs,
)
blocks-report_of key fs (rep ∷ reps) h = ground (arith, h, collect-contradictory fs)

any-by_path :
    (p : ContainerClearFinding → Bool) (fs : List ContainerClearFinding)
    → (any p (by_path fs) ≡ true) ↔ ((f : ContainerClearFinding) × In f fs × (p f ≡ true))
any-by_path p fs = (
  λ h.
      let (f, i, e) = (any_iff p (by_path fs)).0 h in
      (f, (In-sort_by (λ (g : ContainerClearFinding). g.path) f fs).0 i, e),
  λ h.
      (any_iff p (by_path fs)).1
        (h.0, (In-sort_by (λ (g : ContainerClearFinding). g.path) h.0 fs).1 h.1, h.2),
)

-- The report of a cell blocks exactly when a member that is not ineligible is a contradiction, or when
-- no member is credited (not ineligible, no contradiction, covered) and some member that is neither
-- ineligible nor covered nor a contradiction has no disposition.
pub build_clear_cell_report-blocks :
    (key : CellKey) (members : List ContainerClearFinding)
    → (blocks (build_clear_cell_report key members) ≡ true) ↔ (
        ((f : ContainerClearFinding) × In f members × (is_contradictory f ≡ true))
        ⊎ ((¬ ((f : ContainerClearFinding) × In f members × (is_credited f ≡ true)))
            × ((f : ContainerClearFinding) × In f members × (is_undispositioned f ≡ true))))
unfolding build_clear_cell_report
build_clear_cell_report-blocks key members =
    let s = by_path members in
    let e = blocks-report_of key s (collect s).covered_eligible (collect-credited s) in
    let contra = any-by_path is_contradictory members in
    let credited = any-by_path is_credited members in
    let open_ones = any-by_path is_undispositioned members in
    rw e (
      λ h. elim (Bool-cases (any is_contradictory s)) [
        | inl t ↦ inl (contra.0 t)
        | inr n ↦ inr ((λ c. cc (n, h, credited.1 c)), open_ones.0 (ground (arith, n, h)))
      ],
      λ h. elim h [
        | inl c ↦ ground (arith, contra.1 c)
        | inr k ↦ elim (Bool-cases (any is_credited s)) [
          | inl t ↦ absurd (k.0 (credited.0 t))
          | inr n ↦ ground (arith, n, open_ones.1 k.1)
        ]
      ],
    )

tally_from-blocking_cells :
    (t : ClearTally) (rs : List ClearCellReport)
    → (tally_from t rs).blocking_cells ≡ t.blocking_cells + length (filter blocks rs)
unfolding tally_from
tally_from-blocking_cells t [] = omega arith
tally_from-blocking_cells t (r ∷ rs) =
    tally_from-blocking_cells (tally_report r t) rs ∙ ground arith

-- The count that PrintClearCellReport returns is that of the reports that block.
pub print_clear_cell_report-blocks :
    (reports : List ClearCellReport)
    → print_clear_cell_report reports ≡ length (filter blocks reports)
unfolding print_clear_cell_report
print_clear_cell_report-blocks reports = tally_from-blocking_cells no_tally reports ∙ omega arith
