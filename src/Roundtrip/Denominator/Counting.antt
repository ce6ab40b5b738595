-- ===== src/Roundtrip/Denominator/Counting.antt =====
-- The must-test set and the rows left out of it.
use crossplane_update_tester.Base.{
  ◌+◌, Bool, ◌&&◌, List, [], ◌∷◌, map, length, filter, ◌≡◌, refl, arith,
}
use crossplane_update_tester.Manifest.{UpdateTest}
use crossplane_update_tester.Roundtrip.Cell.{Row}
use crossplane_update_tester.Roundtrip.Denominator.{
  is_must_test_class, is_spec_only, tally, exclusion, denominator_report,
}

abbrev pub is_must_test : Row → Bool
is_must_test r = is_must_test_class r.classification

abbrev pub is_excluded : Row → Bool
is_excluded r =
    is_must_test_class r.classification && (is_spec_only r.classification && r.immutable)

tally-total :
    (rows : List Row)
    → (tally rows).must_test_count + length (tally rows).excluded
      ≡ length (filter is_must_test rows)
unfolding tally
tally-total [] = refl
tally-total (r ∷ rs) = ground (arith, tally-total rs)

tally-excluded : (rows : List Row) → (tally rows).excluded ≡ map exclusion (filter is_excluded rows)
unfolding tally
tally-excluded [] = refl
tally-excluded (r ∷ rs) = ground (arith, tally-excluded rs)

-- In DenominatorReport the must-test count and the exclusions together count every row of the three
-- must-test classes, whatever the manifest tests; and the exclusions are, in the order of the rows,
-- those rows whose class is present-in-spec-absent-from-mirror and whose field is immutable.
pub denominator_report-tally :
    (tests : List UpdateTest) (rows : List Row)
    → ((denominator_report tests rows).tally.must_test_count
          + length (denominator_report tests rows).tally.excluded
        ≡ length (filter is_must_test rows))
      × ((denominator_report tests rows).tally.excluded ≡ map exclusion (filter is_excluded rows))
unfolding denominator_report
denominator_report-tally tests rows = (tally-total rows, tally-excluded rows)
