-- ===== src/Roundtrip/Cell/Grouping.antt =====
-- What GroupCells puts into each cell.
use crossplane_update_tester.Roundtrip.Cell.{cell_key_eq}
