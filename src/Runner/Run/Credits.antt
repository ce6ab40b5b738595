-- ===== src/Runner/Run/Credits.antt =====
-- What becomes of the clear credits that a run owes an observation.
use crossplane_update_tester.Base.{list_eq, nat_eq}
use crossplane_update_tester.Manifest.{Manifest}
