-- ===== src/Runner.antt =====
-- internal/runner: reading, patching and comparing a field, the run of a resource's tests, and the
-- limits that the batch runs under.
pub mod Values
pub mod Unchanged
pub mod Clears
pub mod Field
pub mod Run
pub mod Converge
pub mod ConvergeAll
pub mod Adaptive
pub mod Throttle
