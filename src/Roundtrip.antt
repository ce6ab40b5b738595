-- ===== src/Roundtrip.antt =====
-- internal/roundtrip: the classification of live rows, the cells that they occupy, and the rotation
-- of the representatives that are tested.
pub mod Cell
pub mod Rotation
pub mod Denominator
pub mod Credit
pub mod Clearing
pub mod Ineligible
pub mod Schema
