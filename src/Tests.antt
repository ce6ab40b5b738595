-- ===== src/Tests.antt =====
-- Concrete inputs on which the theorems are applied.
mod Annotations
mod Documents
mod Cells
mod Clearings
mod Schemas
mod Rotations
mod Sidecars
mod Validations
mod Runs
mod Limits
mod Fleets
mod Arguments
