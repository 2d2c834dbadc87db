-- ===== src/Registry.antt =====
-- The append-only registry of published roots: core/registry.
pub mod Log
pub mod Gated
pub mod Refinement
pub mod Charging
mod Tests
