-- ===== src/Por.antt =====
-- Proofs of retrievability: core/por.
pub mod Scheme
mod Sums
pub mod Aggregates
pub mod Completeness
pub mod Keys
mod Tests
