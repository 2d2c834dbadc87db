-- ===== src/Erasure.antt =====
-- Erasure-coded stripes and the proof of their repair: core/erasure and core/repairproof.
pub mod Stripe
pub mod Repair
pub mod Recovery
pub mod RoundTrip
mod Slots
pub mod Verdict
mod Tests
