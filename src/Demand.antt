-- ===== src/Demand.antt =====
-- Witnessed demand: core/demand.
pub mod Receipts
pub mod Bank
pub mod Slots
pub mod Unbacked
pub mod Exchange
mod Tests
