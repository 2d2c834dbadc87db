-- ===== src/Chain.antt =====
-- core/chain: the registry as a chain of blocks, with its consensus rules.
pub mod Types
pub mod State
pub mod Metric
pub mod Apply
pub mod Rules
pub mod Fork
pub mod Inversion
pub mod Quorum
pub mod Intersection
pub mod Frame
pub mod Latch
pub mod Linked
pub mod Evict
pub mod Takedown
pub mod Heal
pub mod Queries
pub mod Fresh
pub mod Once
pub mod Auditable
mod Tests
