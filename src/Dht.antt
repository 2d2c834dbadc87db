-- ===== src/Dht.antt =====
-- The routing of core/dht: the XOR metric, the routing table, the iterative lookup and the
-- provider records.
pub mod Distance
pub mod Table
pub mod Lookup
pub mod Providers
pub mod Converge
pub mod Candidates
pub mod Closest
pub mod Bound
pub mod Buckets
pub mod Once
mod Tests
