-- ===== src/Manifest.antt =====
-- What names and describes a file: core/manifest.
pub mod Merkle
pub mod Agreement
pub mod Proofs
pub mod Collision
pub mod Binding
pub mod Document
pub mod Sealing
mod Tests
