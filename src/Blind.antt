-- ===== src/Blind.antt =====
-- Blind signatures on publish tokens, credits and demand: core/blindtoken.
pub mod Rsa
pub mod Modular
mod Encoding
pub mod RoundTrip
pub mod Issuer
pub mod Tests
