-- ===== src/Crypto.antt =====
-- Authenticated encryption: core/crypto.
pub mod Cipher
pub mod RoundTrip
