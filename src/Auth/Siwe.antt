-- ===== src/Auth/Siwe.antt =====
-- server/src/auth/siwe.rs: sign-in with Ethereum.
pub mod Message
pub mod Validate
pub mod Signature
pub mod Verify
pub mod Consume
