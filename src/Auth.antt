-- ===== src/Auth.antt =====
-- server/src/auth: wallet sign-in, sessions, profiles and payments.
pub mod Error
pub mod Siwe
pub mod Service
pub mod Tables
pub mod Exec
pub mod Db
pub mod History
pub mod Payment
pub mod Handlers
