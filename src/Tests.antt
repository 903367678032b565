-- ===== src/Tests.antt =====
-- The development at concrete inputs: test data, runs, and the theorems applied.
pub mod Data
pub mod Auth
pub mod Payment
pub mod Uploads
pub mod Rooms
pub mod SignIn
pub mod Requests
pub mod Limits
