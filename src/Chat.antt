-- ===== src/Chat.antt =====
-- server/src/chat/service.rs: chat sessions, their rate limit, and the registry of rooms.
pub mod Session
pub mod Events
pub mod Limiter
pub mod Rooms
pub mod Store
pub mod Eviction
pub mod Attachments
pub mod Messages
pub mod Recent
pub mod Linked
