-- ===== src/Voice.antt =====
-- server/src/voice: the registry of the participants of voice rooms.
pub mod Registry
