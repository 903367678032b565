-- ===== src/Attachments.antt =====
-- server/src/attachments: uploads and downloads of files.
pub mod Uploads
pub mod Chunks
