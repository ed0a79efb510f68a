-- ===== src/Youtube.antt =====
-- The format card of a YouTube video: go/internal/youtube.
pub mod Formats
pub mod Card
pub mod Session
