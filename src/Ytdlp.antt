-- ===== src/Ytdlp.antt =====
-- The program's own part of go/internal/ytdlp: what a download's error means, and the files it leaves.
pub mod Media
pub mod Errors
