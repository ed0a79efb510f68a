-- ===== src/Worker.antt =====
-- The program's own decisions in go/internal/worker.
pub mod Broadcast
pub mod Task
pub mod Instagram
pub mod Tiktok
pub mod Pinterest
pub mod Download
pub mod Reports
pub mod Released
