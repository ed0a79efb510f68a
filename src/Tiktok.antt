-- ===== src/Tiktok.antt =====
-- The program's own part of go/internal/tiktok: the button of a carousel's pictures and its session.
pub mod Carousel
