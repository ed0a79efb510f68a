-- ===== src/Handler.antt =====
-- The handlers of the bots: go/internal/handler and go/internal/botkit.
pub mod Reply
pub mod Cancel
pub mod Enqueue
pub mod Clear
pub mod Music
pub mod Carousel
pub mod Youtube
pub mod Incoming
