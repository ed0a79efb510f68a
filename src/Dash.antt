-- ===== src/Dash.antt =====
-- The dashboard: go/internal/dash.
pub mod Sessions
pub mod Auth
pub mod Server
