-- ===== src/Callback.antt =====
-- The payloads of inline buttons: go/internal/cancel/keyboard.go and
-- go/internal/telegraph/callback.go. The proofs are in the children.
pub mod Cancel
pub mod Translate
