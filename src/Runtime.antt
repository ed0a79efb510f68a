-- ===== src/Runtime.antt =====
-- The settings that administrators change at run time: go/internal/runtime.
pub mod Setting
pub mod Registry
pub mod Config
pub mod Value
pub mod Lookup
pub mod Check
pub mod Default
pub mod Store
pub mod Platform
