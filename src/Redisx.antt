-- ===== src/Redisx.antt =====
-- The Redis client of the program: go/internal/redisx. Keys, user locks, cancel flags, deduplication
-- and bans; the rate limit and the count of active users, which keep floating-point times in sorted
-- sets, are left out.
pub mod Client
pub mod Keys
pub mod Lock
pub mod Trace
pub mod Bans
