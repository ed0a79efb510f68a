-- ===== src/Tests.antt =====
-- Tests by evaluation, instances of the interfaces, and the theorems at concrete inputs.
mod Broker
mod Callbacks
mod Queues
mod Server
mod Locks
mod Settings
mod Dashboard
mod Handlers
mod Media
mod Music
mod Albums
mod Boards
mod Downloads
mod Tiktok
mod Worker
mod Errors
mod Links
mod Youtube
mod Config
