-- ===== src/Queue.antt =====
-- The job queue: go/internal/queue. The tasks' payloads and their JSON form, the client that
-- enqueues, and the clearing of a user's tasks.
pub mod Payload
pub mod Asynq
pub mod Client
pub mod Clear
