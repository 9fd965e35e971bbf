-- ===== src/Queue.antt =====
-- backend/internal/queue: the tables, the service, and one child for each part of the service.
pub mod Scheduler
pub mod Queries
pub mod Error
pub mod Tables
pub mod Avro
pub mod Service
pub mod Op
pub mod Statements
pub mod Config
pub mod Lifecycle
pub mod Throttle
pub mod Dequeue
pub mod Schemas
pub mod Enqueue
pub mod Groups
pub mod Reaper
pub mod Replay
pub mod Requests
pub mod Wf
