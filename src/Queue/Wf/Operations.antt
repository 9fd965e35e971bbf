-- ===== src/Queue/Wf/Operations.antt =====
-- Every method of the service keeps the tables well formed, whatever fails.
pub mod Rest
pub mod Lifecycle
pub mod Dequeue
pub mod Enqueue
pub mod Maintenance
