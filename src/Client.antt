-- ===== src/Client.antt =====
-- clients/go-client: the consumer of messages.
pub mod Batches
pub mod Consumer
