-- ===== src/Queue/Error.antt =====
-- The sentinel errors of backend/internal/queue (service.go, schema.go), and results. An error that
-- the code wraps by `%w` is its sentinel; a failed statement or commit is `database`.
pub data Error : Type 0 where
  no_message not_found not_processing not_dlq reserved_topic queue_full : Error
  topic_not_registered invalid_batch_size topic_not_replayable replay_window_too_old : Error
  consumer_group_not_found consumer_group_exists schema_validation invalid_schema : Error
  invalid_metadata invalid_schedule database : Error

pub data Result {ℓ} (A : Type ℓ) : Type ℓ where
  ok : A → Result A
  err : Error → Result A
