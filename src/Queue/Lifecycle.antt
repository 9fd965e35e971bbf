-- ===== src/Queue/Lifecycle.antt =====
-- lifecycle.go: acknowledging, rejecting and requeueing messages and the deliveries of a group.
pub mod Atomic
pub mod NackGroups
pub mod Settles
pub mod Requeue
pub mod Groups
pub mod Rules
pub mod Ack
pub mod Nack
use queue_ti.Base.{
  ℕ, ◌+◌, Bool, true, false, Option, none, some, List, [], ◌∷◌, ◌++◌, ◌&&◌, ◌==◌, ltb, leb,
  if◌then◌else◌,
}
use queue_ti.Base.Text.{Text, text_eq}
use queue_ti.Base.Table.{first, delete, count}
use queue_ti.Queue.Error.{Error, Result, ok, err, not_found, not_processing, not_dlq}
use queue_ti.Queue.Tables.{
  Db, Message, Delivery, Status, LogRow, TopicConfig, pending, processing, failed, status_eq,
  has_id,
}
use queue_ti.Queue.Service.{Service, Call}
use queue_ti.Queue.Op.{
  World, Op, pure, raise, ◌>>=◌, ◌>>◌, plain, tx_query, tx_exec, transaction, commit, observe,
  NackOutcome, retry, exhausted, dlq, acked, nacked, requeued,
}
use queue_ti.Queue.Config.{find_config, get_topic_config, dlq_suffix}
use queue_ti.Queue.Statements.{
  update_message, update_delivery, delete_messages, insert_log, is_delivery, of_message,
}

-- A configured max_retries takes precedence over the threshold of the service.
abbrev pub threshold_of : Service → Result (Option TopicConfig) → ℕ
threshold_of sv (ok (some cfg)) = elim cfg.max_retries [ some n ↦ n | none ↦ sv.dlq_threshold ]
threshold_of sv _ = sv.dlq_threshold

-- effectiveDLQThreshold: an error of GetTopicConfig is dropped.
unfoldable pub effective_dlq_threshold : Service → Call → Text → Op ℕ
effective_dlq_threshold sv c topic s =
    let (r, s') = get_topic_config sv c topic s in (ok (threshold_of sv r), s')

-- SELECT COALESCE(replayable, false) FROM topic_config; no row is false.
unfoldable pub is_replayable : Text → Db → Bool
is_replayable topic db = elim (find_config topic db.configs) [
  | none ↦ false
  | some cfg ↦ cfg.replayable
]

-- archiveToLog; `acked_at` is the default of its column.
unfoldable pub archive_to_log : Call → LogRow → Op (Unit {0})
archive_to_log c r = do
  replayable ← tx_query (is_replayable r.topic)
  if replayable then tx_exec (insert_log r) else pure tt

-- What Ack selects from a message goes into its log row.
abbrev pub log_row : Call → Message → LogRow
log_row c m = record {
  id = m.id;
  topic = m.topic;
  key = m.key;
  payload = m.payload;
  metadata = m.metadata;
  retry_count = m.retry_count;
  max_retries = m.max_retries;
  last_error = m.last_error;
  original_topic = m.original_topic;
  created_at = m.created_at;
  acked_at = c.now;
}

abbrev pub is_processing : ℕ → Message → Bool
is_processing id m = m.id == id && status_eq m.status processing

abbrev pub or_raise {ℓ} : {A : Type ℓ} → Error → Option A → Op A
or_raise e none = raise e
or_raise e (some a) = pure a

unfoldable pub ack : Call → ℕ → Op (Unit {0})
ack c id = transaction do
  row ← tx_query (λ db. first (is_processing id) db.messages)
  m ← or_raise not_found row
  archive_to_log c (log_row c m)
  tx_exec (plain (delete_messages (has_id id)))
  commit
  observe (acked m.topic)

-- Promotion of a message to the dead-letter topic of its own topic.
abbrev pub promoted : Call → Text → Text → Message → Message
promoted c topic reason m = record m {
  topic = topic ++ dlq_suffix;
  original_topic = some topic;
  status = pending;
  retry_count = 0;
  max_retries = 0;
  last_error = some reason;
  dlq_moved_at = some c.now;
  visibility_timeout = none;
  updated_at = c.now;
}

-- The standard path: `pending` again, or `failed` when the retries are used up.
abbrev pub retried : Call → ℕ → Status → Text → Message → Message
retried c count status reason m = record m {
  retry_count = count;
  last_error = some reason;
  visibility_timeout = none;
  updated_at = c.now;
  status = status;
}

abbrev pub nack_outcome : Status → NackOutcome
nack_outcome failed = exhausted
nack_outcome _ = retry

-- Nack behind its guards: `m` is the row as it was read.
unfoldable pub nack_row : Service → Call → ℕ → Text → Message → Op (Unit {0})
nack_row sv c id reason m = do
  let next = m.retry_count + 1
  threshold ← effective_dlq_threshold sv c m.topic
  if ltb 0 threshold && leb threshold next
      then (do
        tx_exec (update_message id (promoted c m.topic reason))
        commit
        observe (nacked m.topic dlq))
      else (do
        let status = if leb m.max_retries next then failed else pending
        tx_exec (update_message id (retried c next status reason))
        commit
        observe (nacked m.topic (nack_outcome status)))

unfoldable pub nack : Service → Call → ℕ → Text → Op (Unit {0})
nack sv c id reason = transaction do
  row ← tx_query (λ db. first (has_id id) db.messages)
  m ← or_raise not_found row
  if status_eq m.status processing then nack_row sv c id reason m else raise not_processing

-- A delivery beside its message, as the joins of the group methods select them.
abbrev pub Joined : Type 0
Joined = Message × Delivery

-- FROM message_deliveries md JOIN messages m ON m.id = md.message_id, by the delivery's key.
unfoldable pub find_joined : ℕ → Text → (Delivery → Bool) → Db → Option Joined
find_joined id group p db = elim (first (λ d. is_delivery id group d && p d) db.deliveries) [
  | none ↦ none
  | some d ↦ elim (first (has_id d.message_id) db.messages) [ none ↦ none | some m ↦ some (m, d) ]
]

-- What AckForGroup selects: the counters and the error are those of the delivery.
abbrev pub group_log_row : Call → Joined → LogRow
group_log_row c (m, d) = record {
  id = m.id;
  topic = m.topic;
  key = m.key;
  payload = m.payload;
  metadata = m.metadata;
  retry_count = d.retry_count;
  max_retries = d.max_retries;
  last_error = d.last_error;
  original_topic = m.original_topic;
  created_at = m.created_at;
  acked_at = c.now;
}

unfoldable pub delete_delivery : ℕ → Text → Db → Db
delete_delivery id group db = record db { deliveries = delete (is_delivery id group) db.deliveries }

-- The message goes with its last delivery.
unfoldable pub finish_message : Call → ℕ → LogRow → ℕ → Op (Unit {0})
finish_message c id r remaining =
    if remaining == 0
    then (do archive_to_log c r; tx_exec (plain (delete_messages (has_id id))))
    else pure tt

unfoldable pub ack_for_group : Call → ℕ → Text → Op (Unit {0})
ack_for_group c id group = transaction do
  row ← tx_query (find_joined id group (λ d. status_eq d.status processing))
  j ← or_raise not_found row
  tx_exec (plain (delete_delivery id group))
  remaining ← tx_query (λ db. count (of_message id) db.deliveries)
  finish_message c id (group_log_row c j) remaining
  commit
  observe (acked j.0.topic)

-- The threshold is reached: the visibility timeout stays as it is.
abbrev pub delivery_failed : Call → ℕ → Text → Delivery → Delivery
delivery_failed c count reason d = record d {
  status = failed;
  retry_count = count;
  last_error = some reason;
  updated_at = c.now;
}

abbrev pub delivery_retried : Call → ℕ → Status → Text → Delivery → Delivery
delivery_retried c count status reason d = record d {
  retry_count = count;
  last_error = some reason;
  visibility_timeout = none;
  updated_at = c.now;
  status = status;
}

unfoldable pub nack_delivery : Service → Call → ℕ → Text → Text → Joined → Op (Unit {0})
nack_delivery sv c id group reason (m, d) = do
  let next = d.retry_count + 1
  threshold ← effective_dlq_threshold sv c m.topic
  if ltb 0 threshold && leb threshold next
      then (do
        tx_exec (plain (update_delivery id group (delivery_failed c next reason)))
        commit
        observe (nacked m.topic dlq))
      else (do
        let status = if ltb 0 d.max_retries && leb d.max_retries next then failed else pending
        tx_exec (plain (update_delivery id group (delivery_retried c next status reason)))
        commit
        observe (nacked m.topic (nack_outcome status)))

unfoldable pub nack_for_group : Service → Call → ℕ → Text → Text → Op (Unit {0})
nack_for_group sv c id group reason = transaction do
  row ← tx_query (find_joined id group (λ d. true))
  j ← or_raise not_found row
  if status_eq j.1.status processing
      then nack_delivery sv c id group reason j
      else raise not_processing

abbrev pub requeued_row : Call → Text → ℕ → Message → Message
requeued_row c topic max_retries m = record m {
  topic = topic;
  original_topic = none;
  dlq_moved_at = none;
  status = pending;
  retry_count = 0;
  max_retries = max_retries;
  visibility_timeout = none;
  updated_at = c.now;
}

-- Requeue behind its guards: a missing or empty original topic is ErrNotDLQ.
unfoldable pub requeue_to : Service → Call → ℕ → Option Text → Op (Unit {0})
requeue_to sv c id none = raise not_dlq
requeue_to sv c id (some []) = raise not_dlq
requeue_to sv c id (some (b ∷ t)) = do
  threshold ← effective_dlq_threshold sv c (b ∷ t)
  tx_exec (update_message id (requeued_row c (b ∷ t) threshold))
  commit
  observe (requeued (b ∷ t))

unfoldable pub requeue : Service → Call → ℕ → Op (Unit {0})
requeue sv c id = transaction do
  row ← tx_query (λ db. first (has_id id) db.messages)
  m ← or_raise not_found row
  requeue_to sv c id m.original_topic
