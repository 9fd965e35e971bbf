-- ===== src/Queue/Enqueue.antt =====
-- enqueue.go
pub mod Placed
pub mod Upsert
use queue_ti.Base.{
  ℕ, ◌+◌, ◌*◌, Bool, true, false, Option, none, some, List, [], ◌∷◌, ◌++◌, ◌&&◌, ◌||◌, ◌==◌, ltb,
  leb, if◌then◌else◌,
}
use queue_ti.Base.Text.{Text, text_eq, has_suffix}
use queue_ti.Base.Table.{first, update, count, any}
use queue_ti.Queue.Error.{
  Error, Result, ok, err, database, reserved_topic, topic_not_registered, queue_full,
}
use queue_ti.Queue.Tables.{
  Db, Message, TopicConfig, pending, processing, status_eq, same_id, same_pending_key, has_id,
}
use queue_ti.Queue.Service.{Service, Call, Metadata}
use queue_ti.Queue.Op.{
  World, Op, pure, raise, ◌>>=◌, ◌>>◌, pool_query, pool_exec, observe, enqueued,
}
use queue_ti.Queue.Config.{get_topic_config, dlq_suffix, second}
use queue_ti.Queue.Schemas.{validate_payload}
use queue_ti.Queue.Statements.{insert_message}

abbrev pub global_expiry : Service → Call → Option ℕ
global_expiry sv c = if ltb 0 sv.message_ttl then some (c.wall + sv.message_ttl) else none

-- resolveExpiresAt: a configured TTL of 0 is "explicitly no TTL".
unfoldable pub resolve_expires_at : Service → Call → Option TopicConfig → Option ℕ
resolve_expires_at sv c none = global_expiry sv c
resolve_expires_at sv c (some cfg) = elim cfg.message_ttl_seconds [
  | none ↦ global_expiry sv c
  | some n ↦ if n == 0 then none else some (c.wall + n * second)
]

pub record EnqueueParams : Type 0 where
  pub max_retries : ℕ
  pub expires_at : Option ℕ
  pub max_depth : ℕ

abbrev pub or_else : ℕ → Option ℕ → ℕ
or_else d none = d
or_else d (some n) = n

-- A maximal depth of 0 is none.
abbrev pub params_of : Service → Call → Option TopicConfig → EnqueueParams
params_of sv c none = record {
  max_retries = sv.max_retries;
  expires_at = resolve_expires_at sv c none;
  max_depth = 0;
}
params_of sv c (some cfg) = record {
  max_retries = or_else sv.max_retries cfg.max_retries;
  expires_at = resolve_expires_at sv c (some cfg);
  max_depth = or_else 0 cfg.max_depth;
}

unfoldable pub resolve_enqueue_params : Service → Call → Text → Op EnqueueParams
resolve_enqueue_params sv c topic = do cfg ← get_topic_config sv c topic; pure (params_of sv c cfg)

abbrev pub is_live : Text → Message → Bool
is_live topic m =
    text_eq m.topic topic && (status_eq m.status pending || status_eq m.status processing)

-- SELECT COUNT(*) … WHERE topic = $1 AND status IN ('pending', 'processing')
unfoldable pub depth : Text → Db → ℕ
depth topic db = count (is_live topic) db.messages

-- A soft check: nothing is locked between it and the INSERT.
unfoldable pub check_depth : Text → ℕ → Op (Unit {0})
check_depth topic max_depth =
    if ltb 0 max_depth
    then (do n ← pool_query (depth topic); if leb max_depth n then raise queue_full else pure tt)
    else pure tt

-- A new row, with the defaults of its columns.
abbrev pub new_message : Call → Text → Text → Text → EnqueueParams → Option Text → Message
new_message c topic payload metadata p key = record {
  id = c.uuid 0;
  topic = topic;
  key = key;
  payload = payload;
  metadata = some metadata;
  status = pending;
  retry_count = 0;
  max_retries = p.max_retries;
  last_error = none;
  expires_at = p.expires_at;
  created_at = c.now;
  updated_at = c.now;
  visibility_timeout = none;
  original_topic = none;
  dlq_moved_at = none;
}

-- DO UPDATE SET, from the row that was excluded.
abbrev pub merged : Message → Message → Message
merged new m = record m {
  payload = new.payload;
  metadata = new.metadata;
  max_retries = new.max_retries;
  updated_at = new.updated_at;
}

-- INSERT … ON CONFLICT (topic, key) WHERE key IS NOT NULL AND status = 'pending' DO UPDATE …
-- RETURNING id. An id that is taken breaks the primary key.
unfoldable pub upsert_message : Message → ℕ → Db → Result ℕ × Db
upsert_message new now db = elim (first (same_pending_key new) db.messages) [
  | some old ↦ (ok old.id, record db { messages = update (has_id old.id) (merged new) db.messages })
  | none ↦
      if any (same_id new) db.messages
      then (err database, db)
      else (ok new.id, insert_message new now db)
]

-- Under requireTopicRegistration the topic must have a configuration.
unfoldable pub check_registered : Service → Call → Text → Op (Unit {0})
check_registered sv c topic =
    if sv.require_topic_registration
    then (do
      cfg ← get_topic_config sv c topic
      elim cfg [ none ↦ raise topic_not_registered | some found ↦ pure tt ])
    else pure tt

unfoldable pub enqueue : Service → Call → Text → Text → Metadata → Option Text → Op ℕ
enqueue sv c topic payload metadata key =
    if has_suffix topic dlq_suffix then raise reserved_topic else do
      check_registered sv c topic
      validate_payload sv c topic payload
      p ← resolve_enqueue_params sv c topic
      check_depth topic p.max_depth
      let json = sv.libraries.marshal_metadata metadata
      id ← pool_exec (upsert_message (new_message c topic payload json p key) c.now)
      observe (enqueued topic)
      pure id
