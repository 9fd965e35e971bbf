-- ===== src/Queue/Replay.antt =====
-- replay.go and purge.go
use queue_ti.Base.{
  ℕ, suc, ◌-◌, ◌*◌, Bool, not, Option, none, some, List, [], ◌∷◌, ◌&&◌, ◌||◌, ltb, leb,
  if◌then◌else◌, holds, absent_or,
}
use queue_ti.Base.Text.{Text, text_eq}
use queue_ti.Base.Table.{select, delete, count, any}
use queue_ti.Queue.Error.{topic_not_replayable, replay_window_too_old}
use queue_ti.Queue.Tables.{
  Db, Message, LogRow, TopicConfig, Status, pending, status_eq, same_id, same_pending_key,
}
use queue_ti.Queue.Service.{Service, Call}
use queue_ti.Queue.Op.{Op, pure, raise, ◌>>=◌, ◌>>◌, always, pool_exec, observe, replayed}
use queue_ti.Queue.Config.{get_topic_config, second}
use queue_ti.Queue.Statements.{insert_message, delete_messages}
use queue_ti.Queue.Enqueue.{resolve_expires_at}

-- The copy of a log row; `k` counts the rows of this call.
abbrev pub replay_row : Call → Option ℕ → ℕ → LogRow → Message
replay_row c expires_at k r = record {
  id = c.uuid k;
  topic = r.topic;
  key = r.key;
  payload = r.payload;
  metadata = r.metadata;
  status = pending;
  retry_count = 0;
  max_retries = r.max_retries;
  last_error = none;
  expires_at = expires_at;
  created_at = c.now;
  updated_at = c.now;
  visibility_timeout = none;
  original_topic = r.original_topic;
  dlq_moved_at = none;
}

-- ON CONFLICT DO NOTHING looks at every unique index.
abbrev pub conflicts : Message → List Message → Bool
conflicts m ms = any (same_id m) ms || any (same_pending_key m) ms

-- INSERT … SELECT … ON CONFLICT DO NOTHING, a row after the other; the number inserted.
unfoldable pub insert_replayed : Call → Option ℕ → ℕ → List LogRow → Db → ℕ × Db
insert_replayed c e k [] db = (0, db)
insert_replayed c e k (r ∷ rs) db =
    let m = replay_row c e k r in
    let skip = conflicts m db.messages in
    let (n, db') =
      insert_replayed c e (suc k) rs (if skip then db else insert_message m c.now db) in
    (if skip then n else suc n, db')

-- WHERE topic = $1, and acked_at >= $2 where a lower bound is known.
abbrev pub in_range : Text → Option ℕ → LogRow → Bool
in_range topic from r = text_eq r.topic topic && absent_or (λ t. leb t r.acked_at) from

unfoldable pub replay_rows : Call → Text → Option ℕ → Option ℕ → Db → ℕ × Db
replay_rows c topic from e db = insert_replayed c e 0 (select (in_range topic from) db.log) db

-- windowStart; `none` is the zero time.
abbrev pub window_start : Call → TopicConfig → Option ℕ
window_start c cfg = elim cfg.replay_window_seconds [
  | none ↦ none
  | some w ↦ if ltb 0 w then some (c.wall - w * second) else none
]

abbrev pub is_too_old : Option ℕ → Option ℕ → Bool
is_too_old start from = holds (λ s. holds (λ f. ltb f s) from) start

abbrev pub or_from : Option ℕ → Option ℕ → Option ℕ
or_from none start = start
or_from (some f) start = some f

unfoldable pub replay_configured : Service → Call → Text → Option ℕ → Option TopicConfig → Op ℕ
replay_configured sv c topic from none = raise topic_not_replayable
replay_configured sv c topic from (some cfg) =
    if not cfg.replayable
    then raise topic_not_replayable
    else if is_too_old (window_start c cfg) from
    then raise replay_window_too_old
    else (do
      n ← pool_exec (
          always (
            replay_rows c topic (or_from from (window_start c cfg))
              (resolve_expires_at sv c (some cfg))))
      (if ltb 0 n then observe (replayed topic n) else pure tt)
      pure n)

-- A `from` of `none` is the zero time.
unfoldable pub replay_topic : Service → Call → Text → Option ℕ → Op ℕ
replay_topic sv c topic from = do
  cfg ← get_topic_config sv c topic
  replay_configured sv c topic from cfg

unfoldable pub trim_rows : Text → ℕ → Db → ℕ × Db
trim_rows topic before db = (
  count (λ r. text_eq r.topic topic && ltb r.acked_at before) db.log,
  record db { log = delete (λ r. text_eq r.topic topic && ltb r.acked_at before) db.log },
)

unfoldable pub trim_message_log : Text → ℕ → Op ℕ
trim_message_log topic before = pool_exec (always (trim_rows topic before))

abbrev pub has_status : List Status → Status → Bool
has_status ss s = any (status_eq s) ss

unfoldable pub purge_rows : (Message → Bool) → Db → ℕ × Db
purge_rows p db = (count p db.messages, delete_messages p db)

unfoldable pub purge_topic : Text → List Status → Op ℕ
purge_topic topic statuses =
    pool_exec (always (purge_rows (λ m. text_eq m.topic topic && has_status statuses m.status)))

unfoldable pub purge_by_key : Text → Text → Op ℕ
purge_by_key topic key =
    pool_exec (always (purge_rows (λ m. text_eq m.topic topic && holds (λ k. text_eq k key) m.key)))
