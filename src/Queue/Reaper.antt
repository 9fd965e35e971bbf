-- ===== src/Queue/Reaper.antt =====
-- reaper.go: expiring and deleting messages, and trimming the log to the replay windows.
pub mod Deletion
pub mod Expiry
mod Removed
use queue_ti.Base.{
  ℕ, ◌+◌, ◌*◌, Bool, true, false, Option, none, some, List, [], ◌∷◌, ◌++◌, ◌&&◌, ◌||◌, ◌==◌, ltb,
  if◌then◌else◌, holds,
}
use queue_ti.Base.Text.{Text, text_eq}
use queue_ti.Base.Table.{update, delete, count, any}
use queue_ti.Queue.Error.{Result, ok, err}
use queue_ti.Queue.Tables.{
  Db, Message, LogRow, TopicConfig, pending, processing, expired, status_eq,
}
use queue_ti.Queue.Service.{Service, Call}
use queue_ti.Queue.Op.{
  World, Op, pure, raise, ◌>>=◌, ◌>>◌, always, tx_query, tx_exec, pool_exec, transaction, commit,
  observe, expired_rows, deleted_rows,
}
use queue_ti.Queue.Config.{second}
use queue_ti.Queue.Statements.{delete_messages}

abbrev pub is_overdue : Call → Message → Bool
is_overdue c m =
    holds (λ e. ltb e c.now) m.expires_at
    && (status_eq m.status pending || status_eq m.status processing)

abbrev pub expire : Call → Message → Message
expire c m = record m { status = expired; updated_at = c.now }

-- UPDATE messages SET status = 'expired' …; the number of rows.
unfoldable pub expire_messages : Call → Db → ℕ × Db
expire_messages c db = (
  count (is_overdue c) db.messages,
  record db { messages = update (is_overdue c) (expire c) db.messages },
)

abbrev pub is_expired : Message → Bool
is_expired m = status_eq m.status expired

unfoldable pub delete_expired : Db → ℕ × Db
delete_expired db = (count is_expired db.messages, delete_messages is_expired db)

-- acked_at < now() - window, for a topic that is replayable and has a window.
abbrev pub is_past_window : Call → LogRow → TopicConfig → Bool
is_past_window c r cfg =
    text_eq r.topic cfg.topic
    && cfg.replayable
    && holds (λ w. ltb 0 w && ltb (r.acked_at + w * second) c.now) cfg.replay_window_seconds

-- archiveReaperSQL
unfoldable pub delete_archived : Call → Db → ℕ × Db
delete_archived c db = (
  count (λ r. any (is_past_window c r) db.configs) db.log,
  record db { log = delete (λ r. any (is_past_window c r) db.configs) db.log },
)

abbrev pub observe_rows : ℕ → Op (Unit {0}) → Op (Unit {0})
observe_rows n m = if ltb 0 n then m else pure tt

-- tryWithReaperLock: another instance may hold the lock, and then the tick is skipped.
unfoldable pub try_with_reaper_lock : Bool → Op (Unit {0}) → Op (Unit {0})
try_with_reaper_lock acquired work =
    transaction do got ← tx_query (λ db. acquired); if got then (do work; commit) else pure tt

unfoldable pub expiry_work : Call → Op (Unit {0})
expiry_work c = do
  n ← tx_exec (always (expire_messages c))
  observe_rows n (observe (expired_rows n))

-- One tick of StartExpiryReaper.
unfoldable pub expiry_tick : Call → Bool → Op (Unit {0})
expiry_tick c acquired = try_with_reaper_lock acquired (expiry_work c)

unfoldable pub run_expiry_reaper_once : Call → Op ℕ
run_expiry_reaper_once c = do
  n ← pool_exec (always (expire_messages c))
  observe_rows n (observe (expired_rows n))
  pure n

unfoldable pub run_delete_work : Call → Op ℕ
run_delete_work c = do
  n ← tx_exec (always delete_expired)
  observe_rows n (observe (deleted_rows n))
  tx_exec (always (delete_archived c))
  pure n

-- The job that StartDeleteReaper schedules.
unfoldable pub delete_tick : Call → Bool → Op (Unit {0})
delete_tick c acquired = try_with_reaper_lock acquired (do run_delete_work c; pure tt)

unfoldable pub run_delete_reaper_once : Call → Op ℕ
run_delete_reaper_once c = transaction do n ← run_delete_work c; commit; pure n

unfoldable pub run_archive_reaper_once : Call → Op ℕ
run_archive_reaper_once c = pool_exec (always (delete_archived c))
