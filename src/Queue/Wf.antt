-- ===== src/Queue/Wf.antt =====
-- What holds of the tables between any two statements.
mod Keys
mod Statements
pub mod Operations
pub mod Reach
use queue_ti.Base.{Bool, true, Option, none, some, ◌≡◌, ◌≢◌, ◌++◌}
use queue_ti.Base.Text.{Text}
use queue_ti.Base.Table.{All, NoClash, any}
use queue_ti.Queue.Tables.{
  Db, Message, LogRow, pending, processing, same_id, same_pending_key, same_delivery, has_id,
}
use queue_ti.Queue.Config.{dlq_suffix}

-- A topic beside the original topic of a dead letter.
abbrev pub IsLinked : Text → Option Text → Type 0
IsLinked topic none = Unit
IsLinked topic (some t) = topic ≡ t ++ dlq_suffix

-- Only a claimed message has a visibility timeout that matters, and a dead letter stands on the
-- dead-letter topic of its original topic.
pub record IsRow (m : Message) : Type 0 where
  pub idle : m.status ≡ pending → m.visibility_timeout ≡ none
  pub leased : m.status ≡ processing → m.visibility_timeout ≢ none
  pub linked : IsLinked m.topic m.original_topic

abbrev pub IsLogRow : LogRow → Type 0
IsLogRow r = IsLinked r.topic r.original_topic

pub record Wf (db : Db) : Type 0 where
  pub ids : NoClash same_id db.messages
  pub keys : NoClash same_pending_key db.messages
  pub rows : All IsRow db.messages
  pub archived : All IsLogRow db.log
  pub pairs : NoClash same_delivery db.deliveries
  pub references : All (λ d. any (has_id d.message_id) db.messages ≡ true) db.deliveries
