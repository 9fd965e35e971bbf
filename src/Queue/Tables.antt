-- ===== src/Queue/Tables.antt =====
-- The tables that backend/internal/db/migrations create, a record for a row of each. Times are
-- nanoseconds, UUIDs are numbers, and texts and blobs are lists of bytes. Columns of type INT are
-- natural numbers. Metadata stands in its column as the JSON text that the code wrote.
use queue_ti.Base.{ℕ, Bool, true, false, Option, List, ◌&&◌, holds, ◌==◌}
use queue_ti.Base.Text.{Text, text_eq}
use queue_ti.Base.Int.{ℤ}

pub data Status : Type 0 where
  pending processing failed expired : Status

abbrev pub status_eq : Status → Status → Bool
status_eq pending pending = true
status_eq processing processing = true
status_eq failed failed = true
status_eq expired expired = true
status_eq _ _ = false

pub record Message : Type 0 where
  pub id : ℕ
  pub topic : Text
  pub key : Option Text
  pub payload : Text
  pub metadata : Option Text
  pub status : Status
  pub retry_count : ℕ
  pub max_retries : ℕ
  pub last_error : Option Text
  pub expires_at : Option ℕ
  pub created_at : ℕ
  pub updated_at : ℕ
  pub visibility_timeout : Option ℕ
  pub original_topic : Option Text
  pub dlq_moved_at : Option ℕ

pub record Delivery : Type 0 where
  pub message_id : ℕ
  pub group : Text
  pub status : Status
  pub visibility_timeout : Option ℕ
  pub retry_count : ℕ
  pub max_retries : ℕ
  pub last_error : Option Text
  pub created_at : ℕ
  pub updated_at : ℕ

pub record Group : Type 0 where
  pub topic : Text
  pub group : Text
  pub created_at : ℕ

pub record LogRow : Type 0 where
  pub id : ℕ
  pub topic : Text
  pub key : Option Text
  pub payload : Text
  pub metadata : Option Text
  pub retry_count : ℕ
  pub max_retries : ℕ
  pub last_error : Option Text
  pub original_topic : Option Text
  pub created_at : ℕ
  pub acked_at : ℕ

-- A `none` means "use global default".
pub record TopicConfig : Type 0 where
  pub topic : Text
  pub max_retries : Option ℕ
  pub message_ttl_seconds : Option ℕ
  pub max_depth : Option ℕ
  pub replayable : Bool
  pub replay_window_seconds : Option ℕ
  pub throughput_limit : Option ℕ

-- Tokens are counted in billionths, below zero too.
pub record Bucket : Type 0 where
  pub topic : Text
  pub tokens : ℤ
  pub last_refill : ℕ

pub record TopicSchema : Type 0 where
  pub topic : Text
  pub schema_json : Text
  pub version : ℕ
  pub updated_at : ℕ

pub record Db : Type 0 where
  pub messages : List Message
  pub deliveries : List Delivery
  pub groups : List Group
  pub log : List LogRow
  pub configs : List TopicConfig
  pub buckets : List Bucket
  pub schemas : List TopicSchema
  pub schedule : Option Text

-- The primary key of `messages`.
abbrev pub same_id : Message → Message → Bool
same_id a b = a.id == b.id

-- idx_messages_topic_key, the partial unique index on (topic, key) of keyed pending rows.
abbrev pub same_pending_key : Message → Message → Bool
same_pending_key a b =
    status_eq a.status pending
    && status_eq b.status pending
    && text_eq a.topic b.topic
    && holds (λ k. holds (text_eq k) b.key) a.key

-- The primary key of `message_deliveries`.
abbrev pub same_delivery : Delivery → Delivery → Bool
same_delivery a b = a.message_id == b.message_id && text_eq a.group b.group

abbrev pub has_id : ℕ → Message → Bool
has_id i m = m.id == i

abbrev pub has_topic : Text → Message → Bool
has_topic t m = text_eq m.topic t
