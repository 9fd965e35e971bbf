-- ===== src/Queue/Service.antt =====
-- service.go: the settings of a Service, what a call brings with it, and the third-party code that
-- the service calls, which is a parameter.
use queue_ti.Base.{ℕ, Bool, Option, List}
use queue_ti.Base.Text.{Text}
use queue_ti.Queue.Tables.{TopicConfig, TopicSchema}
use queue_ti.Queue.Avro.{Schema, Json}

-- map[string]string
abbrev pub Metadata : Type 0
Metadata = List (Text × Text)

-- encoding/json, robfig/cron and hamba/avro: encoders, decoders (`none` is an error), the syntax
-- check of a schedule and the parser of schemas.
pub record Libraries : Type 0 where
  pub marshal_metadata : Metadata → Text
  pub unmarshal_metadata : Text → Option Metadata
  pub marshal_config : TopicConfig → Text
  pub unmarshal_config : Text → Option TopicConfig
  pub marshal_schema : TopicSchema → Text
  pub unmarshal_schema : Text → Option TopicSchema
  pub valid_cron : Text → Bool
  pub parse_avro : Text → Option Schema
  pub json : Json

-- Durations are nanoseconds.
pub record Service : Type 0 where
  pub visibility_timeout : ℕ
  pub max_retries : ℕ
  pub message_ttl : ℕ
  pub dlq_threshold : ℕ
  pub require_topic_registration : Bool
  pub redis : Bool
  pub libraries : Libraries

-- One call: time.Now() of the process, now() of the database, the rows that other transactions hold
-- locked, and the values that gen_random_uuid() gives.
pub record Call : Type 0 where
  pub wall : ℕ
  pub now : ℕ
  pub locked : ℕ → Bool
  pub locked_delivery : ℕ → Text → Bool
  pub uuid : ℕ → ℕ
