-- ===== src/Queue/Requests.antt =====
-- The service as a whole: what its callers, its reapers, the other processes and the network may do.
use queue_ti.Base.{ℕ, Bool, Option, List}
use queue_ti.Base.Text.{Text}
use queue_ti.Queue.Tables.{TopicConfig, Status}
use queue_ti.Queue.Service.{Service, Call, Metadata}
use queue_ti.Queue.Op.{World}
use queue_ti.Queue.Config.{upsert_topic_config, delete_topic_config, on_config_changed}
use queue_ti.Queue.Schemas.{upsert_topic_schema_and_notify, delete_topic_schema_and_notify}
use queue_ti.Queue.Enqueue.{enqueue}
use queue_ti.Queue.Lifecycle.{ack, nack, ack_for_group, nack_for_group, requeue}
use queue_ti.Queue.Dequeue.{dequeue, dequeue_n, dequeue_for_group, dequeue_n_for_group}
use queue_ti.Queue.Groups.{register_consumer_group, unregister_consumer_group}
use queue_ti.Queue.Reaper.{
  expiry_tick, delete_tick, run_expiry_reaper_once, run_delete_reaper_once, run_archive_reaper_once,
}
use queue_ti.Queue.Replay.{replay_topic, trim_message_log, purge_topic, purge_by_key}

-- The methods of Service that change the tables, and the ticks of the two reapers.
pub data Request : Type 0 where
  enqueues : Text → Text → Metadata → Option Text → Request
  dequeues : Text → ℕ → Request
  dequeues_n : Text → ℕ → ℕ → Request
  dequeues_group : Text → Text → ℕ → Request
  dequeues_n_group : Text → Text → ℕ → ℕ → Request
  acks requeues : ℕ → Request
  nacks : ℕ → Text → Request
  acks_group : ℕ → Text → Request
  nacks_group : ℕ → Text → Text → Request
  registers unregisters : Text → Text → Request
  configures : TopicConfig → Request
  unconfigures : Text → Request
  sets_schema : Text → Text → Request
  drops_schema : Text → Request
  ticks_expiry ticks_delete : Bool → Request
  expires deletes archives : Request
  replays : Text → Option ℕ → Request
  trims : Text → ℕ → Request
  purges : Text → List Status → Request
  purges_key : Text → Text → Request

-- The world after a request; what the caller gets is dropped here.
unfoldable pub serve : Service → Call → Request → World → World
serve sv c (enqueues t p m k) s = (enqueue sv c t p m k s).1
serve sv c (dequeues t timeout) s = (dequeue sv c t timeout s).1
serve sv c (dequeues_n t n timeout) s = (dequeue_n sv c t n timeout s).1
serve sv c (dequeues_group t g timeout) s = (dequeue_for_group sv c t g timeout s).1
serve sv c (dequeues_n_group t g n timeout) s = (dequeue_n_for_group sv c t g n timeout s).1
serve sv c (acks id) s = (ack c id s).1
serve sv c (requeues id) s = (requeue sv c id s).1
serve sv c (nacks id reason) s = (nack sv c id reason s).1
serve sv c (acks_group id g) s = (ack_for_group c id g s).1
serve sv c (nacks_group id g reason) s = (nack_for_group sv c id g reason s).1
serve sv c (registers t g) s = (register_consumer_group sv c t g s).1
serve sv c (unregisters t g) s = (unregister_consumer_group t g s).1
serve sv c (configures cfg) s = (upsert_topic_config sv c cfg s).1
serve sv c (unconfigures t) s = (delete_topic_config sv c t s).1
serve sv c (sets_schema t json) s = (upsert_topic_schema_and_notify sv c t json s).1
serve sv c (drops_schema t) s = (delete_topic_schema_and_notify sv c t s).1
serve sv c (ticks_expiry acquired) s = (expiry_tick c acquired s).1
serve sv c (ticks_delete acquired) s = (delete_tick c acquired s).1
serve sv c expires s = (run_expiry_reaper_once c s).1
serve sv c deletes s = (run_delete_reaper_once c s).1
serve sv c archives s = (run_archive_reaper_once c s).1
serve sv c (replays t from) s = (replay_topic sv c t from s).1
serve sv c (trims t before) s = (trim_message_log t before s).1
serve sv c (purges t ss) s = (purge_topic t ss s).1
serve sv c (purges_key t k) s = (purge_by_key t k s).1

-- A step: a request at any time, a broadcast that arrives, other faults to come, or a redis that
-- has changed or lost what it holds.
pub data Step (sv : Service) : World → World → Type 0 where
  serves : (s : World) (c : Call) (r : Request) → Step sv s (serve sv c r s)
  hears : (s : World) (t : Text) → Step sv s (on_config_changed t s).1
  fails : (s : World) (fs : List Bool) → Step sv s (record s { faults = fs })
  evicts :
      (s : World) (entries : List (Text × (Text × ℕ))) → Step sv s (record s { redis = entries })

pub data Reach (sv : Service) (s : World) : World → Type 0 where
  here : Reach sv s s
  next : {t u : World} → Reach sv s t → Step sv t u → Reach sv s u
