-- ===== src/Queue/Config.antt =====
-- topic_config.go: per-topic settings behind two caches.
pub mod Inert
pub mod Kept
pub mod Tiers
use queue_ti.Base.{
  ℕ, suc, ◌+◌, ◌*◌, Bool, true, false, Option, none, some, List, [], ◌∷◌, ◌++◌, ◌==◌, if◌then◌else◌,
}
use queue_ti.Base.Text.{Text, bytes, text_eq, has_suffix}
use queue_ti.Base.Map
use queue_ti.Base.Table.{first, any, update, delete, count, order_by}
use queue_ti.Queue.Error.{Error, Result, ok, err, reserved_topic, not_found}
use queue_ti.Queue.Tables.{Db, TopicConfig, Bucket}
use queue_ti.Queue.Service.{Service, Call}
use queue_ti.Queue.Op.{
  World, Op, pure, raise, ◌>>=◌, ◌>>◌, always, plain, pool_query, pool_exec, publish,
  config_changed, cache_get, cache_set, cache_delete,
}

abbrev pub dlq_suffix : Text
dlq_suffix = bytes ".dlq"

abbrev pub config_cache_prefix : Text
config_cache_prefix = bytes "queueti:cache:topic_config:"

abbrev pub cache_not_found_sentinel : Text
cache_not_found_sentinel = bytes "null"

abbrev pub second : ℕ
second = 1_000_000_000

abbrev pub config_cache_ttl : ℕ
config_cache_ttl = 30 * second

-- SELECT … FROM topic_config WHERE topic = $1
unfoldable pub find_config : Text → List TopicConfig → Option TopicConfig
find_config t cs = first (λ c. text_eq c.topic t) cs

-- topicConfigCache.Load, Store and Delete: the tier inside the process.
unfoldable pub load_local : Text → Op (Option (Option TopicConfig))
load_local t s = (ok (Map.lookup t s.configs), s)

unfoldable pub store_local : Text → Option TopicConfig → Op (Unit {0})
store_local t cfg s = (ok tt, record s { configs = Map.store t cfg s.configs })

unfoldable pub delete_local : Text → Op (Unit {0})
delete_local t s = (ok tt, record s { configs = Map.remove t s.configs })

-- INSERT … ON CONFLICT (topic) DO UPDATE: every column of the row is overwritten.
unfoldable pub upsert_config : TopicConfig → List TopicConfig → List TopicConfig
upsert_config cfg cs =
    if any (λ r. text_eq r.topic cfg.topic) cs
    then update (λ r. text_eq r.topic cfg.topic) (λ r. cfg) cs
    else cs ++ cfg ∷ []

-- topic_config and topic_throughput, each by its primary key; the number of rows deleted.
unfoldable pub delete_config_rows : Text → Db → ℕ × Db
delete_config_rows t db = (
  count (λ r. text_eq r.topic t) db.configs,
  record db { configs = delete (λ r. text_eq r.topic t) db.configs },
)

unfoldable pub delete_bucket_rows : Text → Db → Db
delete_bucket_rows t db = record db { buckets = delete (λ r. text_eq r.topic t) db.buckets }

module _ (sv : Service) (c : Call) where
  -- The end of GetTopicConfig: what the database said goes into both caches.
  unfoldable pub fill_caches : Text → Option TopicConfig → Op (Option TopicConfig)
  fill_caches t none = do
    store_local t none
    cache_set sv c (config_cache_prefix ++ t) cache_not_found_sentinel (c.wall + config_cache_ttl)
    pure none
  fill_caches t (some cfg) = do
    store_local t (some cfg)
    cache_set sv c (config_cache_prefix ++ t) (sv.libraries.marshal_config cfg)
        (c.wall + config_cache_ttl)
    pure (some cfg)

  -- L3: the database.
  unfoldable pub load_config : Text → Op (Option TopicConfig)
  load_config t = do found ← pool_query (λ db. find_config t db.configs); fill_caches t found

  -- L2: an entry that does not decode is evicted.
  unfoldable pub from_redis : Text → Option Text → Op (Option TopicConfig)
  from_redis t none = load_config t
  from_redis t (some raw) =
      if text_eq raw cache_not_found_sentinel
      then (do store_local t none; pure none)
      else elim (sv.libraries.unmarshal_config raw) [
        | some cfg ↦ (do store_local t (some cfg); pure (some cfg))
        | none ↦ (do cache_delete sv (config_cache_prefix ++ t); load_config t)
      ]

  -- L1: the process.
  unfoldable pub from_local : Text → Option (Option TopicConfig) → Op (Option TopicConfig)
  from_local t (some cfg) = pure cfg
  from_local t none = do raw ← cache_get sv c (config_cache_prefix ++ t); from_redis t raw

  unfoldable pub get_topic_config : Text → Op (Option TopicConfig)
  get_topic_config t = do local ← load_local t; from_local t local

  -- The end of UpsertTopicConfig and of DeleteTopicConfig.
  unfoldable pub invalidate_config : Text → Op (Unit {0})
  invalidate_config t = do
    delete_local t
    cache_delete sv (config_cache_prefix ++ t)
    publish config_changed t

  unfoldable pub upsert_topic_config : TopicConfig → Op (Unit {0})
  upsert_topic_config cfg = if has_suffix cfg.topic dlq_suffix then raise reserved_topic else do
    pool_exec (plain (λ db. record db { configs = upsert_config cfg db.configs }))
    invalidate_config cfg.topic

  -- Two statements, each committed by itself.
  unfoldable pub delete_topic_config : Text → Op (Unit {0})
  delete_topic_config t = do
    affected ← pool_exec (always (delete_config_rows t))
    if affected == 0
        then raise not_found
        else do pool_exec (plain (delete_bucket_rows t)); invalidate_config t

-- A broadcast that reaches another process: its listener drops the entry (UseBroadcaster).
unfoldable pub on_config_changed : Text → Op (Unit {0})
on_config_changed t = delete_local t
