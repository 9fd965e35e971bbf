-- ===== src/Server/Http/Topics.antt =====
-- handlers_topic_config.go, handlers_topic_schema.go and handlers_consumer_groups.go. The routes of
-- http.go put jwtAuth and requireAdmin before each handler.
use queue_ti.Base.{ℕ, Bool, true, false, Option, none, some, List, if◌then◌else◌}
use queue_ti.Base.Text.{Text}
use queue_ti.Base.Int.{ℤ, pos, negsuc}
use queue_ti.Queue.Error.{
  Error, reserved_topic, not_found, invalid_schema, consumer_group_exists, consumer_group_not_found,
}
use queue_ti.Queue.Tables.{Db, TopicConfig, TopicSchema}
use queue_ti.Queue.Service.{Call}
use queue_ti.Queue.Op.{pool_query}
use queue_ti.Queue.Config.{upsert_topic_config, delete_topic_config}
use queue_ti.Queue.Schemas.{
  find_schema, upsert_topic_schema_and_notify, delete_topic_schema_and_notify,
}
use queue_ti.Queue.Groups.{register_consumer_group, unregister_consumer_group, list_consumer_groups}
use queue_ti.Queue.Queries.{list_topic_configs, list_topic_schemas}
use queue_ti.Server.Handler.{Server, answer, refuse, on_queue, ◌>>=◌, ◌>>◌, is_empty}
use queue_ti.Server.Http.{Http, json, no_content, with_body, reject_if, server_error}

-- Columns of the table are natural numbers; only the limit is tested for its sign.
pub record TopicConfigRequest : Type 0 where
  pub max_retries : Option ℕ
  pub message_ttl_seconds : Option ℕ
  pub max_depth : Option ℕ
  pub replayable : Option Bool
  pub replay_window_seconds : Option ℕ
  pub throughput_limit : Option ℤ

abbrev pub is_negative : Option ℤ → Bool
is_negative none = false
is_negative (some (pos n)) = false
is_negative (some (negsuc n)) = true

abbrev pub to_natural : Option ℤ → Option ℕ
to_natural none = none
to_natural (some (pos n)) = some n
to_natural (some (negsuc n)) = none

abbrev pub or_false : Option Bool → Bool
or_false none = false
or_false (some b) = b

-- A topic that cannot be replayed has no window.
unfoldable pub to_config : Text → TopicConfigRequest → TopicConfig
to_config topic req = record {
  topic = topic;
  max_retries = req.max_retries;
  message_ttl_seconds = req.message_ttl_seconds;
  max_depth = req.max_depth;
  replayable = or_false req.replayable;
  replay_window_seconds = if or_false req.replayable then req.replay_window_seconds else none;
  throughput_limit = to_natural req.throughput_limit;
}

abbrev pub config_status : Error → ℕ
config_status reserved_topic = 400
config_status _ = 500

abbrev pub deletion_status : Error → ℕ
deletion_status not_found = 404
deletion_status _ = 500

abbrev pub schema_status : Error → ℕ
schema_status invalid_schema = 400
schema_status _ = 500

abbrev pub register_status : Error → ℕ
register_status consumer_group_exists = 409
register_status _ = 500

abbrev pub unregister_status : Error → ℕ
unregister_status consumer_group_not_found = 404
unregister_status _ = 500

abbrev pub schema_or_404 : Option TopicSchema → Http TopicSchema
schema_or_404 none = refuse 404
schema_or_404 (some schema) = json schema

module _ (sv : Server) (c : Call) where
  unfoldable pub configs_list : Http (List TopicConfig)
  configs_list = on_queue server_error (list_topic_configs sv.postgres) >>= json

  unfoldable pub configs_upsert : Text → Option TopicConfigRequest → Http TopicConfig
  configs_upsert topic body = with_body body (λ req. do
    reject_if (is_negative req.throughput_limit) 400
    on_queue config_status (upsert_topic_config sv.service c (to_config topic req))
    json (to_config topic req))

  unfoldable pub configs_delete : Text → Http (Unit {0})
  configs_delete topic =
      on_queue deletion_status (delete_topic_config sv.service c topic) >> no_content

  unfoldable pub schemas_list : Http (List TopicSchema)
  schemas_list = on_queue server_error (list_topic_schemas sv.postgres) >>= json

  unfoldable pub schemas_upsert : Text → Option Text → Http TopicSchema
  schemas_upsert topic body = with_body body (λ schema_json. do
    schema ← on_queue schema_status (upsert_topic_schema_and_notify sv.service c topic schema_json)
    json schema)

  unfoldable pub schemas_delete : Text → Http (Unit {0})
  schemas_delete topic =
      on_queue server_error (delete_topic_schema_and_notify sv.service c topic) >> no_content

  unfoldable pub schemas_get : Text → Http TopicSchema
  schemas_get topic =
      on_queue server_error (pool_query (λ (db : Db). find_schema topic db.schemas))
      >>= schema_or_404

  unfoldable pub groups_list : Text → Http (List Text)
  groups_list topic = on_queue server_error (list_consumer_groups topic) >>= json

  unfoldable pub groups_register : Text → Option Text → Http (Unit {0})
  groups_register topic body = with_body body (λ group. do
    reject_if (is_empty group) 400
    on_queue register_status (register_consumer_group sv.service c topic group)
    answer (record { status = 201; body = tt }))

  unfoldable pub groups_unregister : Text → Text → Http (Unit {0})
  groups_unregister topic group =
      on_queue unregister_status (unregister_consumer_group topic group) >> no_content
