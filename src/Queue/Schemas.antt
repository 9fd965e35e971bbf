-- ===== src/Queue/Schemas.antt =====
-- schema.go: the registered Avro schemas, their caches, and the check of a payload.
pub mod Inert
use queue_ti.Base.{
  ℕ, ◌+◌, ◌*◌, Bool, true, false, Option, none, some, List, [], ◌∷◌, ◌++◌, ◌==◌, if◌then◌else◌,
}
use queue_ti.Base.Text.{Text, bytes, text_eq}
use queue_ti.Base.Map
use queue_ti.Base.Table.{first, update, delete}
use queue_ti.Queue.Error.{Result, ok, err, schema_validation, invalid_schema}
use queue_ti.Queue.Tables.{Db, TopicSchema}
use queue_ti.Queue.Avro.{Schema, validate_json}
use queue_ti.Queue.Service.{Service, Call}
use queue_ti.Queue.Op.{
  World, Op, CachedSchema, pure, raise, ◌>>=◌, ◌>>◌, always, plain, pool_query, pool_exec, publish,
  schema_changed, cache_get, cache_set, cache_delete,
}
use queue_ti.Queue.Config.{cache_not_found_sentinel, second}

abbrev pub schema_cache_prefix : Text
schema_cache_prefix = bytes "queueti:cache:schema:"

abbrev pub schema_cache_ttl : ℕ
schema_cache_ttl = 30 * second

unfoldable pub find_schema : Text → List TopicSchema → Option TopicSchema
find_schema t = first (λ r. text_eq r.topic t)

-- globalSchemaCache.m.Delete
unfoldable pub drop_compiled : Text → Op (Unit {0})
drop_compiled t s = (ok tt, record s { compiled = Map.remove t s.compiled })

abbrev pub bumped : Text → ℕ → TopicSchema → TopicSchema
bumped json now r = record r { schema_json = json; version = r.version + 1; updated_at = now }

abbrev pub first_version : Text → Text → ℕ → TopicSchema
first_version t json now = record { topic = t; schema_json = json; version = 1; updated_at = now }

-- INSERT … ON CONFLICT (topic) DO UPDATE SET version = version + 1 … RETURNING
unfoldable pub upsert_schema_row : Text → Text → ℕ → Db → TopicSchema × Db
upsert_schema_row t json now db = elim (find_schema t db.schemas) [
  | none ↦ (
    first_version t json now,
    record db { schemas = db.schemas ++ first_version t json now ∷ [] },
  )
  | some r ↦ (
    bumped json now r,
    record db { schemas = update (λ q. text_eq q.topic t) (bumped json now) db.schemas },
  )
]

unfoldable pub delete_schema_row : Text → Db → Db
delete_schema_row t db = record db { schemas = delete (λ r. text_eq r.topic t) db.schemas }

module _ (sv : Service) (c : Call) where
  unfoldable pub upsert_topic_schema : Text → Text → Op TopicSchema
  upsert_topic_schema t json = elim (sv.libraries.parse_avro json) [
    | none ↦ raise invalid_schema
    | some parsed ↦ (do drop_compiled t; pool_exec (always (upsert_schema_row t json c.now)))
  ]

  unfoldable pub delete_topic_schema : Text → Op (Unit {0})
  delete_topic_schema t = do drop_compiled t; pool_exec (plain (delete_schema_row t))

  unfoldable pub upsert_topic_schema_and_notify : Text → Text → Op TopicSchema
  upsert_topic_schema_and_notify t json = do
    ts ← upsert_topic_schema t json
    cache_delete sv (schema_cache_prefix ++ t)
    publish schema_changed t
    pure ts

  unfoldable pub delete_topic_schema_and_notify : Text → Op (Unit {0})
  delete_topic_schema_and_notify t = do
    delete_topic_schema t
    cache_delete sv (schema_cache_prefix ++ t)
    publish schema_changed t

  abbrev pub encoded_schema : Option TopicSchema → Text
  encoded_schema none = cache_not_found_sentinel
  encoded_schema (some ts) = sv.libraries.marshal_schema ts

  -- The database tier of getTopicSchemaCached.
  unfoldable pub load_schema : Text → Op (Option TopicSchema)
  load_schema t = do
    ts ← pool_query (λ db. find_schema t db.schemas)
    cache_set sv c (schema_cache_prefix ++ t) (encoded_schema ts) (c.wall + schema_cache_ttl)
    pure ts

  unfoldable pub schema_from_redis : Text → Option Text → Op (Option TopicSchema)
  schema_from_redis t none = load_schema t
  schema_from_redis t (some raw) =
      if text_eq raw cache_not_found_sentinel
      then pure none
      else elim (sv.libraries.unmarshal_schema raw) [
        | some ts ↦ pure (some ts)
        | none ↦ (do cache_delete sv (schema_cache_prefix ++ t); load_schema t)
      ]

  unfoldable pub get_topic_schema_cached : Text → Op (Option TopicSchema)
  get_topic_schema_cached t = do
    raw ← cache_get sv c (schema_cache_prefix ++ t)
    schema_from_redis t raw

  -- The end of resolveSchema: parse, and keep what was parsed.
  unfoldable pub compile : Text → TopicSchema → Op Schema
  compile t ts s = elim (sv.libraries.parse_avro ts.schema_json) [
    | none ↦ raise invalid_schema s
    | some parsed ↦ (
      ok parsed,
      record s {
        compiled = Map.store t (record { schema = parsed; version = ts.version }) s.compiled;
      },
    )
  ]

  -- A compiled schema is used if it is of the version at hand.
  unfoldable pub resolve_schema : Text → TopicSchema → Op Schema
  resolve_schema t ts s = elim (Map.lookup t s.compiled) [
    | none ↦ compile t ts s
    | some entry ↦ if entry.version == ts.version then pure entry.schema s else compile t ts s
  ]

  unfoldable pub check_payload : Text → Text → Option TopicSchema → Op (Unit {0})
  check_payload t payload none = pure tt
  check_payload t payload (some ts) = do
    schema ← resolve_schema t ts
    if validate_json sv.libraries.json schema payload then pure tt else raise schema_validation

  unfoldable pub validate_payload : Text → Text → Op (Unit {0})
  validate_payload t payload = do ts ← get_topic_schema_cached t; check_payload t payload ts
