-- ===== src/Queue/Schemas/Inert.antt =====
-- The check of a payload reads the database and writes caches.
use queue_ti.Base.{refl, Bool-cases, Option, none, some, inl, inr, Option-cases, ◌++◌, ◌==◌}
use queue_ti.Base.Text.{Text, text_eq}
use queue_ti.Base.Map
use queue_ti.Queue.Tables.{TopicSchema}
use queue_ti.Queue.Avro.{validate_json}
use queue_ti.Queue.Service.{Service, Call}
use queue_ti.Queue.Op.{pure, raise}
use queue_ti.Queue.Op.Inert.{
  Inert, Inert-pure, Inert-raise, Inert-bind, Inert-then, Inert-if, Inert-pool_query,
  Inert-cache_get, Inert-cache_set, Inert-cache_delete,
}
use queue_ti.Queue.Config.{cache_not_found_sentinel}
use queue_ti.Queue.Schemas.{
  find_schema, load_schema, schema_from_redis, get_topic_schema_cached, compile, resolve_schema,
  check_payload, validate_payload, drop_compiled, schema_cache_prefix,
}
use queue_ti.Queue.Error.{schema_validation}

module _ (sv : Service) (c : Call) where
  pub Inert-drop_compiled : (t : Text) → Inert (drop_compiled t)
  unfolding drop_compiled
  Inert-drop_compiled t = record { same = λ s. (refl, refl) }

  Inert-load_schema : (t : Text) → Inert (load_schema sv c t)
  unfolding load_schema
  Inert-load_schema t =
      Inert-bind (Inert-pool_query (λ db. find_schema t db.schemas))
        (λ ts. Inert-then (Inert-cache_set sv c _ _ _) (Inert-pure ts))

  Inert-schema_from_redis : (t : Text) (raw : Option Text) → Inert (schema_from_redis sv c t raw)
  unfolding schema_from_redis
  Inert-schema_from_redis t none = Inert-load_schema t
  Inert-schema_from_redis t (some raw) =
      Inert-if (text_eq raw cache_not_found_sentinel) (λ e. Inert-pure none)
        (λ e. elim (Option-cases (sv.libraries.unmarshal_schema raw)) [
          | inl u ↦
              rw u (
                Inert-then (Inert-cache_delete sv (schema_cache_prefix ++ t)) (Inert-load_schema t))
          | inr (ts, u) ↦ rw u (Inert-pure (some ts))
        ])

  Inert-get_topic_schema_cached : (t : Text) → Inert (get_topic_schema_cached sv c t)
  unfolding get_topic_schema_cached
  Inert-get_topic_schema_cached t =
      Inert-bind (Inert-cache_get sv c (schema_cache_prefix ++ t))
        (λ raw. Inert-schema_from_redis t raw)

  Inert-compile : (t : Text) (ts : TopicSchema) → Inert (compile sv c t ts)
  unfolding compile raise
  Inert-compile t ts = record {
    same = λ s. elim (Option-cases (sv.libraries.parse_avro ts.schema_json)) [
      | inl e ↦ rw (e, compile) (refl, refl)
      | inr (parsed, e) ↦ rw (e, compile) (refl, refl)
    ];
  }

  Inert-resolve_schema : (t : Text) (ts : TopicSchema) → Inert (resolve_schema sv c t ts)
  unfolding resolve_schema pure
  Inert-resolve_schema t ts = record {
    same = λ s. elim (Option-cases (Map.lookup t s.compiled)) [
      | inl e ↦ rw (e, resolve_schema) ((Inert-compile t ts).same s)
      | inr (entry, e) ↦ elim (Bool-cases (entry.version == ts.version)) [
        | inl v ↦ rw (e, resolve_schema) (rw v (refl, refl))
        | inr v ↦ rw (e, resolve_schema) (rw v ((Inert-compile t ts).same s))
      ]
    ];
  }

  Inert-check_payload :
      (t payload : Text) (ts : Option TopicSchema) → Inert (check_payload sv c t payload ts)
  unfolding check_payload
  Inert-check_payload t payload none = Inert-pure tt
  Inert-check_payload t payload (some ts) = Inert-bind (Inert-resolve_schema t ts) (λ schema.
      Inert-if (validate_json sv.libraries.json schema payload) (λ e. Inert-pure tt)
        (λ e. Inert-raise schema_validation))

  pub Inert-validate_payload : (t payload : Text) → Inert (validate_payload sv c t payload)
  unfolding validate_payload
  Inert-validate_payload t payload =
      Inert-bind (Inert-get_topic_schema_cached t) (λ ts. Inert-check_payload t payload ts)
