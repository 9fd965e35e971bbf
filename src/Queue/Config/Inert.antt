-- ===== src/Queue/Config/Inert.antt =====
-- GetTopicConfig reads the database and writes caches: it keeps every invariant of the tables.
use queue_ti.Base.{refl, Option, none, some, inl, inr, Option-cases, ◌++◌}
use queue_ti.Base.Text.{Text, text_eq}
use queue_ti.Queue.Tables.{TopicConfig}
use queue_ti.Queue.Service.{Service, Call}
use queue_ti.Queue.Op.Inert.{
  Inert, Inert-pure, Inert-bind, Inert-then, Inert-if, Inert-pool_query, Inert-cache_get,
  Inert-cache_set, Inert-cache_delete, Inert-publish,
}
use queue_ti.Queue.Op.{config_changed}
use queue_ti.Queue.Config.{
  load_local, store_local, delete_local, find_config, fill_caches, load_config, from_redis,
  from_local, get_topic_config, invalidate_config, cache_not_found_sentinel, config_cache_prefix,
}

module _ (sv : Service) (c : Call) where
  Inert-load_local : (t : Text) → Inert (load_local t)
  unfolding load_local
  Inert-load_local t = record { same = λ s. (refl, refl) }

  Inert-store_local : (t : Text) (cfg : Option TopicConfig) → Inert (store_local t cfg)
  unfolding store_local
  Inert-store_local t cfg = record { same = λ s. (refl, refl) }

  Inert-delete_local : (t : Text) → Inert (delete_local t)
  unfolding delete_local
  Inert-delete_local t = record { same = λ s. (refl, refl) }

  Inert-fill_caches : (t : Text) (found : Option TopicConfig) → Inert (fill_caches sv c t found)
  unfolding fill_caches
  Inert-fill_caches t none =
      Inert-then (Inert-store_local t none)
        (Inert-then (Inert-cache_set sv c _ _ _) (Inert-pure none))
  Inert-fill_caches t (some cfg) =
      Inert-then (Inert-store_local t (some cfg))
        (Inert-then (Inert-cache_set sv c _ _ _) (Inert-pure (some cfg)))

  Inert-load_config : (t : Text) → Inert (load_config sv c t)
  unfolding load_config
  Inert-load_config t =
      Inert-bind (Inert-pool_query (λ db. find_config t db.configs))
        (λ found. Inert-fill_caches t found)

  Inert-from_redis : (t : Text) (raw : Option Text) → Inert (from_redis sv c t raw)
  unfolding from_redis
  Inert-from_redis t none = Inert-load_config t
  Inert-from_redis t (some raw) =
      Inert-if (text_eq raw cache_not_found_sentinel)
        (λ e. Inert-then (Inert-store_local t none) (Inert-pure none))
        (λ e. elim (Option-cases (sv.libraries.unmarshal_config raw)) [
          | inl u ↦
              rw u (
                Inert-then (Inert-cache_delete sv (config_cache_prefix ++ t)) (Inert-load_config t))
          | inr (cfg, u) ↦
              rw u (Inert-then (Inert-store_local t (some cfg)) (Inert-pure (some cfg)))
        ])

  Inert-from_local :
      (t : Text) (local : Option (Option TopicConfig)) → Inert (from_local sv c t local)
  unfolding from_local
  Inert-from_local t (some cfg) = Inert-pure cfg
  Inert-from_local t none =
      Inert-bind (Inert-cache_get sv c (config_cache_prefix ++ t)) (λ raw. Inert-from_redis t raw)

  pub Inert-get_topic_config : (t : Text) → Inert (get_topic_config sv c t)
  unfolding get_topic_config
  Inert-get_topic_config t = Inert-bind (Inert-load_local t) (λ local. Inert-from_local t local)

  pub Inert-invalidate_config : (t : Text) → Inert (invalidate_config sv c t)
  unfolding invalidate_config
  Inert-invalidate_config t = Inert-then (Inert-delete_local t) (
      Inert-then (Inert-cache_delete sv (config_cache_prefix ++ t))
        (Inert-publish config_changed t))
