-- ===== src/Queue/Config/Kept.antt =====
-- topic_config.go: a configuration that GetTopicConfig returns is then cached in the process.
use queue_ti.Base.{
  ℕ, ◌≡◌, refl, Bool, true, false, Option, none, some, inl, inr, Option-cases, ◌++◌, if◌then◌else◌,
}
use queue_ti.Base.Text.{Text, text_eq, text_eq_refl}
use queue_ti.Base.Map
use queue_ti.Queue.Tables.{Db, TopicConfig}
use queue_ti.Queue.Service.{Service, Call}
use queue_ti.Queue.Op.{World, ◌>>◌, pure, next_fault_lem, cache_get, cache_set, cache_delete}
use queue_ti.Queue.Op.Triple.{
  Cond, local_of, Triple, Triple-bind, Triple-if, Triple-pure, Triple-pool_query, Triple-Inert,
  Triple-from,
}
use queue_ti.Queue.Op.Inert.{Inert-cache_get, Inert-cache_delete}
use queue_ti.Queue.Config.{
  config_cache_prefix, cache_not_found_sentinel, find_config, load_local, store_local, fill_caches,
  load_config, from_redis, from_local, get_topic_config,
}

-- A call of redis goes through, fails or is not made.
one_of :
    (P : World → Type 0) (on f : Bool) (s u : World)
    → P s
    → P u
    → P (if on then (if f then s else u) else s)
one_of P true true s u h k = h
one_of P true false s u h k = k
one_of P false f s u h k = h

module _ (sv : Service) (c : Call) (t : Text) (before : Db) where
  abbrev Same : Cond
  Same d c' l = c' ≡ before

  -- The process has cached the configuration.
  abbrev pub Cached : Option TopicConfig → Cond
  Cached o d c' l = (c' ≡ before) × (Map.lookup t l.configs ≡ some o)

  Triple-store_local : (o : Option TopicConfig) → Triple Same (store_local t o) (λ u. Cached o)
  unfolding store_local
  Triple-store_local o = record {
    run = λ s h. (h, rw (Map.lookup-store t t o s.configs, text_eq_refl t) refl);
  }

  Triple-cache_set :
      (o : Option TopicConfig) (k raw : Text) (until : ℕ)
      → Triple (Cached o) (cache_set sv c k raw until) (λ u. Cached o)
  unfolding cache_set
  Triple-cache_set o k raw until = record {
    run = λ s h.
        let (f, fs, e) = next_fault_lem s in
        rw (e, cache_set) (one_of (λ u. Cached o u.db u.committed (local_of u)) sv.redis f _ _ h h);
  }

  Triple-cache_get : (k : Text) → Triple Same (cache_get sv c k) (λ raw. Same)
  Triple-cache_get k = Triple-Inert (Inert-cache_get sv c k) (λ raw d c' l l' h. h)

  Triple-cache_delete : (k : Text) → Triple Same (cache_delete sv k) (λ u. Same)
  Triple-cache_delete k = Triple-Inert (Inert-cache_delete sv k) (λ u d c' l l' h. h)

  Triple-fill_caches : (o : Option TopicConfig) → Triple Same (fill_caches sv c t o) Cached
  unfolding fill_caches
  Triple-fill_caches none = Triple-bind {R = λ u. Cached none} (Triple-store_local none) (λ u.
      Triple-bind {R = λ v. Cached none} (Triple-cache_set none _ _ _)
        (λ v. Triple-pure none (λ d c' l h. h)))
  Triple-fill_caches (some cfg) =
      Triple-bind {R = λ u. Cached (some cfg)} (Triple-store_local (some cfg)) (λ u.
        Triple-bind {R = λ v. Cached (some cfg)} (Triple-cache_set (some cfg) _ _ _)
          (λ v. Triple-pure (some cfg) (λ d c' l h. h)))

  Triple-load_config : Triple Same (load_config sv c t) Cached
  unfolding load_config
  Triple-load_config =
      Triple-bind {R = λ found. Same}
        (Triple-pool_query (λ db. find_config t db.configs) (λ d c' l h. h))
        (λ found. Triple-fill_caches found)

  known : (o : Option TopicConfig) → Triple Same (store_local t o >> pure o) Cached
  known o =
      Triple-bind {R = λ u. Cached o} (Triple-store_local o) (λ u. Triple-pure o (λ d c' l h. h))

  Triple-from_redis : (raw : Option Text) → Triple Same (from_redis sv c t raw) Cached
  unfolding from_redis
  Triple-from_redis none = Triple-load_config
  Triple-from_redis (some raw) =
      Triple-if (text_eq raw cache_not_found_sentinel) (λ e. known none)
        (λ e. elim (Option-cases (sv.libraries.unmarshal_config raw)) [
          | inl u ↦ rw u (
              Triple-bind {R = λ v. Same} (Triple-cache_delete (config_cache_prefix ++ t))
                (λ v. Triple-load_config))
          | inr (cfg, u) ↦ rw u (known (some cfg))
        ])

  -- If GetTopicConfig returns a configuration, the process has cached it then.
  pub Triple-get_topic_config : Triple Same (get_topic_config sv c t) Cached
  unfolding get_topic_config load_local from_local
  Triple-get_topic_config =
      Triple-bind {R = λ local d c' l. Same d c' l × (Map.lookup t l.configs ≡ local)}
        Triple-load_local (λ local. by_local local)
    where
      Triple-load_local :
          Triple Same
            (load_local t)
            (λ local d c' l. Same d c' l × (Map.lookup t l.configs ≡ local))
      Triple-load_local = record { run = λ s h. (h, refl) }

      by_local :
          (local : Option (Option TopicConfig))
          → Triple
              (λ d c' l. Same d c' l × (Map.lookup t l.configs ≡ local))
              (from_local sv c t local)
              Cached
      by_local (some o) = Triple-pure o (λ d c' l h. h)
      by_local none =
          Triple-from (λ d c' l h. h.0)
            (Triple-bind {R = λ raw. Same} (Triple-cache_get (config_cache_prefix ++ t))
              (λ raw. Triple-from_redis raw))
