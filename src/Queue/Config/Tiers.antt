-- ===== src/Queue/Config/Tiers.antt =====
-- topic_config.go: which configuration GetTopicConfig finds in its three tiers.
use queue_ti.Base.{
  ℕ, ◌≡◌, refl, ap, Bool, true, false, Option, none, some, List, [], ◌∷◌, ◌++◌, ltb, if◌then◌else◌,
  Bool-cases, inl, inr,
}
use queue_ti.Base.Text.{Text, text_eq}
use queue_ti.Base.Map
use queue_ti.Queue.Error.{ok}
use queue_ti.Queue.Tables.{Db, TopicConfig}
use queue_ti.Queue.Service.{Service, Call}
use queue_ti.Queue.Op.{
  World, next_fault, attempt, pool_query, ◌>>=◌, pure, cache_get, cache_set, cache_delete,
}
use queue_ti.Queue.Op.Triple.{Local, local_of, is_calm}
use queue_ti.Queue.Config.{
  config_cache_prefix, cache_not_found_sentinel, find_config, load_local, store_local, fill_caches,
  load_config, from_redis, from_local, get_topic_config,
}

-- What redis holds under the key of the topic, while it is kept.
abbrev pub kept : Call → Option (Text × ℕ) → Option Text
kept c none = none
kept c (some (raw, until)) = if ltb c.wall until then some raw else none

abbrev pub entry : Service → Call → Text → List (Text × (Text × ℕ)) → Option Text
entry sv c t redis = if sv.redis then kept c (Map.lookup (config_cache_prefix ++ t) redis) else none

-- The configuration of a topic: that of the process; else, while nothing fails, that of redis, where
-- a sentinel stands for no configuration; else the row of the table.
pub data Configured (sv : Service) (c : Call) (t : Text) (db : Db) (l : Local)
    : Option TopicConfig → Type 0 where
  cached : {o : Option TopicConfig} → Map.lookup t l.configs ≡ some o → Configured sv c t db l o
  absent :
      Map.lookup t l.configs ≡ none
      → l.calm ≡ true
      → entry sv c t l.redis ≡ some cache_not_found_sentinel
      → Configured sv c t db l none
  shared :
      {raw : Text} {cfg : TopicConfig}
      → Map.lookup t l.configs ≡ none
      → l.calm ≡ true
      → entry sv c t l.redis ≡ some raw
      → text_eq raw cache_not_found_sentinel ≡ false
      → sv.libraries.unmarshal_config raw ≡ some cfg
      → Configured sv c t db l (some cfg)
  undecoded :
      {raw : Text}
      → Map.lookup t l.configs ≡ none
      → l.calm ≡ true
      → entry sv c t l.redis ≡ some raw
      → text_eq raw cache_not_found_sentinel ≡ false
      → sv.libraries.unmarshal_config raw ≡ none
      → Configured sv c t db l (find_config t db.configs)
  stored :
      Map.lookup t l.configs ≡ none
      → l.calm ≡ true
      → entry sv c t l.redis ≡ none
      → Configured sv c t db l (find_config t db.configs)

next_fault-is_calm :
    (s : World)
    → is_calm s.faults ≡ true
    → (fs : List Bool) × ((next_fault s ≡ (false, record s { faults = fs })) × (is_calm fs ≡ true))
unfolding next_fault is_calm
next_fault-is_calm s calm = split s.faults refl calm
  where
    split :
        (gs : List Bool)
        → s.faults ≡ gs
        → is_calm gs ≡ true
        → (fs : List Bool) × ((next_fault s ≡ (false, record s { faults = fs }))
            × (is_calm fs ≡ true))
    split [] e h = (
      [],
      (rw (e, next_fault) (ap (λ (gs : List Bool). (false, record s { faults = gs })) e), refl),
    )
    split (true ∷ gs) e h = absurd cc
    split (false ∷ gs) e h = (gs, (rw (e, next_fault) refl, h))

module _ (sv : Service) (c : Call) (t : Text) where
  fill_caches-ok :
      (found : Option TopicConfig) (s : World) → (fill_caches sv c t found s).0 ≡ ok found
  unfolding fill_caches ◌>>=◌ store_local cache_set pure
  fill_caches-ok none s = refl
  fill_caches-ok (some cfg) s = refl

  load_config-ok :
      (s : World)
      → is_calm s.faults ≡ true
      → (load_config sv c t s).0 ≡ ok (find_config t s.committed.configs)
  unfolding load_config ◌>>=◌ pool_query attempt
  load_config-ok s calm =
      let (fs, (e, h)) = next_fault-is_calm s calm in
      rw (e, load_config)
        (fill_caches-ok (find_config t s.committed.configs) (record s { faults = fs }))

  -- A world that follows: nothing fails in it either, and the tables are the same.
  abbrev Follows : World → World → Type 0
  Follows s u = (is_calm u.faults ≡ true) × (u.committed ≡ s.committed)

  cache_delete-Follows :
      (k : Text) (s : World)
      → is_calm s.faults ≡ true
      → (u : World) × ((cache_delete sv k s ≡ (ok tt, u)) × Follows s u)
  unfolding cache_delete
  cache_delete-Follows k s calm =
      let (fs, (e, h)) = next_fault-is_calm s calm in
      elim (Bool-cases sv.redis) [
        | inl b ↦ (
          record s { faults = fs; redis = Map.remove k s.redis },
          (rw (e, b, cache_delete) refl, (h, refl)),
        )
        | inr b ↦ (record s { faults = fs }, (rw (e, b, cache_delete) refl, (h, refl)))
      ]

  cache_get-entry :
      (s : World)
      → is_calm s.faults ≡ true
      → (u : World) × ((cache_get sv c (config_cache_prefix ++ t) s
            ≡ (ok (entry sv c t s.redis), u))
          × Follows s u)
  unfolding cache_get
  cache_get-entry s calm =
      let (fs, (e, h)) = next_fault-is_calm s calm in
      (record s { faults = fs }, (rw (e, cache_get) refl, (h, refl)))

  loaded :
      (s u : World)
      → Follows s u
      → (load_config sv c t u).0 ≡ ok (find_config t s.committed.configs)
  loaded s u (calm, same) = rw (← same) (load_config-ok u calm)

  from_redis-undecoded :
      (raw : Text) (s : World)
      → is_calm s.faults ≡ true
      → text_eq raw cache_not_found_sentinel ≡ false
      → sv.libraries.unmarshal_config raw ≡ none
      → (from_redis sv c t (some raw) s).0 ≡ ok (find_config t s.committed.configs)
  unfolding from_redis ◌>>=◌
  from_redis-undecoded raw s calm e d =
      let (u, (run, after)) = cache_delete-Follows (config_cache_prefix ++ t) s calm in
      rw (e, d) (rw run (loaded s u after))

  from_redis-shared :
      (raw : Text) (cfg : TopicConfig) (s : World)
      → text_eq raw cache_not_found_sentinel ≡ false
      → sv.libraries.unmarshal_config raw ≡ some cfg
      → (from_redis sv c t (some raw) s).0 ≡ ok (some cfg)
  unfolding from_redis ◌>>=◌ store_local pure
  from_redis-shared raw cfg s e d = rw (e, d) refl

  from_redis-absent :
      (s : World) → (from_redis sv c t (some cache_not_found_sentinel) s).0 ≡ ok none
  unfolding from_redis ◌>>=◌ store_local pure text_eq
  from_redis-absent s = refl

  -- A process without an entry of its own asks redis.
  by_redis :
      (s : World) (r : Option Text) (o : Option TopicConfig)
      → Map.lookup t s.configs ≡ none
      → is_calm s.faults ≡ true
      → entry sv c t s.redis ≡ r
      → ((u : World) → Follows s u → (from_redis sv c t r u).0 ≡ ok o)
      → (get_topic_config sv c t s).0 ≡ ok o
  unfolding get_topic_config load_local from_local ◌>>=◌
  by_redis s r o e calm d k =
      let (u, (run, after)) = cache_get-entry s calm in rw (e, run, d) (k u after)

  -- GetTopicConfig returns the configuration that the tiers give.
  pub get_topic_config-Configured :
      (s : World) {o : Option TopicConfig}
      → Configured sv c t s.committed (local_of s) o
      → (get_topic_config sv c t s).0 ≡ ok o
  unfolding get_topic_config load_local from_local from_redis ◌>>=◌ pure
  get_topic_config-Configured s (cached e) = rw e refl
  get_topic_config-Configured s (absent e calm d) =
      by_redis s _ none e calm d (λ u f. from_redis-absent u)
  get_topic_config-Configured s (shared {raw} {cfg} e calm d n k) =
      by_redis s _ (some cfg) e calm d (λ u f. from_redis-shared raw cfg u n k)
  get_topic_config-Configured s (undecoded {raw} e calm d n k) =
      by_redis s _ _ e calm d (λ u f. rw (← f.1) (from_redis-undecoded raw u f.0 n k))
  get_topic_config-Configured s (stored e calm d) = by_redis s _ _ e calm d (λ u f. loaded s u f)
