-- ===== src/Queue/Enqueue/Placed.antt =====
-- What an enqueue that returns an id has done.
use queue_ti.Base.{ℕ, false, Option, none, some, ◌≡◌, refl, ap, arith, ◌&&◌, ltb, leb}
use queue_ti.Base.Text.{Text, has_suffix}
use queue_ti.Base.Map
use queue_ti.Queue.Error.{Result, ok, err, reserved_topic, queue_full, topic_not_registered}
use queue_ti.Queue.Tables.{Db, Message, TopicConfig, pending}
use queue_ti.Queue.Service.{Service, Call, Metadata}
use queue_ti.Queue.Op.{World, enqueued}
use queue_ti.Queue.Op.Triple.{
  Cond, Local, local_of, Triple, AfterDb, Triple-bind, Triple-pure, Triple-raise, Triple-if,
  Triple-observe, Triple-pool_exec, Triple-pool_query, Triple-Inert, ok-IfOk,
}
use queue_ti.Queue.Config.{dlq_suffix}
use queue_ti.Queue.Config.Kept.{Cached, Triple-get_topic_config}
use queue_ti.Queue.Config.Inert.{Inert-get_topic_config}
use queue_ti.Queue.Schemas.Inert.{Inert-validate_payload}
use queue_ti.Queue.Enqueue.Upsert.{Placed, upsert_message-Placed}
use queue_ti.Queue.Enqueue.{
  params_of, EnqueueParams, resolve_enqueue_params, depth, check_depth, new_message, upsert_message,
  check_registered, enqueue,
}

AfterDb-imp :
    {A : Type 0} (R R' : A → Db → Type 0) (r : Result A × Db)
    → ((a : A) (d : Db) → R a d → R' a d)
    → AfterDb R r
    → AfterDb R' r
AfterDb-imp R R' (ok a, d) f h = f a d h
AfterDb-imp R R' (err e, d) f h = tt

-- The limit was not reached, if there is one.
abbrev pub HasRoom : Text → ℕ → Db → Type 0
HasRoom topic n before = (ltb 0 n && leb n (depth topic before)) ≡ false

module _ (sv : Service) (c : Call) (topic payload : Text) (metadata : Metadata)
    (key : Option Text) where
  -- A message that has never been claimed, with what the request and the parameters give.
  pub record Fresh (p : EnqueueParams) (m : Message) : Type 0 where
    pub on_topic : m.topic ≡ topic
    pub with_payload : m.payload ≡ payload
    pub with_metadata : m.metadata ≡ some (sv.libraries.marshal_metadata metadata)
    pub with_key : m.key ≡ key
    pub is_pending : m.status ≡ pending
    pub no_retries : m.retry_count ≡ 0
    pub limit : m.max_retries ≡ p.max_retries
    pub expiry : m.expires_at ≡ p.expires_at
    pub created : m.created_at ≡ c.now
    pub visible : m.visibility_timeout ≡ none
    pub no_origin : m.original_topic ≡ none

  -- What a returned id says: the topic is no dead-letter topic, the process has cached the
  -- configuration of the topic, by it there was room, and the message that it yields was placed.
  pub record Enqueued (before : Db) (id : ℕ) (after : Db) (l : Local) : Type 0 where
    pub allowed : has_suffix topic dlq_suffix ≡ false
    pub config : Option TopicConfig
    pub cached : Map.lookup topic l.configs ≡ some config
    pub room : HasRoom topic (params_of sv c config).max_depth before
    pub new : Message
    pub fresh : Fresh (params_of sv c config) new
    pub placed : Placed new c.now before id after

  module _ (before : Db) where
    abbrev Same : Cond
    Same d c' l = c' ≡ before

    -- The parameters are those of the configuration that the process has cached.
    abbrev Chosen : Local → EnqueueParams → Type 0
    Chosen l p =
        (o : Option TopicConfig) × ((p ≡ params_of sv c o) × (Map.lookup topic l.configs ≡ some o))

    Triple-check_registered : Triple Same (check_registered sv c topic) (λ u. Same)
    unfolding check_registered
    Triple-check_registered =
        Triple-if sv.require_topic_registration
          (λ e.
            Triple-bind {R = λ o. Same}
              (Triple-Inert (Inert-get_topic_config sv c topic) (λ a d c' l l' h. h))
              (elim [
                | none ↦ Triple-raise topic_not_registered
                | some cfg ↦ Triple-pure tt (λ d c' l h. h)
              ]))
          (λ e. Triple-pure tt (λ d c' l h. h))

    Triple-params :
        Triple Same (resolve_enqueue_params sv c topic) (λ p d c' l. Same d c' l × Chosen l p)
    unfolding resolve_enqueue_params
    Triple-params =
        Triple-bind {R = Cached sv c topic before} (Triple-get_topic_config sv c topic before)
          (λ o. Triple-pure (params_of sv c o) (λ d c' l h. (h.0, (o, (refl, h.1)))))

    -- What was chosen stays chosen.
    Triple-check_depth :
        (p : EnqueueParams)
        → Triple
            (λ d c' l. Same d c' l × Chosen l p)
            (check_depth topic p.max_depth)
            (λ u d c' l. (Same d c' l × Chosen l p) × HasRoom topic p.max_depth before)
    unfolding check_depth
    Triple-check_depth p =
        let n = p.max_depth in
        Triple-if (ltb 0 n)
          (λ e.
            Triple-bind {R = λ k d c' l. (Same d c' l × Chosen l p) × (k ≡ depth topic before)}
              (Triple-pool_query (depth topic) (λ d c' l h. (h, ap (depth topic) h.0)))
              (λ k.
                Triple-if (leb n k) (λ f. Triple-raise queue_full)
                  (λ f. Triple-pure tt (λ d c' l h. (h.0, rw (← h.1) (rw f (ground arith)))))))
          (λ e. Triple-pure tt (λ d c' l h. (h, rw e refl)))

    Triple-enqueue :
        Triple Same (enqueue sv c topic payload metadata key) (λ id _. Enqueued before id)
    unfolding enqueue
    Triple-enqueue =
        Triple-if (has_suffix topic dlq_suffix) (λ e. Triple-raise reserved_topic)
          (λ allowed. Triple-bind Triple-check_registered (λ u.
            Triple-bind {R = λ v. Same}
              (Triple-Inert (Inert-validate_payload sv c topic payload) (λ a d c' l l' h. h))
              (λ v. Triple-bind Triple-params (λ p. Triple-bind (Triple-check_depth p) (λ w.
                Triple-bind {R = λ id _. Enqueued before id}
                  (Triple-pool_exec _ (λ d c' l h. placed_of p l h.0.1 allowed c' h.0.0 h.1))
                  (λ id.
                    Triple-bind {R = λ _ _. Enqueued before id}
                      (Triple-observe (enqueued topic) (λ d c' l h. h))
                      (λ x. Triple-pure id (λ d c' l h. h))))))))
      where
        row : Option TopicConfig → Message
        row o =
            new_message c topic payload (sv.libraries.marshal_metadata metadata) (params_of sv c o)
              key

        placed_of :
            (p : EnqueueParams) (l : Local)
            → Chosen l p
            → has_suffix topic dlq_suffix ≡ false
            → (c' : Db) → c' ≡ before
            → HasRoom topic p.max_depth before
            → AfterDb
                (λ id d. Enqueued before id d l)
                (upsert_message
                  (new_message c topic payload (sv.libraries.marshal_metadata metadata) p key)
                  c.now
                  c')
        placed_of p l (o, (e, cached)) allowed c' same room =
            let room' = rw e at room in
            rw same (
              rw e (
                AfterDb-imp (Placed (row o) c.now before) (λ id d. Enqueued before id d l)
                  (upsert_message (row o) c.now before)
                  (λ id d h. record {
                    allowed = allowed;
                    config = o;
                    cached = cached;
                    room = room';
                    new = row o;
                    fresh = record {
                      on_topic = refl;
                      with_payload = refl;
                      with_metadata = refl;
                      with_key = refl;
                      is_pending = refl;
                      no_retries = refl;
                      limit = refl;
                      expiry = refl;
                      created = refl;
                      visible = refl;
                      no_origin = refl;
                    };
                    placed = h;
                  })
                  (upsert_message-Placed (row o) c.now before)))

  -- Whatever fails: if Enqueue returns an id, the topic does not end in ".dlq" and the process has
  -- cached the topic's configuration, which may be none. If that has a maximal depth other than 0,
  -- fewer pending and processing messages than that stood on the topic. The committed tables are
  -- those before the call with the message placed that the configuration yields: a keyed message
  -- whose key another pending one has takes the place of its payload, metadata and max_retries,
  -- under the old id; any other is a new pending row at the end, with a delivery for each group of
  -- the topic. Nothing else has changed.
  pub enqueue-Enqueued :
      (s : World) (id : ℕ)
      → (enqueue sv c topic payload metadata key s).0 ≡ ok id
      → Enqueued s.committed id
          (enqueue sv c topic payload metadata key s).1.committed
          (local_of (enqueue sv c topic payload metadata key s).1)
  enqueue-Enqueued s id e =
      ok-IfOk (λ id _. Enqueued s.committed id) (enqueue sv c topic payload metadata key s)
        ((Triple-enqueue s.committed).run s refl) e
