-- ===== src/Queue/Lifecycle/Requeue.antt =====
-- What a requeue that returns has done.
use queue_ti.Base.{ℕ, Option, none, some, ◌∷◌, ◌≡◌, refl, ◌∙◌, ap, Bool-cases, inl, inr}
use queue_ti.Base.Text.{Text}
use queue_ti.Queue.Config.Tiers.{Configured}
use queue_ti.Base.Table.{first, update}
use queue_ti.Queue.Error.{ok, not_found}
use queue_ti.Queue.Tables.{Db, Message, TopicConfig, pending, has_id}
use queue_ti.Queue.Service.{Service, Call}
use queue_ti.Queue.Op.{World, requeued}
use queue_ti.Queue.Op.Triple.{
  Cond, local_of, Triple, AfterDb, Triple-bind, Triple-fact, Triple-tx_query, Triple-tx_exec,
  Triple-transaction, ok-IfOk,
}
use queue_ti.Queue.Statements.{update_message, keys_unique}
use queue_ti.Queue.Lifecycle.{requeue, requeue_to, requeued_row, threshold_of}
use queue_ti.Queue.Lifecycle.Rules.{Triple-or_raise, Triple-threshold, Triple-finish}

-- A message before and after it has gone back to the topic `t` with the retry limit `n`.
pub record BackOn (t : Text) (n : ℕ) (m m' : Message) : Type 0 where
  pub same_id : m'.id ≡ m.id
  pub same_payload : m'.payload ≡ m.payload
  pub same_metadata : m'.metadata ≡ m.metadata
  pub same_key : m'.key ≡ m.key
  pub same_error : m'.last_error ≡ m.last_error
  pub same_expiry : m'.expires_at ≡ m.expires_at
  pub same_age : m'.created_at ≡ m.created_at
  pub on_topic : m'.topic ≡ t
  pub is_pending : m'.status ≡ pending
  pub no_origin : m'.original_topic ≡ none
  pub no_move : m'.dlq_moved_at ≡ none
  pub no_retries : m'.retry_count ≡ 0
  pub limit : m'.max_retries ≡ n
  pub visible : m'.visibility_timeout ≡ none

-- The tables after the rows with the id have gone back to `t` with the retry limit `n`.
abbrev pub RequeuedTo : ℕ → Text → ℕ → Db → Db → Type 0
RequeuedTo id t n before after =
    (f : Message → Message) × ((m : Message) → BackOn t n m (f m))
    × (after ≡ record before { messages = update (has_id id) f before.messages })

requeued_row-BackOn :
    (c : Call) (t : Text) (n : ℕ) (m : Message) → BackOn t n m (requeued_row c t n m)
requeued_row-BackOn c t n m = record {
  same_id = refl;
  same_payload = refl;
  same_metadata = refl;
  same_key = refl;
  same_error = refl;
  same_expiry = refl;
  same_age = refl;
  on_topic = refl;
  is_pending = refl;
  no_origin = refl;
  no_move = refl;
  no_retries = refl;
  limit = refl;
  visible = refl;
}

updated :
    (c : Call) (id : ℕ) (t : Text) (n : ℕ) (before d : Db)
    → d ≡ before
    → AfterDb (λ a d'. RequeuedTo id t n before d') (update_message id (requeued_row c t n) d)
unfolding update_message
updated c id t n before d h =
    let f : Message → Message = requeued_row c t n in
    elim (Bool-cases (keys_unique (update (has_id id) f d.messages))) [
      | inl e ↦ rw e (
        f,
        requeued_row-BackOn c t n,
        ap (λ (x : Db). record x { messages = update (has_id id) f x.messages }) h,
      )
      | inr e ↦ rw e tt
    ]

module _ (sv : Service) (c : Call) (id : ℕ) (b : ℕ) (t : Text) (o : Option TopicConfig)
    (s : World) where
  -- The tables of the start, with the threshold that is found, and with the caches of the start.
  abbrev Same : Cond
  Same d c' l = (d ≡ s.committed) × (c' ≡ s.committed)

  abbrev At : Cond
  At d c' l = Same d c' l × (l ≡ local_of s)

  abbrev Done : Db → Type 0
  Done = RequeuedTo id (b ∷ t) (threshold_of sv (ok o)) s.committed

  Triple-requeue_to :
      Configured sv c (b ∷ t) s.committed (local_of s) o
      → Triple At (requeue_to sv c id (some (b ∷ t))) (λ _ _ c' _. Done c')
  unfolding requeue_to
  Triple-requeue_to known =
      Triple-bind {R = λ k d c' l. Same d c' l × (k ≡ threshold_of sv (ok o))}
        (Triple-threshold sv c (b ∷ t) (λ d c' l l' h. (o, rw (h.1, h.0.1) known, (h.0, refl))))
        (λ k. Triple-fact (λ same.
          Triple-bind {R = λ _ d _ _. Done d}
            (Triple-tx_exec _ (λ d c' l h.
              rw same (updated c id (b ∷ t) (threshold_of sv (ok o)) s.committed d h.0)))
            (λ u. Triple-finish (requeued (b ∷ t)) (λ d c' l h. h))))

-- Let `m` be the row with the id, `b ∷ t` its original topic, and `o` the configuration that the
-- tiers give for that topic: the one that the process has cached, whatever fails; or, without one
-- and if nothing fails, that of redis, and of the table if redis has none. If Requeue returns no
-- error, the rows with the id are pending on that topic with no retries, no visibility timeout, no
-- dead-letter columns and the threshold as retry limit; id, payload, metadata, key, error, expiry
-- and creation stay, and no other row and no other table has changed.
pub requeue-refines :
    (sv : Service) (c : Call) (id : ℕ) (b : ℕ) (t : Text) (o : Option TopicConfig) (s : World)
    (m : Message)
    → first (has_id id) s.committed.messages ≡ some m
    → m.original_topic ≡ some (b ∷ t)
    → Configured sv c (b ∷ t) s.committed (local_of s) o
    → (requeue sv c id s).0 ≡ ok tt
    → RequeuedTo id (b ∷ t) (threshold_of sv (ok o)) s.committed (requeue sv c id s).1.committed
unfolding requeue
requeue-refines sv c id b t o s m found dead known e =
    ok-IfOk (λ _ _ c' _. Done sv c id b t o s c') (requeue sv c id s) (triple.run s (refl, refl)) e
  where
    triple :
        Triple
          (λ _ c' l. (c' ≡ s.committed) × (l ≡ local_of s))
          (requeue sv c id)
          (λ _ _ c' _. Done sv c id b t o s c')
    triple =
        Triple-transaction {P' = At sv c id b t o s} {R = λ _ _ c' _. Done sv c id b t o s c'}
          (λ d c' l h. ((h.0, h.0), h.1)) (λ a d c' l h. h)
          (Triple-bind {R = λ row d c' l. At sv c id b t o s d c' l × (row ≡ some m)}
            (Triple-tx_query _
              (λ d c' l h. (h, ap (λ (x : Db). first (has_id id) x.messages) h.0.0 ∙ found)))
            (λ row.
              Triple-bind {R = λ m' d c' l. At sv c id b t o s d c' l × (m' ≡ m)}
                (Triple-or_raise not_found row (λ m' d c' l q h. (h.0, cc (q, h.1))))
                (λ m'.
                  Triple-fact
                    (λ same. rw same (rw dead (Triple-requeue_to sv c id b t o s known))))))
