-- ===== src/Queue/Lifecycle/Nack.antt =====
-- What a rejection that returns has done, on each of its three ways.
use queue_ti.Base.{
  ℕ, ◌+◌, ◌≤◌, ◌<◌, true, false, Option, none, some, ◌++◌, ◌≡◌, refl, ◌∙◌, ap, arith, if◌then◌else◌,
  ◌&&◌, Bool-cases, inl, inr, ◌⊎◌, ltb, leb,
}
use queue_ti.Base.Text.{Text}
use queue_ti.Queue.Config.Tiers.{Configured}
use queue_ti.Base.Table.{first, update}
use queue_ti.Queue.Error.{ok, not_found, not_processing}
use queue_ti.Queue.Tables.{
  Db, Message, Status, TopicConfig, pending, processing, failed, expired, status_eq, has_id,
}
use queue_ti.Queue.Service.{Service, Call}
use queue_ti.Queue.Op.{World}
use queue_ti.Queue.Op.Triple.{
  Cond, local_of, Triple, AfterDb, Triple-bind, Triple-if, Triple-fact, Triple-raise,
  Triple-tx_query, Triple-tx_exec, Triple-transaction, ok-IfOk,
}
use queue_ti.Queue.Config.{dlq_suffix}
use queue_ti.Queue.Statements.{update_message, keys_unique}
use queue_ti.Queue.Lifecycle.{nack, nack_row, promoted, retried, threshold_of}
use queue_ti.Queue.Lifecycle.Rules.{Triple-or_raise, Triple-threshold, Triple-finish}

-- The message after a rejection, by the threshold `n` and the message before.
pub record Rejected (n : ℕ) (reason : Text) (m m' : Message) : Type 0 where
  pub same_id : m'.id ≡ m.id
  pub same_payload : m'.payload ≡ m.payload
  pub same_metadata : m'.metadata ≡ m.metadata
  pub same_key : m'.key ≡ m.key
  pub same_age : m'.created_at ≡ m.created_at
  pub same_expiry : m'.expires_at ≡ m.expires_at
  pub recorded : m'.last_error ≡ some reason
  pub released : m'.visibility_timeout ≡ none
  pub dead :
      0 < n
      → n ≤ m.retry_count + 1
      → (m'.topic ≡ m.topic ++ dlq_suffix)
        × (m'.original_topic ≡ some m.topic)
        × (m'.status ≡ pending)
        × (m'.retry_count ≡ 0)
        × (m'.max_retries ≡ 0)
  pub alive :
      (n ≡ 0) ⊎ (m.retry_count + 1 < n)
      → (m'.topic ≡ m.topic)
        × (m'.original_topic ≡ m.original_topic)
        × (m'.retry_count ≡ m.retry_count + 1)
        × (m'.max_retries ≡ m.max_retries)
  pub exhausted :
      (n ≡ 0) ⊎ (m.retry_count + 1 < n) → m.max_retries ≤ m.retry_count + 1 → m'.status ≡ failed
  pub retryable :
      (n ≡ 0) ⊎ (m.retry_count + 1 < n) → m.retry_count + 1 < m.max_retries → m'.status ≡ pending

promoted-Rejected :
    (c : Call) (n : ℕ) (reason : Text) (m : Message)
    → (ltb 0 n && leb n (m.retry_count + 1)) ≡ true
    → Rejected n reason m (promoted c m.topic reason m)
promoted-Rejected c n reason m e = record {
  same_id = refl;
  same_payload = refl;
  same_metadata = refl;
  same_key = refl;
  same_age = refl;
  same_expiry = refl;
  recorded = refl;
  released = refl;
  dead = λ p q. (refl, refl, refl, refl, refl);
  alive = λ o. absurd (ground arith);
  exhausted = λ o p. absurd (ground arith);
  retryable = λ o p. absurd (ground arith);
}

retried-Rejected :
    (c : Call) (n : ℕ) (reason : Text) (m : Message)
    → (ltb 0 n && leb n (m.retry_count + 1)) ≡ false
    → Rejected n reason m (
        retried c
          (m.retry_count + 1)
          (if leb m.max_retries (m.retry_count + 1) then failed else pending)
          reason
          m)
retried-Rejected c n reason m e = record {
  same_id = refl;
  same_payload = refl;
  same_metadata = refl;
  same_key = refl;
  same_age = refl;
  same_expiry = refl;
  recorded = refl;
  released = refl;
  dead = λ p q. absurd (ground arith);
  alive = λ o. (refl, refl, refl, refl);
  exhausted = λ o p. ground arith;
  retryable = λ o p. ground arith;
}

pub status_eq-processing : (s : Status) → status_eq s processing ≡ true → s ≡ processing
status_eq-processing processing e = refl
status_eq-processing pending e = cc
status_eq-processing failed e = cc
status_eq-processing expired e = cc

-- The tables after an update of the rows with this id, and what became of the row that was read.
abbrev pub Nacked : ℕ → Text → ℕ → Message → Db → Db → Type 0
Nacked n reason id m before after =
    (f : Message → Message) × (m.status ≡ processing)
    × Rejected n reason m (f m)
    × (after ≡ record before { messages = update (has_id id) f before.messages })

updated :
    (id : ℕ) (f : Message → Message) (R : Db → Type 0) (d : Db)
    → R (record d { messages = update (has_id id) f d.messages })
    → AfterDb (λ a d'. R d') (update_message id f d)
unfolding update_message
updated id f R d r = elim (Bool-cases (keys_unique (update (has_id id) f d.messages))) [
  | inl e ↦ rw e r
  | inr e ↦ rw e tt
]

module _ (sv : Service) (c : Call) (id : ℕ) (reason : Text) (m : Message) (o : Option TopicConfig)
    (s : World) where
  abbrev n : ℕ
  n = threshold_of sv (ok o)

  abbrev Done : Db → Type 0
  Done after = Nacked n reason id m s.committed after

  -- The tables and the caches of the start.
  abbrev Same : Cond
  Same d c' l = (d ≡ s.committed) × (c' ≡ s.committed)

  abbrev At : Cond
  At d c' l = Same d c' l × (l ≡ local_of s)

  write :
      (f : Message → Message) (d : Db)
      → d ≡ s.committed
      → m.status ≡ processing
      → Rejected n reason m (f m)
      → AfterDb (λ a d'. Done d') (update_message id f d)
  write f d h p r =
      updated id f Done d
        (f, p, r, ap (λ (x : Db). record x { messages = update (has_id id) f x.messages }) h)

  Triple-nack_row :
      Configured sv c m.topic s.committed (local_of s) o
      → m.status ≡ processing
      → Triple At (nack_row sv c id reason m) (λ _ _ c' _. Done c')
  unfolding nack_row
  Triple-nack_row known p =
      Triple-bind {R = λ k d c' l. Same d c' l × (k ≡ n)}
        (Triple-threshold sv c m.topic (λ d c' l l' h. (o, rw (h.1, h.0.1) known, (h.0, refl))))
        (λ k.
          Triple-if (ltb 0 k && leb k (m.retry_count + 1))
            (λ t.
              Triple-bind {R = λ _ d _ _. Done d}
                (Triple-tx_exec _
                  (λ d c' l h. write _ d h.0.0 p (rw h.1 at (promoted-Rejected c k reason m t))))
                (λ u. Triple-finish _ (λ d c' l h. h)))
            (λ t.
              Triple-bind {R = λ _ d _ _. Done d}
                (Triple-tx_exec _
                  (λ d c' l h. write _ d h.0.0 p (rw h.1 at (retried-Rejected c k reason m t))))
                (λ u. Triple-finish _ (λ d c' l h. h))))

  Triple-nack :
      first (has_id id) s.committed.messages ≡ some m
      → Configured sv c m.topic s.committed (local_of s) o
      → Triple (λ _ c' l. At c' c' l) (nack sv c id reason) (λ _ _ c' _. Done c')
  unfolding nack
  Triple-nack found known =
      Triple-transaction {P' = At} {R = λ _ _ c' _. Done c'} (λ d c' l h. h) (λ a d c' l h. h)
        (Triple-bind {R = λ row d c' l. At d c' l × (row ≡ some m)}
          (Triple-tx_query _
            (λ d c' l h. (h, ap (λ (x : Db). first (has_id id) x.messages) h.0.0 ∙ found)))
          (λ row.
            Triple-bind {R = λ m' d c' l. At d c' l × (m' ≡ m)}
              (Triple-or_raise not_found row (λ m' d c' l q h. (h.0, cc (q, h.1))))
              (λ m'. Triple-fact (λ same. rw same (
                Triple-if (status_eq m.status processing)
                  (λ t. Triple-nack_row known (status_eq-processing m.status t))
                  (λ t. Triple-raise not_processing))))))

-- Let `m` be the row with the id, and `o` the configuration that the tiers give for its topic: the
-- one that the process has cached, whatever fails; or, without one and if nothing fails, that of
-- redis, and of the table if redis has none. If Nack returns no error, `m` was processing. If the new
-- retry count reaches the threshold (the max_retries of `o`, else the service's threshold) and the
-- threshold is not 0, the message is pending on its topic's ".dlq" with retry_count and max_retries
-- 0 and its topic recorded. Otherwise its count has grown by one, and it is failed if that reaches
-- its max_retries and pending if not. In both cases the error is recorded, the visibility timeout is
-- cleared, id, payload, metadata, key, expiry and creation stay, and no other table and no row with
-- another id has changed.
pub nack-Rejected :
    (sv : Service) (c : Call) (id : ℕ) (reason : Text) (s : World) (m : Message)
    (o : Option TopicConfig)
    → first (has_id id) s.committed.messages ≡ some m
    → Configured sv c m.topic s.committed (local_of s) o
    → (nack sv c id reason s).0 ≡ ok tt
    → Nacked (threshold_of sv (ok o)) reason id m s.committed (nack sv c id reason s).1.committed
nack-Rejected sv c id reason s m o found known e =
    ok-IfOk (λ _ _ c' _. Done sv c id reason m o s c') (nack sv c id reason s)
      ((Triple-nack sv c id reason m o s found known).run s ((refl, refl), refl)) e
