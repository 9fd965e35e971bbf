-- ===== src/Queue/Lifecycle/NackGroups.antt =====
-- What a rejection by a group that returns has done.
use queue_ti.Base.{
  ℕ, ◌+◌, ◌≤◌, ◌<◌, true, false, none, some, ◌≡◌, refl, ap, ◌∙◌, arith, if◌then◌else◌, ◌&&◌, ◌⊎◌,
  ltb, leb, Option,
}
use queue_ti.Base.Text.{Text}
use queue_ti.Queue.Config.Tiers.{Configured}
use queue_ti.Base.Table.{update}
use queue_ti.Queue.Error.{ok, not_found, not_processing}
use queue_ti.Queue.Tables.{Db, Delivery, TopicConfig, processing, pending, failed, status_eq}
use queue_ti.Queue.Service.{Service, Call}
use queue_ti.Queue.Op.{World}
use queue_ti.Queue.Op.Triple.{
  Cond, local_of, Triple, Triple-bind, Triple-if, Triple-fact, Triple-raise, Triple-tx_query,
  Triple-tx_exec, Triple-transaction, ok-IfOk,
}
use queue_ti.Queue.Statements.{is_delivery, update_delivery}
use queue_ti.Queue.Lifecycle.{
  nack_for_group, nack_delivery, delivery_failed, delivery_retried, find_joined, threshold_of,
  Joined,
}
use queue_ti.Queue.Lifecycle.Nack.{status_eq-processing}
use queue_ti.Queue.Lifecycle.Rules.{Triple-or_raise, Triple-threshold, Triple-finish}

-- A delivery after a rejection, by the threshold `n` and the delivery before.
pub record GroupRejected (n : ℕ) (reason : Text) (d d' : Delivery) : Type 0 where
  pub same_message : d'.message_id ≡ d.message_id
  pub same_group : d'.group ≡ d.group
  pub same_limit : d'.max_retries ≡ d.max_retries
  pub counted : d'.retry_count ≡ d.retry_count + 1
  pub recorded : d'.last_error ≡ some reason
  pub dead : 0 < n → n ≤ d.retry_count + 1 → d'.status ≡ failed
  pub exhausted : 0 < d.max_retries → d.max_retries ≤ d.retry_count + 1 → d'.status ≡ failed
  pub retryable :
      (n ≡ 0) ⊎ (d.retry_count + 1 < n)
      → (d.max_retries ≡ 0) ⊎ (d.retry_count + 1 < d.max_retries)
      → d'.status ≡ pending
  pub freed : (n ≡ 0) ⊎ (d.retry_count + 1 < n) → d'.visibility_timeout ≡ none
  pub held : 0 < n → n ≤ d.retry_count + 1 → d'.visibility_timeout ≡ d.visibility_timeout

failed-GroupRejected :
    (c : Call) (n : ℕ) (reason : Text) (d : Delivery)
    → (ltb 0 n && leb n (d.retry_count + 1)) ≡ true
    → GroupRejected n reason d (delivery_failed c (d.retry_count + 1) reason d)
failed-GroupRejected c n reason d e = record {
  same_message = refl;
  same_group = refl;
  same_limit = refl;
  counted = refl;
  recorded = refl;
  dead = λ p q. refl;
  exhausted = λ p q. refl;
  retryable = λ p q. absurd (ground arith);
  freed = λ p. absurd (ground arith);
  held = λ p q. refl;
}

retried-GroupRejected :
    (c : Call) (n : ℕ) (reason : Text) (d : Delivery)
    → (ltb 0 n && leb n (d.retry_count + 1)) ≡ false
    → GroupRejected n reason d (
        delivery_retried c
          (d.retry_count + 1)
          (if ltb 0 d.max_retries && leb d.max_retries (d.retry_count + 1) then failed else pending)
          reason
          d)
retried-GroupRejected c n reason d e = record {
  same_message = refl;
  same_group = refl;
  same_limit = refl;
  counted = refl;
  recorded = refl;
  dead = λ p q. absurd (ground arith);
  exhausted = λ p q. ground arith;
  retryable = λ p q. ground arith;
  freed = λ p. refl;
  held = λ p q. absurd (ground arith);
}

-- The tables after an update of the delivery, and what became of it.
abbrev pub GroupNacked : ℕ → Text → ℕ → Text → Delivery → Db → Db → Type 0
GroupNacked n reason id group d before after =
    (f : Delivery → Delivery) × (d.status ≡ processing)
    × GroupRejected n reason d (f d)
    × (after ≡ record before { deliveries = update (is_delivery id group) f before.deliveries })

module _ (sv : Service) (c : Call) (id : ℕ) (group reason : Text) (j : Joined)
    (o : Option TopicConfig) (s : World) where
  abbrev n : ℕ
  n = threshold_of sv (ok o)

  abbrev Done : Db → Type 0
  Done after = GroupNacked n reason id group j.1 s.committed after

  -- The tables and the caches of the start.
  abbrev Same : Cond
  Same d c' l = (d ≡ s.committed) × (c' ≡ s.committed)

  abbrev At : Cond
  At d c' l = Same d c' l × (l ≡ local_of s)

  write :
      (f : Delivery → Delivery) (d : Db)
      → d ≡ s.committed
      → j.1.status ≡ processing
      → GroupRejected n reason j.1 (f j.1)
      → Done (update_delivery id group f d)
  unfolding update_delivery
  write f d h p r = (
    f,
    p,
    r,
    ap (λ (x : Db). record x { deliveries = update (is_delivery id group) f x.deliveries }) h,
  )

  Triple-nack_delivery :
      Configured sv c j.0.topic s.committed (local_of s) o
      → j.1.status ≡ processing
      → Triple At (nack_delivery sv c id group reason j) (λ _ _ c' _. Done c')
  unfolding nack_delivery
  Triple-nack_delivery known p =
      Triple-bind {R = λ k d c' l. Same d c' l × (k ≡ n)}
        (Triple-threshold sv c j.0.topic (λ d c' l l' h. (o, rw (h.1, h.0.1) known, (h.0, refl))))
        (λ k.
          Triple-if (ltb 0 k && leb k (j.1.retry_count + 1))
            (λ t.
              Triple-bind {R = λ _ d _ _. Done d}
                (Triple-tx_exec _ (λ d c' l h.
                  write _ d h.0.0 p (rw h.1 at (failed-GroupRejected c k reason j.1 t))))
                (λ u. Triple-finish _ (λ d c' l h. h)))
            (λ t.
              Triple-bind {R = λ _ d _ _. Done d}
                (Triple-tx_exec _ (λ d c' l h.
                  write _ d h.0.0 p (rw h.1 at (retried-GroupRejected c k reason j.1 t))))
                (λ u. Triple-finish _ (λ d c' l h. h))))

  Triple-nack_for_group :
      find_joined id group (λ d. true) s.committed ≡ some j
      → Configured sv c j.0.topic s.committed (local_of s) o
      → Triple (λ _ c' l. At c' c' l) (nack_for_group sv c id group reason) (λ _ _ c' _. Done c')
  unfolding nack_for_group
  Triple-nack_for_group found known =
      Triple-transaction {P' = At} {R = λ _ _ c' _. Done c'} (λ d c' l h. h) (λ a d c' l h. h)
        (Triple-bind {R = λ row d c' l. At d c' l × (row ≡ some j)}
          (Triple-tx_query _ (λ d c' l h. (h, ap (find_joined id group (λ d. true)) h.0.0 ∙ found)))
          (λ row.
            Triple-bind {R = λ j' d c' l. At d c' l × (j' ≡ j)}
              (Triple-or_raise not_found row (λ j' d c' l q h. (h.0, cc (q, h.1))))
              (λ j'. Triple-fact (λ same. rw same (
                Triple-if (status_eq j.1.status processing)
                  (λ t. Triple-nack_delivery known (status_eq-processing j.1.status t))
                  (λ t. Triple-raise not_processing))))))

-- Let `j` be the delivery of the message to the group, beside the message, and `o` the
-- configuration that the tiers give for its topic: the one that the process has cached, whatever
-- fails; or, without one and if nothing fails, that of redis, and of the table if redis has none. If
-- NackForGroup returns no error, the delivery was processing. Its count has grown by one and the
-- error is recorded. It is failed if the count has reached the threshold or a retry limit that is
-- not 0, and pending if neither. Its visibility timeout stays if the count has reached the
-- threshold, and is cleared if not. No other delivery and no other table has changed; the message
-- stays where it is.
pub nack_for_group-Rejected :
    (sv : Service) (c : Call) (id : ℕ) (group reason : Text) (s : World) (j : Joined)
    (o : Option TopicConfig)
    → find_joined id group (λ d. true) s.committed ≡ some j
    → Configured sv c j.0.topic s.committed (local_of s) o
    → (nack_for_group sv c id group reason s).0 ≡ ok tt
    → GroupNacked
        (threshold_of sv (ok o))
        reason
        id
        group
        j.1
        s.committed
        (nack_for_group sv c id group reason s).1.committed
nack_for_group-Rejected sv c id group reason s j o found known e =
    ok-IfOk (λ _ _ c' _. Done sv c id group reason j o s c') (nack_for_group sv c id group reason s)
      ((Triple-nack_for_group sv c id group reason j o s found known).run s ((refl, refl), refl)) e
