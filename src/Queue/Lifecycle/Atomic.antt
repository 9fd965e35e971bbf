-- ===== src/Queue/Lifecycle/Atomic.antt =====
-- lifecycle.go: a method that returns an error has committed nothing.
use queue_ti.Base.{
  ℕ, refl, Bool, true, false, Option, none, some, [], ◌∷◌, ◌+◌, ◌&&◌, ◌==◌, ltb, leb, if◌then◌else◌,
}
use queue_ti.Base.Text.{Text}
use queue_ti.Queue.Error.{Error}
use queue_ti.Queue.Tables.{Message, LogRow, status_eq, processing}
use queue_ti.Queue.Service.{Service, Call}
use queue_ti.Queue.Op.{World, Op, pure, raise}
use queue_ti.Queue.Op.Atomic.{
  Uncommitted, Kept, Atomic, Atomic-raise, Atomic-transaction, Atomic-if, Atomic-bind,
  Atomic-finish, Uncommitted-tx_query, Uncommitted-tx_exec, Uncommitted-bind, Uncommitted-Inert,
}
use queue_ti.Queue.Config.Inert.{Inert-get_topic_config}
use queue_ti.Queue.Lifecycle.{
  Joined, or_raise, effective_dlq_threshold, archive_to_log, ack, nack, nack_row, ack_for_group,
  finish_message, nack_for_group, nack_delivery, requeue, requeue_to,
}

Uncommitted-pure {ℓ} : {A : Type ℓ} (a : A) → Uncommitted (pure a)
unfolding pure
Uncommitted-pure a s = refl

Uncommitted-if {ℓ} :
    {A : Type ℓ} (b : Bool) (m n : Op A)
    → Uncommitted m
    → Uncommitted n
    → Uncommitted (if b then m else n)
Uncommitted-if true m n h k = h
Uncommitted-if false m n h k = k

Uncommitted-or_raise {ℓ} : {A : Type ℓ} (e : Error) (o : Option A) → Uncommitted (or_raise e o)
unfolding raise pure
Uncommitted-or_raise e none s = refl
Uncommitted-or_raise e (some a) s = refl

module _ (sv : Service) (c : Call) where
  threshold-Uncommitted : (t : Text) → Uncommitted (effective_dlq_threshold sv c t)
  unfolding effective_dlq_threshold
  threshold-Uncommitted t s = Uncommitted-Inert _ (Inert-get_topic_config sv c t) s

  archive-Uncommitted : (r : LogRow) → Uncommitted (archive_to_log c r)
  unfolding archive_to_log
  archive-Uncommitted r =
      Uncommitted-bind _ _ (Uncommitted-tx_query _)
        (λ b. Uncommitted-if b _ _ (Uncommitted-tx_exec _) (Uncommitted-pure tt))

  ack-Atomic : (id : ℕ) → Atomic (ack c id)
  unfolding ack
  ack-Atomic id = Atomic-transaction _ (
      Atomic-bind _ _ (Uncommitted-tx_query _) (λ row.
        Atomic-bind _ _ (Uncommitted-or_raise _ row) (λ m.
          Atomic-bind _ _ (archive-Uncommitted _)
            (λ u. Atomic-bind _ _ (Uncommitted-tx_exec _) (λ v. Atomic-finish _)))))

  nack_row-Atomic : (id : ℕ) (reason : Text) (m : Message) → Atomic (nack_row sv c id reason m)
  unfolding nack_row
  nack_row-Atomic id reason m = Atomic-bind _ _ (threshold-Uncommitted m.topic) (λ threshold.
      Atomic-if (ltb 0 threshold && leb threshold (m.retry_count + 1)) _ _
        (Atomic-bind _ _ (Uncommitted-tx_exec _) (λ u. Atomic-finish _))
        (Atomic-bind _ _ (Uncommitted-tx_exec _) (λ u. Atomic-finish _)))

  nack-Atomic : (id : ℕ) (reason : Text) → Atomic (nack sv c id reason)
  unfolding nack
  nack-Atomic id reason = Atomic-transaction _ (
      Atomic-bind _ _ (Uncommitted-tx_query _) (λ row.
        Atomic-bind _ _ (Uncommitted-or_raise _ row) (λ m.
          Atomic-if (status_eq m.status processing) _ _ (nack_row-Atomic id reason m)
            (Atomic-raise _))))

  finish_message-Uncommitted :
      (id : ℕ) (r : LogRow) (remaining : ℕ) → Uncommitted (finish_message c id r remaining)
  unfolding finish_message
  finish_message-Uncommitted id r remaining =
      Uncommitted-if (remaining == 0) _ _
        (Uncommitted-bind _ _ (archive-Uncommitted r) (λ u. Uncommitted-tx_exec _))
        (Uncommitted-pure tt)

  ack_for_group-Atomic : (id : ℕ) (group : Text) → Atomic (ack_for_group c id group)
  unfolding ack_for_group
  ack_for_group-Atomic id group = Atomic-transaction _ (
      Atomic-bind _ _ (Uncommitted-tx_query _) (λ row.
        Atomic-bind _ _ (Uncommitted-or_raise _ row) (λ j.
          Atomic-bind _ _ (Uncommitted-tx_exec _) (λ u.
            Atomic-bind _ _ (Uncommitted-tx_query _) (λ remaining.
              Atomic-bind _ _ (finish_message-Uncommitted id _ remaining)
                (λ v. Atomic-finish _))))))

  nack_delivery-Atomic :
      (id : ℕ) (group reason : Text) (j : Joined) → Atomic (nack_delivery sv c id group reason j)
  unfolding nack_delivery
  nack_delivery-Atomic id group reason (m, d) =
      Atomic-bind _ _ (threshold-Uncommitted m.topic) (λ threshold.
        Atomic-if (ltb 0 threshold && leb threshold (d.retry_count + 1)) _ _
          (Atomic-bind _ _ (Uncommitted-tx_exec _) (λ u. Atomic-finish _))
          (Atomic-bind _ _ (Uncommitted-tx_exec _) (λ u. Atomic-finish _)))

  nack_for_group-Atomic :
      (id : ℕ) (group reason : Text) → Atomic (nack_for_group sv c id group reason)
  unfolding nack_for_group
  nack_for_group-Atomic id group reason = Atomic-transaction _ (
      Atomic-bind _ _ (Uncommitted-tx_query _) (λ row.
        Atomic-bind _ _ (Uncommitted-or_raise _ row) (λ j.
          Atomic-if (status_eq j.1.status processing) _ _ (nack_delivery-Atomic id group reason j)
            (Atomic-raise _))))

  requeue_to-Atomic : (id : ℕ) (topic : Option Text) → Atomic (requeue_to sv c id topic)
  unfolding requeue_to
  requeue_to-Atomic id none = Atomic-raise _
  requeue_to-Atomic id (some []) = Atomic-raise _
  requeue_to-Atomic id (some (b ∷ t)) =
      Atomic-bind _ _ (threshold-Uncommitted (b ∷ t))
        (λ threshold. Atomic-bind _ _ (Uncommitted-tx_exec _) (λ u. Atomic-finish _))

  requeue-Atomic : (id : ℕ) → Atomic (requeue sv c id)
  unfolding requeue
  requeue-Atomic id = Atomic-transaction _ (
      Atomic-bind _ _ (Uncommitted-tx_query _) (λ row.
        Atomic-bind _ _ (Uncommitted-or_raise _ row) (λ m. requeue_to-Atomic id m.original_topic)))

-- A call of a method of lifecycle.go.
pub data Settlement : Type 0 where
  acks requeues : ℕ → Settlement
  nacks : ℕ → Text → Settlement
  acks_group : ℕ → Text → Settlement
  nacks_group : ℕ → Text → Text → Settlement

abbrev pub SettlementKept : Service → Call → World → Settlement → Type 0
SettlementKept sv c s (acks id) = Kept s (ack c id s)
SettlementKept sv c s (requeues id) = Kept s (requeue sv c id s)
SettlementKept sv c s (nacks id reason) = Kept s (nack sv c id reason s)
SettlementKept sv c s (acks_group id group) = Kept s (ack_for_group c id group s)
SettlementKept sv c s (nacks_group id group reason) = Kept s (nack_for_group sv c id group reason s)

-- An acknowledgement, a rejection or a requeue that returns an error has left every committed table
-- as it was, wherever a fault strikes.
pub settlement-SettlementKept :
    (sv : Service) (c : Call) (s : World) (r : Settlement) → SettlementKept sv c s r
settlement-SettlementKept sv c s (acks id) = ack-Atomic sv c id s
settlement-SettlementKept sv c s (requeues id) = requeue-Atomic sv c id s
settlement-SettlementKept sv c s (nacks id reason) = nack-Atomic sv c id reason s
settlement-SettlementKept sv c s (acks_group id group) = ack_for_group-Atomic sv c id group s
settlement-SettlementKept sv c s (nacks_group id group reason) =
    nack_for_group-Atomic sv c id group reason s
