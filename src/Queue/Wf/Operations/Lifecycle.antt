-- ===== src/Queue/Wf/Operations/Lifecycle.antt =====
-- Ack, Nack, AckForGroup, NackForGroup and Requeue.
use queue_ti.Base.{
  ℕ, ◌+◌, Bool, true, false, Option, none, some, List, [], ◌∷◌, ◌++◌, ◌&&◌, ◌==◌, ◌≡◌, ltb, leb,
  refl, Bool-cases, Option-cases, inl, inr, arith,
}
use queue_ti.Base.Text.{Text}
use queue_ti.Base.Table.{first, count, All-first}
use queue_ti.Queue.Error.{not_found, not_processing, not_dlq}
use queue_ti.Queue.Tables.{
  Db, Message, Delivery, Status, LogRow, pending, processing, failed, status_eq, has_id,
}
use queue_ti.Queue.Service.{Service, Call}
use queue_ti.Queue.Op.{dlq, acked, nacked, requeued}
use queue_ti.Queue.Op.Inert.{Inert-Keeps}
use queue_ti.Queue.Op.Keeps.{
  Keeps, KeepsDb, Any, Keeps-pure, Keeps-raise, Keeps-bind, Keeps-then, Keeps-if, Keeps-tx_query,
  Keeps-tx_exec, Keeps-transaction, Keeps-commit, Keeps-observe,
}
use queue_ti.Queue.Config.Inert.{Inert-get_topic_config}
use queue_ti.Queue.Statements.{update_delivery, delete_messages, is_delivery, of_message}
use queue_ti.Queue.Lifecycle.{
  Joined, effective_dlq_threshold, is_replayable, archive_to_log, log_row, group_log_row,
  is_processing, ack, nack, nack_row, promoted, retried, find_joined, delete_delivery,
  finish_message, ack_for_group, nack_delivery, nack_for_group, requeued_row, requeue_to, requeue,
}
use queue_ti.Queue.Wf.{Wf, IsRow, IsLogRow}
use queue_ti.Queue.Wf.Statements.{
  update_message-Wf, update_deliveries-Wf, delete_deliveries-Wf, delete_messages-Wf, insert_log-Wf,
}
use queue_ti.Queue.Wf.Operations.Rest.{Found, Found-first, Keeps-or_raise}

Keeps-effective_dlq_threshold :
    (sv : Service) (c : Call) (t : Text) → Keeps Wf Any (effective_dlq_threshold sv c t)
unfolding effective_dlq_threshold
Keeps-effective_dlq_threshold sv c t = record {
  run = λ s h. (((Inert-Keeps {I = Wf} (Inert-get_topic_config sv c t)).run s h).0, tt);
}

Keeps-archive_to_log : (c : Call) (r : LogRow) → IsLogRow r → Keeps Wf Any (archive_to_log c r)
unfolding archive_to_log
Keeps-archive_to_log c r row =
    Keeps-bind {Q = Any} (Keeps-tx_query (is_replayable r.topic) (λ db w. tt))
      (λ b q. Keeps-if b (λ e. Keeps-tx_exec _ (insert_log-Wf r row)) (λ e. Keeps-pure tt tt))

Keeps-delete_messages :
    (p : Message → Bool)
    → KeepsDb Wf Any (λ db. (queue_ti.Queue.Error.ok (tt {0}), delete_messages p db))
Keeps-delete_messages p db w = (delete_messages-Wf p db w, tt)

pub Keeps-ack : (c : Call) (id : ℕ) → Keeps Wf Any (ack c id)
unfolding ack
Keeps-ack c id = Keeps-transaction (
    Keeps-bind (Keeps-tx_query {Q = Found IsRow} _ (Found-first (is_processing id))) (λ row q.
      Keeps-bind (Keeps-or_raise {Q = IsRow} not_found row q) (λ m r.
        Keeps-then (Keeps-archive_to_log c (log_row c m) r.linked) (
          Keeps-then {Q = Any} (Keeps-tx_exec _ (Keeps-delete_messages (has_id id)))
            (Keeps-then Keeps-commit (Keeps-observe (acked m.topic)))))))

-- What Nack writes is a well-formed row.
promoted-IsRow : (c : Call) (topic reason : Text) (m : Message) → IsRow (promoted c topic reason m)
promoted-IsRow c topic reason m = record { idle = λ e. refl; leased = λ e. cc; linked = refl }

retried-IsRow :
    (c : Call) (n : ℕ) (status : Status) (reason : Text) (m : Message)
    → (status ≡ processing → ⊥)
    → IsRow m
    → IsRow (retried c n status reason m)
retried-IsRow c n status reason m h r = record {
  idle = λ e. refl;
  leased = λ e. absurd (h e);
  linked = r.linked;
}

requeued-IsRow : (c : Call) (topic : Text) (n : ℕ) (m : Message) → IsRow (requeued_row c topic n m)
requeued-IsRow c topic n m = record { idle = λ e. refl; leased = λ e. cc; linked = tt }

retry_status : (b : Bool) → queue_ti.Base.if◌then◌else◌ b failed pending ≡ processing → ⊥
retry_status true e = cc
retry_status false e = cc

Keeps-nack_row :
    (sv : Service) (c : Call) (id : ℕ) (reason : Text) (m : Message)
    → Keeps Wf Any (nack_row sv c id reason m)
unfolding nack_row
Keeps-nack_row sv c id reason m =
    Keeps-bind {Q = Any} (Keeps-effective_dlq_threshold sv c m.topic) (λ threshold q.
      Keeps-if (ltb 0 threshold && leb threshold (m.retry_count + 1))
        (λ e.
          Keeps-then {Q = Any}
            (Keeps-tx_exec _ (
              update_message-Wf id (promoted c m.topic reason) (λ m'. refl)
                (λ m' r. promoted-IsRow c m.topic reason m')))
            (Keeps-then Keeps-commit (Keeps-observe (nacked m.topic dlq))))
        (λ e.
          Keeps-then {Q = Any}
            (Keeps-tx_exec _ (
              update_message-Wf id _ (λ m'. refl)
                (λ m' r.
                  retried-IsRow c _ _ reason m'
                    (retry_status (leb m.max_retries (m.retry_count + 1))) r)))
            (Keeps-then Keeps-commit (Keeps-observe _))))

pub Keeps-nack :
    (sv : Service) (c : Call) (id : ℕ) (reason : Text) → Keeps Wf Any (nack sv c id reason)
unfolding nack
Keeps-nack sv c id reason = Keeps-transaction (
    Keeps-bind (Keeps-tx_query {Q = Found IsRow} _ (Found-first (has_id id))) (λ row q.
      Keeps-bind (Keeps-or_raise {Q = IsRow} not_found row q) (λ m r.
        Keeps-if (status_eq m.status processing) (λ e. Keeps-nack_row sv c id reason m)
          (λ e. Keeps-raise not_processing))))

-- The message of a join is a row of the table.
abbrev IsJoined : Joined → Type 0
IsJoined j = IsRow j.0

Found-IsJoined :
    (id : ℕ) (g : Text) (p : Delivery → Bool) (db : Db)
    → Wf db
    → Found IsJoined (find_joined id g p db)
unfolding find_joined
Found-IsJoined id g p db w =
    elim (Option-cases (first (λ d. is_delivery id g d && p d) db.deliveries)) [
      | inl e ↦ rw (e, find_joined) tt
      | inr (d, e) ↦ elim (Option-cases (first (has_id d.message_id) db.messages)) [
        | inl e' ↦ rw (e, find_joined) (rw e' tt)
        | inr (m, e') ↦ rw (e, find_joined) (rw e' (All-first IsRow _ db.messages w.rows e').0)
      ]
    ]

Keeps-finish_message :
    (c : Call) (id : ℕ) (r : LogRow) (n : ℕ) → IsLogRow r → Keeps Wf Any (finish_message c id r n)
unfolding finish_message
Keeps-finish_message c id r n row =
    Keeps-if (n == 0)
      (λ e.
        Keeps-then (Keeps-archive_to_log c r row)
          (Keeps-tx_exec _ (Keeps-delete_messages (has_id id))))
      (λ e. Keeps-pure tt tt)

pub Keeps-ack_for_group : (c : Call) (id : ℕ) (g : Text) → Keeps Wf Any (ack_for_group c id g)
unfolding ack_for_group delete_delivery
Keeps-ack_for_group c id g = Keeps-transaction (
    Keeps-bind (Keeps-tx_query {Q = Found IsJoined} _ (Found-IsJoined id g _)) (λ row q.
      Keeps-bind (Keeps-or_raise {Q = IsJoined} not_found row q) (λ j r.
        Keeps-then {Q = Any}
          (Keeps-tx_exec _ (λ db w. (delete_deliveries-Wf (is_delivery id g) db w, tt)))
          (Keeps-bind {Q = Any}
            (Keeps-tx_query (λ db. count (of_message id) db.deliveries) (λ db w. tt))
            (λ n q'.
              Keeps-then (Keeps-finish_message c id (group_log_row c j) n r.linked)
                (Keeps-then Keeps-commit (Keeps-observe (acked j.0.topic))))))))

Keeps-nack_delivery :
    (sv : Service) (c : Call) (id : ℕ) (g reason : Text) (j : Joined)
    → Keeps Wf Any (nack_delivery sv c id g reason j)
unfolding nack_delivery update_delivery
Keeps-nack_delivery sv c id g reason (m, d) =
    Keeps-bind {Q = Any} (Keeps-effective_dlq_threshold sv c m.topic) (λ threshold q.
      Keeps-if (ltb 0 threshold && leb threshold (d.retry_count + 1))
        (λ e.
          Keeps-then {Q = Any}
            (Keeps-tx_exec _ (λ db w.
              (update_deliveries-Wf (is_delivery id g) _ (λ d'. refl) (λ d'. refl) db w, tt)))
            (Keeps-then Keeps-commit (Keeps-observe _)))
        (λ e.
          Keeps-then {Q = Any}
            (Keeps-tx_exec _ (λ db w.
              (update_deliveries-Wf (is_delivery id g) _ (λ d'. refl) (λ d'. refl) db w, tt)))
            (Keeps-then Keeps-commit (Keeps-observe _))))

pub Keeps-nack_for_group :
    (sv : Service) (c : Call) (id : ℕ) (g reason : Text)
    → Keeps Wf Any (nack_for_group sv c id g reason)
unfolding nack_for_group
Keeps-nack_for_group sv c id g reason = Keeps-transaction (
    Keeps-bind (Keeps-tx_query {Q = Found IsJoined} _ (Found-IsJoined id g _)) (λ row q.
      Keeps-bind (Keeps-or_raise {Q = IsJoined} not_found row q) (λ j r.
        Keeps-if (status_eq j.1.status processing) (λ e. Keeps-nack_delivery sv c id g reason j)
          (λ e. Keeps-raise not_processing))))

Keeps-requeue_to :
    (sv : Service) (c : Call) (id : ℕ) (o : Option Text) → Keeps Wf Any (requeue_to sv c id o)
unfolding requeue_to
Keeps-requeue_to sv c id none = Keeps-raise not_dlq
Keeps-requeue_to sv c id (some []) = Keeps-raise not_dlq
Keeps-requeue_to sv c id (some (b ∷ t)) =
    Keeps-bind {Q = Any} (Keeps-effective_dlq_threshold sv c (b ∷ t)) (λ n q.
      Keeps-then {Q = Any}
        (Keeps-tx_exec _
          (update_message-Wf id _ (λ m'. refl) (λ m' r. requeued-IsRow c (b ∷ t) n m')))
        (Keeps-then Keeps-commit (Keeps-observe (requeued (b ∷ t)))))

pub Keeps-requeue : (sv : Service) (c : Call) (id : ℕ) → Keeps Wf Any (requeue sv c id)
unfolding requeue
Keeps-requeue sv c id = Keeps-transaction (
    Keeps-bind (Keeps-tx_query {Q = Found IsRow} _ (Found-first (has_id id))) (λ row q.
      Keeps-bind (Keeps-or_raise {Q = IsRow} not_found row q)
        (λ m r. Keeps-requeue_to sv c id m.original_topic)))
