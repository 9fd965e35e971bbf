-- ===== src/Queue/Lifecycle/Groups.antt =====
-- What an acknowledgement of a group that returns has done.
use queue_ti.Base.{
  ℕ, Bool, true, false, some, List, [], ◌∷◌, ◌++◌, ◌≡◌, refl, sym, ◌∙◌, ap, arith, if◌then◌else◌,
  ◌==◌, Bool-cases, inl, inr,
}
use queue_ti.Base.Text.{Text, text_eq}
use queue_ti.Base.Order.{In, at_head, in_tail}
use queue_ti.Base.Table.{count, delete}
use queue_ti.Queue.Error.{ok, not_found}
use queue_ti.Queue.Tables.{Db, Delivery, status_eq, processing, has_id}
use queue_ti.Queue.Service.{Call}
use queue_ti.Queue.Op.{World, acked}
use queue_ti.Queue.Op.Triple.{
  Triple, Triple-bind, Triple-fact, Triple-if, Triple-pure, Triple-tx_query, Triple-tx_exec,
  Triple-transaction, ok-IfOk,
}
use queue_ti.Queue.Statements.{delete_messages, of_message, is_delivery}
use queue_ti.Queue.Lifecycle.{
  ack_for_group, find_joined, group_log_row, delete_delivery, finish_message, is_replayable, Joined,
}
use queue_ti.Queue.Lifecycle.Rules.{Triple-or_raise, Triple-archive, Triple-finish}

-- The deliveries of the message that the other groups still have.
abbrev pub others : ℕ → Text → Db → ℕ
others id group db = count (of_message id) (delete (is_delivery id group) db.deliveries)

-- The tables after the acknowledgement of the delivery, and then of the message, if it was the last.
abbrev pub group_acked : Call → ℕ → Text → Joined → Db → Db
group_acked c id group j db =
    let rest = delete_delivery id group db in
    if others id group db == 0
    then delete_messages (has_id id) (record rest {
      log = if is_replayable j.0.topic rest then rest.log ++ group_log_row c j ∷ [] else rest.log;
    })
    else rest

abbrev Acks : ℕ → Text → Db → Joined → Type 0
Acks id group before j = find_joined id group (λ d. status_eq d.status processing) before ≡ some j

abbrev Done : Call → ℕ → Text → Db → Db → Type 0
Done c id group before after =
    (j : Joined) × Acks id group before j × (after ≡ group_acked c id group j before)

module _ (c : Call) (id : ℕ) (group : Text) (before : Db) (j : Joined) where
  Triple-finish_message :
      Triple
        (λ d _ _. (d ≡ delete_delivery id group before) × Acks id group before j)
        (finish_message c id (group_log_row c j) (others id group before))
        (λ _ d _ _. Done c id group before d)
  unfolding finish_message
  Triple-finish_message =
      Triple-if (others id group before == 0)
        (λ e.
          Triple-bind
            {R = λ _ d _ _.
              (d ≡ record (delete_delivery id group before) {
                log =
                    if is_replayable j.0.topic (delete_delivery id group before)
                    then (delete_delivery id group before).log ++ group_log_row c j ∷ []
                    else (delete_delivery id group before).log;
              })
              × Acks id group before j}
            (Triple-archive c (group_log_row c j) (λ d c' l h. (rw h.0 refl, h.1)))
            (λ u.
              Triple-tx_exec _
                (λ d c' l h. (j, h.1, ap (delete_messages (has_id id)) h.0 ∙ rw e refl))))
        (λ e. Triple-pure tt (λ d c' l h. (j, h.1, h.0 ∙ rw e refl)))

-- Whatever fails: if AckForGroup returns no error, then a processing delivery of the group has been
-- acknowledged. It is gone; if it was the last delivery of the message, the message is gone too, with
-- a copy in the log if its topic is replayable; and nothing else has changed.
pub ack_for_group-refines :
    (c : Call) (id : ℕ) (group : Text) (s : World)
    → (ack_for_group c id group s).0 ≡ ok tt
    → (j : Joined) × (find_joined id group (λ d. status_eq d.status processing) s.committed
        ≡ some j)
      × ((ack_for_group c id group s).1.committed ≡ group_acked c id group j s.committed)
unfolding ack_for_group delete_delivery
ack_for_group-refines c id group s e =
    ok-IfOk (λ _ _ c' _. Done c id group before c') (ack_for_group c id group s) (triple.run s refl)
      e
  where
    before : Db
    before = s.committed

    triple :
        Triple
          (λ _ c' _. c' ≡ before)
          (ack_for_group c id group)
          (λ _ _ c' _. Done c id group before c')
    triple =
        Triple-transaction {P' = λ d _ _. d ≡ before} {R = λ _ _ c' _. Done c id group before c'}
          (λ d c' l h. h) (λ a d c' l h. h)
          (Triple-bind
            {R = λ row d _ _.
              (d ≡ before)
              × (row ≡ find_joined id group (λ d. status_eq d.status processing) before)}
            (Triple-tx_query _
              (λ d c' l h. (h, ap (find_joined id group (λ d. status_eq d.status processing)) h)))
            (λ row.
              Triple-bind {R = λ j d _ _. (d ≡ before) × Acks id group before j}
                (Triple-or_raise not_found row (λ m d c' l o h. (h.0, sym h.1 ∙ o)))
                (λ j.
                  Triple-bind
                    {R = λ _ d _ _. (d ≡ delete_delivery id group before) × Acks id group before j}
                    (Triple-tx_exec _ (λ d c' l h. (ap (delete_delivery id group) h.0, h.1)))
                    (λ u.
                      Triple-bind
                        {R = λ n d _ _.
                          ((d ≡ delete_delivery id group before) × Acks id group before j)
                          × (n ≡ others id group before)}
                        (Triple-tx_query _ (λ d c' l h.
                          (h, ap (λ (x : Db). count (of_message id) x.deliveries) h.0)))
                        (λ n.
                          Triple-bind {R = λ _ d _ _. Done c id group before d}
                            (Triple-fact
                              (λ same. rw same (Triple-finish_message c id group s.committed j)))
                            (λ v. Triple-finish (acked j.0.topic) (λ d c' l h. h)))))))

In-delete :
    (p : Delivery → Bool) (ds : List Delivery) {d : Delivery}
    → p d ≡ false
    → In d ds
    → In d (delete p ds)
unfolding delete
In-delete p [] {d} e i = elim i [ ]
In-delete p (x ∷ ds) e at_head = rw e at_head
In-delete p (x ∷ ds) {d} e (in_tail i) = elim (Bool-cases (p x)) [
  | inl t ↦ rw t (In-delete p ds e i)
  | inr t ↦ rw t (in_tail (In-delete p ds e i))
]

In-count :
    (p : Delivery → Bool) (ds : List Delivery) {d : Delivery}
    → p d ≡ true
    → In d ds
    → (count p ds == 0) ≡ false
unfolding count
In-count p [] {d} e i = elim i [ ]
In-count p (x ∷ ds) e at_head = rw e (ground arith)
In-count p (x ∷ ds) {d} e (in_tail i) = ground (arith, In-count p ds {d = d} e i)

-- Groups do not disturb each other: when AckForGroup returns no error, a delivery of the same
-- message to another group is still there, the table of messages is as it was, and the log has no
-- new row.
pub ack_for_group-Independent :
    (c : Call) (id : ℕ) (group : Text) (s : World) (d : Delivery)
    → d.message_id ≡ id
    → text_eq d.group group ≡ false
    → In d s.committed.deliveries
    → (ack_for_group c id group s).0 ≡ ok tt
    → In d (ack_for_group c id group s).1.committed.deliveries
      × ((ack_for_group c id group s).1.committed.messages ≡ s.committed.messages)
      × ((ack_for_group c id group s).1.committed.log ≡ s.committed.log)
unfolding delete_delivery
ack_for_group-Independent c id group s d same other here e =
    let (j, found, after) = ack_for_group-refines c id group s e in
    let kept = In-delete (is_delivery id group) s.committed.deliveries (ground arith) here in
    let more =
      In-count (of_message id) (delete (is_delivery id group) s.committed.deliveries) (ground arith)
        kept in
    let rest : (ack_for_group c id group s).1.committed ≡ delete_delivery id group s.committed =
      after ∙ rw more refl in
    (rw rest kept, ap (λ (x : Db). x.messages) rest, ap (λ (x : Db). x.log) rest)
