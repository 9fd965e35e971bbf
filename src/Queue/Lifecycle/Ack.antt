-- ===== src/Queue/Lifecycle/Ack.antt =====
-- What an acknowledgement that returns has done.
use queue_ti.Base.{
  ℕ, Bool, true, some, List, [], ◌∷◌, ◌++◌, ◌≡◌, refl, sym, ◌∙◌, ap, arith, if◌then◌else◌, ◌&&◌,
  ◌==◌,
}
use queue_ti.Base.Table.{any, first, delete}
use queue_ti.Queue.Error.{ok, not_found}
use queue_ti.Queue.Tables.{Db, Message, Delivery, has_id}
use queue_ti.Queue.Service.{Call}
use queue_ti.Queue.Op.{World, acked}
use queue_ti.Queue.Op.Triple.{
  Triple, Triple-bind, Triple-tx_query, Triple-tx_exec, Triple-transaction, ok-IfOk,
}
use queue_ti.Queue.Statements.{delete_messages, of_message}
use queue_ti.Queue.Lifecycle.{ack, is_processing, is_replayable, log_row}
use queue_ti.Queue.Lifecycle.Rules.{Triple-or_raise, Triple-archive, Triple-finish}

-- The tables after the acknowledgement of `m`: its rows are gone, and a replayable topic has a copy
-- in the log.
abbrev pub acked_db : Call → ℕ → Message → Db → Db
acked_db c id m db = record db {
  messages = delete (has_id id) db.messages;
  deliveries = delete (of_message id) db.deliveries;
  log = if is_replayable m.topic db then db.log ++ log_row c m ∷ [] else db.log;
}

cascade_test :
    (id i : ℕ) (ms : List Message)
    → any (λ m. has_id id m && m.id == i) ms ≡ (any (has_id id) ms && (i == id))
unfolding any
cascade_test id i [] = refl
cascade_test id i (m ∷ ms) = ground (arith, cascade_test id i ms)

-- The cascade finds the deliveries of the message, if the message is there.
pub cascade_lem :
    (id : ℕ) (ms : List Message) (ds : List Delivery)
    → any (has_id id) ms ≡ true
    → delete (λ d. any (λ m. has_id id m && m.id == d.message_id) ms) ds ≡ delete (of_message id) ds
unfolding delete
cascade_lem id ms [] h = refl
cascade_lem id ms (d ∷ ds) h =
    ground (arith, cascade_lem id ms ds h, cascade_test id d.message_id ms)

pub first-any :
    (p q : Message → Bool) (ms : List Message) {m : Message}
    → ((x : Message) → p x ≡ true → q x ≡ true)
    → first p ms ≡ some m
    → any q ms ≡ true
unfolding first any
first-any p q [] h e = cc
first-any p q (x ∷ ms) {m} h e = ground (arith, h x, first-any p q ms {m = m} h)

-- The row that Ack removes, beside the tables before it.
abbrev Acks : Call → ℕ → Db → Message → Type 0
Acks c id before m = first (is_processing id) before.messages ≡ some m

deleted_lem :
    (c : Call) (id : ℕ) (before : Db) (m : Message)
    → Acks c id before m
    → delete_messages (has_id id) (record before {
      log = if is_replayable m.topic before then before.log ++ log_row c m ∷ [] else before.log;
    })
      ≡ acked_db c id m before
unfolding delete_messages
deleted_lem c id before m h =
    ap (λ ds. record (acked_db c id m before) { deliveries = ds })
      (cascade_lem id before.messages before.deliveries
        (first-any (is_processing id) (has_id id) before.messages (λ x e. ground arith) h))

-- Whatever fails: if Ack returns no error, then the first row with the id that is processing has
-- been acknowledged. The committed tables are those before the call with the message and its
-- deliveries removed, and with a copy of the message at the end of the log if its topic is
-- configured as replayable; nothing else has changed.
pub ack-refines :
    (c : Call) (id : ℕ) (s : World)
    → (ack c id s).0 ≡ ok tt
    → (m : Message) × (first (is_processing id) s.committed.messages ≡ some m)
      × ((ack c id s).1.committed ≡ acked_db c id m s.committed)
unfolding ack
ack-refines c id s e = ok-IfOk (λ _ _ c' _. Done c') (ack c id s) ((triple).run s refl) e
  where
    before : Db
    before = s.committed

    Done : Db → Type 0
    Done after = (m : Message) × Acks c id before m × (after ≡ acked_db c id m before)

    triple : Triple (λ _ c' _. c' ≡ before) (ack c id) (λ _ _ c' _. Done c')
    triple =
        Triple-transaction {P' = λ d _ _. d ≡ before} {R = λ _ _ c' _. Done c'} (λ d c' l h. h)
          (λ a d c' l h. h)
          (Triple-bind
            {R = λ row d _ _. (d ≡ before) × (row ≡ first (is_processing id) before.messages)}
            (Triple-tx_query _
              (λ d c' l h. (h, ap (λ (x : Db). first (is_processing id) x.messages) h)))
            (λ row.
              Triple-bind {R = λ m d _ _. (d ≡ before) × Acks c id before m}
                (Triple-or_raise not_found row (λ m d c' l o h. (h.0, sym h.1 ∙ o)))
                (λ m.
                  Triple-bind
                    {R = λ _ d _ _.
                      (d ≡ record before {
                        log =
                            if is_replayable m.topic before
                            then before.log ++ log_row c m ∷ []
                            else before.log;
                      })
                      × Acks c id before m}
                    (Triple-archive c (log_row c m) (λ d c' l h. (rw h.0 refl, h.1)))
                    (λ u.
                      Triple-bind {R = λ _ d _ _. Done d}
                        (Triple-tx_exec _ (λ d c' l h. (
                          m,
                          h.1,
                          ap (delete_messages (has_id id)) h.0 ∙ deleted_lem c id before m h.1,
                        )))
                        (λ u'. Triple-finish (acked m.topic) (λ d c' l h. h))))))
