-- ===== src/Queue/Lifecycle/Settles.antt =====
-- An acknowledgement of a processing message succeeds.
use queue_ti.Base.{ℕ, Bool, true, false, some, ◌≡◌, refl, ap, ◌∙◌, ◌==◌, ◌&&◌, if◌then◌else◌}
use queue_ti.Base.Text.{text_eq}
use queue_ti.Base.Table.{first, any}
use queue_ti.Queue.Error.{ok}
use queue_ti.Queue.Tables.{Db, Message, LogRow}
use queue_ti.Queue.Service.{Call}
use queue_ti.Queue.Op.{World, acked}
use queue_ti.Queue.Op.Total.{
  Calm, Total, Total-bind, Total-pure, Total-fact, Total-tx_query, Total-tx_exec, Total-transaction,
  Total-commit, Total-observe, Succeeds-ok,
}
use queue_ti.Queue.Statements.{insert_log}
use queue_ti.Queue.Lifecycle.{ack, archive_to_log, is_replayable, is_processing, log_row}

-- The primary key of the log has no such row yet.
abbrev pub IsNew : LogRow → Db → Type 0
IsNew r db =
    any (λ q. text_eq q.topic r.topic && q.acked_at == r.acked_at && q.id == r.id) db.log ≡ false

Total-archive :
    (c : Call) (r : LogRow) (before : Db)
    → IsNew r before
    → Total (λ d c'. d ≡ before) (archive_to_log c r) (λ u d c'. Unit)
unfolding archive_to_log insert_log
Total-archive c r before fresh =
    Total-bind {R = λ b d c'. d ≡ before} (Total-tx_query (is_replayable r.topic) (λ d c' h. h))
      (λ b. branch b)
  where
    branch :
        (b : Bool)
        → Total
            (λ d c'. d ≡ before)
            (if b then queue_ti.Queue.Op.tx_exec (insert_log r) else queue_ti.Queue.Op.pure tt)
            (λ u d c'. Unit)
    branch true = Total-tx_exec _ (λ d c' h. rw h (rw fresh tt))
    branch false = Total-pure tt (λ d c' h. tt)

-- If no statement fails, a row with the id is processing, and the log has no row yet of that
-- message, topic and time, then Ack returns no error.
pub ack-Succeeds :
    (c : Call) (id : ℕ) (s : World) (m : Message)
    → Calm s
    → first (is_processing id) s.committed.messages ≡ some m
    → IsNew (log_row c m) s.committed
    → (ack c id s).0 ≡ ok tt
unfolding ack
ack-Succeeds c id s m calm found fresh =
    let (a, done, t) = Succeeds-ok (λ u d c'. Unit) (ack c id s) (total.run s calm refl) in done
  where
    before : Db
    before = s.committed

    total : Total (λ d c'. c' ≡ before) (ack c id) (λ u d c'. Unit)
    total =
        Total-transaction {P' = λ d c'. d ≡ before} {R = λ u d c'. Unit} (λ d c' h. h)
          (λ a d c' h. tt)
          (Total-bind {R = λ row d c'. (d ≡ before) × (row ≡ some m)}
            (Total-tx_query _
              (λ d c' h. (h, ap (λ (x : Db). first (is_processing id) x.messages) h ∙ found)))
            (λ row. Total-fact (λ same. rw same (
              Total-bind {R = λ m' d c'. (d ≡ before) × (m' ≡ m)}
                (Total-pure m (λ d c' h. (h, refl)))
                (λ m'. Total-fact (λ this. rw this (
                  Total-bind {R = λ u d c'. Unit} (Total-archive c (log_row c m) before fresh) (λ u.
                    Total-bind {R = λ v d c'. Unit} (Total-tx_exec _ (λ d c' h. tt)) (λ v.
                      Total-bind {R = λ w d c'. Unit} (Total-commit (λ d c' h. tt))
                        (λ w. Total-observe (acked m.topic) (λ d c' h. tt)))))))))))
