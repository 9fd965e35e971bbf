-- ===== src/Queue/Reaper/Deletion.antt =====
-- What the delete reaper leaves.
use queue_ti.Base.{
  ℕ, ◌+◌, ◌*◌, ◌<◌, true, some, ◌≡◌, refl, ap, ltb, ◌&&◌, ◌==◌, arith, inl, inr, Option-cases,
}
use queue_ti.Base.Text.{text_eq_iff}
use queue_ti.Base.Table.{any}
use queue_ti.Base.Order.{In}
use queue_ti.Queue.Error.{ok}
use queue_ti.Queue.Tables.{
  Db, Message, Delivery, LogRow, Status, TopicConfig, pending, processing, failed, expired,
  status_eq,
}
use queue_ti.Queue.Service.{Call}
use queue_ti.Queue.Config.{second}
use queue_ti.Queue.Op.{World, deleted_rows}
use queue_ti.Queue.Op.Triple.{
  Triple, Triple-bind, Triple-if, Triple-pure, Triple-observe, Triple-commit, Triple-tx_exec,
  Triple-transaction, ok-IfOk,
}
use queue_ti.Queue.Statements.{delete_messages}
use queue_ti.Queue.Reaper.Removed.{Removed, delete-Removed, any-In, In-any}
use queue_ti.Queue.Reaper.{
  is_expired, delete_expired, is_past_window, delete_archived, run_delete_work,
  run_delete_reaper_once,
}

-- A message that the expiry reaper has expired.
abbrev pub Expired : Message → Type 0
Expired m = m.status ≡ expired

-- A delivery of a message that has expired.
abbrev pub OfExpired : Db → Delivery → Type 0
OfExpired db d = (m : Message) × In m db.messages × Expired m × (m.id ≡ d.message_id)

-- A row of the log that was acknowledged longer ago than the replay window of its topic.
abbrev pub PastWindow : ℕ → Db → LogRow → Type 0
PastWindow now db r =
    (cfg : TopicConfig) × In cfg db.configs
    × (cfg.topic ≡ r.topic)
    × (cfg.replayable ≡ true)
    × ((w : ℕ) × (cfg.replay_window_seconds ≡ some w) × (0 < w) × (r.acked_at + w * second < now))

-- The tables before and after, with the number of messages that are gone.
pub record Swept (now n : ℕ) (before after : Db) : Type 0 where
  pub messages : Removed Expired n before.messages after.messages
  pub deliveries : (k : ℕ) × Removed (OfExpired before) k before.deliveries after.deliveries
  pub log : (k : ℕ) × Removed (PastWindow now before) k before.log after.log
  pub same_groups : after.groups ≡ before.groups
  pub same_configs : after.configs ≡ before.configs
  pub same_buckets : after.buckets ≡ before.buckets
  pub same_schemas : after.schemas ≡ before.schemas
  pub same_schedule : after.schedule ≡ before.schedule

expired_status : (st : Status) → status_eq st expired ≡ true → st ≡ expired
expired_status expired e = refl
expired_status pending e = absurd cc
expired_status processing e = absurd cc
expired_status failed e = absurd cc

test_of_Expired : (m : Message) → Expired m → is_expired m ≡ true
test_of_Expired m e = rw e refl

cascade-OfExpired :
    (db : Db) (d : Delivery)
    → any (λ m. is_expired m && m.id == d.message_id) db.messages ≡ true
    → OfExpired db d
cascade-OfExpired db d e =
    let (m, i, t) = any-In (λ (x : Message). is_expired x && x.id == d.message_id) db.messages e in
    (m, i, expired_status m.status (ground (arith, t)), ground (arith, t))

OfExpired-cascade :
    (db : Db) (d : Delivery)
    → OfExpired db d
    → any (λ m. is_expired m && m.id == d.message_id) db.messages ≡ true
OfExpired-cascade db d (m, i, e, same) =
    In-any (λ (x : Message). is_expired x && x.id == d.message_id) db.messages {x = m} i
      (rw (e, same) (ground arith))

window-PastWindow :
    (c : Call) (db : Db) (r : LogRow)
    → any (is_past_window c r) db.configs ≡ true
    → PastWindow c.now db r
window-PastWindow c db r e =
    let (cfg, i, t) = any-In (is_past_window c r) db.configs e in
    elim (Option-cases cfg.replay_window_seconds) [
      | inl n ↦ let gone = rw n at t in absurd (ground (arith, gone))
      | inr (w, s) ↦
          let test = rw s at t in
          (
            cfg,
            i,
            ground (arith, test, text_eq_iff r.topic cfg.topic),
            ground (arith, test),
            (w, s, ground (arith, test), ground (arith, test)),
          )
    ]

PastWindow-window :
    (c : Call) (db : Db) (r : LogRow)
    → PastWindow c.now db r
    → any (is_past_window c r) db.configs ≡ true
PastWindow-window c db r (cfg, i, same, on, (w, s, l, k)) =
    In-any (is_past_window c r) db.configs {x = cfg} i
      (rw (on, s) (ground (arith, text_eq_iff r.topic cfg.topic, same, l, k)))

swept :
    (c : Call) (db : Db)
    → Swept c.now (delete_expired db).0 db (delete_archived c (delete_expired db).1).1
unfolding delete_expired delete_archived delete_messages
swept c db = record {
  messages =
      delete-Removed Expired is_expired db.messages (λ m e. expired_status m.status e)
        test_of_Expired;
  deliveries = (
    _,
    delete-Removed (OfExpired db) _ db.deliveries (cascade-OfExpired db) (OfExpired-cascade db),
  );
  log = (
    _,
    delete-Removed (PastWindow c.now db) _ db.log (window-PastWindow c db) (PastWindow-window c db),
  );
  same_groups = refl;
  same_configs = refl;
  same_buckets = refl;
  same_schemas = refl;
  same_schedule = refl;
}

Triple-run_delete_work :
    (c : Call) (before : Db)
    → Triple (λ d _ _. d ≡ before) (run_delete_work c) (λ n d _ _. Swept c.now n before d)
unfolding run_delete_work
Triple-run_delete_work c before =
    Triple-bind {R = λ n d _ _. (n ≡ (delete_expired before).0) × (d ≡ (delete_expired before).1)}
      (Triple-tx_exec _
        (λ d c' l h. (ap (λ x. (delete_expired x).0) h, ap (λ x. (delete_expired x).1) h)))
      (λ n.
        Triple-bind
          {R = λ _ d _ _. (n ≡ (delete_expired before).0) × (d ≡ (delete_expired before).1)}
          (Triple-if (ltb 0 n) (λ t. Triple-observe (deleted_rows n) (λ d c' l h. h))
            (λ t. Triple-pure tt (λ d c' l h. h)))
          (λ u.
            Triple-bind {R = λ _ d _ _. Swept c.now n before d}
              (Triple-tx_exec _ (λ d c' l h. rw (h.0, h.1) (swept c before)))
              (λ k. Triple-pure n (λ d c' l h. h))))

-- Whatever fails: if RunDeleteReaperOnce returns a number, it is the number of the messages with
-- status expired. Exactly these are gone, exactly the deliveries of these, and exactly the rows of
-- the log that were acknowledged longer ago than the replay window, if it is not 0, of a replayable
-- topic with their name. The other rows stand in the order they had, and no other table has changed.
pub run_delete_reaper_once-Swept :
    (c : Call) (n : ℕ) (s : World)
    → (run_delete_reaper_once c s).0 ≡ ok n
    → Swept c.now n s.committed (run_delete_reaper_once c s).1.committed
unfolding run_delete_reaper_once
run_delete_reaper_once-Swept c n s e =
    ok-IfOk (λ k _ c' _. Swept c.now k s.committed c') (run_delete_reaper_once c s)
      (triple.run s refl) e
  where
    triple :
        Triple
          (λ _ c' _. c' ≡ s.committed)
          (run_delete_reaper_once c)
          (λ k _ c' _. Swept c.now k s.committed c')
    triple =
        Triple-transaction {P' = λ d _ _. d ≡ s.committed}
          {R = λ k _ c' _. Swept c.now k s.committed c'} (λ d c' l h. h) (λ a d c' l h. h)
          (Triple-bind (Triple-run_delete_work c s.committed) (λ k.
            Triple-bind {R = λ _ _ c' _. Swept c.now k s.committed c'}
              (Triple-commit (λ d c' l h. h)) (λ u. Triple-pure k (λ d c' l h. h))))
