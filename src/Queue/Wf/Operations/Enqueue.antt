-- ===== src/Queue/Wf/Operations/Enqueue.antt =====
-- Enqueue and ReplayTopic: the statements that insert messages.
use queue_ti.Base.{
  ℕ, suc, Bool, false, not, Option, none, some, List, [], ◌∷◌, ◌≡◌, refl, ltb, leb, Bool-cases,
  Option-cases, inl, inr, arith,
}
use queue_ti.Base.Text.{Text, has_suffix}
use queue_ti.Base.Table.{All, All-select, any, first, select, NoClash-update}
use queue_ti.Queue.Error.{
  reserved_topic, topic_not_registered, queue_full, topic_not_replayable, replay_window_too_old,
}
use queue_ti.Queue.Tables.{Db, Message, LogRow, TopicConfig, same_id, same_pending_key, has_id}
use queue_ti.Queue.Service.{Service, Call, Metadata}
use queue_ti.Queue.Op.{always, enqueued, replayed}
use queue_ti.Queue.Op.Inert.{Inert-Keeps}
use queue_ti.Queue.Op.Keeps.{
  Keeps, KeepsDb, Any, Keeps-pure, Keeps-raise, Keeps-bind, Keeps-then, Keeps-if, Keeps-pool_query,
  Keeps-pool_exec, Keeps-observe,
}
use queue_ti.Queue.Config.{dlq_suffix}
use queue_ti.Queue.Config.Inert.{Inert-get_topic_config}
use queue_ti.Queue.Schemas.Inert.{Inert-validate_payload}
use queue_ti.Queue.Enqueue.{
  params_of, resolve_enqueue_params, depth, check_depth, merged, upsert_message, check_registered,
  enqueue,
}
use queue_ti.Queue.Replay.{
  replay_row, insert_replayed, in_range, replay_rows, window_start, is_too_old, replay_configured,
  replay_topic,
}
use queue_ti.Queue.Statements.{insert_message}
use queue_ti.Queue.Wf.{Wf, IsRow, IsLogRow}
use queue_ti.Queue.Wf.Statements.{update-Wf, insert_message-Wf}

pub Keeps-check_registered :
    (sv : Service) (c : Call) (t : Text) → Keeps Wf Any (check_registered sv c t)
unfolding check_registered
Keeps-check_registered sv c t =
    Keeps-if sv.require_topic_registration
      (λ e.
        Keeps-bind {Q = Any} (Inert-Keeps (Inert-get_topic_config sv c t)) (elim [
          | none ↦ λ q. Keeps-raise topic_not_registered
          | some cfg ↦ λ q. Keeps-pure tt tt
        ]))
      (λ e. Keeps-pure tt tt)

Keeps-resolve_enqueue_params :
    (sv : Service) (c : Call) (t : Text) → Keeps Wf Any (resolve_enqueue_params sv c t)
unfolding resolve_enqueue_params
Keeps-resolve_enqueue_params sv c t =
    Keeps-bind {Q = Any} (Inert-Keeps (Inert-get_topic_config sv c t))
      (λ cfg q. Keeps-pure (params_of sv c cfg) tt)

Keeps-check_depth : (t : Text) (n : ℕ) → Keeps Wf Any (check_depth t n)
unfolding check_depth
Keeps-check_depth t n =
    Keeps-if (ltb 0 n)
      (λ e.
        Keeps-bind {Q = Any} (Keeps-pool_query (depth t) (λ db w. tt))
          (λ k q. Keeps-if (leb n k) (λ f. Keeps-raise queue_full) (λ f. Keeps-pure tt tt)))
      (λ e. Keeps-pure tt tt)

first-none {ℓ} : {A : Type ℓ} (p : A → Bool) (xs : List A) → first p xs ≡ none → any p xs ≡ false
unfolding first any
first-none p [] h = refl
first-none p (x ∷ xs) h = ground (arith, first-none p xs)

merged-IsRow : (new m : Message) → IsRow m → IsRow (merged new m)
merged-IsRow new m r = record { idle = r.idle; leased = r.leased; linked = r.linked }

-- The upsert of a keyed message, or the insert of a new one.
upsert_message-Wf : (m : Message) (now : ℕ) → IsRow m → KeepsDb Wf Any (upsert_message m now)
unfolding upsert_message
upsert_message-Wf m now row db w = elim (Option-cases (first (same_pending_key m) db.messages)) [
  | inr (old, e) ↦
      rw (e, upsert_message)
        (
          update-Wf (has_id old.id) (merged m) (λ m'. refl) db (λ m' _ r. merged-IsRow m m' r)
              (NoClash-update same_pending_key (has_id old.id) (merged m) db.messages
                (λ a b h. ground arith) w.keys)
              w,
          tt,
        )
  | inl e ↦ elim (Bool-cases (any (same_id m) db.messages)) [
    | inl d ↦ rw (e, upsert_message) (rw d (w, tt))
    | inr d ↦
        rw (e, upsert_message)
          (rw d (
            insert_message-Wf m now db row d (first-none (same_pending_key m) db.messages e) w,
            tt,
          ))
  ]
]

pub Keeps-enqueue :
    (sv : Service) (c : Call) (t payload : Text) (m : Metadata) (key : Option Text)
    → Keeps Wf Any (enqueue sv c t payload m key)
unfolding enqueue
Keeps-enqueue sv c t payload m key =
    Keeps-if (has_suffix t dlq_suffix) (λ e. Keeps-raise reserved_topic)
      (λ e. Keeps-then (Keeps-check_registered sv c t) (
        Keeps-then (Inert-Keeps (Inert-validate_payload sv c t payload)) (
          Keeps-bind (Keeps-resolve_enqueue_params sv c t) (λ p q.
            Keeps-then (Keeps-check_depth t p.max_depth) (
              Keeps-bind {Q = Any}
                (Keeps-pool_exec _ (
                  upsert_message-Wf _ c.now
                    (record { idle = λ s. refl; leased = λ s. cc; linked = tt })))
                (λ id q'. Keeps-then (Keeps-observe (enqueued t)) (Keeps-pure id tt)))))))

replay_row-IsRow :
    (c : Call) (e : Option ℕ) (k : ℕ) (r : LogRow) → IsLogRow r → IsRow (replay_row c e k r)
replay_row-IsRow c e k r l = record { idle = λ s. refl; leased = λ s. cc; linked = l }

insert_replayed-Wf :
    (c : Call) (e : Option ℕ) (k : ℕ) (rs : List LogRow) (db : Db)
    → All IsLogRow rs
    → Wf db
    → Wf (insert_replayed c e k rs db).1
unfolding insert_replayed
insert_replayed-Wf c e k [] db l w = w
insert_replayed-Wf c e k (r ∷ rs) db l w =
    elim (Bool-cases (any (same_id (replay_row c e k r)) db.messages)) [
      | inl d ↦ rw d (insert_replayed-Wf c e (suc k) rs db l.1 w)
      | inr d ↦ rw d (elim (Bool-cases (any (same_pending_key (replay_row c e k r)) db.messages)) [
        | inl f ↦ rw f (insert_replayed-Wf c e (suc k) rs db l.1 w)
        | inr f ↦ rw f (
            insert_replayed-Wf c e (suc k) rs (insert_message (replay_row c e k r) c.now db) l.1 (
              insert_message-Wf (replay_row c e k r) c.now db (replay_row-IsRow c e k r l.0) d f w))
      ])
    ]

replay_rows-Wf :
    (c : Call) (t : Text) (from e : Option ℕ) → KeepsDb Wf Any (always (replay_rows c t from e))
unfolding replay_rows
replay_rows-Wf c t from e db w = (
  insert_replayed-Wf c e 0 (select (in_range t from) db.log) db
      (All-select IsLogRow (in_range t from) db.log w.archived) w,
  tt,
)

Keeps-replay_configured :
    (sv : Service) (c : Call) (t : Text) (from : Option ℕ) (cfg : Option TopicConfig)
    → Keeps Wf Any (replay_configured sv c t from cfg)
unfolding replay_configured
Keeps-replay_configured sv c t from none = Keeps-raise topic_not_replayable
Keeps-replay_configured sv c t from (some cfg) =
    Keeps-if (not cfg.replayable) (λ e. Keeps-raise topic_not_replayable)
      (λ e.
        Keeps-if (is_too_old (window_start c cfg) from) (λ f. Keeps-raise replay_window_too_old)
          (λ f. Keeps-bind {Q = Any} (Keeps-pool_exec _ (replay_rows-Wf c t _ _)) (λ n q.
            Keeps-then {Q = Any}
              (Keeps-if (ltb 0 n) (λ g. Keeps-observe (replayed t n)) (λ g. Keeps-pure tt tt))
              (Keeps-pure n tt))))

pub Keeps-replay_topic :
    (sv : Service) (c : Call) (t : Text) (from : Option ℕ) → Keeps Wf Any (replay_topic sv c t from)
unfolding replay_topic
Keeps-replay_topic sv c t from =
    Keeps-bind {Q = Any} (Inert-Keeps (Inert-get_topic_config sv c t))
      (λ cfg q. Keeps-replay_configured sv c t from cfg)
