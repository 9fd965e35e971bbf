-- ===== src/Queue/Wf/Operations/Maintenance.antt =====
-- Consumer groups, reapers, purges, the log and the topic configuration.
use queue_ti.Base.{
  ℕ, Bool, true, false, Option, none, some, List, [], ◌∷◌, ◌==◌, ◌≡◌, refl, if◌then◌else◌, ltb,
  Bool-cases, Option-cases, inl, inr, arith,
}
use queue_ti.Base.Text.{Text, has_suffix}
use queue_ti.Base.Table.{All, All-select, All-delete, any, select, delete, NoClash, NoClash-update}
use queue_ti.Queue.Error.{
  reserved_topic, not_found, consumer_group_exists, consumer_group_not_found, invalid_schema,
}
use queue_ti.Queue.Tables.{
  Db, Message, Delivery, LogRow, TopicConfig, Status, same_pending_key, same_delivery, has_id,
}
use queue_ti.Queue.Service.{Service, Call}
use queue_ti.Queue.Op.{Op, always, expired_rows, deleted_rows, schema_changed}
use queue_ti.Queue.Op.Inert.{Inert-Keeps, Inert-cache_delete, Inert-publish}
use queue_ti.Queue.Op.Keeps.{
  Keeps, KeepsDb, Any, Keeps-pure, Keeps-raise, Keeps-bind, Keeps-then, Keeps-if, Keeps-tx_query,
  Keeps-tx_exec, Keeps-pool_exec, Keeps-transaction, Keeps-commit, Keeps-observe,
}
use queue_ti.Queue.Config.{
  dlq_suffix, upsert_topic_config, delete_topic_config, delete_config_rows, delete_bucket_rows,
}
use queue_ti.Queue.Config.Inert.{Inert-invalidate_config}
use queue_ti.Queue.Schemas.{
  upsert_topic_schema, upsert_topic_schema_and_notify, delete_topic_schema,
  delete_topic_schema_and_notify, upsert_schema_row, delete_schema_row, find_schema,
}
use queue_ti.Queue.Schemas.Inert.{Inert-drop_compiled}
use queue_ti.Queue.Statements.{new_delivery}
use queue_ti.Queue.Groups.{
  is_group, insert_group, backfill_rows, is_pending_on, backfill, register_consumer_group,
  delete_group, delete_group_deliveries, unregister_consumer_group,
}
use queue_ti.Queue.Reaper.{
  is_overdue, expire, expire_messages, is_expired, delete_expired, delete_archived, observe_rows,
  try_with_reaper_lock, expiry_work, expiry_tick, run_expiry_reaper_once, run_delete_work,
  delete_tick, run_delete_reaper_once, run_archive_reaper_once,
}
use queue_ti.Queue.Replay.{trim_rows, trim_message_log, purge_rows, purge_topic, purge_by_key}
use queue_ti.Queue.Wf.{Wf, IsRow, IsLogRow}
use queue_ti.Queue.Wf.Keys.{add_delivery-NoClash}
use queue_ti.Queue.Wf.Statements.{
  update-Wf, delete_messages-Wf, delete_deliveries-Wf, add_delivery-references,
}
use queue_ti.Queue.Wf.Operations.Rest.{Wf-rest}
use queue_ti.Queue.Wf.Operations.Enqueue.{Keeps-check_registered}

insert_group-Wf : (t g : Text) (now : ℕ) → KeepsDb Wf Any (always (insert_group t g now))
unfolding insert_group
insert_group-Wf t g now db w = elim (Bool-cases (any (is_group t g) db.groups)) [
  | inl e ↦ rw e (w, tt)
  | inr e ↦ rw e (Wf-rest db _ db.configs db.buckets db.schemas w, tt)
]

backfill-pairs :
    (g : Text) (now : ℕ) (ms : List Message) (ds : List Delivery)
    → NoClash same_delivery ds
    → NoClash same_delivery (backfill_rows g now ms ds)
unfolding backfill_rows
backfill-pairs g now [] ds h = h
backfill-pairs g now (m ∷ ms) ds h = backfill-pairs g now ms _ (add_delivery-NoClash _ ds h)

backfill-references :
    (all : List Message) (g : Text) (now : ℕ) (ms : List Message) (ds : List Delivery)
    → All (λ m. any (has_id m.id) all ≡ true) ms
    → All (λ d. any (has_id d.message_id) all ≡ true) ds
    → All (λ d. any (has_id d.message_id) all ≡ true) (backfill_rows g now ms ds)
unfolding backfill_rows
backfill-references all g now [] ds h k = k
backfill-references all g now (m ∷ ms) ds h k =
    backfill-references all g now ms _ h.1
      (add_delivery-references all (new_delivery m.id g m.max_retries now) ds h.0 k)

-- Every row of a table is in the table.
own_ids : (ms : List Message) → All (λ m. any (has_id m.id) ms ≡ true) ms
own_ids ms = go ms ms (λ i h. h)
  where
    go :
        (rest all : List Message)
        → ((i : ℕ) → any (has_id i) rest ≡ true → any (has_id i) all ≡ true)
        → All (λ m. any (has_id m.id) all ≡ true) rest
    go [] all h = tt
    go (m ∷ ms) all h =
        (h m.id (unfold any in ground arith), go ms all (λ i e. h i (unfold any in ground arith)))

backfill-Wf : (t g : Text) (now : ℕ) (db : Db) → Wf db → Wf (backfill t g now db)
unfolding backfill
backfill-Wf t g now db w = record {
  ids = w.ids;
  keys = w.keys;
  rows = w.rows;
  archived = w.archived;
  pairs = backfill-pairs g now (select (is_pending_on t) db.messages) db.deliveries w.pairs;
  references =
      backfill-references db.messages g now (select (is_pending_on t) db.messages) db.deliveries
        (All-select (λ m. any (has_id m.id) db.messages ≡ true) (is_pending_on t) db.messages
          (own_ids db.messages))
        w.references;
}

pub Keeps-register_consumer_group :
    (sv : Service) (c : Call) (t g : Text) → Keeps Wf Any (register_consumer_group sv c t g)
unfolding register_consumer_group
Keeps-register_consumer_group sv c t g = Keeps-then (Keeps-check_registered sv c t) (
    Keeps-transaction (
      Keeps-bind {Q = Any} (Keeps-tx_exec _ (insert_group-Wf t g c.now)) (λ n q.
        Keeps-if (n == 0) (λ e. Keeps-raise consumer_group_exists)
          (λ e.
            Keeps-then {Q = Any} (Keeps-tx_exec _ (λ db w. (backfill-Wf t g c.now db w, tt)))
              Keeps-commit))))

pub Keeps-unregister_consumer_group : (t g : Text) → Keeps Wf Any (unregister_consumer_group t g)
unfolding unregister_consumer_group delete_group delete_group_deliveries
Keeps-unregister_consumer_group t g = Keeps-transaction (
    Keeps-bind {Q = Any}
      (Keeps-tx_exec _ (λ db w. (Wf-rest db _ db.configs db.buckets db.schemas w, tt)))
      (λ n q.
        Keeps-if (n == 0) (λ e. Keeps-raise consumer_group_not_found)
          (λ e.
            Keeps-then {Q = Any} (Keeps-tx_exec _ (λ db w. (delete_deliveries-Wf _ db w, tt)))
              Keeps-commit)))

expire-IsRow : (c : Call) (m : Message) → IsRow m → IsRow (expire c m)
expire-IsRow c m r = record { idle = λ e. cc; leased = λ e. cc; linked = r.linked }

expire-keys :
    (c : Call) (p : Message → Bool) (a b : Message)
    → same_pending_key a b ≡ false
    → same_pending_key (if p a then expire c a else a) (if p b then expire c b else b) ≡ false
expire-keys c p a b h = elim (Bool-cases (p a)) [
  | inl e ↦ rw e refl
  | inr e ↦ rw e (elim (Bool-cases (p b)) [ inl f ↦ rw f (ground arith) | inr f ↦ rw f h ])
]

expire_messages-Wf : (c : Call) → KeepsDb Wf Any (always (expire_messages c))
unfolding expire_messages
expire_messages-Wf c db w = (
  update-Wf (is_overdue c) (expire c) (λ m. refl) db (λ m _ r. expire-IsRow c m r)
      (NoClash-update same_pending_key (is_overdue c) (expire c) db.messages
        (expire-keys c (is_overdue c)) w.keys)
      w,
  tt,
)

delete_log-Wf : (p : LogRow → Bool) (db : Db) → Wf db → Wf (record db { log = delete p db.log })
delete_log-Wf p db w = record {
  ids = w.ids;
  keys = w.keys;
  rows = w.rows;
  archived = All-delete IsLogRow p db.log w.archived;
  pairs = w.pairs;
  references = w.references;
}

Keeps-observe_rows : (n : ℕ) {m : Op (Unit {0})} → Keeps Wf Any m → Keeps Wf Any (observe_rows n m)
Keeps-observe_rows n k = Keeps-if (ltb 0 n) (λ e. k) (λ e. Keeps-pure tt tt)

Keeps-try_with_reaper_lock :
    (b : Bool) (work : Op (Unit {0}))
    → Keeps Wf Any work
    → Keeps Wf Any (try_with_reaper_lock b work)
unfolding try_with_reaper_lock
Keeps-try_with_reaper_lock b work k = Keeps-transaction (
    Keeps-bind {Q = Any} (Keeps-tx_query (λ db. b) (λ db w. tt))
      (λ got q. Keeps-if got (λ e. Keeps-then k Keeps-commit) (λ e. Keeps-pure tt tt)))

pub Keeps-expiry_tick : (c : Call) (b : Bool) → Keeps Wf Any (expiry_tick c b)
unfolding expiry_tick expiry_work
Keeps-expiry_tick c b = Keeps-try_with_reaper_lock b _ (
    Keeps-bind {Q = Any} (Keeps-tx_exec _ (expire_messages-Wf c))
      (λ n q. Keeps-observe_rows n (Keeps-observe (expired_rows n))))

pub Keeps-run_expiry_reaper_once : (c : Call) → Keeps Wf Any (run_expiry_reaper_once c)
unfolding run_expiry_reaper_once
Keeps-run_expiry_reaper_once c =
    Keeps-bind {Q = Any} (Keeps-pool_exec _ (expire_messages-Wf c))
      (λ n q. Keeps-then (Keeps-observe_rows n (Keeps-observe (expired_rows n))) (Keeps-pure n tt))

Keeps-run_delete_work : (c : Call) → Keeps Wf Any (run_delete_work c)
unfolding run_delete_work delete_expired delete_archived
Keeps-run_delete_work c =
    Keeps-bind {Q = Any} (Keeps-tx_exec _ (λ db w. (delete_messages-Wf is_expired db w, tt)))
      (λ n q. Keeps-then (Keeps-observe_rows n (Keeps-observe (deleted_rows n))) (
        Keeps-then {Q = Any} (Keeps-tx_exec _ (λ db w. (delete_log-Wf _ db w, tt)))
          (Keeps-pure n tt)))

pub Keeps-delete_tick : (c : Call) (b : Bool) → Keeps Wf Any (delete_tick c b)
unfolding delete_tick
Keeps-delete_tick c b =
    Keeps-try_with_reaper_lock b _ (Keeps-then (Keeps-run_delete_work c) (Keeps-pure tt tt))

pub Keeps-run_delete_reaper_once : (c : Call) → Keeps Wf Any (run_delete_reaper_once c)
unfolding run_delete_reaper_once
Keeps-run_delete_reaper_once c = Keeps-transaction (
    Keeps-bind {Q = Any} (Keeps-run_delete_work c)
      (λ n q. Keeps-then Keeps-commit (Keeps-pure n tt)))

pub Keeps-run_archive_reaper_once : (c : Call) → Keeps Wf Any (run_archive_reaper_once c)
unfolding run_archive_reaper_once delete_archived
Keeps-run_archive_reaper_once c = Keeps-pool_exec _ (λ db w. (delete_log-Wf _ db w, tt))

pub Keeps-trim_message_log : (t : Text) (before : ℕ) → Keeps Wf Any (trim_message_log t before)
unfolding trim_message_log trim_rows
Keeps-trim_message_log t before = Keeps-pool_exec _ (λ db w. (delete_log-Wf _ db w, tt))

pub Keeps-purge_topic : (t : Text) (ss : List Status) → Keeps Wf Any (purge_topic t ss)
unfolding purge_topic purge_rows
Keeps-purge_topic t ss = Keeps-pool_exec _ (λ db w. (delete_messages-Wf _ db w, tt))

pub Keeps-purge_by_key : (t k : Text) → Keeps Wf Any (purge_by_key t k)
unfolding purge_by_key purge_rows
Keeps-purge_by_key t k = Keeps-pool_exec _ (λ db w. (delete_messages-Wf _ db w, tt))

pub Keeps-upsert_topic_config :
    (sv : Service) (c : Call) (cfg : TopicConfig) → Keeps Wf Any (upsert_topic_config sv c cfg)
unfolding upsert_topic_config
Keeps-upsert_topic_config sv c cfg =
    Keeps-if (has_suffix cfg.topic dlq_suffix) (λ e. Keeps-raise reserved_topic)
      (λ e.
        Keeps-then {Q = Any}
          (Keeps-pool_exec _ (λ db w. (Wf-rest db db.groups _ db.buckets db.schemas w, tt)))
          (Inert-Keeps (Inert-invalidate_config sv c cfg.topic)))

pub Keeps-delete_topic_config :
    (sv : Service) (c : Call) (t : Text) → Keeps Wf Any (delete_topic_config sv c t)
unfolding delete_topic_config delete_config_rows delete_bucket_rows
Keeps-delete_topic_config sv c t =
    Keeps-bind {Q = Any}
      (Keeps-pool_exec _ (λ db w. (Wf-rest db db.groups _ db.buckets db.schemas w, tt)))
      (λ n q.
        Keeps-if (n == 0) (λ e. Keeps-raise not_found)
          (λ e.
            Keeps-then {Q = Any}
              (Keeps-pool_exec _ (λ db w. (Wf-rest db db.groups db.configs _ db.schemas w, tt)))
              (Inert-Keeps (Inert-invalidate_config sv c t))))

upsert_schema_row-Wf :
    (t json : Text) (now : ℕ) → KeepsDb Wf Any (always (upsert_schema_row t json now))
unfolding upsert_schema_row
upsert_schema_row-Wf t json now db w = elim (Option-cases (find_schema t db.schemas)) [
  | inl e ↦ rw (e, upsert_schema_row) (Wf-rest db db.groups db.configs db.buckets _ w, tt)
  | inr (r, e) ↦ rw (e, upsert_schema_row) (Wf-rest db db.groups db.configs db.buckets _ w, tt)
]

pub Keeps-upsert_topic_schema_and_notify :
    (sv : Service) (c : Call) (t json : Text)
    → Keeps Wf Any (upsert_topic_schema_and_notify sv c t json)
unfolding upsert_topic_schema_and_notify upsert_topic_schema
Keeps-upsert_topic_schema_and_notify sv c t json =
    Keeps-bind {Q = Any} (upsert (sv.libraries.parse_avro json) refl) (λ ts q.
      Keeps-then (Inert-Keeps (Inert-cache_delete sv _))
        (Keeps-then (Inert-Keeps (Inert-publish schema_changed t)) (Keeps-pure ts tt)))
  where
    upsert :
        (parsed : Option queue_ti.Queue.Avro.Schema)
        → sv.libraries.parse_avro json ≡ parsed
        → Keeps Wf Any (upsert_topic_schema sv c t json)
    upsert none e = rw (e, upsert_topic_schema) (Keeps-raise invalid_schema)
    upsert (some p) e =
        rw (e, upsert_topic_schema)
          (Keeps-then (Inert-Keeps (Inert-drop_compiled sv c t))
            (Keeps-pool_exec _ (upsert_schema_row-Wf t json c.now)))

pub Keeps-delete_topic_schema_and_notify :
    (sv : Service) (c : Call) (t : Text) → Keeps Wf Any (delete_topic_schema_and_notify sv c t)
unfolding delete_topic_schema_and_notify delete_topic_schema delete_schema_row
Keeps-delete_topic_schema_and_notify sv c t =
    Keeps-then {Q = Any}
      (Keeps-then {Q = Any} (Inert-Keeps (Inert-drop_compiled sv c t))
        (Keeps-pool_exec _ (λ db w. (Wf-rest db db.groups db.configs db.buckets _ w, tt))))
      (Keeps-then (Inert-Keeps (Inert-cache_delete sv _))
        (Inert-Keeps (Inert-publish schema_changed t)))
