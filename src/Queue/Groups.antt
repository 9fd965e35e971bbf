-- ===== src/Queue/Groups.antt =====
-- consumer_group.go
use queue_ti.Base.{ℕ, Bool, List, [], ◌∷◌, ◌++◌, map, ◌&&◌, ◌==◌, if◌then◌else◌}
use queue_ti.Base.Text.{Text, text_eq}
use queue_ti.Base.Table.{select, delete, count, any, order_by}
use queue_ti.Queue.Error.{consumer_group_exists, consumer_group_not_found}
use queue_ti.Queue.Tables.{Db, Message, Delivery, Group, pending, status_eq, has_topic}
use queue_ti.Queue.Service.{Service, Call}
use queue_ti.Queue.Op.{
  Op, raise, ◌>>=◌, ◌>>◌, always, plain, pool_query, tx_exec, transaction, commit,
}
use queue_ti.Queue.Statements.{new_delivery, add_delivery}
use queue_ti.Queue.Enqueue.{check_registered}

abbrev pub is_group : Text → Text → Group → Bool
is_group topic group g = text_eq g.topic topic && text_eq g.group group

-- INSERT INTO consumer_groups … ON CONFLICT DO NOTHING; the number of rows inserted.
unfoldable pub insert_group : Text → Text → ℕ → Db → ℕ × Db
insert_group topic group now db = if any (is_group topic group) db.groups then (0, db) else (
  1,
  record db {
    groups = db.groups ++ record { topic = topic; group = group; created_at = now } ∷ [];
  },
)

-- INSERT INTO message_deliveries SELECT m.id, $1, m.max_retries … ON CONFLICT DO NOTHING
unfoldable pub backfill_rows : Text → ℕ → List Message → List Delivery → List Delivery
backfill_rows group now [] ds = ds
backfill_rows group now (m ∷ ms) ds =
    backfill_rows group now ms (add_delivery (new_delivery m.id group m.max_retries now) ds)

abbrev pub is_pending_on : Text → Message → Bool
is_pending_on topic m = text_eq m.topic topic && status_eq m.status pending

unfoldable pub backfill : Text → Text → ℕ → Db → Db
backfill topic group now db = record db {
  deliveries = backfill_rows group now (select (is_pending_on topic) db.messages) db.deliveries;
}

unfoldable pub register_consumer_group : Service → Call → Text → Text → Op (Unit {0})
register_consumer_group sv c topic group = do
  check_registered sv c topic
  transaction (do
    affected ← tx_exec (always (insert_group topic group c.now))
    if affected == 0
        then raise consumer_group_exists
        else (do tx_exec (plain (backfill topic group c.now)); commit))

unfoldable pub delete_group : Text → Text → Db → ℕ × Db
delete_group topic group db = (
  count (is_group topic group) db.groups,
  record db { groups = delete (is_group topic group) db.groups },
)

-- DELETE FROM message_deliveries md USING messages m, for the messages of the topic.
unfoldable pub delete_group_deliveries : Text → Text → Db → Db
delete_group_deliveries topic group db = record db {
  deliveries =
      delete
        (λ d.
          text_eq d.group group && any (λ m. m.id == d.message_id && has_topic topic m) db.messages)
        db.deliveries;
}

unfoldable pub unregister_consumer_group : Text → Text → Op (Unit {0})
unregister_consumer_group topic group = transaction do
  affected ← tx_exec (always (delete_group topic group))
  if affected == 0
      then raise consumer_group_not_found
      else (do tx_exec (plain (delete_group_deliveries topic group)); commit)

-- Oldest registration first.
unfoldable pub list_consumer_groups : Text → Op (List Text)
list_consumer_groups topic = pool_query (λ db.
    map (λ (g : Group). g.group)
      (order_by (λ (g : Group). g.created_at) (select (λ g. text_eq g.topic topic) db.groups)))
