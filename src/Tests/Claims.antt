-- ===== src/Tests/Claims.antt =====
-- Enqueueing and dequeueing, and the token bucket.
use queue_ti.Base.{ℕ, ◌≤◌, ◌+◌, ◌*◌, ◌≡◌, refl, some, none, [], ◌∷◌, true, false, arith}
use queue_ti.Base.Table.{All, any, update, count}
use queue_ti.Base.Text.{bytes}
use queue_ti.Queue.Error.{ok}
use queue_ti.Queue.Tables.{Db, Message, Bucket, same_id}
use queue_ti.Base.Int.{pos}
use queue_ti.Queue.Config.{second}
use queue_ti.Queue.Op.{World}
use queue_ti.Queue.Enqueue.{enqueue}
use queue_ti.Queue.Enqueue.Placed.{enqueue-Enqueued, Enqueued}
use queue_ti.Queue.Dequeue.{Received, dequeue, chosen, claim, can_claim}
use queue_ti.Queue.Dequeue.Claims.{dequeue-Claimed, Claimed}
use queue_ti.Base.{List}
use queue_ti.Base.Order.{at_head}
use queue_ti.Base.{Option, ◌≢◌}
use queue_ti.Base.Text.{Text}
use queue_ti.Queue.Service.{Metadata}
use queue_ti.Queue.Throttle.{throughput_limit}
use queue_ti.Queue.Dequeue.{dequeue_n, decode_metadata}
use queue_ti.Queue.Dequeue.Batch.{dequeue_n-Batch, Batch}
use queue_ti.Queue.Dequeue.Delivers.{dequeue-Delivers}
use queue_ti.Queue.Dequeue.Exclusive.{claim-exclusive, Claim, after_claims}
use queue_ti.Queue.Op.Triple.{local_of}
use queue_ti.Queue.Throttle.Bound.{run, run-Bound, Has}
use queue_ti.Queue.Reaper.{is_overdue, expire, run_expiry_reaper_once}
use queue_ti.Queue.Tables.{expired}
use queue_ti.Queue.Reaper.{is_expired, is_past_window, run_delete_reaper_once}
use queue_ti.Queue.Reaper.Deletion.{run_delete_reaper_once-Swept, Swept}
use queue_ti.Queue.Reaper.Expiry.{run_expiry_reaper_once-Expired, Rows}
use queue_ti.Tests.Scene.{service, call_at, orders, message, world_with, world_of, empty_db}

enqueue_run :
    (enqueue service (call_at 100) orders (bytes "p") [] none (world_of empty_db)).0 ≡ ok 100
unfolding enqueue queue_ti.Queue.Enqueue.check_registered
    queue_ti.Queue.Enqueue.resolve_enqueue_params queue_ti.Queue.Enqueue.check_depth
    queue_ti.Queue.Enqueue.depth queue_ti.Queue.Enqueue.resolve_expires_at
    queue_ti.Queue.Enqueue.upsert_message queue_ti.Queue.Schemas.validate_payload
    queue_ti.Queue.Schemas.get_topic_schema_cached queue_ti.Queue.Schemas.schema_from_redis
    queue_ti.Queue.Schemas.load_schema queue_ti.Queue.Schemas.check_payload
    queue_ti.Queue.Schemas.find_schema queue_ti.Queue.Op.transaction queue_ti.Queue.Op.attempt
    queue_ti.Queue.Op.next_fault queue_ti.Queue.Op.◌>>=◌ queue_ti.Queue.Op.pure
    queue_ti.Queue.Op.raise queue_ti.Queue.Op.tx_query queue_ti.Queue.Op.tx_exec
    queue_ti.Queue.Op.pool_query queue_ti.Queue.Op.pool_exec queue_ti.Queue.Op.commit
    queue_ti.Queue.Op.observe queue_ti.Queue.Op.cache_get queue_ti.Queue.Op.cache_set
    queue_ti.Queue.Op.cache_delete queue_ti.Base.Table.first queue_ti.Base.Table.select
    queue_ti.Base.Table.update queue_ti.Base.Table.delete queue_ti.Base.Table.any
    queue_ti.Base.Table.count queue_ti.Base.Table.order_by queue_ti.Base.Table.insert_by
    queue_ti.Base.Table.take queue_ti.Queue.Config.find_config queue_ti.Queue.Config.load_local
    queue_ti.Queue.Config.store_local queue_ti.Queue.Config.fill_caches
    queue_ti.Queue.Config.load_config queue_ti.Queue.Config.from_redis
    queue_ti.Queue.Config.from_local queue_ti.Queue.Config.get_topic_config
    queue_ti.Queue.Statements.update_message queue_ti.Queue.Statements.no_clash
    queue_ti.Queue.Statements.delete_messages queue_ti.Queue.Statements.insert_log
    queue_ti.Queue.Statements.insert_message queue_ti.Queue.Statements.mint_deliveries
    queue_ti.Queue.Statements.add_delivery queue_ti.Base.Text.text_eq queue_ti.Base.Text.has_suffix
    queue_ti.Base.Map.lookup queue_ti.Base.Map.remove queue_ti.Base.Map.store
enqueue_run = refl

enqueue-Enqueued_example :
    Enqueued service
      (call_at 100)
      orders
      (bytes "p")
      []
      none
      empty_db
      100
      (enqueue service (call_at 100) orders (bytes "p") [] none (world_of empty_db)).1.committed
      (local_of (enqueue service (call_at 100) orders (bytes "p") [] none (world_of empty_db)).1)
enqueue-Enqueued_example =
    enqueue-Enqueued service (call_at 100) orders (bytes "p") [] none (world_of empty_db) 100
      enqueue_run

-- What the consumer of the first message receives.
abbrev received : Received
received = record {
  id = 100;
  topic = orders;
  key = none;
  payload = bytes "p";
  metadata = [];
  retry_count = 0;
  max_retries = 3;
  last_error = [];
  expires_at = none;
  created_at = 100;
  original_topic = [];
  dlq_moved_at = none;
}

dequeue_run : (dequeue service (call_at 200) orders 0 (world_with (message ∷ []))).0 ≡ ok received
unfolding dequeue queue_ti.Queue.Dequeue.deliver queue_ti.Queue.Dequeue.claim
    queue_ti.Queue.Dequeue.hydrate queue_ti.Queue.Dequeue.resolve_visibility_timeout
    queue_ti.Queue.Dequeue.visible_at queue_ti.Queue.Dequeue.commit_empty
    queue_ti.Queue.Throttle.apply_throughput_limit queue_ti.Queue.Throttle.limit_to
    queue_ti.Queue.Throttle.throughput_limit queue_ti.Queue.Op.transaction queue_ti.Queue.Op.attempt
    queue_ti.Queue.Op.next_fault queue_ti.Queue.Op.◌>>=◌ queue_ti.Queue.Op.pure
    queue_ti.Queue.Op.raise queue_ti.Queue.Op.tx_query queue_ti.Queue.Op.tx_exec
    queue_ti.Queue.Op.pool_query queue_ti.Queue.Op.pool_exec queue_ti.Queue.Op.commit
    queue_ti.Queue.Op.observe queue_ti.Queue.Op.cache_get queue_ti.Queue.Op.cache_set
    queue_ti.Queue.Op.cache_delete queue_ti.Base.Table.first queue_ti.Base.Table.select
    queue_ti.Base.Table.update queue_ti.Base.Table.delete queue_ti.Base.Table.any
    queue_ti.Base.Table.count queue_ti.Base.Table.order_by queue_ti.Base.Table.insert_by
    queue_ti.Base.Table.take queue_ti.Queue.Config.find_config queue_ti.Queue.Config.load_local
    queue_ti.Queue.Config.store_local queue_ti.Queue.Config.fill_caches
    queue_ti.Queue.Config.load_config queue_ti.Queue.Config.from_redis
    queue_ti.Queue.Config.from_local queue_ti.Queue.Config.get_topic_config
    queue_ti.Base.Text.text_eq queue_ti.Base.Text.has_suffix queue_ti.Base.Map.lookup
    queue_ti.Base.Map.remove queue_ti.Base.Map.store
dequeue_run = refl

dequeue-Claimed_example :
    Claimed service
      (call_at 200)
      orders
      0
      (world_with (message ∷ [])).committed
      received
      (dequeue service (call_at 200) orders 0 (world_with (message ∷ []))).1.committed
dequeue-Claimed_example =
    dequeue-Claimed service (call_at 200) orders 0 (world_with (message ∷ [])) received dequeue_run

-- The database of one message.
abbrev one_message : Db
one_message = (world_with (message ∷ [])).committed

-- A consumer that claims the message, and another that asks in between.
abbrev first_claim : Db
first_claim = (claim (call_at 200) 30_000_000_000 (can_claim (call_at 200) orders) 1 one_message).1

abbrev between : List Claim
between = record { call = call_at 300; timeout = 1; topic = orders; size = 2 } ∷ []

claim-exclusive_example :
    All
      (λ m. any (same_id m) (chosen (can_claim (call_at 200) orders) 1 one_message) ≡ false)
      (chosen (can_claim (call_at 900) orders) 5 (after_claims between first_claim))
claim-exclusive_example =
    claim-exclusive (call_at 200) (call_at 900) 30_000_000_000 1 5 (can_claim (call_at 200) orders)
      between orders one_message

-- A full bucket of two tokens a second, and three requests within a second.
abbrev bucket : Bucket
bucket = record { topic = orders; tokens = pos 2_000_000_000; last_refill = 0 }

run-Bound_example :
    (k : ℕ) × Has (run 2 bucket ((0, 5) ∷ (500_000_000, 5) ∷ (600_000_000, 1) ∷ [])).1 k
    × ((run 2 bucket ((0, 5) ∷ (500_000_000, 5) ∷ (600_000_000, 1) ∷ [])).0 * second + k + 2 * 0
        ≤ 2_000_000_000
          + 2 * (run 2 bucket ((0, 5) ∷ (500_000_000, 5) ∷ (600_000_000, 1) ∷ [])).1.last_refill)
run-Bound_example =
    run-Bound 2 2_000_000_000 bucket ((0, 5) ∷ (500_000_000, 5) ∷ (600_000_000, 1) ∷ []) refl
      (omega arith, (omega arith, (omega arith, tt)))

-- A message whose time ran out at 150.
abbrev stale : World
stale = world_with (record message { expires_at = some 150 } ∷ [])

expiry_run : (run_expiry_reaper_once (call_at 200) stale).0 ≡ ok 1
unfolding run_expiry_reaper_once queue_ti.Queue.Reaper.expire_messages queue_ti.Queue.Op.transaction
    queue_ti.Queue.Op.attempt queue_ti.Queue.Op.next_fault queue_ti.Queue.Op.◌>>=◌
    queue_ti.Queue.Op.pure queue_ti.Queue.Op.raise queue_ti.Queue.Op.tx_query
    queue_ti.Queue.Op.tx_exec queue_ti.Queue.Op.pool_query queue_ti.Queue.Op.pool_exec
    queue_ti.Queue.Op.commit queue_ti.Queue.Op.observe queue_ti.Queue.Op.cache_get
    queue_ti.Queue.Op.cache_set queue_ti.Queue.Op.cache_delete queue_ti.Base.Table.first
    queue_ti.Base.Table.select queue_ti.Base.Table.update queue_ti.Base.Table.delete
    queue_ti.Base.Table.any queue_ti.Base.Table.count queue_ti.Base.Table.order_by
    queue_ti.Base.Table.insert_by queue_ti.Base.Table.take
expiry_run = refl

run_expiry_reaper_once-Expired_example :
    (ms : List Message) × (Rows 200 1 stale.committed.messages ms
      × ((run_expiry_reaper_once (call_at 200) stale).1.committed
          ≡ record stale.committed { messages = ms }))
run_expiry_reaper_once-Expired_example =
    run_expiry_reaper_once-Expired (call_at 200) 1 stale expiry_run

dequeue_n_run :
    (dequeue_n service (call_at 200) orders 10 0 (world_with (message ∷ []))).0 ≡ ok (received ∷ [])
unfolding dequeue_n queue_ti.Queue.Dequeue.scan_rows queue_ti.Queue.Dequeue.commit_list
    queue_ti.Queue.Dequeue.deliver queue_ti.Queue.Dequeue.claim queue_ti.Queue.Dequeue.hydrate
    queue_ti.Queue.Dequeue.resolve_visibility_timeout queue_ti.Queue.Dequeue.visible_at
    queue_ti.Queue.Dequeue.commit_empty queue_ti.Queue.Throttle.apply_throughput_limit
    queue_ti.Queue.Throttle.limit_to queue_ti.Queue.Throttle.throughput_limit
    queue_ti.Queue.Op.transaction queue_ti.Queue.Op.attempt queue_ti.Queue.Op.next_fault
    queue_ti.Queue.Op.◌>>=◌ queue_ti.Queue.Op.pure queue_ti.Queue.Op.raise
    queue_ti.Queue.Op.tx_query queue_ti.Queue.Op.tx_exec queue_ti.Queue.Op.pool_query
    queue_ti.Queue.Op.pool_exec queue_ti.Queue.Op.commit queue_ti.Queue.Op.observe
    queue_ti.Queue.Op.cache_get queue_ti.Queue.Op.cache_set queue_ti.Queue.Op.cache_delete
    queue_ti.Base.Table.first queue_ti.Base.Table.select queue_ti.Base.Table.update
    queue_ti.Base.Table.delete queue_ti.Base.Table.any queue_ti.Base.Table.count
    queue_ti.Base.Table.order_by queue_ti.Base.Table.insert_by queue_ti.Base.Table.take
    queue_ti.Queue.Config.find_config queue_ti.Queue.Config.load_local
    queue_ti.Queue.Config.store_local queue_ti.Queue.Config.fill_caches
    queue_ti.Queue.Config.load_config queue_ti.Queue.Config.from_redis
    queue_ti.Queue.Config.from_local queue_ti.Queue.Config.get_topic_config
    queue_ti.Base.Text.text_eq queue_ti.Base.Text.has_suffix queue_ti.Base.Map.lookup
    queue_ti.Base.Map.remove queue_ti.Base.Map.store
dequeue_n_run = refl

dequeue_n-Batch_example :
    Batch service
      (call_at 200)
      orders
      10
      0
      (world_with (message ∷ [])).committed
      (received ∷ [])
      (dequeue_n service (call_at 200) orders 10 0 (world_with (message ∷ []))).1.committed
dequeue_n-Batch_example =
    dequeue_n-Batch service (call_at 200) orders 10 0 (world_with (message ∷ [])) (received ∷ [])
      dequeue_n_run

decodes_text : (t : Option Text) → (md : Metadata) × (decode_metadata service.libraries t ≡ some md)
decodes_text none = ([], refl)
decodes_text (some t) = ([], refl)

no_limit : throughput_limit orders one_message ≡ none
unfolding throughput_limit queue_ti.Queue.Config.find_config queue_ti.Base.Table.first
no_limit = refl

claimable : can_claim (call_at 200) orders message ≡ true
unfolding queue_ti.Base.Text.text_eq
claimable = refl

dequeue-Delivers_example :
    (r : Received) × ((dequeue service (call_at 200) orders 0 (world_with (message ∷ []))).0 ≡ ok r)
dequeue-Delivers_example =
    dequeue-Delivers service (call_at 200) orders 0 (world_with (message ∷ [])) message refl
      no_limit (λ x i. decodes_text x.metadata) at_head claimable

-- A message that has expired, and one that has not.
abbrev swept_world : World
swept_world = world_with (record message { id = 99; status = expired } ∷ message ∷ [])

deletion_run : (run_delete_reaper_once (call_at 200) swept_world).0 ≡ ok 1
unfolding run_delete_reaper_once queue_ti.Queue.Reaper.run_delete_work
    queue_ti.Queue.Reaper.delete_expired queue_ti.Queue.Reaper.delete_archived
    queue_ti.Queue.Op.transaction queue_ti.Queue.Op.attempt queue_ti.Queue.Op.next_fault
    queue_ti.Queue.Op.◌>>=◌ queue_ti.Queue.Op.pure queue_ti.Queue.Op.raise
    queue_ti.Queue.Op.tx_query queue_ti.Queue.Op.tx_exec queue_ti.Queue.Op.commit
    queue_ti.Queue.Op.observe queue_ti.Base.Table.count
deletion_run = refl

run_delete_reaper_once-Swept_example :
    Swept 200 1 swept_world.committed (run_delete_reaper_once (call_at 200) swept_world).1.committed
run_delete_reaper_once-Swept_example =
    run_delete_reaper_once-Swept (call_at 200) 1 swept_world deletion_run
