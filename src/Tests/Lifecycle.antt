-- ===== src/Tests/Lifecycle.antt =====
-- Acknowledging, rejecting and requeueing.
use queue_ti.Base.{◌≡◌, false, true, refl, some, none, [], ◌∷◌, ◌==◌}
use queue_ti.Base.Order.{In, in_tail, at_head}
use queue_ti.Base.Text.{bytes, text_eq}
use queue_ti.Base.Table.{first}
use queue_ti.Queue.Error.{ok}
use queue_ti.Queue.Tables.{Message, pending, processing, status_eq, has_id}
use queue_ti.Queue.Lifecycle.{
  ack, nack, requeue, ack_for_group, is_processing, threshold_of, find_joined, Joined,
}
use queue_ti.Queue.Lifecycle.Ack.{ack-refines, acked_db}
use queue_ti.Queue.Lifecycle.Settles.{ack-Succeeds, IsNew}
use queue_ti.Queue.Lifecycle.{log_row}
use queue_ti.Queue.Lifecycle.NackGroups.{nack_for_group-Rejected, GroupNacked}
use queue_ti.Queue.Lifecycle.{nack_for_group}
use queue_ti.Queue.Config.Tiers.{Configured, stored, cached}
use queue_ti.Queue.Op.Triple.{local_of}
use queue_ti.Queue.Op.{World}
use queue_ti.Queue.Lifecycle.Nack.{nack-Rejected, Nacked}
use queue_ti.Queue.Lifecycle.Requeue.{requeue-refines, RequeuedTo}
use queue_ti.Queue.Lifecycle.Groups.{ack_for_group-refines, ack_for_group-Independent, group_acked}
use queue_ti.Queue.Lifecycle.Atomic.{SettlementKept, settlement-SettlementKept, nacks}
use queue_ti.Tests.Scene.{
  service, call_at, orders, message, taken, dead, world_with, cached_world, shared_world,
  delivery_of, one_retry,
}

ack_run : (ack (call_at 300) 100 (world_with (taken ∷ []))).0 ≡ ok tt
unfolding queue_ti.Queue.Lifecycle.ack queue_ti.Queue.Lifecycle.nack
    queue_ti.Queue.Lifecycle.nack_row queue_ti.Queue.Lifecycle.requeue
    queue_ti.Queue.Lifecycle.requeue_to queue_ti.Queue.Lifecycle.ack_for_group
    queue_ti.Queue.Lifecycle.find_joined queue_ti.Queue.Lifecycle.delete_delivery
    queue_ti.Queue.Lifecycle.finish_message queue_ti.Queue.Lifecycle.archive_to_log
    queue_ti.Queue.Lifecycle.is_replayable queue_ti.Queue.Lifecycle.effective_dlq_threshold
    queue_ti.Queue.Op.transaction queue_ti.Queue.Op.attempt queue_ti.Queue.Op.next_fault
    queue_ti.Queue.Op.◌>>=◌ queue_ti.Queue.Op.pure queue_ti.Queue.Op.raise
    queue_ti.Queue.Op.tx_query queue_ti.Queue.Op.tx_exec queue_ti.Queue.Op.pool_query
    queue_ti.Queue.Op.pool_exec queue_ti.Queue.Op.commit queue_ti.Queue.Op.observe
    queue_ti.Queue.Op.cache_get queue_ti.Queue.Op.cache_set queue_ti.Queue.Op.cache_delete
    queue_ti.Base.Table.first queue_ti.Base.Table.select queue_ti.Base.Table.update
    queue_ti.Base.Table.delete queue_ti.Base.Table.any queue_ti.Base.Table.count
    queue_ti.Base.Table.order_by queue_ti.Base.Table.insert_by queue_ti.Base.Table.take
    queue_ti.Queue.Config.find_config queue_ti.Queue.Config.load_local
    queue_ti.Queue.Config.store_local queue_ti.Queue.Config.fill_caches
    queue_ti.Queue.Config.load_config queue_ti.Queue.Config.from_redis
    queue_ti.Queue.Config.from_local queue_ti.Queue.Config.get_topic_config
    queue_ti.Queue.Statements.update_message queue_ti.Queue.Statements.no_clash
    queue_ti.Queue.Statements.delete_messages queue_ti.Queue.Statements.insert_log
    queue_ti.Queue.Statements.insert_message queue_ti.Queue.Statements.mint_deliveries
    queue_ti.Queue.Statements.add_delivery queue_ti.Base.Text.text_eq queue_ti.Base.Text.has_suffix
    queue_ti.Base.Map.lookup queue_ti.Base.Map.remove queue_ti.Base.Map.store
ack_run = refl

ack-refines_example :
    (m : Message) × (first (is_processing 100) (taken ∷ []) ≡ some m)
    × ((ack (call_at 300) 100 (world_with (taken ∷ []))).1.committed
        ≡ acked_db (call_at 300) 100 m (world_with (taken ∷ [])).committed)
ack-refines_example = ack-refines (call_at 300) 100 (world_with (taken ∷ [])) ack_run

nack_found : first (has_id 100) (taken ∷ []) ≡ some taken
unfolding first
nack_found = refl

-- The process has nothing cached; the table has a configuration of the topic.
abbrev cold_world : World
cold_world = record (world_with (taken ∷ [])) {
  committed = record (world_with (taken ∷ [])).committed { configs = one_retry ∷ [] };
}

nack-Configured :
    Configured service
      (call_at 300)
      orders
      cold_world.committed
      (local_of cold_world)
      (some one_retry)
unfolding queue_ti.Base.Map.lookup text_eq first queue_ti.Queue.Config.find_config
    queue_ti.Queue.Op.Triple.is_calm
nack-Configured = stored refl refl refl

nack_run : (nack service (call_at 300) 100 (bytes "boom") cold_world).0 ≡ ok tt
unfolding queue_ti.Queue.Lifecycle.ack queue_ti.Queue.Lifecycle.nack
    queue_ti.Queue.Lifecycle.nack_row queue_ti.Queue.Lifecycle.requeue
    queue_ti.Queue.Lifecycle.requeue_to queue_ti.Queue.Lifecycle.ack_for_group
    queue_ti.Queue.Lifecycle.find_joined queue_ti.Queue.Lifecycle.delete_delivery
    queue_ti.Queue.Lifecycle.finish_message queue_ti.Queue.Lifecycle.archive_to_log
    queue_ti.Queue.Lifecycle.is_replayable queue_ti.Queue.Lifecycle.effective_dlq_threshold
    queue_ti.Queue.Op.transaction queue_ti.Queue.Op.attempt queue_ti.Queue.Op.next_fault
    queue_ti.Queue.Op.◌>>=◌ queue_ti.Queue.Op.pure queue_ti.Queue.Op.raise
    queue_ti.Queue.Op.tx_query queue_ti.Queue.Op.tx_exec queue_ti.Queue.Op.pool_query
    queue_ti.Queue.Op.pool_exec queue_ti.Queue.Op.commit queue_ti.Queue.Op.observe
    queue_ti.Queue.Op.cache_get queue_ti.Queue.Op.cache_set queue_ti.Queue.Op.cache_delete
    queue_ti.Base.Table.first queue_ti.Base.Table.select queue_ti.Base.Table.update
    queue_ti.Base.Table.delete queue_ti.Base.Table.any queue_ti.Base.Table.count
    queue_ti.Base.Table.order_by queue_ti.Base.Table.insert_by queue_ti.Base.Table.take
    queue_ti.Queue.Config.find_config queue_ti.Queue.Config.load_local
    queue_ti.Queue.Config.store_local queue_ti.Queue.Config.fill_caches
    queue_ti.Queue.Config.load_config queue_ti.Queue.Config.from_redis
    queue_ti.Queue.Config.from_local queue_ti.Queue.Config.get_topic_config
    queue_ti.Queue.Statements.update_message queue_ti.Queue.Statements.no_clash
    queue_ti.Queue.Statements.delete_messages queue_ti.Queue.Statements.insert_log
    queue_ti.Queue.Statements.insert_message queue_ti.Queue.Statements.mint_deliveries
    queue_ti.Queue.Statements.add_delivery queue_ti.Base.Text.text_eq queue_ti.Base.Text.has_suffix
    queue_ti.Base.Map.lookup queue_ti.Base.Map.remove queue_ti.Base.Map.store
nack_run = refl

nack-Rejected_example :
    Nacked
      (threshold_of service (ok (some one_retry)))
      (bytes "boom")
      100
      taken
      cold_world.committed
      (nack service (call_at 300) 100 (bytes "boom") cold_world).1.committed
nack-Rejected_example =
    nack-Rejected service (call_at 300) 100 (bytes "boom") cold_world taken (some one_retry)
      nack_found nack-Configured nack_run

requeue_found : first (has_id 100) (dead ∷ []) ≡ some dead
unfolding first
requeue_found = refl

requeue-Configured :
    Configured service
      (call_at 300)
      orders
      (cached_world orders (dead ∷ [])).committed
      (local_of (cached_world orders (dead ∷ [])))
      none
unfolding queue_ti.Base.Map.lookup text_eq
requeue-Configured = cached refl

requeue_run : (requeue service (call_at 300) 100 (cached_world orders (dead ∷ []))).0 ≡ ok tt
unfolding queue_ti.Queue.Lifecycle.ack queue_ti.Queue.Lifecycle.nack
    queue_ti.Queue.Lifecycle.nack_row queue_ti.Queue.Lifecycle.requeue
    queue_ti.Queue.Lifecycle.requeue_to queue_ti.Queue.Lifecycle.ack_for_group
    queue_ti.Queue.Lifecycle.find_joined queue_ti.Queue.Lifecycle.delete_delivery
    queue_ti.Queue.Lifecycle.finish_message queue_ti.Queue.Lifecycle.archive_to_log
    queue_ti.Queue.Lifecycle.is_replayable queue_ti.Queue.Lifecycle.effective_dlq_threshold
    queue_ti.Queue.Op.transaction queue_ti.Queue.Op.attempt queue_ti.Queue.Op.next_fault
    queue_ti.Queue.Op.◌>>=◌ queue_ti.Queue.Op.pure queue_ti.Queue.Op.raise
    queue_ti.Queue.Op.tx_query queue_ti.Queue.Op.tx_exec queue_ti.Queue.Op.pool_query
    queue_ti.Queue.Op.pool_exec queue_ti.Queue.Op.commit queue_ti.Queue.Op.observe
    queue_ti.Queue.Op.cache_get queue_ti.Queue.Op.cache_set queue_ti.Queue.Op.cache_delete
    queue_ti.Base.Table.first queue_ti.Base.Table.select queue_ti.Base.Table.update
    queue_ti.Base.Table.delete queue_ti.Base.Table.any queue_ti.Base.Table.count
    queue_ti.Base.Table.order_by queue_ti.Base.Table.insert_by queue_ti.Base.Table.take
    queue_ti.Queue.Config.find_config queue_ti.Queue.Config.load_local
    queue_ti.Queue.Config.store_local queue_ti.Queue.Config.fill_caches
    queue_ti.Queue.Config.load_config queue_ti.Queue.Config.from_redis
    queue_ti.Queue.Config.from_local queue_ti.Queue.Config.get_topic_config
    queue_ti.Queue.Statements.update_message queue_ti.Queue.Statements.no_clash
    queue_ti.Queue.Statements.delete_messages queue_ti.Queue.Statements.insert_log
    queue_ti.Queue.Statements.insert_message queue_ti.Queue.Statements.mint_deliveries
    queue_ti.Queue.Statements.add_delivery queue_ti.Base.Text.text_eq queue_ti.Base.Text.has_suffix
    queue_ti.Base.Map.lookup queue_ti.Base.Map.remove queue_ti.Base.Map.store
requeue_run = refl

requeue-refines_example :
    RequeuedTo 100 orders
      (threshold_of service (ok none))
      (cached_world orders (dead ∷ [])).committed
      (requeue service (call_at 300) 100 (cached_world orders (dead ∷ []))).1.committed
requeue-refines_example =
    requeue-refines service (call_at 300) 100 111 (bytes "rders") none
      (cached_world orders (dead ∷ [])) dead requeue_found refl requeue-Configured requeue_run

group_run : (ack_for_group (call_at 300) 100 (bytes "a") shared_world).0 ≡ ok tt
unfolding queue_ti.Queue.Lifecycle.ack queue_ti.Queue.Lifecycle.nack
    queue_ti.Queue.Lifecycle.nack_row queue_ti.Queue.Lifecycle.requeue
    queue_ti.Queue.Lifecycle.requeue_to queue_ti.Queue.Lifecycle.ack_for_group
    queue_ti.Queue.Lifecycle.find_joined queue_ti.Queue.Lifecycle.delete_delivery
    queue_ti.Queue.Lifecycle.finish_message queue_ti.Queue.Lifecycle.archive_to_log
    queue_ti.Queue.Lifecycle.is_replayable queue_ti.Queue.Lifecycle.effective_dlq_threshold
    queue_ti.Queue.Op.transaction queue_ti.Queue.Op.attempt queue_ti.Queue.Op.next_fault
    queue_ti.Queue.Op.◌>>=◌ queue_ti.Queue.Op.pure queue_ti.Queue.Op.raise
    queue_ti.Queue.Op.tx_query queue_ti.Queue.Op.tx_exec queue_ti.Queue.Op.pool_query
    queue_ti.Queue.Op.pool_exec queue_ti.Queue.Op.commit queue_ti.Queue.Op.observe
    queue_ti.Queue.Op.cache_get queue_ti.Queue.Op.cache_set queue_ti.Queue.Op.cache_delete
    queue_ti.Base.Table.first queue_ti.Base.Table.select queue_ti.Base.Table.update
    queue_ti.Base.Table.delete queue_ti.Base.Table.any queue_ti.Base.Table.count
    queue_ti.Base.Table.order_by queue_ti.Base.Table.insert_by queue_ti.Base.Table.take
    queue_ti.Queue.Config.find_config queue_ti.Queue.Config.load_local
    queue_ti.Queue.Config.store_local queue_ti.Queue.Config.fill_caches
    queue_ti.Queue.Config.load_config queue_ti.Queue.Config.from_redis
    queue_ti.Queue.Config.from_local queue_ti.Queue.Config.get_topic_config
    queue_ti.Queue.Statements.update_message queue_ti.Queue.Statements.no_clash
    queue_ti.Queue.Statements.delete_messages queue_ti.Queue.Statements.insert_log
    queue_ti.Queue.Statements.insert_message queue_ti.Queue.Statements.mint_deliveries
    queue_ti.Queue.Statements.add_delivery queue_ti.Base.Text.text_eq queue_ti.Base.Text.has_suffix
    queue_ti.Base.Map.lookup queue_ti.Base.Map.remove queue_ti.Base.Map.store
group_run = refl

ack_for_group-refines_example :
    (j : Joined) × (find_joined 100
        (bytes "a")
        (λ d. status_eq d.status processing)
        shared_world.committed
      ≡ some j)
    × ((ack_for_group (call_at 300) 100 (bytes "a") shared_world).1.committed
        ≡ group_acked (call_at 300) 100 (bytes "a") j shared_world.committed)
ack_for_group-refines_example =
    ack_for_group-refines (call_at 300) 100 (bytes "a") shared_world group_run

other_group : text_eq (bytes "b") (bytes "a") ≡ false
unfolding text_eq
other_group = refl

ack_for_group-Independent_example :
    In
      (delivery_of (bytes "b") pending)
      (ack_for_group (call_at 300) 100 (bytes "a") shared_world).1.committed.deliveries
    × ((ack_for_group (call_at 300) 100 (bytes "a") shared_world).1.committed.messages
        ≡ message ∷ [])
    × ((ack_for_group (call_at 300) 100 (bytes "a") shared_world).1.committed.log ≡ [])
ack_for_group-Independent_example =
    ack_for_group-Independent (call_at 300) 100 (bytes "a") shared_world
      (delivery_of (bytes "b") pending) refl other_group (in_tail at_head) group_run

ack_found : first (is_processing 100) (taken ∷ []) ≡ some taken
unfolding first
ack_found = refl

log-IsNew : IsNew (log_row (call_at 300) taken) (world_with (taken ∷ [])).committed
unfolding queue_ti.Base.Table.any
log-IsNew = refl

ack-Succeeds_example : (ack (call_at 300) 100 (world_with (taken ∷ []))).0 ≡ ok tt
ack-Succeeds_example =
    ack-Succeeds (call_at 300) 100 (world_with (taken ∷ [])) taken refl ack_found log-IsNew

-- The process has looked up the topic.
abbrev shared_cached : World
shared_cached = record shared_world { configs = (orders, none) ∷ [] }

abbrev shared_row : Joined
shared_row = (message, delivery_of (bytes "a") processing)

shared_found : find_joined 100 (bytes "a") (λ d. true) shared_cached.committed ≡ some shared_row
unfolding find_joined first text_eq
shared_found = refl

shared_config :
    Configured service (call_at 300) orders shared_cached.committed (local_of shared_cached) none
unfolding queue_ti.Base.Map.lookup text_eq
shared_config = cached refl

group_nack_run :
    (nack_for_group service (call_at 300) 100 (bytes "a") (bytes "boom") shared_cached).0 ≡ ok tt
unfolding nack_for_group queue_ti.Queue.Lifecycle.nack_delivery
    queue_ti.Queue.Statements.update_delivery queue_ti.Queue.Lifecycle.ack
    queue_ti.Queue.Lifecycle.nack queue_ti.Queue.Lifecycle.nack_row queue_ti.Queue.Lifecycle.requeue
    queue_ti.Queue.Lifecycle.requeue_to queue_ti.Queue.Lifecycle.ack_for_group
    queue_ti.Queue.Lifecycle.find_joined queue_ti.Queue.Lifecycle.delete_delivery
    queue_ti.Queue.Lifecycle.finish_message queue_ti.Queue.Lifecycle.archive_to_log
    queue_ti.Queue.Lifecycle.is_replayable queue_ti.Queue.Lifecycle.effective_dlq_threshold
    queue_ti.Queue.Op.transaction queue_ti.Queue.Op.attempt queue_ti.Queue.Op.next_fault
    queue_ti.Queue.Op.◌>>=◌ queue_ti.Queue.Op.pure queue_ti.Queue.Op.raise
    queue_ti.Queue.Op.tx_query queue_ti.Queue.Op.tx_exec queue_ti.Queue.Op.pool_query
    queue_ti.Queue.Op.pool_exec queue_ti.Queue.Op.commit queue_ti.Queue.Op.observe
    queue_ti.Queue.Op.cache_get queue_ti.Queue.Op.cache_set queue_ti.Queue.Op.cache_delete
    queue_ti.Base.Table.first queue_ti.Base.Table.select queue_ti.Base.Table.update
    queue_ti.Base.Table.delete queue_ti.Base.Table.any queue_ti.Base.Table.count
    queue_ti.Base.Table.order_by queue_ti.Base.Table.insert_by queue_ti.Base.Table.take
    queue_ti.Queue.Config.find_config queue_ti.Queue.Config.load_local
    queue_ti.Queue.Config.store_local queue_ti.Queue.Config.fill_caches
    queue_ti.Queue.Config.load_config queue_ti.Queue.Config.from_redis
    queue_ti.Queue.Config.from_local queue_ti.Queue.Config.get_topic_config
    queue_ti.Queue.Statements.update_message queue_ti.Queue.Statements.no_clash
    queue_ti.Queue.Statements.delete_messages queue_ti.Queue.Statements.insert_log
    queue_ti.Queue.Statements.insert_message queue_ti.Queue.Statements.mint_deliveries
    queue_ti.Queue.Statements.add_delivery queue_ti.Base.Text.text_eq queue_ti.Base.Text.has_suffix
    queue_ti.Base.Map.lookup queue_ti.Base.Map.remove queue_ti.Base.Map.store
group_nack_run = refl

nack_for_group-Rejected_example :
    GroupNacked
      (threshold_of service (ok none))
      (bytes "boom")
      100
      (bytes "a")
      (delivery_of (bytes "a") processing)
      shared_cached.committed
      (nack_for_group service
        (call_at 300)
        100
        (bytes "a")
        (bytes "boom")
        shared_cached).1.committed
nack_for_group-Rejected_example =
    nack_for_group-Rejected service (call_at 300) 100 (bytes "a") (bytes "boom") shared_cached
      shared_row none shared_found shared_config group_nack_run

-- The commit of this rejection fails.
abbrev failing_world : World
failing_world = record (cached_world orders (taken ∷ [])) {
  faults = false ∷ false ∷ false ∷ true ∷ [];
}

settlement-SettlementKept_example :
    SettlementKept service (call_at 300) failing_world (nacks 100 (bytes "boom"))
settlement-SettlementKept_example =
    settlement-SettlementKept service (call_at 300) failing_world (nacks 100 (bytes "boom"))
