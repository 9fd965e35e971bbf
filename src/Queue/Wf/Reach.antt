-- ===== src/Queue/Wf/Reach.antt =====
-- Whatever the callers do, whatever fails and in whatever order, the tables stay well formed.
use queue_ti.Queue.Service.{Service, Call}
use queue_ti.Queue.Config.{on_config_changed, delete_local}
use queue_ti.Queue.Op.{World}
use queue_ti.Queue.Op.Keeps.{Holds}
use queue_ti.Queue.Requests.{Request, Step, serves, hears, fails, evicts, Reach, here, next, serve}
use queue_ti.Queue.Wf.{Wf}
use queue_ti.Queue.Wf.Operations.Lifecycle.{
  Keeps-ack, Keeps-nack, Keeps-ack_for_group, Keeps-nack_for_group, Keeps-requeue,
}
use queue_ti.Queue.Wf.Operations.Dequeue.{
  Keeps-dequeue, Keeps-dequeue_n, Keeps-dequeue_for_group, Keeps-dequeue_n_for_group,
}
use queue_ti.Queue.Wf.Operations.Enqueue.{Keeps-enqueue, Keeps-replay_topic}
use queue_ti.Queue.Wf.Operations.Maintenance.{
  Keeps-register_consumer_group, Keeps-unregister_consumer_group, Keeps-expiry_tick,
  Keeps-delete_tick, Keeps-run_expiry_reaper_once, Keeps-run_delete_reaper_once,
  Keeps-run_archive_reaper_once, Keeps-trim_message_log, Keeps-purge_topic, Keeps-purge_by_key,
  Keeps-upsert_topic_config, Keeps-delete_topic_config, Keeps-upsert_topic_schema_and_notify,
  Keeps-delete_topic_schema_and_notify,
}

-- Every request keeps the tables well formed, at every schedule of faults: ids, pending keys and
-- delivery keys are unique, every delivery has its message, a pending message has no visibility
-- timeout and a processing one has one, and a dead letter stands on its original topic's ".dlq".
pub serve-Wf :
    (sv : Service) (c : Call) (r : Request) (s : World) → Holds Wf s → Holds Wf (serve sv c r s)
unfolding serve
serve-Wf sv c (Request.enqueues t p m k) s h = ((Keeps-enqueue sv c t p m k).run s h).0
serve-Wf sv c (Request.dequeues t timeout) s h = ((Keeps-dequeue sv c t timeout).run s h).0
serve-Wf sv c (Request.dequeues_n t n timeout) s h = ((Keeps-dequeue_n sv c t n timeout).run s h).0
serve-Wf sv c (Request.dequeues_group t g timeout) s h =
    ((Keeps-dequeue_for_group sv c t g timeout).run s h).0
serve-Wf sv c (Request.dequeues_n_group t g n timeout) s h =
    ((Keeps-dequeue_n_for_group sv c t g n timeout).run s h).0
serve-Wf sv c (Request.acks id) s h = ((Keeps-ack c id).run s h).0
serve-Wf sv c (Request.requeues id) s h = ((Keeps-requeue sv c id).run s h).0
serve-Wf sv c (Request.nacks id reason) s h = ((Keeps-nack sv c id reason).run s h).0
serve-Wf sv c (Request.acks_group id g) s h = ((Keeps-ack_for_group c id g).run s h).0
serve-Wf sv c (Request.nacks_group id g reason) s h =
    ((Keeps-nack_for_group sv c id g reason).run s h).0
serve-Wf sv c (Request.registers t g) s h = ((Keeps-register_consumer_group sv c t g).run s h).0
serve-Wf sv c (Request.unregisters t g) s h = ((Keeps-unregister_consumer_group t g).run s h).0
serve-Wf sv c (Request.configures cfg) s h = ((Keeps-upsert_topic_config sv c cfg).run s h).0
serve-Wf sv c (Request.unconfigures t) s h = ((Keeps-delete_topic_config sv c t).run s h).0
serve-Wf sv c (Request.sets_schema t json) s h =
    ((Keeps-upsert_topic_schema_and_notify sv c t json).run s h).0
serve-Wf sv c (Request.drops_schema t) s h =
    ((Keeps-delete_topic_schema_and_notify sv c t).run s h).0
serve-Wf sv c (Request.ticks_expiry b) s h = ((Keeps-expiry_tick c b).run s h).0
serve-Wf sv c (Request.ticks_delete b) s h = ((Keeps-delete_tick c b).run s h).0
serve-Wf sv c Request.expires s h = ((Keeps-run_expiry_reaper_once c).run s h).0
serve-Wf sv c Request.deletes s h = ((Keeps-run_delete_reaper_once c).run s h).0
serve-Wf sv c Request.archives s h = ((Keeps-run_archive_reaper_once c).run s h).0
serve-Wf sv c (Request.replays t from) s h = ((Keeps-replay_topic sv c t from).run s h).0
serve-Wf sv c (Request.trims t before) s h = ((Keeps-trim_message_log t before).run s h).0
serve-Wf sv c (Request.purges t ss) s h = ((Keeps-purge_topic t ss).run s h).0
serve-Wf sv c (Request.purges_key t k) s h = ((Keeps-purge_by_key t k).run s h).0

Step-Wf : {sv : Service} {s t : World} → Step sv s t → Holds Wf s → Holds Wf t
unfolding on_config_changed delete_local
Step-Wf {sv} (serves s c r) h = serve-Wf sv c r s h
Step-Wf (hears s t) h = h
Step-Wf (fails s fs) h = h
Step-Wf (evicts s entries) h = h

-- From well-formed tables every world that steps lead to is well formed: requests in any order,
-- broadcasts, evictions from redis, and faults chosen anew between the steps.
pub Reach-Wf : {sv : Service} {s t : World} → Holds Wf s → Reach sv s t → Holds Wf t
Reach-Wf h here = h
Reach-Wf h (next r st) = Step-Wf st (Reach-Wf h r)
