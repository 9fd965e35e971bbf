-- ===== src/Queue/Dequeue/Leased.antt =====
-- dequeue.go: what a claim makes of a row.
use queue_ti.Base.{ℕ, ◌+◌, ◌*◌, ◌/◌, some, ◌≡◌, refl}
use queue_ti.Queue.Tables.{Message, processing}
use queue_ti.Queue.Service.{Call}
use queue_ti.Queue.Config.{second}
use queue_ti.Queue.Dequeue.{claimed, visible_at}

-- A row before and after it is claimed until `until`.
pub record Leased (until : ℕ) (m m' : Message) : Type 0 where
  pub is_processing : m'.status ≡ processing
  pub hidden : m'.visibility_timeout ≡ some until
  pub same_id : m'.id ≡ m.id
  pub same_topic : m'.topic ≡ m.topic
  pub same_payload : m'.payload ≡ m.payload
  pub same_metadata : m'.metadata ≡ m.metadata
  pub same_key : m'.key ≡ m.key
  pub same_count : m'.retry_count ≡ m.retry_count
  pub same_limit : m'.max_retries ≡ m.max_retries
  pub same_error : m'.last_error ≡ m.last_error
  pub same_expiry : m'.expires_at ≡ m.expires_at
  pub same_origin : m'.original_topic ≡ m.original_topic
  pub same_age : m'.created_at ≡ m.created_at

-- Until the timeout of `vt`, in whole seconds, has passed.
abbrev pub lease_end : Call → ℕ → ℕ
lease_end c vt = c.now + vt / second * second

pub claimed-Leased : (c : Call) (vt : ℕ) (m : Message) → Leased (lease_end c vt) m (claimed c vt m)
unfolding visible_at
claimed-Leased c vt m = record {
  is_processing = refl;
  hidden = refl;
  same_id = refl;
  same_topic = refl;
  same_payload = refl;
  same_metadata = refl;
  same_key = refl;
  same_count = refl;
  same_limit = refl;
  same_error = refl;
  same_expiry = refl;
  same_origin = refl;
  same_age = refl;
}
