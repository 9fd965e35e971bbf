-- ===== src/Server/Grpc.antt =====
-- grpc.go: the unary methods of the gRPC server.
pub mod Subscribe
pub mod Guarded
use queue_ti.Base.{
  ℕ, Bool, true, false, Option, none, some, List, [], ◌∷◌, map, ◌+◌, ◌*◌, ◌==◌, ◌||◌, ltb,
  if◌then◌else◌,
}
use queue_ti.Base.Text.{Text}
use queue_ti.Queue.Error.{
  Error, no_message, not_found, not_processing, topic_not_registered, invalid_batch_size,
  schema_validation,
}
use queue_ti.Queue.Service.{Call, Metadata}
use queue_ti.Queue.Config.{second}
use queue_ti.Queue.Op.{Op}
use queue_ti.Queue.Enqueue.{enqueue}
use queue_ti.Queue.Dequeue.{Received, dequeue, dequeue_for_group, dequeue_n, dequeue_n_for_group}
use queue_ti.Queue.Lifecycle.{ack, ack_for_group, nack, nack_for_group}
use queue_ti.Queue.Queries.{topic_for_message}
use queue_ti.Users.Permissions.{write}
use queue_ti.Server.Handler.{
  Server, Claims, Handler, answer, refuse, on_queue, ◌>>=◌, ◌>>◌, by_id, is_empty,
}
use queue_ti.Server.Auth.{
  Code, invalid_argument, code_not_found, failed_precondition, internal, check_grant,
  check_dequeue_grant,
}

-- A field that is absent is 0, the default of the service; one that is 0 is refused.
unfoldable pub resolve_visibility_timeout_from_proto : Option ℕ → Handler Code ℕ
resolve_visibility_timeout_from_proto none = answer 0
resolve_visibility_timeout_from_proto (some seconds) =
    if seconds == 0 then refuse invalid_argument else answer (seconds * second)

abbrev pub required : Bool → Handler Code (Unit {0})
required missing = if missing then refuse invalid_argument else answer tt

-- The status of each error of Enqueue.
abbrev pub enqueue_code : Error → Code
enqueue_code schema_validation = invalid_argument
enqueue_code topic_not_registered = failed_precondition
enqueue_code _ = internal

abbrev pub dequeue_code : Error → Code
dequeue_code no_message = code_not_found
dequeue_code _ = internal

abbrev pub batch_code : Error → Code
batch_code invalid_batch_size = invalid_argument
batch_code _ = internal

abbrev pub lookup_code : Error → Code
lookup_code not_found = code_not_found
lookup_code _ = internal

-- The errors of Ack and Nack.
abbrev pub settle_code : Error → Code
settle_code not_found = code_not_found
settle_code not_processing = code_not_found
settle_code _ = internal

-- DequeueResponse, without the names that it shares with the message.
pub record DequeueResponse : Type 0 where
  pub id : Text
  pub topic : Text
  pub payload : Text
  pub metadata : Metadata
  pub created_at : ℕ
  pub retry_count : ℕ
  pub max_retries : ℕ
  pub key : Option Text

abbrev pub to_response : Server → Received → DequeueResponse
to_response sv m = record {
  id = sv.postgres.uuid_out m.id;
  topic = m.topic;
  payload = m.payload;
  metadata = m.metadata;
  created_at = m.created_at;
  retry_count = m.retry_count;
  max_retries = m.max_retries;
  key = m.key;
}

abbrev pub dequeue_from : Server → Call → Text → Text → ℕ → Op Received
dequeue_from sv c topic group timeout =
    if is_empty group
    then dequeue sv.service c topic timeout
    else dequeue_for_group sv.service c topic group timeout

abbrev pub batch_from : Server → Call → Text → Text → ℕ → ℕ → Op (List Received)
batch_from sv c topic group n timeout =
    if is_empty group
    then dequeue_n sv.service c topic n timeout
    else dequeue_n_for_group sv.service c topic group n timeout

module _ (sv : Server) (c : Call) (caller : Option Claims) where
  unfoldable pub rpc_enqueue : Text → Text → Metadata → Option Text → Handler Code Text
  rpc_enqueue topic payload metadata key = do
    required (is_empty topic)
    required (is_empty payload)
    check_grant sv caller write topic
    id ← on_queue enqueue_code (enqueue sv.service c topic payload metadata key)
    answer (sv.postgres.uuid_out id)

  unfoldable pub rpc_dequeue : Text → Text → Option ℕ → Handler Code DequeueResponse
  rpc_dequeue topic group seconds = do
    required (is_empty topic)
    timeout ← resolve_visibility_timeout_from_proto seconds
    check_dequeue_grant sv caller topic group
    m ← on_queue dequeue_code (dequeue_from sv c topic group timeout)
    answer (to_response sv m)

  unfoldable pub rpc_batch_dequeue :
      Text → Text → ℕ → Option ℕ → Handler Code (List DequeueResponse)
  rpc_batch_dequeue topic group n seconds = do
    required (is_empty topic)
    required (ltb n 1 || ltb 1000 n)
    timeout ← resolve_visibility_timeout_from_proto seconds
    check_dequeue_grant sv caller topic group
    ms ← on_queue batch_code (batch_from sv c topic group n timeout)
    answer (map (to_response sv) ms)

  -- The topic of the message, for which the caller is checked.
  abbrev pub check_message : Text → Text → Handler Code (Unit {0})
  check_message id group = do
    topic ← on_queue lookup_code (by_id (sv.postgres.uuid_in id) topic_for_message)
    check_dequeue_grant sv caller topic group

  abbrev pub ack_from : Text → ℕ → Op (Unit {0})
  ack_from group id = if is_empty group then ack c id else ack_for_group c id group

  abbrev pub nack_from : Text → Text → ℕ → Op (Unit {0})
  nack_from group reason id =
      if is_empty group
      then nack sv.service c id reason
      else nack_for_group sv.service c id group reason

  unfoldable pub rpc_ack : Text → Text → Handler Code (Unit {0})
  rpc_ack id group = do
    required (is_empty id)
    check_message id group
    on_queue settle_code (by_id (sv.postgres.uuid_in id) (ack_from group))

  unfoldable pub rpc_nack : Text → Text → Text → Handler Code (Unit {0})
  rpc_nack id group reason = do
    required (is_empty id)
    check_message id group
    on_queue settle_code (by_id (sv.postgres.uuid_in id) (nack_from group reason))
