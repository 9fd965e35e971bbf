-- ===== src/Server/Http/Messages.antt =====
-- handlers_messages.go, and the routes of http.go that lead there. The middleware reads the topic
-- and the group from the JSON of the body; the handlers read the body with BodyParser.
use queue_ti.Base.{ℕ, zero, suc, Option, none, some, List, [], ◌*◌, ◌||◌, ltb}
use queue_ti.Base.Text.{Text}
use queue_ti.Base.Int.{ℤ, pos, negsuc}
use queue_ti.Queue.Error.{
  Error, queue_full, not_found, not_processing, not_dlq, topic_not_registered, invalid_batch_size,
  schema_validation,
}
use queue_ti.Queue.Service.{Call, Metadata}
use queue_ti.Queue.Enqueue.{enqueue}
use queue_ti.Queue.Dequeue.{Received}
use queue_ti.Queue.Lifecycle.{requeue}
use queue_ti.Queue.Queries.{Listed, TopicStat, list, stats}
use queue_ti.Users.Permissions.{read, write}
use queue_ti.Server.Handler.{Server, Claims, on_queue, ◌>>=◌, ◌>>◌, by_id, is_empty}
use queue_ti.Queue.Config.{second}
use queue_ti.Server.Grpc.{batch_from, nack_from}
use queue_ti.Server.Http.{
  Http, json, created, no_content, with_body, reject_if, server_error, parse_limit_offset,
}
use queue_ti.Server.Http.Middleware.{
  require_admin, require_grant, require_dequeue_grant, require_write_on_msg_topic,
  require_dequeue_on_msg_topic,
}

pub record EnqueueRequest : Type 0 where
  pub topic : Text
  pub payload : Text
  pub metadata : Metadata
  pub key : Option Text

-- A timeout that is not positive is the default of the service, as an absent one.
pub record BatchDequeueRequest : Type 0 where
  pub topic : Text
  pub count : ℤ
  pub visibility_timeout_seconds : Option ℤ
  pub consumer_group : Text

pub record NackRequest : Type 0 where
  pub reason : Text
  pub consumer_group : Text

abbrev pub enqueue_status : Error → ℕ
enqueue_status schema_validation = 422
enqueue_status topic_not_registered = 422
enqueue_status queue_full = 429
enqueue_status _ = 500

abbrev pub batch_status : Error → ℕ
batch_status invalid_batch_size = 400
batch_status _ = 500

abbrev pub nack_status : Error → ℕ
nack_status not_found = 404
nack_status not_processing = 404
nack_status _ = 500

abbrev pub requeue_status : Error → ℕ
requeue_status not_found = 404
requeue_status not_dlq = 404
requeue_status _ = 500

-- A count of 0 is 1; a negative count is out of range, as 0 is here.
abbrev pub or_one : ℤ → ℕ
or_one (pos zero) = 1
or_one (pos (suc n)) = suc n
or_one (negsuc n) = 0

abbrev pub or_zero : Option ℤ → ℕ
or_zero none = 0
or_zero (some (pos n)) = n
or_zero (some (negsuc n)) = 0

-- A body that does not parse is ignored.
abbrev pub nack_or_empty : Option NackRequest → NackRequest
nack_or_empty none = record { reason = []; consumer_group = [] }
nack_or_empty (some r) = r

-- listResponse
pub record ListResponse : Type 0 where
  pub items : List Listed
  pub total : ℕ
  pub limit : ℕ
  pub offset : ℕ

module _ (sv : Server) (c : Call) where
  unfoldable pub list_messages : Text → Option ℤ → Option ℤ → Http ListResponse
  list_messages topic limit offset =
      let (n, k) = parse_limit_offset 50 200 limit offset in
      on_queue server_error (list sv.service.libraries topic n k) >>= λ page.
      json (record { items = page.items; total = page.total; limit = n; offset = k })

  unfoldable pub enqueue_message : Option EnqueueRequest → Http Text
  enqueue_message body = with_body body (λ req. do
    reject_if (is_empty req.topic || is_empty req.payload) 400
    id ← on_queue enqueue_status (enqueue sv.service c req.topic req.payload req.metadata req.key)
    created (sv.postgres.uuid_out id))

  unfoldable pub batch_dequeue_messages : Option BatchDequeueRequest → Http (List Received)
  batch_dequeue_messages body = with_body body (λ req. do
    reject_if (is_empty req.topic) 400
    reject_if (ltb (or_one req.count) 1 || ltb 1000 (or_one req.count)) 400
    ms ← on_queue batch_status (
        batch_from sv c req.topic req.consumer_group (or_one req.count)
          (or_zero req.visibility_timeout_seconds * second))
    json ms)

  unfoldable pub nack_message : Text → Option NackRequest → Http (Unit {0})
  nack_message id body =
      let req = nack_or_empty body in
      on_queue nack_status
        (by_id (sv.postgres.uuid_in id) (nack_from sv c none req.consumer_group req.reason))
      >> no_content

  unfoldable pub requeue_message : Text → Http (Unit {0})
  requeue_message id =
      on_queue requeue_status (by_id (sv.postgres.uuid_in id) (requeue sv.service c)) >> no_content

  unfoldable pub stats_handler : Http (List TopicStat)
  stats_handler = on_queue server_error (stats sv.postgres) >>= json

  -- The routes, from the claims that jwtAuth leaves. `peek` is what the middleware reads.
  module _ (caller : Option Claims) where
    unfoldable pub get_messages : Text → Option ℤ → Option ℤ → Http ListResponse
    get_messages topic limit offset =
        require_grant sv caller (list_messages topic limit offset) read topic

    unfoldable pub post_messages : Text → Option EnqueueRequest → Http Text
    post_messages peek body = require_grant sv caller (enqueue_message body) write peek

    unfoldable pub post_dequeue : Text → Text → Option BatchDequeueRequest → Http (List Received)
    post_dequeue peek group body =
        require_dequeue_grant sv caller (batch_dequeue_messages body) peek group

    unfoldable pub post_nack : Text → Text → Option NackRequest → Http (Unit {0})
    post_nack id group body = require_dequeue_on_msg_topic sv caller (nack_message id body) id group

    unfoldable pub post_requeue : Text → Http (Unit {0})
    post_requeue id = require_write_on_msg_topic sv caller (requeue_message id) id

    unfoldable pub get_stats : Http (List TopicStat)
    get_stats = require_admin sv caller stats_handler
