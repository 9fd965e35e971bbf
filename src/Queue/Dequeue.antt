-- ===== src/Queue/Dequeue.antt =====
-- dequeue.go and message.go: claiming messages, and deliveries of a group, one or a batch at a time.
pub mod Delivers
pub mod Batch
pub mod Exclusive
pub mod Claims
pub mod Leased
pub mod Chosen
use queue_ti.Base.{
  ℕ, ◌+◌, ◌*◌, ◌/◌, Bool, true, false, not, Option, none, some, List, [], ◌∷◌, ◌++◌, map, ◌&&◌,
  ◌||◌, ◌==◌, ltb, leb, if◌then◌else◌, absent_or,
}
use queue_ti.Base.Text.{Text, text_eq, has_suffix}
use queue_ti.Base.Table.{first, select, update, any, order_by, take}
use queue_ti.Queue.Error.{Error, Result, ok, err, no_message, invalid_batch_size, invalid_metadata}
use queue_ti.Queue.Tables.{
  Db, Message, Delivery, Status, pending, processing, status_eq, same_id, same_delivery, has_id,
}
use queue_ti.Queue.Service.{Service, Call, Metadata, Libraries}
use queue_ti.Queue.Op.{
  World, Op, pure, raise, ◌>>=◌, ◌>>◌, always, tx_query, tx_exec, transaction, commit, observe,
  dequeued,
}
use queue_ti.Queue.Config.{dlq_suffix, second}
use queue_ti.Queue.Statements.{is_delivery}
use queue_ti.Queue.Lifecycle.{Joined}
use queue_ti.Queue.Throttle.{apply_throughput_limit}

-- What a caller receives: the struct Message as Dequeue fills it. An absent text is empty.
pub record Received : Type 0 where
  pub id : ℕ
  pub topic : Text
  pub key : Option Text
  pub payload : Text
  pub metadata : Metadata
  pub retry_count : ℕ
  pub max_retries : ℕ
  pub last_error : Text
  pub expires_at : Option ℕ
  pub created_at : ℕ
  pub original_topic : Text
  pub dlq_moved_at : Option ℕ

abbrev pub or_empty : Option Text → Text
or_empty none = []
or_empty (some t) = t

abbrev pub decode_metadata : Libraries → Option Text → Option Metadata
decode_metadata l none = some []
decode_metadata l (some json) = l.unmarshal_metadata json

-- hydrateMessage: metadata that does not decode is an error.
unfoldable pub hydrate : Libraries → Message → Op Received
hydrate l m = elim (decode_metadata l m.metadata) [
  | none ↦ raise invalid_metadata
  | some metadata ↦ pure (record {
    id = m.id;
    topic = m.topic;
    key = m.key;
    payload = m.payload;
    metadata = metadata;
    retry_count = m.retry_count;
    max_retries = m.max_retries;
    last_error = or_empty m.last_error;
    expires_at = m.expires_at;
    created_at = m.created_at;
    original_topic = or_empty m.original_topic;
    dlq_moved_at = m.dlq_moved_at;
  })
]

-- A timeout that is not positive (0 here) is the default of the service.
unfoldable pub resolve_visibility_timeout : Service → ℕ → ℕ
resolve_visibility_timeout sv requested =
    if ltb 0 requested then requested else sv.visibility_timeout

-- now() + '<n> seconds'::interval, where n is int(vt.Seconds()).
unfoldable pub visible_at : Call → ℕ → ℕ
visible_at c vt = c.now + vt / second * second

-- The WHERE of the inner SELECT, less the topic.
abbrev pub is_eligible : Call → Message → Bool
is_eligible c m =
    status_eq m.status pending
    && absent_or (λ v. ltb v c.now) m.visibility_timeout
    && absent_or (λ e. ltb c.now e) m.expires_at
    && (m.max_retries == 0 || ltb m.retry_count m.max_retries)

-- FOR UPDATE SKIP LOCKED passes over the rows that other transactions hold.
abbrev pub can_claim : Call → Text → Message → Bool
can_claim c topic m = text_eq m.topic topic && is_eligible c m && not (c.locked m.id)

-- DequeueN leaves dead-letter topics alone.
abbrev pub can_claim_batch : Call → Text → Message → Bool
can_claim_batch c topic m = can_claim c topic m && not (has_suffix m.topic dlq_suffix)

abbrev pub claimed : Call → ℕ → Message → Message
claimed c vt m = record m {
  status = processing;
  visibility_timeout = some (visible_at c vt);
  updated_at = c.now;
}

-- The rows that the inner SELECT chooses.
abbrev pub chosen : (Message → Bool) → ℕ → Db → List Message
chosen p n db = take n (order_by (λ m. m.created_at) (select p db.messages))

-- UPDATE messages … WHERE id IN (SELECT … ORDER BY created_at LIMIT n) RETURNING …
unfoldable pub claim : Call → ℕ → (Message → Bool) → ℕ → Db → List Message × Db
claim c vt p n db = (
  map (claimed c vt) (chosen p n db),
  record db { messages = update (λ m. any (same_id m) (chosen p n db)) (claimed c vt) db.messages },
)

-- Nothing to give: the transaction is committed all the same, for the tokens.
unfoldable pub commit_empty : Op Received
commit_empty = do commit; raise no_message

unfoldable pub deliver : Libraries → List Message → Op Received
deliver l [] = commit_empty
deliver l (m ∷ ms) = do r ← hydrate l m; commit; observe (dequeued r.topic); pure r

unfoldable pub dequeue : Service → Call → Text → ℕ → Op Received
dequeue sv c topic timeout = transaction do
  allowed ← apply_throughput_limit c topic 1
  if allowed == 0 then commit_empty else (do
    let vt = resolve_visibility_timeout sv timeout
    rows ← tx_exec (always (claim c vt (can_claim c topic) 1))
    deliver sv.libraries rows)

-- The loop over the rows of a batch: the metric of a row is recorded as soon as it is read.
unfoldable pub scan_rows : Libraries → List Message → Op (List Received)
scan_rows l [] = pure []
scan_rows l (m ∷ ms) = do
  r ← hydrate l m
  observe (dequeued r.topic)
  rs ← scan_rows l ms
  pure (r ∷ rs)

unfoldable pub commit_list : List Received → Op (List Received)
commit_list rs = do commit; pure rs

abbrev pub valid_batch : ℕ → Bool
valid_batch n = leb 1 n && leb n 1000

unfoldable pub dequeue_n : Service → Call → Text → ℕ → ℕ → Op (List Received)
dequeue_n sv c topic n timeout =
    if valid_batch n
    then transaction (do
      allowed ← apply_throughput_limit c topic n
      if allowed == 0 then commit_list [] else (do
        let vt = resolve_visibility_timeout sv timeout
        rows ← tx_exec (always (claim c vt (can_claim_batch c topic) allowed))
        rs ← scan_rows sv.libraries rows
        commit_list rs))
    else raise invalid_batch_size

-- message_deliveries md JOIN messages m ON m.id = md.message_id
unfoldable pub join : List Message → List Delivery → List Joined
join ms [] = []
join ms (d ∷ ds) =
    let rest = join ms ds in
    elim (first (has_id d.message_id) ms) [ none ↦ rest | some m ↦ (m, d) ∷ rest ]

abbrev pub can_claim_delivery : Call → Text → Text → Joined → Bool
can_claim_delivery c topic group (m, d) =
    text_eq d.group group
    && text_eq m.topic topic
    && status_eq d.status pending
    && absent_or (λ v. ltb v c.now) d.visibility_timeout
    && absent_or (λ e. ltb c.now e) m.expires_at
    && (d.max_retries == 0 || ltb d.retry_count d.max_retries)
    && not (c.locked_delivery d.message_id d.group)

abbrev pub claimed_delivery : Call → ℕ → Delivery → Delivery
claimed_delivery c vt d = record d {
  status = processing;
  visibility_timeout = some (visible_at c vt);
  updated_at = c.now;
}

abbrev pub chosen_deliveries : Call → Text → Text → ℕ → Db → List Joined
chosen_deliveries c topic group n db = take n (
    order_by (λ (j : Joined). j.0.created_at)
      (select (can_claim_delivery c topic group) (join db.messages db.deliveries)))

-- UPDATE message_deliveries … RETURNING message_id
unfoldable pub claim_deliveries : Call → ℕ → Text → Text → ℕ → Db → List ℕ × Db
claim_deliveries c vt topic group n db = (
  map (λ (j : Joined). j.1.message_id) (chosen_deliveries c topic group n db),
  record db {
    deliveries =
        update
          (λ d. any (λ (j : Joined). same_delivery d j.1) (chosen_deliveries c topic group n db))
          (claimed_delivery c vt) db.deliveries;
  },
)

-- deliveryJoinQuery gives the message with the counters and the error of the delivery.
abbrev pub with_delivery : Joined → Message
with_delivery (m, d) = record m {
  retry_count = d.retry_count;
  max_retries = d.max_retries;
  last_error = d.last_error;
}

-- WHERE m.id = ANY($1) AND md.consumer_group = $2 ORDER BY m.created_at
unfoldable pub fetch_deliveries : List ℕ → Text → Db → List Message
fetch_deliveries ids group db =
    order_by (λ m. m.created_at)
      (map with_delivery (
        select (λ (j : Joined). any (λ i. j.0.id == i) ids && text_eq j.1.group group)
          (join db.messages db.deliveries)))

-- One row is fetched for the delivery that was claimed; a missing row is a failed scan.
unfoldable pub deliver_group : Libraries → List Message → Op Received
deliver_group l [] = raise Error.database
deliver_group l (m ∷ ms) = do r ← hydrate l m; commit; observe (dequeued r.topic); pure r

unfoldable pub deliver_claimed : Libraries → Text → List ℕ → Op Received
deliver_claimed l group [] = commit_empty
deliver_claimed l group (i ∷ is) = do
  rows ← tx_query (fetch_deliveries (i ∷ []) group)
  deliver_group l rows

unfoldable pub dequeue_for_group : Service → Call → Text → Text → ℕ → Op Received
dequeue_for_group sv c topic group timeout = transaction do
  allowed ← apply_throughput_limit c topic 1
  if allowed == 0 then commit_empty else (do
    let vt = resolve_visibility_timeout sv timeout
    ids ← tx_exec (always (claim_deliveries c vt topic group 1))
    deliver_claimed sv.libraries group ids)

unfoldable pub deliver_batch : Libraries → Text → List ℕ → Op (List Received)
deliver_batch l group [] = commit_list []
deliver_batch l group (i ∷ is) = do
  rows ← tx_query (fetch_deliveries (i ∷ is) group)
  rs ← scan_rows l rows
  commit_list rs

unfoldable pub dequeue_n_for_group : Service → Call → Text → Text → ℕ → ℕ → Op (List Received)
dequeue_n_for_group sv c topic group n timeout =
    if valid_batch n
    then transaction (do
      allowed ← apply_throughput_limit c topic n
      if allowed == 0 then commit_list [] else (do
        let vt = resolve_visibility_timeout sv timeout
        ids ← tx_exec (always (claim_deliveries c vt topic group allowed))
        deliver_batch sv.libraries group ids))
    else raise invalid_batch_size
