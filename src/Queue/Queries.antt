-- ===== src/Queue/Queries.antt =====
-- query.go, and the listings of replay.go, topic_config.go and schema.go: plain SELECTs on what is
-- committed.
pub mod Pages
pub mod Counts
use queue_ti.Base.{
  ℕ, zero, suc, Bool, true, false, Option, none, some, List, [], ◌∷◌, ◌&&◌, ◌==◌, leb,
  if◌then◌else◌,
}
use queue_ti.Base.Text.{Text, text_eq}
use queue_ti.Base.Table.{select, count, first, take}
use queue_ti.Base.Sort.{sort}
use queue_ti.Base.Postgres.{Postgres}
use queue_ti.Queue.Error.{not_found, invalid_metadata}
use queue_ti.Queue.Tables.{
  Db, Message, Status, pending, processing, failed, expired, status_eq, has_id, has_topic, LogRow,
  TopicConfig, TopicSchema,
}
use queue_ti.Queue.Service.{Libraries, Metadata}
use queue_ti.Queue.Op.{Op, pure, raise, ◌>>=◌, pool_query}
use queue_ti.Queue.Dequeue.{Received, hydrate, or_empty, decode_metadata}

abbrev pub topic_or_absent : Option Message → Op Text
topic_or_absent none = raise not_found
topic_or_absent (some m) = pure m.topic

unfoldable pub topic_for_message : ℕ → Op Text
topic_for_message id = do
  row ← pool_query (λ db. first (has_id id) db.messages)
  topic_or_absent row

-- TopicStat
pub record TopicStat : Type 0 where
  pub topic : Text
  pub status : Status
  pub count : ℕ

abbrev pub is_stat : Text → Status → TopicStat → Bool
is_stat t st e = text_eq e.topic t && status_eq e.status st

abbrev pub one_more : TopicStat → TopicStat
one_more e = record e { count = suc e.count }

-- GROUP BY topic, status: the group of a row counts one more.
unfoldable pub count_in : Text → Status → List TopicStat → List TopicStat
count_in t st [] = record { topic = t; status = st; count = 1 } ∷ []
count_in t st (e ∷ es) = if is_stat t st e then one_more e ∷ es else e ∷ count_in t st es

unfoldable pub group_rows : List Message → List TopicStat
unfolding count_in
group_rows [] = []
group_rows (m ∷ ms) = count_in m.topic m.status (group_rows ms)

-- ORDER BY topic, status: the texts of the statuses in the order of the alphabet.
abbrev pub status_rank : Status → ℕ
status_rank expired = 0
status_rank failed = 1
status_rank pending = 2
status_rank processing = 3

abbrev pub stat_before : Postgres → TopicStat → TopicStat → Bool
stat_before pg a b =
    if text_eq a.topic b.topic
    then leb (status_rank a.status) (status_rank b.status)
    else pg.collate a.topic b.topic

unfoldable pub stats : Postgres → Op (List TopicStat)
stats pg = pool_query (λ db. sort (stat_before pg) (group_rows db.messages))

-- PagedResult
pub record Page {ℓ} (A : Type ℓ) : Type ℓ where
  pub items : List A
  pub total : ℕ

-- OFFSET n
unfoldable pub drop {ℓ} : {A : Type ℓ} → ℕ → List A → List A
drop zero xs = xs
drop (suc n) [] = []
drop (suc n) (x ∷ xs) = drop n xs

-- No topic is every topic.
abbrev pub on_topic : Text → Message → Bool
on_topic [] m = true
on_topic (b ∷ t) m = has_topic (b ∷ t) m

abbrev pub newest_first : Message → Message → Bool
newest_first a b = leb b.created_at a.created_at

unfoldable pub page_of : Text → ℕ → ℕ → List Message → List Message
page_of topic limit offset ms =
    take limit (drop offset (sort newest_first (select (on_topic topic) ms)))

-- A message of a listing: hydrated, with its status.
pub record Listed : Type 0 where
  pub message : Received
  pub status : Status

unfoldable pub hydrate_rows : Libraries → List Message → Op (List Listed)
hydrate_rows l [] = pure []
hydrate_rows l (m ∷ ms) = do
  r ← hydrate l m
  rs ← hydrate_rows l ms
  pure (record { message = r; status = m.status } ∷ rs)

-- The count and the page are two statements.
unfoldable pub list : Libraries → Text → ℕ → ℕ → Op (Page Listed)
unfolding page_of hydrate_rows
list l topic limit offset = do
  total ← pool_query (λ db. count (on_topic topic) db.messages)
  rows ← pool_query (λ db. page_of topic limit offset db.messages)
  items ← hydrate_rows l rows
  pure (record { items = items; total = total })

-- ArchivedMessage
pub record Archived : Type 0 where
  pub id : ℕ
  pub topic : Text
  pub key : Option Text
  pub payload : Text
  pub metadata : Metadata
  pub retry_count : ℕ
  pub created_at : ℕ
  pub acked_at : ℕ
  pub original_topic : Text

abbrev pub archived : LogRow → Metadata → Archived
archived r metadata = record {
  id = r.id;
  topic = r.topic;
  key = r.key;
  payload = r.payload;
  metadata = metadata;
  retry_count = r.retry_count;
  created_at = r.created_at;
  acked_at = r.acked_at;
  original_topic = or_empty r.original_topic;
}

abbrev pub archived_or_fail : LogRow → Option Metadata → Op Archived
archived_or_fail r none = raise invalid_metadata
archived_or_fail r (some metadata) = pure (archived r metadata)

unfoldable pub archived_rows : Libraries → List LogRow → Op (List Archived)
archived_rows l [] = pure []
archived_rows l (r ∷ rs) = do
  a ← archived_or_fail r (decode_metadata l r.metadata)
  rest ← archived_rows l rs
  pure (a ∷ rest)

abbrev pub latest_ack_first : LogRow → LogRow → Bool
latest_ack_first a b = leb b.acked_at a.acked_at

unfoldable pub list_message_log : Libraries → Text → ℕ → ℕ → Op (Page Archived)
unfolding drop archived_rows
list_message_log l topic limit offset = do
  total ← pool_query (λ db. count (λ (r : LogRow). text_eq r.topic topic) db.log)
  rows ← pool_query (λ db.
      take limit (
        drop offset
          (sort latest_ack_first (select (λ (r : LogRow). text_eq r.topic topic) db.log))))
  items ← archived_rows l rows
  pure (record { items = items; total = total })

unfoldable pub list_topic_configs : Postgres → Op (List TopicConfig)
list_topic_configs pg =
    pool_query (λ db. sort (λ (a b : TopicConfig). pg.collate a.topic b.topic) db.configs)

unfoldable pub list_topic_schemas : Postgres → Op (List TopicSchema)
list_topic_schemas pg =
    pool_query (λ db. sort (λ (a b : TopicSchema). pg.collate a.topic b.topic) db.schemas)
