-- ===== src/Tests/Scene.antt =====
-- A service, a call and worlds for the tests.
use queue_ti.Base.{ℕ, ◌+◌, true, false, none, some, List, [], ◌∷◌}
use queue_ti.Base.Text.{Text, bytes}
use queue_ti.Queue.Tables.{Db, Message, Delivery, Status, TopicConfig, pending, processing}
use queue_ti.Queue.Avro.{Json}
use queue_ti.Queue.Service.{Service, Call, Libraries}
use queue_ti.Queue.Op.{World}

abbrev pub json : Json
json = record {
  is_valid = λ t. true;
  is_string = λ t. true;
  is_boolean = λ t. true;
  number = λ t. some t;
  is_int64 = λ t. true;
  object = λ t. some [];
}

abbrev pub libraries : Libraries
libraries = record {
  marshal_metadata = λ m. bytes "{}";
  unmarshal_metadata = λ t. some [];
  marshal_config = λ c. [];
  unmarshal_config = λ t. none;
  marshal_schema = λ c. [];
  unmarshal_schema = λ t. none;
  valid_cron = λ t. true;
  parse_avro = λ t. none;
  json = json;
}

abbrev pub service : Service
service = record {
  visibility_timeout = 30_000_000_000;
  max_retries = 3;
  message_ttl = 0;
  dlq_threshold = 3;
  require_topic_registration = false;
  redis = false;
  libraries = libraries;
}

abbrev pub call_at : ℕ → Call
call_at now = record {
  wall = now;
  now = now;
  locked = λ i. false;
  locked_delivery = λ i g. false;
  uuid = λ k. now + k;
}

abbrev pub empty_db : Db
empty_db = record {
  messages = [];
  deliveries = [];
  groups = [];
  log = [];
  configs = [];
  buckets = [];
  schemas = [];
  schedule = none;
}

abbrev pub world_of : Db → World
world_of db = record {
  db = db;
  committed = db;
  faults = [];
  configs = [];
  compiled = [];
  redis = [];
  metrics = [];
  published = [];
}

abbrev pub orders : Text
orders = bytes "orders"

-- The first message of the tests, as Enqueue writes it at time 100.
abbrev pub message : Message
message = record {
  id = 100;
  topic = orders;
  key = none;
  payload = bytes "p";
  metadata = some (bytes "{}");
  status = pending;
  retry_count = 0;
  max_retries = 3;
  last_error = none;
  expires_at = none;
  created_at = 100;
  updated_at = 100;
  visibility_timeout = none;
  original_topic = none;
  dlq_moved_at = none;
}

abbrev pub taken : Message
taken = record message { status = processing; visibility_timeout = some 30_000_000_200 }

abbrev pub world_with : List Message → World
world_with ms = world_of (record empty_db { messages = ms })

-- A topic whose messages go to the dead-letter topic at the first rejection.
abbrev pub one_retry : TopicConfig
one_retry = record {
  topic = orders;
  max_retries = some 1;
  message_ttl_seconds = none;
  max_depth = none;
  replayable = false;
  replay_window_seconds = none;
  throughput_limit = none;
}

-- The process has looked up the topic and found no configuration.
abbrev pub cached_world : Text → List Message → World
cached_world topic ms = record (world_with ms) { configs = (topic, none) ∷ [] }

-- A message that a rejection has moved to the dead-letter topic.
abbrev pub dead : Message
dead = record message {
  topic = bytes "orders.dlq";
  original_topic = some orders;
  dlq_moved_at = some 250;
  last_error = some (bytes "boom");
  max_retries = 0;
}

-- Two groups have a delivery of the message; the first has claimed its own.
abbrev pub delivery_of : Text → Status → Delivery
delivery_of group status = record {
  message_id = 100;
  group = group;
  status = status;
  visibility_timeout = none;
  retry_count = 0;
  max_retries = 3;
  last_error = none;
  created_at = 100;
  updated_at = 100;
}

abbrev pub shared_world : World
shared_world = world_of (record empty_db {
  messages = message ∷ [];
  deliveries = delivery_of (bytes "a") processing ∷ delivery_of (bytes "b") pending ∷ [];
})
