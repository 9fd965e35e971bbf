-- ===== src/Lib.antt =====
-- queue-ti, a message queue on PostgreSQL: a model of the service in backend/internal/queue, of the
-- users and their grants in backend/internal/users, of backend/internal/auth and of the two servers
-- in backend/internal/server, and of the consumer in clients/go-client, with what holds of them.
--
-- The program. The type Service of backend/internal/queue keeps its state in PostgreSQL, and beside
-- it an in-process cache of topic configurations, a cache of compiled schemas, and an optional redis
-- that several processes share. Its methods run single statements on the pool, or a transaction that
-- is rolled back unless it is committed. Changes of configurations and schemas are broadcast to the
-- other processes. Two reapers expire and delete messages.
-- The store of users keeps users and grants in the same database. The gRPC and the HTTP server take a
-- request, find the claims of its token, check the grants of the user, call the service or the store,
-- and answer with a result or a status.
--
-- The files.
--   Base            Boolean tests, texts as lists of bytes (Base/Text), SQL on lists of rows
--                   (Base/Table, Base/Order, Base/Sort), association lists (Base/Map), integers
--                   (Base/Int), the texts of UUIDs and the order of texts (Base/Postgres).
--   Queue/Tables    the rows of the migrations under backend/internal/db/migrations, as records:
--                   messages, message_deliveries, consumer_groups, message_log, topic_config,
--                   topic_throughput, topic_schemas. Db is all of them.
--   Queue/Error     the error values of service.go. Wrapping by `%w` keeps the value.
--   Queue/Service   the settings of a service (Service), what one call finds (Call: its two clocks,
--                   the rows that others hold, fresh ids) and the library functions (Libraries).
--   Queue/Op        the operations: an Op takes a World (what the open transaction sees, what is
--                   committed, caches, redis, metrics, broadcasts, and faults to come) to a result and
--                   a World. tx_query and tx_exec are statements of a transaction, pool_query and
--                   pool_exec statements on the pool, commit and transaction the rest. Each of them
--                   may fail, by the schedule of faults. Op/Keeps, Op/Inert, Op/Triple are the
--                   rules by which operations are reasoned about: an invariant is kept, the database
--                   is left alone, a condition before gives one after if a result is returned, and,
--                   in Op/Total, a result is returned when nothing fails.
--   Queue/Statements  the statements that several methods share, with the unique indexes, the cascade
--                   of message_deliveries and the trigger trg_mint_deliveries.
--   Queue/Config    topic_config.go: GetTopicConfig through its three levels, UpsertTopicConfig,
--                   DeleteTopicConfig, and the listener of service.go. Config/Tiers says which
--                   configuration the levels give, Config/Kept that the process then has it.
--   Queue/Schemas   schema.go, on the types of Queue/Avro, which has the validation of payloads.
--   Queue/Enqueue   enqueue.go.
--   Queue/Throttle  throttle.go, and applyThroughputLimit of dequeue.go.
--   Queue/Dequeue   dequeue.go and message.go.
--   Queue/Lifecycle lifecycle.go: Ack, Nack, AckForGroup, NackForGroup, Requeue.
--   Queue/Groups    consumer_group.go.
--   Queue/Reaper    reaper.go: the work of the reapers.
--   Queue/Scheduler reaper.go: the scheduler of the delete reaper and its stored schedule.
--   Queue/Queries   query.go, ListMessageLog, ListTopicConfigs and ListTopicSchemas.
--   Queue/Replay    replay.go and purge.go.
--   Queue/Requests  the whole: a Request for every method that changes the tables, and the steps of a
--                   process, its reapers and the network.
--   Queue/Wf        what holds of the tables between any two statements.
--   Users/Permissions  permissions.go.
--   Users/Store     users.go and seed.go: an Act takes the Accounts (users, grants, faults to come) to
--                   an outcome and Accounts; each method is one statement.
--   Server/Handler  a request: it takes a Site (the World of the queue and the Accounts) to a reply or
--                   a status and a Site. on_queue and on_store are the calls of the two parts.
--                   Server/Quiet and Server/Replied are rules for it.
--   Server/Auth     the interceptor of backend/internal/auth and the checks of grpc.go.
--   Server/Jwt      backend/internal/users/jwt.go: IssueToken and ParseToken, on the token library.
--   Server/Grpc     grpc.go; its child Subscribe is the stream.
--   Server/Http     http.go and helpers.go; Middleware, Messages, Users, Topics, Admin and Login are
--                   middleware.go and the files of handlers.
--   Client/Consumer clients/go-client/consumer.go: Consume, over rounds of any number, and dispatch;
--   Client/Batches  ConsumeBatch.
--   Tests           runs on small worlds, and the theorems at concrete inputs.
-- The functions keep the names of the Go code in snake case. The children of a module have its
-- theorems.
--
-- How it is modelled.
--   A table is a list of its rows in the order of insertion. Ids are numbers, fresh ones come from the
--   call; an id that is taken breaks the primary key. Times are nanoseconds; `wall` is the clock of the
--   process and `now` the clock of the database. INT columns are natural numbers, without their bound.
--   A transaction runs as one step: row locks that others hold are given by the call, and FOR UPDATE
--   SKIP LOCKED passes over them. Requests and ticks interleave as whole steps, in any order.
--   A statement or a commit that fails leaves the committed tables as they were.
--   The tokens of a bucket are billionths of a token, where the code has floats. RETURNING gives rows
--   in the order of the SELECT that chose them. Rounding of timestamps to microseconds is left out.
--   The encoding of JSON, the parser of Avro schemas and of cron schedules are arguments (Libraries).
--   No recursion needs fuel: loops go over lists of rows, and validation over the schema. The loop of
--   Subscribe goes over a list of rounds, of any length, that says what each round meets.
--   An id in a request is a text; one that is no UUID fails the statement that takes it. bcrypt, the
--   token library and the parser of times are arguments. A body of a request is what
--   BodyParser makes of it, or nothing; the middleware reads the topic and the group from the JSON of
--   the body by itself, so its guards stand on what it reads.
--   The store of users and the queue have schedules of faults of their own.
--
-- Not modelled: configuration, metrics, the wrappers of redis and of LISTEN and NOTIFY, the opening of
-- the database, CORS, the rate limit of the login, the format of times in responses, the clients but
-- for the Go consumer, the tools and the generated protocol code. The Go consumer runs its handlers
-- concurrently; the model gives their calls in the order in which the messages came.
pub mod Base
pub mod Queue
pub mod Users
pub mod Server
pub mod Client
mod Tests
