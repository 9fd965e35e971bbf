-- ===== src/Tests/Servers.antt =====
-- Queries, the scheduler and the servers.
use queue_ti.Base.{
  ℕ, ◌+◌, ◌≤◌, ltb, if◌then◌else◌, Option, ◌≡◌, refl, none, some, true, false, [], ◌∷◌, ◌++◌, List,
}
use queue_ti.Base.Text.{Text, bytes}
use queue_ti.Base.Table.{count, first}
use queue_ti.Base.Int.{pos}
use queue_ti.Queue.Error.{ok}
use queue_ti.Queue.Tables.{pending}
use queue_ti.Queue.Op.{World}
use queue_ti.Queue.Queries.{TopicStat, is_stat, stats}
use queue_ti.Queue.Queries.Counts.{counted, is_row, stats-counted}
use queue_ti.Queue.Scheduler.{Crons, update_delete_reaper_schedule}
use queue_ti.Queue.Scheduler.Single.{idle, Updated, update_delete_reaper_schedule-Updated}
use queue_ti.Server.Handler.{replies, refuses}
use queue_ti.Server.Grpc.Guarded.{RpcBarred, rpc-RpcBarred, may_call, acks}
use queue_ti.Server.Grpc.Subscribe.{Round, subscribe, min_backoff}
use queue_ti.Server.Grpc.Subscribe.Backoff.{Paced, subscribe-Paced}
use queue_ti.Server.Grpc.Subscribe.Sends.{Sends, subscribe-Sends}
use queue_ti.Server.Grpc.{resolve_visibility_timeout_from_proto}
use queue_ti.Queue.Throttle.{throughput_limit}
use queue_ti.Queue.Service.{Metadata}
use queue_ti.Queue.Dequeue.{can_claim, decode_metadata}
use queue_ti.Base.Order.{at_head}
use queue_ti.Users.Store.{User, has_username}
use queue_ti.Server.Auth.{unauthenticated, unary_interceptor, bearer}
use queue_ti.Server.Grpc.{rpc_ack}
use queue_ti.Server.Quiet.{Barred}
use queue_ti.Server.Http.{Answer}
use queue_ti.Server.Http.Middleware.Guards.{guarded, guarded-Barred, may_pass, dequeue_on}
use queue_ti.Server.Http.Messages.{ListResponse, batch_dequeue_messages, list_messages}
use queue_ti.Server.Http.Listing.{Listing, list_messages-Listing}
use queue_ti.Server.Http.Login.{LoginRequest, handle_login}
use queue_ti.Server.Jwt.{parse_token, token_duration}
use queue_ti.Server.Http.Login.Issues.{login-unary_interceptor, caller_of}
use queue_ti.Tests.Scene.{service, call_at, orders, message, world_with}
use queue_ti.Tests.Desk.{postgres, site, server, ann_claims, tokens, jwt-SignsAndParses}

abbrev one_stat : List TopicStat
one_stat = record { topic = orders; status = pending; count = 1 } ∷ []

stats_run : (stats postgres (world_with (message ∷ []))).0 ≡ ok one_stat
unfolding stats queue_ti.Queue.Queries.group_rows queue_ti.Queue.Queries.count_in
    queue_ti.Base.Sort.sort queue_ti.Base.Sort.place queue_ti.Queue.Op.pool_query
    queue_ti.Queue.Op.attempt queue_ti.Queue.Op.next_fault
stats_run = refl

stats-counted_example :
    (counted orders pending one_stat ≡ count (is_row orders pending) (message ∷ []))
    × (count (is_stat orders pending) one_stat ≤ 1)
stats-counted_example = stats-counted postgres (world_with (message ∷ [])) orders pending stats_run

abbrev no_crons : Crons
no_crons = record { running = []; stop = none; next = 0 }

update_delete_reaper_schedule-Updated_example :
    Updated
      (bytes "@daily")
      (world_with [], no_crons)
      (update_delete_reaper_schedule service (bytes "@daily") (world_with [], no_crons))
update_delete_reaper_schedule-Updated_example =
    update_delete_reaper_schedule-Updated service (bytes "@daily") (world_with []) no_crons
      (idle none 0)

may_not_ack :
    may_call postgres site.queue.committed
      (queue_ti.Server.Grants.grants_held postgres ann_claims.user_id site.accounts)
      (acks (bytes "d") [])
    ≡ false
unfolding may_call queue_ti.Server.Grants.grants_held queue_ti.Base.Table.first
    queue_ti.Base.Table.select queue_ti.Base.Table.order_by queue_ti.Base.Table.insert_by
    queue_ti.Users.Permissions.has_dequeue_access queue_ti.Users.Permissions.has_grant
    queue_ti.Users.Permissions.matches_pattern queue_ti.Base.Text.text_eq
    queue_ti.Base.Text.cut_suffix
may_not_ack = refl

rpc-RpcBarred_example : RpcBarred server (call_at 200) (some ann_claims) site (acks (bytes "d") [])
rpc-RpcBarred_example =
    rpc-RpcBarred server (call_at 200) ann_claims site refl refl (acks (bytes "d") []) may_not_ack

may_not_dequeue : may_pass server site (some ann_claims) (dequeue_on orders []) ≡ false
unfolding queue_ti.Server.Http.Middleware.Guards.grants_pass queue_ti.Server.Grants.grants_held
    queue_ti.Base.Table.select queue_ti.Base.Table.order_by queue_ti.Base.Table.insert_by
    queue_ti.Users.Permissions.has_dequeue_access queue_ti.Users.Permissions.has_grant
    queue_ti.Users.Permissions.matches_pattern queue_ti.Base.Text.text_eq
    queue_ti.Base.Text.cut_suffix
may_not_dequeue = refl

guarded-Barred_example : Barred site (
    guarded server
      (some ann_claims)
      (dequeue_on orders [])
      (batch_dequeue_messages server (call_at 200) none)
      site)
guarded-Barred_example =
    guarded-Barred server (batch_dequeue_messages server (call_at 200) none) (some ann_claims)
      (dequeue_on orders []) site may_not_dequeue

abbrev round : Round
round = record {
  call = call_at 200;
  gone = false;
  gone_on_error = false;
  gone_waiting = false;
  sent = true;
}

subscribe-Paced_example :
    Paced min_backoff (subscribe server none orders [] none (round ∷ round ∷ []) site)
subscribe-Paced_example = subscribe-Paced server none orders [] none (round ∷ round ∷ []) site

no_limit : throughput_limit orders site.queue.committed ≡ none
unfolding throughput_limit queue_ti.Queue.Config.find_config queue_ti.Base.Table.first
no_limit = refl

claimable : can_claim (call_at 200) orders message ≡ true
unfolding queue_ti.Base.Text.text_eq
claimable = refl

decodes_text :
    (t : Option Text) → (md : Metadata) × (decode_metadata server.service.libraries t ≡ some md)
decodes_text none = ([], refl)
decodes_text (some t) = ([], refl)

half_a_minute :
    resolve_visibility_timeout_from_proto (some 30) site ≡ (replies 30_000_000_000, site)
unfolding resolve_visibility_timeout_from_proto queue_ti.Server.Handler.answer
half_a_minute = refl

subscribe-Sends_example :
    Sends server orders 30_000_000_000 round
      (round ∷ [])
      site
      (subscribe server none orders [] (some 30) (round ∷ round ∷ []) site)
subscribe-Sends_example =
    subscribe-Sends server orders (some 30) 30_000_000_000 round (round ∷ []) site message refl
      half_a_minute refl refl refl no_limit (λ x i. decodes_text x.metadata) at_head claimable

abbrev one_page : Answer ListResponse
one_page = record {
  status = 200;
  body = record {
    items =
        record {
          message = record {
            id = 100;
            topic = orders;
            key = none;
            payload = bytes "p";
            metadata = [];
            retry_count = 0;
            max_retries = 3;
            last_error = [];
            expires_at = none;
            created_at = 100;
            original_topic = [];
            dlq_moved_at = none;
          };
          status = pending;
        }
        ∷ [];
    total = 1;
    limit = 200;
    offset = 0;
  };
}

list_run :
    (list_messages server (call_at 200) orders (some (pos 5000)) none site).0 ≡ replies one_page
unfolding list_messages queue_ti.Server.Http.parse_limit_offset queue_ti.Server.Handler.on_queue
    queue_ti.Server.Handler.◌>>=◌ queue_ti.Server.Handler.answer queue_ti.Queue.Queries.list
    queue_ti.Queue.Queries.page_of queue_ti.Queue.Queries.hydrate_rows queue_ti.Queue.Queries.drop
    queue_ti.Queue.Dequeue.hydrate queue_ti.Queue.Op.◌>>=◌ queue_ti.Queue.Op.pure
    queue_ti.Queue.Op.pool_query queue_ti.Queue.Op.attempt queue_ti.Queue.Op.next_fault
    queue_ti.Base.Table.count queue_ti.Base.Table.select queue_ti.Base.Table.take
    queue_ti.Base.Sort.sort queue_ti.Base.Sort.place queue_ti.Base.Text.text_eq
list_run = refl

list_messages-Listing_example : Listing orders site one_page.body
list_messages-Listing_example =
    list_messages-Listing server (call_at 200) orders (some (pos 5000)) none site list_run

abbrev login : LoginRequest
login = record { username = bytes "ann"; password = bytes "secret" }

abbrev token : Answer Text
token = record { status = 200; body = (1000 + token_duration) ∷ tokens.secret }

login_run : (handle_login server tokens 1000 (some login) site).0 ≡ replies token
unfolding handle_login queue_ti.Server.Handler.on_store queue_ti.Server.Handler.◌>>=◌
    queue_ti.Server.Handler.answer queue_ti.Users.Store.get_by_username
    queue_ti.Users.Store.statement queue_ti.Base.Table.first queue_ti.Base.Text.text_eq
    queue_ti.Server.Jwt.issue_token
login_run = refl

login-unary_interceptor_example :
    (u : User) × ((first (has_username login.username) site.accounts.users ≡ some u)
      × ((tokens.compare u.password_hash login.password ≡ true)
          × (unary_interceptor server
                (parse_token tokens.jwt tokens.secret 2000)
                (some ((bearer ++ token.body) ∷ []))
                (λ caller. rpc_ack server (call_at 200) caller (bytes "d") [])
                site
              ≡ (if ltb 2000 (tokens.jwt.numeric_date (1000 + token_duration))
                  then rpc_ack server (call_at 200) (some (caller_of server u)) (bytes "d") [] site
                  else (refuses unauthenticated, site)))))
login-unary_interceptor_example =
    login-unary_interceptor server tokens 1000 2000 login site site
      (λ caller. rpc_ack server (call_at 200) caller (bytes "d") []) jwt-SignsAndParses refl
      login_run
