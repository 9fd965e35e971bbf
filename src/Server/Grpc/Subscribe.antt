-- ===== src/Server/Grpc/Subscribe.antt =====
-- grpc.go: Subscribe, a stream that claims messages for a consumer and waits while there are none.
pub mod Backoff
pub mod Sends
use queue_ti.Base.{ℕ, Bool, true, false, Option, none, some, List, [], ◌∷◌, ◌*◌, ltb, if◌then◌else◌}
use queue_ti.Base.Text.{Text}
use queue_ti.Queue.Error.{Error, Result, ok, err, no_message}
use queue_ti.Queue.Service.{Call, Metadata}
use queue_ti.Queue.Op.{World}
use queue_ti.Queue.Dequeue.{Received}
use queue_ti.Server.Handler.{
  Server, Site, Claims, Handler, Reply, replies, refuses, answer, ◌>>=◌, ◌>>◌, is_empty,
}
use queue_ti.Server.Auth.{Code, internal, check_dequeue_grant}
use queue_ti.Server.Grpc.{required, resolve_visibility_timeout_from_proto, dequeue_from}

abbrev pub min_backoff : ℕ
min_backoff = 250000000

abbrev pub max_backoff : ℕ
max_backoff = 2000000000

unfoldable pub next_backoff : ℕ → ℕ
next_backoff backoff =
    if ltb backoff max_backoff
    then (if ltb max_backoff (backoff * 2) then max_backoff else backoff * 2)
    else backoff

pub record SubscribeResponse : Type 0 where
  pub id : Text
  pub topic : Text
  pub payload : Text
  pub metadata : Metadata
  pub created_at : ℕ
  pub retry_count : ℕ

abbrev pub to_sent : Server → Received → SubscribeResponse
to_sent sv m = record {
  id = sv.postgres.uuid_out m.id;
  topic = m.topic;
  payload = m.payload;
  metadata = m.metadata;
  created_at = m.created_at;
  retry_count = m.retry_count;
}

-- What a round of the loop meets: the call, whether the client is gone at the start, when an error
-- comes back and while the stream waits, and whether Send succeeds.
pub record Round : Type 0 where
  pub call : Call
  pub gone : Bool
  pub gone_on_error : Bool
  pub gone_waiting : Bool
  pub sent : Bool

-- How the stream ends: not yet, with nil, by the error of Send, or with a status.
pub data Ending : Type 0 where
  running closed send_failed : Ending
  failed : Code → Ending

pub record Stream : Type 0 where
  pub waits : List ℕ
  pub sent : List SubscribeResponse
  pub ending : Ending

abbrev pub ended : Ending → Site → Stream × Site
ended e s = (record { waits = []; sent = []; ending = e }, s)

abbrev pub waited : ℕ → Stream × Site → Stream × Site
waited w (x, s) = (record x { waits = w ∷ x.waits }, s)

abbrev pub has_sent : SubscribeResponse → Stream × Site → Stream × Site
has_sent m (x, s) = (record x { sent = m ∷ x.sent }, s)

abbrev pub is_no_message : Error → Bool
is_no_message no_message = true
is_no_message _ = false

-- The rest of a round, with the rounds that follow as a function of the backoff.
abbrev pub after_dequeue :
    Server → Round → ℕ → (ℕ → Site → Stream × Site) → Site → Result Received × World → Stream × Site
after_dequeue sv r backoff next s (ok m, w) =
    let s' = record s { queue = w } in
    if r.sent then has_sent (to_sent sv m) (next min_backoff s') else ended send_failed s'
after_dequeue sv r backoff next s (err e, w) =
    let s' = record s { queue = w } in
    if r.gone_on_error
    then ended closed s'
    else if is_no_message e
    then waited backoff (if r.gone_waiting then ended closed s' else next (next_backoff backoff) s')
    else ended (failed internal) s'

module _ (sv : Server) (topic group : Text) (timeout : ℕ) where
  -- The loop, for as many rounds as are given.
  unfoldable pub subscribe_loop : ℕ → List Round → Site → Stream × Site
  subscribe_loop backoff [] s = ended running s
  subscribe_loop backoff (r ∷ rs) s =
      let next : ℕ → Site → Stream × Site = λ b. subscribe_loop b rs in
      if r.gone
      then ended closed s
      else after_dequeue sv r backoff next s (dequeue_from sv r.call topic group timeout s.queue)

-- What comes before the loop; it gives the timeout.
abbrev pub subscribe_start : Server → Option Claims → Text → Text → Option ℕ → Handler Code ℕ
subscribe_start sv caller topic group seconds = do
  required (is_empty topic)
  timeout ← resolve_visibility_timeout_from_proto seconds
  check_dequeue_grant sv caller topic group
  answer timeout

abbrev pub started : Server → Text → Text → List Round → Reply Code ℕ × Site → Stream × Site
started sv topic group rounds (replies timeout, s) =
    subscribe_loop sv topic group timeout min_backoff rounds s
started sv topic group rounds (refuses code, s) = ended (failed code) s

unfoldable pub subscribe :
    Server → Option Claims → Text → Text → Option ℕ → List Round → Site → Stream × Site
subscribe sv caller topic group seconds rounds s =
    started sv topic group rounds (subscribe_start sv caller topic group seconds s)
