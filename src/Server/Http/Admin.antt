-- ===== src/Server/Http/Admin.antt =====
-- handlers_admin.go and handlers_replay.go. The routes of http.go put jwtAuth and requireAdmin
-- before each handler.
use queue_ti.Base.{ℕ, Bool, not, Option, none, some, List, [], ◌∷◌, if◌then◌else◌}
use queue_ti.Base.Text.{Text, bytes, text_eq}
use queue_ti.Base.Int.{ℤ}
use queue_ti.Queue.Error.{Error, Result, ok, err, topic_not_replayable, replay_window_too_old}
use queue_ti.Queue.Tables.{Status, pending, processing, expired}
use queue_ti.Queue.Service.{Call}
use queue_ti.Queue.Op.{World}
use queue_ti.Queue.Replay.{replay_topic, trim_message_log, purge_topic, purge_by_key}
use queue_ti.Queue.Reaper.{run_expiry_reaper_once, run_delete_reaper_once, run_archive_reaper_once}
use queue_ti.Queue.Queries.{Archived, list_message_log}
use queue_ti.Queue.Scheduler.{Crons, get_delete_reaper_schedule, update_delete_reaper_schedule}
use queue_ti.Server.Handler.{
  Server, Site, Reply, replies, refuses, refuse, on_queue, ◌>>=◌, ◌>>◌, is_empty,
}
use queue_ti.Server.Http.{
  Http, Answer, json, with_body, reject_if, server_error, parse_limit_offset,
}

-- The statuses that validPurgeStatuses allows; `none` for any other text.
unfoldable pub purge_status : Text → Option Status
purge_status t =
    if text_eq t (bytes "pending")
    then some pending
    else if text_eq t (bytes "processing")
    then some processing
    else if text_eq t (bytes "expired")
    then some expired
    else none

abbrev pub with_status : Option Status → Option (List Status) → Option (List Status)
with_status (some st) (some sts) = some (st ∷ sts)
with_status (some st) none = none
with_status none rest = none

-- All the statuses, if each is allowed.
unfoldable pub purge_statuses : List Text → Option (List Status)
purge_statuses [] = some []
purge_statuses (t ∷ ts) = with_status (purge_status t) (purge_statuses ts)

abbrev pub all_by_default : List Text → List Text
all_by_default [] = bytes "pending" ∷ bytes "processing" ∷ bytes "expired" ∷ []
all_by_default (t ∷ ts) = t ∷ ts

abbrev pub replay_status : Error → ℕ
replay_status topic_not_replayable = 422
replay_status replay_window_too_old = 422
replay_status _ = 500

-- The time of a text that is given and not empty; an error for one that does not parse.
abbrev pub from_time {ℓ} :
    {A : Type ℓ} → (Text → Option ℕ) → Option Text → (Option ℕ → Http A) → Http A
from_time parse none f = f none
from_time parse (some []) f = f none
from_time parse (some (b ∷ t)) f = elim (parse (b ∷ t)) [
  | none ↦ refuse 422
  | some at ↦ f (some at)
]

abbrev pub before_time {ℓ} : {A : Type ℓ} → Option ℕ → (ℕ → Http A) → Http A
before_time none f = refuse 400
before_time (some at) f = f at

pub record MessageLogResponse : Type 0 where
  pub items : List Archived
  pub total : ℕ
  pub limit : ℕ
  pub offset : ℕ

-- `rfc3339` is time.Parse(time.RFC3339, …), in nanoseconds.
module _ (sv : Server) (c : Call) (rfc3339 : Text → Option ℕ) where
  unfoldable pub topics_purge : Text → Option (List Text) → Http ℕ
  topics_purge topic body = with_body body (λ texts.
      with_body (purge_statuses (all_by_default texts))
        (λ statuses. on_queue server_error (purge_topic topic statuses) >>= json))

  unfoldable pub topics_purge_key : Text → Text → Http ℕ
  topics_purge_key topic key = do
    reject_if (is_empty key) 400
    n ← on_queue server_error (purge_by_key topic key)
    json n

  unfoldable pub topics_replay : Text → Option (Option Text) → Http ℕ
  topics_replay topic body = with_body body (λ text.
      from_time rfc3339 text
        (λ from. on_queue replay_status (replay_topic sv.service c topic from) >>= json))

  unfoldable pub topics_log : Text → Option ℤ → Option ℤ → Http MessageLogResponse
  topics_log topic limit offset =
      let (n, k) = parse_limit_offset 50 200 limit offset in
      on_queue server_error (list_message_log sv.service.libraries topic n k) >>= λ page.
      json (record { items = page.items; total = page.total; limit = n; offset = k })

  unfoldable pub topics_trim : Text → Text → Http ℕ
  topics_trim topic before = do
    reject_if (is_empty before) 400
    before_time (rfc3339 before) (λ at. on_queue server_error (trim_message_log topic at) >>= json)

  unfoldable pub admin_expiry_run : Http ℕ
  admin_expiry_run = on_queue server_error (run_expiry_reaper_once c) >>= json

  unfoldable pub admin_delete_run : Http ℕ
  admin_delete_run = on_queue server_error (run_delete_reaper_once c) >>= json

  unfoldable pub admin_archive_run : Http ℕ
  admin_archive_run = on_queue server_error (run_archive_reaper_once c) >>= json

  -- The schedule, and whether there is one.
  unfoldable pub admin_schedule : Http (Text × Bool)
  admin_schedule =
      on_queue server_error get_delete_reaper_schedule >>= λ t. json (t, not (is_empty t))

  abbrev pub schedule_reply :
      Text
      → Site
      → Result (Unit {0}) × (World × Crons)
      → (Reply ℕ (Answer (Text × Bool)) × Site) × Crons
  schedule_reply t s (ok u, (w, k)) =
      ((replies (record { status = 200; body = (t, not (is_empty t)) }), record s { queue = w }), k)
  schedule_reply t s (err e, (w, k)) = ((refuses 422, record s { queue = w }), k)

  -- Every error is 422.
  unfoldable pub admin_set_schedule :
      Option Text → Site × Crons → (Reply ℕ (Answer (Text × Bool)) × Site) × Crons
  admin_set_schedule none (s, k) = ((refuses 400, s), k)
  admin_set_schedule (some t) (s, k) =
      schedule_reply t s (update_delete_reaper_schedule sv.service t (s.queue, k))
