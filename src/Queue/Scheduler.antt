-- ===== src/Queue/Scheduler.antt =====
-- reaper.go: the cron scheduler of the delete reaper and its schedule in `system_settings`.
pub mod Single
use queue_ti.Base.{
  ℕ, suc, Bool, true, false, Option, none, some, List, [], ◌∷◌, ◌==◌, if◌then◌else◌,
}
use queue_ti.Base.Text.{Text}
use queue_ti.Base.Table.{delete}
use queue_ti.Queue.Error.{Result, ok, err, invalid_schedule}
use queue_ti.Queue.Tables.{Db}
use queue_ti.Queue.Service.{Service}
use queue_ti.Queue.Op.{World, Op, plain, pool_query, pool_exec, ◌>>=◌, pure}

-- The schedulers that run, each with its schedule, and deleteReaperStop: nil, a no-op, or the stop
-- function of a scheduler. `next` numbers the schedulers.
pub record Crons : Type 0 where
  pub running : List (ℕ × Text)
  pub stop : Option (Option ℕ)
  pub next : ℕ

abbrev pub no_text : Text → Bool
no_text [] = true
no_text (b ∷ t) = false

-- StartDeleteReaper; the jobs that the scheduler runs are `delete_tick`.
unfoldable pub start_delete_reaper : Service → Text → Crons → Result (Unit {0}) × Crons
start_delete_reaper sv schedule k =
    if no_text schedule
    then (ok tt, record k { stop = some none })
    else if sv.libraries.valid_cron schedule
    then (
      ok tt,
      record {
        running = (k.next, schedule) ∷ k.running;
        stop = some (some k.next);
        next = suc k.next;
      },
    )
    else (err invalid_schedule, k)

abbrev pub or_no_schedule : Option Text → Text
or_no_schedule none = []
or_no_schedule (some t) = t

unfoldable pub get_delete_reaper_schedule : Op Text
get_delete_reaper_schedule = pool_query (λ (db : Db). or_no_schedule db.schedule)

-- The stop function is called, and then forgotten.
abbrev pub stopped : Option (Option ℕ) → List (ℕ × Text) → List (ℕ × Text)
stopped none running = running
stopped (some none) running = running
stopped (some (some i)) running = delete (λ (c : ℕ × Text). c.0 == i) running

unfoldable pub stop_delete_reaper : Crons → Crons
stop_delete_reaper k = record k { running = stopped k.stop k.running; stop = none }

unfoldable pub persist_schedule : Text → Op (Unit {0})
persist_schedule schedule = pool_exec (plain (λ db. record db { schedule = some schedule }))

abbrev pub persisted :
    Service → Text → Crons → Result (Unit {0}) × World → Result (Unit {0}) × (World × Crons)
persisted sv schedule k (err e, w) = (err e, (w, k))
persisted sv schedule k (ok u, w) =
    let k' = stop_delete_reaper k in
    let (r, k'') = start_delete_reaper sv schedule k' in
    if no_text schedule then (ok tt, (w, k')) else (r, (w, k''))

unfoldable pub update_delete_reaper_schedule :
    Service → Text → World × Crons → Result (Unit {0}) × (World × Crons)
update_delete_reaper_schedule sv schedule (w, k) =
    let run = persisted sv schedule k (persist_schedule schedule w) in
    if no_text schedule
    then run
    else if sv.libraries.valid_cron schedule
    then run
    else (err invalid_schedule, (w, k))
