-- ===== src/Queue/Scheduler/Single.antt =====
-- reaper.go: one scheduler at most runs, with the schedule that is stored.
use queue_ti.Base.{
  ℕ, suc, ◌≡◌, refl, true, false, Option, none, some, [], ◌∷◌, ==_refl, if◌then◌else◌, Bool-cases,
  inl, inr, ◌⊎◌,
}
use queue_ti.Base.Text.{Text}
use queue_ti.Base.Table.{delete}
use queue_ti.Queue.Error.{Result, ok, err}
use queue_ti.Queue.Service.{Service}
use queue_ti.Queue.Op.{World, plain, pool_exec, attempt_cases, finish_auto}
use queue_ti.Queue.Scheduler.{
  Crons, no_text, start_delete_reaper, stop_delete_reaper, persist_schedule, persisted,
  update_delete_reaper_schedule,
}

-- Nothing runs, or the one scheduler that the stop function stops.
pub data Single : Crons → Type 0 where
  idle :
      (stop : Option (Option ℕ)) (next : ℕ)
      → Single (record { running = []; stop = stop; next = next })
  one :
      (i next : ℕ) (schedule : Text)
      → Single (record { running = (i, schedule) ∷ []; stop = some (some i); next = next })

-- The schedulers for a schedule: none for an empty one.
abbrev pub Runs : Text → Crons → Type 0
Runs schedule k = (i : ℕ) × (k.running ≡ (if no_text schedule then [] else (i, schedule) ∷ []))

stop-empty : (k : Crons) → Single k → (stop_delete_reaper k).running ≡ []
unfolding stop_delete_reaper delete
stop-empty _ (idle none next) = refl
stop-empty _ (idle (some none) next) = refl
stop-empty _ (idle (some (some i)) next) = refl
stop-empty _ (one i next schedule) = rw (==_refl i) refl

-- After an update: the schedule is stored and is the one that runs; or there was an error, and the
-- schedulers and the tables are the ones before.
abbrev pub Updated : Text → World × Crons → Result (Unit {0}) × (World × Crons) → Type 0
Updated schedule (w, k) (ok u, (w', k')) =
    (w'.committed.schedule ≡ some schedule) × (Runs schedule k' × Single k')
Updated schedule (w, k) (err e, (w', k')) = (k' ≡ k) × (w'.committed ≡ w.committed)

-- The statement has stored the schedule, or changed nothing.
abbrev Stored : Text → World → Result (Unit {0}) × World → Type 0
Stored schedule w (ok u, w') = w'.committed.schedule ≡ some schedule
Stored schedule w (err e, w') = w'.committed ≡ w.committed

persist_schedule-Stored :
    (schedule : Text) (w : World) → Stored schedule w (persist_schedule schedule w)
unfolding persist_schedule pool_exec
persist_schedule-Stored schedule w =
    let (fs, c) =
      attempt_cases
        (λ s. finish_auto s (plain (λ db. record db { schedule = some schedule }) s.committed)) w in
    elim c [ inl e ↦ rw e refl | inr e ↦ rw e refl ]

module _ (sv : Service) (schedule : Text) (w : World) (k : Crons) (single : Single k) where
  stopped-Updated :
      (w' : World)
      → w'.committed.schedule ≡ some schedule
      → no_text schedule ≡ true
      → Updated schedule (w, k) (ok tt, (w', stop_delete_reaper k))
  unfolding stop_delete_reaper
  stopped-Updated w' e empty =
      let none_left = stop-empty k single in
      (e, ((0, rw empty none_left), rw none_left (idle none k.next)))

  persisted-Updated :
      (r : Result (Unit {0}) × World)
      → Stored schedule w r
      → (no_text schedule ≡ true) ⊎ (sv.libraries.valid_cron schedule ≡ true)
      → Updated schedule (w, k) (persisted sv schedule k r)
  unfolding start_delete_reaper stop_delete_reaper
  persisted-Updated (err e, w') h v = (refl, h)
  persisted-Updated (ok u, w') h v = elim (Bool-cases (no_text schedule)) [
    | inl empty ↦ rw empty (stopped-Updated w' h empty)
    | inr named ↦ elim v [
      | inl empty ↦ absurd cc
      | inr valid ↦ rw (named, valid) (started_one w' h named)
    ]
  ]
    where
      started_one :
          (w' : World)
          → w'.committed.schedule ≡ some schedule
          → no_text schedule ≡ false
          → Updated schedule
              (w, k)
              (
                ok tt,
                (
                  w',
                  record {
                    running = (k.next, schedule) ∷ (stop_delete_reaper k).running;
                    stop = some (some k.next);
                    next = suc k.next;
                  },
                ),
              )
      started_one w' e named =
          let none_left = stop-empty k single in
          (
            e,
            ((k.next, rw (named, none_left) refl), rw none_left (one k.next (suc k.next) schedule)),
          )

  -- From at most one scheduler that runs, an update of the schedule that returns no error has stored
  -- it, and the one scheduler that runs has it, or none runs if it is empty; one that returns an
  -- error has changed neither the schedulers nor the tables.
  pub update_delete_reaper_schedule-Updated :
      Updated schedule (w, k) (update_delete_reaper_schedule sv schedule (w, k))
  unfolding update_delete_reaper_schedule
  update_delete_reaper_schedule-Updated =
      let stored = persist_schedule-Stored schedule w in
      elim (Bool-cases (no_text schedule)) [
        | inl empty ↦ rw empty (persisted-Updated _ stored (inl empty))
        | inr named ↦ elim (Bool-cases (sv.libraries.valid_cron schedule)) [
          | inl valid ↦ rw (named, valid) (persisted-Updated _ stored (inr valid))
          | inr invalid ↦ rw (named, invalid) (refl, refl)
        ]
      ]
