-- ===== src/Queue/Op.antt =====
-- What a method of Service does: statements against PostgreSQL inside and outside a transaction,
-- the caches, the metrics and the broadcasts. Any statement, commit or cache call may fail; a
-- schedule of faults says which do. A method that returns an error keeps what it did before.
pub mod Atomic
pub mod Total
pub mod Keeps
pub mod Inert
pub mod Triple
use queue_ti.Base.{
  ℕ, Bool, true, false, Option, none, some, List, [], ◌∷◌, ltb, if◌then◌else◌, ◌≡◌, refl, ◌⊎◌, inl,
  inr, ap, Bool-cases,
}
use queue_ti.Base.Text.{Text}
use queue_ti.Base.Map
use queue_ti.Queue.Error.{Error, Result, ok, err, database}
use queue_ti.Queue.Tables.{Db, TopicConfig}
use queue_ti.Queue.Service.{Service, Call}
use queue_ti.Queue.Avro.{Schema}

-- MetricsRecorder of recorder.go: one constructor for each method.
pub data NackOutcome : Type 0 where
  retry exhausted dlq : NackOutcome

pub data Metric : Type 0 where
  enqueued dequeued acked requeued : Text → Metric
  nacked : Text → NackOutcome → Metric
  expired_rows deleted_rows : ℕ → Metric
  replayed : Text → ℕ → Metric

pub data Channel : Type 0 where
  schema_changed config_changed : Channel

-- cachedSchema: a parsed schema and the version of the row that it was parsed from.
pub record CachedSchema : Type 0 where
  pub schema : Schema
  pub version : ℕ

-- `db` is what the open transaction sees; `committed` is what every other connection sees.
-- A redis entry is its value and the time until which it is kept.
pub record World : Type 0 where
  pub db : Db
  pub committed : Db
  pub faults : List Bool
  pub configs : List (Text × Option TopicConfig)
  pub compiled : List (Text × CachedSchema)
  pub redis : List (Text × (Text × ℕ))
  pub metrics : List Metric
  pub published : List (Channel × Text)

abbrev pub Op {ℓ} : Type ℓ → Type ℓ
Op A = World → Result A × World

module _ {ℓ} {A : Type ℓ} where
  unfoldable pub pure : A → Op A
  pure a s = (ok a, s)

  unfoldable pub raise : Error → Op A
  raise e s = (err e, s)

module _ {ℓ κ} {A : Type ℓ} {B : Type κ} where
  abbrev pub continue : Result A → (A → Op B) → Op B
  continue (ok a) f s = f a s
  continue (err e) f s = (err e, s)

  infixl 10 ◌>>=◌ ◌>>◌
  unfoldable pub ◌>>=◌ : Op A → (A → Op B) → Op B
  unfolding pure raise
  ◌>>=◌ m f s = let (r, s') = m s in continue r f s'

  abbrev pub ◌>>◌ : Op A → Op B → Op B
  m >> n = m >>= λ _. n

-- The next event of the schedule; past its end nothing fails.
unfoldable pub next_fault : World → Bool × World
next_fault s = elim s.faults [ [] ↦ (false, s) | f ∷ fs ↦ (f, record s { faults = fs }) ]

-- A step outside the process that may fail before it does anything.
module _ {ℓ} {A : Type ℓ} where
  unfoldable pub attempt : Op A → Op A
  unfolding next_fault
  attempt m s = let (f, s') = next_fault s in if f then (err database, s') else m s'

  abbrev pub finish : World → Result A × Db → Result A × World
  finish s (ok a, db) = (ok a, record s { db = db })
  finish s (err e, db) = (err e, s)

  abbrev pub finish_auto : World → Result A × Db → Result A × World
  finish_auto s (ok a, db) = (ok a, record s { db = db; committed = db })
  finish_auto s (err e, db) = (err e, s)

  -- tx.Query, tx.QueryRow
  unfoldable pub tx_query : (Db → A) → Op A
  tx_query f = attempt (λ s. (ok (f s.db), s))

  -- tx.Exec; a statement that fails changes nothing.
  unfoldable pub tx_exec : (Db → Result A × Db) → Op A
  tx_exec f = attempt (λ s. finish s (f s.db))

  -- pool.Query, pool.QueryRow: another connection, which sees what is committed.
  unfoldable pub pool_query : (Db → A) → Op A
  pool_query f = attempt (λ s. (ok (f s.committed), s))

  -- pool.Exec commits by itself.
  unfoldable pub pool_exec : (Db → Result A × Db) → Op A
  pool_exec f = attempt (λ s. finish_auto s (f s.committed))

  -- pool.Begin, and the deferred tx.Rollback, which does nothing after a commit.
  unfoldable pub transaction : Op A → Op A
  transaction m s =
      let (r, s') = attempt (λ t. m (record t { db = t.committed })) s in
      (r, record s' { db = s'.committed })

pub next_fault_lem :
    (s : World) → (f : Bool) × (fs : List Bool) × (next_fault s ≡ (f, record s { faults = fs }))
unfolding next_fault
next_fault_lem s = split s.faults refl
  where
    split :
        (fs : List Bool)
        → s.faults ≡ fs
        → (f : Bool) × (gs : List Bool) × (next_fault s ≡ (f, record s { faults = gs }))
    split [] e = (
      false,
      [],
      rw (e, next_fault) (ap (λ (gs : List Bool). (false, record s { faults = gs })) e),
    )
    split (f ∷ fs) e = (f, fs, rw (e, next_fault) refl)

-- An attempt fails with nothing done, or is the operation itself; it takes an event of the schedule.
pub attempt_cases {ℓ} :
    {A : Type ℓ} (m : Op A) (s : World)
    → (fs : List Bool) × ((attempt m s ≡ (err database, record s { faults = fs }))
        ⊎ (attempt m s ≡ m (record s { faults = fs })))
unfolding attempt
attempt_cases m s =
    let (f, fs, e) = next_fault_lem s in
    elim (Bool-cases f) [
      | inl t ↦ (fs, inl (rw (e, t, attempt) refl))
      | inr t ↦ (fs, inr (rw (e, t, attempt) refl))
    ]

-- tx.Commit; one that fails leaves what was committed.
unfoldable pub commit : Op (Unit {0})
commit = attempt (λ s. (ok tt, record s { committed = s.db }))

-- A statement that no constraint can refuse.
abbrev pub always {ℓ} : {A : Type ℓ} → (Db → A × Db) → Db → Result A × Db
always f db = let (a, db') = f db in (ok a, db')

-- A statement that no constraint can refuse and that returns nothing.
abbrev pub plain : (Db → Db) → Db → Result (Unit {0}) × Db
plain f db = (ok tt, f db)

unfoldable pub observe : Metric → Op (Unit {0})
observe m s = (ok tt, record s { metrics = m ∷ s.metrics })

-- broadcaster.Publish: its error is only logged.
unfoldable pub publish : Channel → Text → Op (Unit {0})
unfolding next_fault
publish c t s =
    let (f, s') = next_fault s in
    (ok tt, if f then s' else record s' { published = (c, t) ∷ s'.published })

-- cache.Get: `none` for an error, for a miss, and for an entry whose time is over.
unfoldable pub cache_get : Service → Call → Text → Op (Option Text)
unfolding next_fault
cache_get sv c k s =
    let (f, s') = next_fault s in
    let found : Option Text = elim (Map.lookup k s'.redis) [
      | none ↦ none
      | some (raw, until) ↦ if ltb c.wall until then some raw else none
    ] in
    (ok (if sv.redis then (if f then none else found) else none), s')

-- cache.Set, whose error is dropped.
unfoldable pub cache_set : Service → Call → Text → Text → ℕ → Op (Unit {0})
unfolding next_fault
cache_set sv c k raw until s =
    let (f, s') = next_fault s in
    let after = record s' { redis = Map.store k (raw, until) s'.redis } in
    (ok tt, if sv.redis then (if f then s' else after) else s')

-- cache.Delete, whose error is dropped.
unfoldable pub cache_delete : Service → Text → Op (Unit {0})
unfolding next_fault
cache_delete sv k s =
    let (f, s') = next_fault s in
    let after = record s' { redis = Map.remove k s'.redis } in
    (ok tt, if sv.redis then (if f then s' else after) else s')
