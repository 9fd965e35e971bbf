-- ===== src/Queue/Op/Triple.antt =====
-- What holds after an operation that returns, under every schedule of faults. A condition speaks of
-- what the open transaction sees, of what is committed, and of the configurations that the process
-- has cached.
use queue_ti.Base.{
  ◌≡◌, refl, sym, subst, ℕ, Bool, true, false, if◌then◌else◌, inl, inr, ◌⊎◌, List, [], ◌∷◌, Option,
}
use queue_ti.Queue.Error.{Error, Result, ok, err, database}
use queue_ti.Base.Text.{Text}
use queue_ti.Queue.Tables.{Db, TopicConfig}
use queue_ti.Queue.Op.{
  World, Op, Metric, observe, pure, raise, ◌>>=◌, continue, attempt, next_fault, finish,
  finish_auto, tx_query, tx_exec, pool_query, pool_exec, transaction, commit,
}
use queue_ti.Queue.Op.Inert.{Inert}

-- No fault is to come.
unfoldable pub is_calm : List Bool → Bool
is_calm [] = true
is_calm (true ∷ fs) = false
is_calm (false ∷ fs) = is_calm fs

-- The caches of configurations, in the process and in redis, and whether nothing fails.
pub record Local : Type 0 where
  pub configs : List (Text × Option TopicConfig)
  pub redis : List (Text × (Text × ℕ))
  pub calm : Bool

abbrev pub local_of : World → Local
local_of s = record { configs = s.configs; redis = s.redis; calm = is_calm s.faults }

abbrev pub Cond : Type 1
Cond = Db → Db → Local → Type 0

-- The result, if there is one, and the databases that are left.
abbrev pub IfOk {ℓ} : {A : Type ℓ} → (A → Cond) → Result A × World → Type 0
IfOk Q (ok a, s) = Q a s.db s.committed (local_of s)
IfOk Q (err e, s) = Unit

-- An attempt fails, or it is the operation itself and the fault that it takes was none.
attempt-is_calm {ℓ} :
    {A : Type ℓ} (m : Op A) (s : World)
    → (fs : List Bool) × ((attempt m s ≡ (err database, record s { faults = fs }))
        ⊎ ((attempt m s ≡ m (record s { faults = fs })) × (is_calm fs ≡ is_calm s.faults)))
unfolding attempt next_fault is_calm
attempt-is_calm {A} m s = split s.faults refl
  where
    split :
        (gs : List Bool)
        → s.faults ≡ gs
        → (fs : List Bool) × ((attempt m s ≡ (err database, record s { faults = fs }))
            ⊎ ((attempt m s ≡ m (record s { faults = fs })) × (is_calm fs ≡ is_calm s.faults)))
    split [] e = ([], inr (rw (e, attempt) refl, rw e refl))
    split (true ∷ gs) e = (gs, inl (rw (e, attempt) refl))
    split (false ∷ gs) e = (gs, inr (rw (e, attempt) refl, rw e refl))

pub record Triple {ℓ} {A : Type ℓ} (P : Cond) (m : Op A) (Q : A → Cond) : Type ℓ where
  pub run : (s : World) → P s.db s.committed (local_of s) → IfOk Q (m s)

module _ {ℓ} {A : Type ℓ} where
  -- A triple about a run that returned.
  pub ok-IfOk :
      (Q : A → Cond) (r : Result A × World) {a : A}
      → IfOk Q r
      → r.0 ≡ ok a
      → Q a r.1.db r.1.committed (local_of r.1)
  ok-IfOk Q (ok b, s) {a} h e = let same : b ≡ a = cc in rw (← same) h
  ok-IfOk Q (err x, s) h e = cc

-- A statement: what holds of its result and of the table that it leaves.
abbrev pub AfterDb {ℓ} : {A : Type ℓ} → (A → Db → Type 0) → Result A × Db → Type 0
AfterDb R (ok a, d) = R a d
AfterDb R (err e, d) = Unit

module _ {ℓ} {A : Type ℓ} (Q : A → Cond) where
  after_finish :
      (s : World) (r : Result A × Db)
      → AfterDb (λ a d. Q a d s.committed (local_of s)) r
      → IfOk Q (finish s r)
  after_finish s (ok a, d) h = h
  after_finish s (err e, d) h = tt

  after_finish_auto :
      (s : World) (r : Result A × Db)
      → AfterDb (λ a d. Q a d d (local_of s)) r
      → IfOk Q (finish_auto s r)
  after_finish_auto s (ok a, d) h = h
  after_finish_auto s (err e, d) h = tt

module _ {ℓ} {A : Type ℓ} {P : Cond} {Q : A → Cond} where
  pub Triple-pure : (a : A) → ((d c : Db) (l : Local) → P d c l → Q a d c l) → Triple P (pure a) Q
  unfolding pure
  Triple-pure a k = record { run = λ s h. k s.db s.committed (local_of s) h }

  pub Triple-raise : (e : Error) → Triple P (raise {A = A} e) Q
  unfolding raise
  Triple-raise e = record { run = λ s h. tt }

  pub Triple-if :
      (b : Bool) {m n : Op A}
      → (b ≡ true → Triple P m Q)
      → (b ≡ false → Triple P n Q)
      → Triple P (if b then m else n) Q
  Triple-if true km kn = km refl
  Triple-if false km kn = kn refl

  Triple-attempt : (m : Op A) → Triple P m Q → Triple P (attempt m) Q
  Triple-attempt m k = record {
    run = λ s h.
        let (fs, c) = attempt-is_calm m s in
        elim c [
          | inl e ↦ rw e tt
          | inr (e, same) ↦ rw e (
              k.run (record s { faults = fs })
                (subst (λ b. P s.db s.committed (record (local_of s) { calm = b })) (sym same) h))
        ];
  }

  pub Triple-tx_query :
      (f : Db → A) → ((d c : Db) (l : Local) → P d c l → Q (f d) d c l) → Triple P (tx_query f) Q
  unfolding tx_query
  Triple-tx_query f k = Triple-attempt _ (record { run = λ s h. k s.db s.committed (local_of s) h })

  pub Triple-pool_query :
      (f : Db → A) → ((d c : Db) (l : Local) → P d c l → Q (f c) d c l) → Triple P (pool_query f) Q
  unfolding pool_query
  Triple-pool_query f k =
      Triple-attempt _ (record { run = λ s h. k s.db s.committed (local_of s) h })

  pub Triple-tx_exec :
      (f : Db → Result A × Db)
      → ((d c : Db) (l : Local) → P d c l → AfterDb (λ a d'. Q a d' c l) (f d))
      → Triple P (tx_exec f) Q
  unfolding tx_exec
  Triple-tx_exec f k =
      Triple-attempt _
        (record { run = λ s h. after_finish Q s (f s.db) (k s.db s.committed (local_of s) h) })

  pub Triple-pool_exec :
      (f : Db → Result A × Db)
      → ((d c : Db) (l : Local) → P d c l → AfterDb (λ a d'. Q a d' d' l) (f c))
      → Triple P (pool_exec f) Q
  unfolding pool_exec
  Triple-pool_exec f k = Triple-attempt _ (record {
    run = λ s h. after_finish_auto Q s (f s.committed) (k s.db s.committed (local_of s) h);
  })

  pub Triple-Inert :
      {m : Op A}
      → Inert m
      → ((a : A) (d c : Db) (l l' : Local) → P d c l → Q a d c l')
      → Triple P m Q
  Triple-Inert {m} i k = record {
    run = λ s h. let (d, c) = i.same s in settle (local_of s) (m s) (rw d (rw c h));
  }
    where
      settle : (l : Local) (r : Result A × World) → P r.1.db r.1.committed l → IfOk Q r
      settle l (ok a, t) h = k a t.db t.committed l (local_of t) h
      settle l (err e, t) h = tt

module _ {ℓ} {A : Type ℓ} {P P' : Cond} {Q R : A → Cond} where
  -- Begin, the body, and a rollback that undoes what was not committed.
  pub Triple-transaction :
      {m : Op A}
      → ((d c : Db) (l : Local) → P d c l → P' c c l)
      → ((a : A) (d c : Db) (l : Local) → R a d c l → Q a c c l)
      → Triple P' m R
      → Triple P (transaction m) Q
  unfolding transaction
  Triple-transaction {m} start stop k = record {
    run = λ s h.
        let body : Op A = λ t. m (record t { db = t.committed }) in
        let begun : Triple (λ d c l. P' c c l) body R = record {
          run = λ t g. k.run (record t { db = t.committed }) g;
        } in
        rolled_back (attempt body s)
          ((Triple-attempt body begun).run s (start s.db s.committed (local_of s) h));
  }
    where
      rolled_back :
          (r : Result A × World) → IfOk R r → IfOk Q (r.0, record r.1 { db = r.1.committed })
      rolled_back (ok a, t) h = stop a t.db t.committed (local_of t) h
      rolled_back (err e, t) h = tt

module _ {ℓ κ} {A : Type ℓ} {B : Type κ} {R : A → Cond} {Q : B → Cond} where
  Triple-continue :
      (f : A → Op B) (r : Result A × World)
      → IfOk R r
      → ((a : A) → Triple (R a) (f a) Q)
      → IfOk Q (continue r.0 f r.1)
  Triple-continue f (ok a, t) h k = (k a).run t h
  Triple-continue f (err e, t) h k = tt

  pub Triple-bind :
      {P : Cond} {m : Op A} {f : A → Op B}
      → Triple P m R
      → ((a : A) → Triple (R a) (f a) Q)
      → Triple P (m >>= f) Q
  unfolding ◌>>=◌
  Triple-bind {P} {m} {f} km kf = record { run = λ s h. Triple-continue f (m s) (km.run s h) kf }

pub Triple-commit :
    {P : Cond} {Q : Unit {0} → Cond}
    → ((d c : Db) (l : Local) → P d c l → Q tt d d l)
    → Triple P commit Q
unfolding commit
Triple-commit k = Triple-attempt _ (record { run = λ s h. k s.db s.committed (local_of s) h })

pub Triple-observe :
    {P : Cond} {Q : Unit {0} → Cond} (m : Metric)
    → ((d c : Db) (l : Local) → P d c l → Q tt d c l)
    → Triple P (observe m) Q
unfolding observe
Triple-observe m k = record { run = λ s h. k s.db s.committed (local_of s) h }

-- A fact of the precondition that does not speak of the databases.
pub Triple-fact {ℓ} :
    {A : Type ℓ} {P : Cond} {F : Type 0} {m : Op A} {Q : A → Cond}
    → (F → Triple P m Q)
    → Triple (λ d c l. P d c l × F) m Q
Triple-fact k = record { run = λ s h. (k h.1).run s h.0 }

-- A weaker condition afterwards.
pub Triple-weaken {ℓ} :
    {A : Type ℓ} {P : Cond} {m : Op A} {Q R : A → Cond}
    → ((a : A) (d c : Db) (l : Local) → Q a d c l → R a d c l)
    → Triple P m Q
    → Triple P m R
Triple-weaken {m} {Q} {R} f k = record { run = λ s h. weaken (m s) (k.run s h) }
  where
    weaken : (r : Result _ × World) → IfOk Q r → IfOk R r
    weaken (ok a, t) h = f a t.db t.committed (local_of t) h
    weaken (err e, t) h = tt

-- A stronger condition beforehand.
pub Triple-from {ℓ} :
    {A : Type ℓ} {P P' : Cond} {m : Op A} {Q : A → Cond}
    → ((d c : Db) (l : Local) → P d c l → P' d c l)
    → Triple P' m Q
    → Triple P m Q
Triple-from f k = record { run = λ s h. k.run s (f s.db s.committed (local_of s) h) }
