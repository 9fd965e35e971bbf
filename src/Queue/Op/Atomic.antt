-- ===== src/Queue/Op/Atomic.antt =====
-- Operations that return an error only if nothing was committed.
use queue_ti.Base.{◌≡◌, refl, ◌∙◌, Bool, true, false, if◌then◌else◌, inl, inr}
use queue_ti.Queue.Error.{Error, Result, ok, err}
use queue_ti.Queue.Tables.{Db}
use queue_ti.Queue.Op.{
  World, Op, Metric, raise, ◌>>=◌, ◌>>◌, continue, attempt, attempt_cases, finish, tx_query,
  tx_exec, transaction, commit, observe,
}
use queue_ti.Queue.Op.Inert.{Inert}

-- What is committed is the same, whatever is returned.
abbrev pub Uncommitted {ℓ} : {A : Type ℓ} → Op A → Type 0
Uncommitted m = (s : World) → (m s).1.committed ≡ s.committed

-- With an error, what is committed is the same.
abbrev pub Kept {ℓ} : {A : Type ℓ} → World → Result A × World → Type 0
Kept s (ok a, t) = Unit
Kept s (err e, t) = t.committed ≡ s.committed

abbrev pub Atomic {ℓ} : {A : Type ℓ} → Op A → Type 0
Atomic m = (s : World) → Kept s (m s)

pub Atomic-raise : (e : Error) → Atomic {A = Unit {0}} (raise e)
unfolding raise
Atomic-raise e s = refl

module _ {ℓ} {A : Type ℓ} where
  Kept-from : (s t : World) (r : Result A × World) → t.committed ≡ s.committed → Kept t r → Kept s r
  Kept-from s t (ok a, u) h k = tt
  Kept-from s t (err e, u) h k = k ∙ h

  pub Uncommitted-Inert : (m : Op A) → Inert m → Uncommitted m
  Uncommitted-Inert m i s = (i.same s).1

  pub Uncommitted-attempt : (m : Op A) → Uncommitted m → Uncommitted (attempt m)
  Uncommitted-attempt m k s =
      let (fs, c) = attempt_cases m s in
      elim c [ inl e ↦ rw e refl | inr e ↦ rw e (k (record s { faults = fs })) ]

  finish-same : (s : World) (r : Result A × Db) → (finish s r).1.committed ≡ s.committed
  finish-same s (ok a, d) = refl
  finish-same s (err e, d) = refl

  pub Uncommitted-tx_query : (f : Db → A) → Uncommitted (tx_query f)
  unfolding tx_query
  Uncommitted-tx_query f = Uncommitted-attempt _ (λ s. refl)

  pub Uncommitted-tx_exec : (f : Db → Result A × Db) → Uncommitted (tx_exec f)
  unfolding tx_exec
  Uncommitted-tx_exec f = Uncommitted-attempt _ (λ s. finish-same s (f s.db))

  Atomic-attempt : (m : Op A) → Atomic m → Atomic (attempt m)
  Atomic-attempt m k s =
      let (fs, c) = attempt_cases m s in
      elim c [ inl e ↦ rw e refl | inr e ↦ rw e (k (record s { faults = fs })) ]

  rolled_back-Kept :
      (s : World) (r : Result A × World)
      → Kept s r
      → Kept s (r.0, record r.1 { db = r.1.committed })
  rolled_back-Kept s (ok a, t) h = tt
  rolled_back-Kept s (err e, t) h = h

  pub Atomic-transaction : (m : Op A) → Atomic m → Atomic (transaction m)
  unfolding transaction
  Atomic-transaction m k s = rolled_back-Kept s _ (
      Atomic-attempt (λ t. m (record t { db = t.committed }))
        (λ t. k (record t { db = t.committed })) s)

  pub Atomic-if : (b : Bool) (m n : Op A) → Atomic m → Atomic n → Atomic (if b then m else n)
  Atomic-if true m n h k = h
  Atomic-if false m n h k = k

module _ {ℓ κ} {A : Type ℓ} {B : Type κ} where
  Kept-continue :
      (f : A → Op B) (s : World) (r : Result A × World)
      → r.1.committed ≡ s.committed
      → ((a : A) → Atomic (f a))
      → Kept s (continue r.0 f r.1)
  Kept-continue f s (ok a, t) h k = Kept-from s t (f a t) h (k a t)
  Kept-continue f s (err e, t) h k = h

  -- Nothing is committed before what is atomic.
  pub Atomic-bind :
      (m : Op A) (f : A → Op B) → Uncommitted m → ((a : A) → Atomic (f a)) → Atomic (m >>= f)
  unfolding ◌>>=◌
  Atomic-bind m f h k s = Kept-continue f s (m s) (h s) k

  same_continue :
      (f : A → Op B) (s : World) (r : Result A × World)
      → r.1.committed ≡ s.committed
      → ((a : A) → Uncommitted (f a))
      → (continue r.0 f r.1).1.committed ≡ s.committed
  same_continue f s (ok a, t) h k = k a t ∙ h
  same_continue f s (err e, t) h k = h

  pub Uncommitted-bind :
      (m : Op A) (f : A → Op B)
      → Uncommitted m
      → ((a : A) → Uncommitted (f a))
      → Uncommitted (m >>= f)
  unfolding ◌>>=◌
  Uncommitted-bind m f h k s = same_continue f s (m s) (h s) k

finish-Kept :
    (metric : Metric) (s : World) (r : Result (Unit {0}) × World)
    → Kept s r
    → Kept s (continue r.0 (λ _. observe metric) r.1)
unfolding observe
finish-Kept metric s (ok u, t) h = tt
finish-Kept metric s (err e, t) h = h

-- A commit and the metric behind it, which cannot fail.
pub Atomic-finish : (metric : Metric) → Atomic (commit >> observe metric)
unfolding commit ◌>>=◌
Atomic-finish metric s =
    finish-Kept metric s (commit s)
      (Atomic-attempt (λ t. (ok tt, record t { committed = t.db })) (λ t. tt) s)
