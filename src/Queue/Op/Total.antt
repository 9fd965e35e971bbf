-- ===== src/Queue/Op/Total.antt =====
-- What an operation returns when nothing outside it fails: the rules say that it does return.
use queue_ti.Base.{◌≡◌, refl, []}
use queue_ti.Queue.Error.{Result, ok, err}
use queue_ti.Queue.Tables.{Db}
use queue_ti.Queue.Op.{
  World, Op, Metric, observe, pure, ◌>>=◌, continue, attempt, finish, tx_query, tx_exec,
  transaction, commit,
}

-- A condition on what the transaction sees and on what is committed.
abbrev pub Dbs : Type 1
Dbs = Db → Db → Type 0

-- No fault is to come.
abbrev pub Calm : World → Type 0
Calm s = s.faults ≡ []

-- A result is returned, and no fault has appeared.
abbrev pub Succeeds {ℓ} : {A : Type ℓ} → (A → Dbs) → Result A × World → Type 0
Succeeds Q (ok a, s) = Q a s.db s.committed × Calm s
Succeeds Q (err e, s) = ⊥

pub record Total {ℓ} {A : Type ℓ} (P : Dbs) (m : Op A) (Q : A → Dbs) : Type ℓ where
  pub run : (s : World) → Calm s → P s.db s.committed → Succeeds Q (m s)

-- A statement that is not refused.
abbrev pub Accepted {ℓ} : {A : Type ℓ} → (A → Db → Type 0) → Result A × Db → Type 0
Accepted R (ok a, d) = R a d
Accepted R (err e, d) = ⊥

module _ {ℓ} {A : Type ℓ} where
  attempt-Calm : (m : Op A) (s : World) → Calm s → attempt m s ≡ m s
  unfolding attempt
  attempt-Calm m s calm = rw (calm, attempt) refl

  pub Succeeds-ok :
      (Q : A → Dbs) (r : Result A × World)
      → Succeeds Q r
      → (a : A) × (r.0 ≡ ok a) × Q a r.1.db r.1.committed
  Succeeds-ok Q (ok a, s) h = (a, refl, h.0)
  Succeeds-ok Q (err e, s) h = absurd h

  after_finish :
      (Q : A → Dbs) (s : World) (r : Result A × Db)
      → Calm s
      → Accepted (λ a d. Q a d s.committed) r
      → Succeeds Q (finish s r)
  after_finish Q s (ok a, d) calm h = (h, calm)
  after_finish Q s (err e, d) calm h = h

module _ {ℓ} {A : Type ℓ} {P : Dbs} {Q : A → Dbs} where
  pub Total-pure : (a : A) → ((d c : Db) → P d c → Q a d c) → Total P (pure a) Q
  unfolding pure
  Total-pure a k = record { run = λ s calm h. (k s.db s.committed h, calm) }

  pub Total-attempt : (m : Op A) → Total P m Q → Total P (attempt m) Q
  Total-attempt m k = record { run = λ s calm h. rw (attempt-Calm m s calm) (k.run s calm h) }

  pub Total-tx_query : (f : Db → A) → ((d c : Db) → P d c → Q (f d) d c) → Total P (tx_query f) Q
  unfolding tx_query
  Total-tx_query f k = Total-attempt _ (record { run = λ s calm h. (k s.db s.committed h, calm) })

  pub Total-tx_exec :
      (f : Db → Result A × Db)
      → ((d c : Db) → P d c → Accepted (λ a d'. Q a d' c) (f d))
      → Total P (tx_exec f) Q
  unfolding tx_exec
  Total-tx_exec f k =
      Total-attempt _
        (record { run = λ s calm h. after_finish Q s (f s.db) calm (k s.db s.committed h) })

module _ {ℓ} {A : Type ℓ} {P P' : Dbs} {Q R : A → Dbs} where
  pub Total-transaction :
      {m : Op A}
      → ((d c : Db) → P d c → P' c c)
      → ((a : A) (d c : Db) → R a d c → Q a c c)
      → Total P' m R
      → Total P (transaction m) Q
  unfolding transaction
  Total-transaction {m} start stop k = record {
    run = λ s calm h.
        let body : Op A = λ t. m (record t { db = t.committed }) in
        let begun : Total (λ d c. P' c c) body R = record {
          run = λ t calm' g. k.run (record t { db = t.committed }) calm' g;
        } in
        rolled_back (attempt body s)
          ((Total-attempt body begun).run s calm (start s.db s.committed h));
  }
    where
      rolled_back :
          (r : Result A × World)
          → Succeeds R r
          → Succeeds Q (r.0, record r.1 { db = r.1.committed })
      rolled_back (ok a, t) h = (stop a t.db t.committed h.0, h.1)
      rolled_back (err e, t) h = h

module _ {ℓ κ} {A : Type ℓ} {B : Type κ} {R : A → Dbs} {Q : B → Dbs} where
  Total-continue :
      (f : A → Op B) (r : Result A × World)
      → Succeeds R r
      → ((a : A) → Total (R a) (f a) Q)
      → Succeeds Q (continue r.0 f r.1)
  Total-continue f (ok a, t) h k = (k a).run t h.1 h.0
  Total-continue f (err e, t) h k = absurd h

  pub Total-bind :
      {P : Dbs} {m : Op A} {f : A → Op B}
      → Total P m R
      → ((a : A) → Total (R a) (f a) Q)
      → Total P (m >>= f) Q
  unfolding ◌>>=◌
  Total-bind {P} {m} {f} km kf = record {
    run = λ s calm h. Total-continue f (m s) (km.run s calm h) kf;
  }

pub Total-commit :
    {P : Dbs} {Q : Unit {0} → Dbs} → ((d c : Db) → P d c → Q tt d d) → Total P commit Q
unfolding commit
Total-commit k = Total-attempt _ (record { run = λ s calm h. (k s.db s.committed h, calm) })

pub Total-observe :
    {P : Dbs} {Q : Unit {0} → Dbs} (m : Metric)
    → ((d c : Db) → P d c → Q tt d c)
    → Total P (observe m) Q
unfolding observe
Total-observe m k = record { run = λ s calm h. (k s.db s.committed h, calm) }

-- A fact of the precondition that does not speak of the databases.
pub Total-fact {ℓ} :
    {A : Type ℓ} {P : Dbs} {F : Type 0} {m : Op A} {Q : A → Dbs}
    → (F → Total P m Q)
    → Total (λ d c. P d c × F) m Q
Total-fact k = record { run = λ s calm h. (k h.1).run s calm h.0 }
