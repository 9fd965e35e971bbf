-- ===== src/Queue/Op/Keeps.antt =====
-- Invariants of the database under every schedule of faults, with what an operation returns: one
-- rule for each way to build an operation.
use queue_ti.Base.{◌≡◌, refl, Bool, true, false, if◌then◌else◌, inl, inr}
use queue_ti.Queue.Error.{Error, Result, ok, err}
use queue_ti.Queue.Tables.{Db}
use queue_ti.Queue.Op.{
  World, Op, Metric, pure, raise, ◌>>=◌, ◌>>◌, continue, attempt, attempt_cases, finish,
  finish_auto, tx_query, tx_exec, pool_query, pool_exec, transaction, commit, observe,
}

-- What a result is, if there is one.
abbrev pub Returns {ℓ} : {A : Type ℓ} → (A → Type 0) → Result A → Type 0
Returns Q (ok a) = Q a
Returns Q (err e) = Unit

-- The invariant of what a transaction sees and of what is committed.
abbrev pub Holds : (Db → Type 0) → World → Type 0
Holds I s = I s.db × I s.committed

-- `m` keeps `I`, whatever fails, and a value that it returns satisfies `Q`.
pub record Keeps {ℓ} {A : Type ℓ} (I : Db → Type 0) (Q : A → Type 0) (m : Op A) : Type ℓ where
  pub run : (s : World) → Holds I s → Holds I (m s).1 × Returns Q (m s).0

abbrev pub Any {ℓ} : {A : Type ℓ} → A → Type 0
Any a = Unit

-- A statement that gets through keeps the invariant and gives what `Q` says.
abbrev pub KeepsDb {ℓ} :
    {A : Type ℓ} (I : Db → Type 0) (Q : A → Type 0) → (Db → Result A × Db) → Type 0
KeepsDb I Q f = (db : Db) → I db → I (f db).1 × Returns Q (f db).0

module _ {ℓ} {A : Type ℓ} (I : Db → Type 0) (Q : A → Type 0) where
  finish-Holds :
      (s : World) (r : Result A × Db)
      → Holds I s
      → I r.1 × Returns Q r.0
      → Holds I (finish s r).1 × Returns Q (finish s r).0
  finish-Holds s (ok a, db) h k = ((k.0, h.1), k.1)
  finish-Holds s (err e, db) h k = (h, tt)

  finish_auto-Holds :
      (s : World) (r : Result A × Db)
      → Holds I s
      → I r.1 × Returns Q r.0
      → Holds I (finish_auto s r).1 × Returns Q (finish_auto s r).0
  finish_auto-Holds s (ok a, db) h k = ((k.0, k.0), k.1)
  finish_auto-Holds s (err e, db) h k = (h, tt)

module _ {ℓ} {A : Type ℓ} {I : Db → Type 0} {Q : A → Type 0} where
  pub Keeps-pure : (a : A) → Q a → Keeps I Q (pure a)
  unfolding pure
  Keeps-pure a q = record { run = λ s h. (h, q) }

  pub Keeps-raise : (e : Error) → Keeps I Q (raise {A = A} e)
  unfolding raise
  Keeps-raise e = record { run = λ s h. (h, tt) }

  pub Keeps-if :
      (b : Bool) {m n : Op A}
      → (b ≡ true → Keeps I Q m)
      → (b ≡ false → Keeps I Q n)
      → Keeps I Q (if b then m else n)
  Keeps-if true km kn = km refl
  Keeps-if false km kn = kn refl

  pub Keeps-attempt : (m : Op A) → Keeps I Q m → Keeps I Q (attempt m)
  Keeps-attempt m k = record {
    run = λ s h.
        let (fs, c) = attempt_cases m s in
        elim c [ inl e ↦ rw e (h, tt) | inr e ↦ rw e (k.run (record s { faults = fs }) h) ];
  }

  pub Keeps-tx_query : (f : Db → A) → ((db : Db) → I db → Q (f db)) → Keeps I Q (tx_query f)
  unfolding tx_query
  Keeps-tx_query f q = Keeps-attempt _ (record { run = λ s h. (h, q s.db h.0) })

  pub Keeps-pool_query : (f : Db → A) → ((db : Db) → I db → Q (f db)) → Keeps I Q (pool_query f)
  unfolding pool_query
  Keeps-pool_query f q = Keeps-attempt _ (record { run = λ s h. (h, q s.committed h.1) })

  pub Keeps-tx_exec : (f : Db → Result A × Db) → KeepsDb I Q f → Keeps I Q (tx_exec f)
  unfolding tx_exec
  Keeps-tx_exec f k =
      Keeps-attempt _ (record { run = λ s h. finish-Holds I Q s (f s.db) h (k s.db h.0) })

  pub Keeps-pool_exec : (f : Db → Result A × Db) → KeepsDb I Q f → Keeps I Q (pool_exec f)
  unfolding pool_exec
  Keeps-pool_exec f k =
      Keeps-attempt _
        (record { run = λ s h. finish_auto-Holds I Q s (f s.committed) h (k s.committed h.1) })

  pub Keeps-transaction : {m : Op A} → Keeps I Q m → Keeps I Q (transaction m)
  unfolding transaction
  Keeps-transaction {m} k = record {
    run = λ s h.
        let begun : Keeps I Q (λ t. m (record t { db = t.committed })) = record {
          run = λ t g. k.run (record t { db = t.committed }) (g.1, g.1);
        } in
        let done = (Keeps-attempt _ begun).run s h in ((done.0.1, done.0.1), done.1);
  }

module _ {ℓ κ} {A : Type ℓ} {B : Type κ} {I : Db → Type 0} {Q : A → Type 0} {R : B → Type 0} where
  Keeps-continue :
      (f : A → Op B) (r : Result A) (s : World)
      → Holds I s
      → Returns Q r
      → ((a : A) → Q a → Keeps I R (f a))
      → Holds I (continue r f s).1 × Returns R (continue r f s).0
  Keeps-continue f (ok a) s h q k = (k a q).run s h
  Keeps-continue f (err e) s h q k = (h, tt)

  pub Keeps-bind :
      {m : Op A} {f : A → Op B}
      → Keeps I Q m
      → ((a : A) → Q a → Keeps I R (f a))
      → Keeps I R (m >>= f)
  unfolding ◌>>=◌
  Keeps-bind {m} {f} km kf = record {
    run = λ s h. let k = km.run s h in Keeps-continue f (m s).0 (m s).1 k.0 k.1 kf;
  }

  pub Keeps-then : {m : Op A} {n : Op B} → Keeps I Q m → Keeps I R n → Keeps I R (m >> n)
  Keeps-then km kn = Keeps-bind km (λ a q. kn)

module _ {I : Db → Type 0} where
  pub Keeps-commit : Keeps I Any commit
  unfolding commit
  Keeps-commit = Keeps-attempt _ (record { run = λ s h. ((h.0, h.0), tt {0}) })

  pub Keeps-observe : (m : Metric) → Keeps I Any (observe m)
  unfolding observe
  Keeps-observe m = record { run = λ s h. (h, tt) }
