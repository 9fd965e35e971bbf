-- ===== src/Server/Quiet.antt =====
-- Parts of a request that change no table, with what holds of their reply.
use queue_ti.Base.{◌≡◌, refl, ◌∙◌}
use queue_ti.Queue.Error.{Error, Result, ok, err}
use queue_ti.Queue.Op.{World, Op}
use queue_ti.Queue.Op.Inert.{Inert, SameDbs}
use queue_ti.Users.Store.{Accounts, Act, Outcome, done, fails, StoreError}
use queue_ti.Users.Store.Clean.{SameRows}
use queue_ti.Server.Handler.{
  Site, Reply, replies, refuses, Handler, answer, refuse, continue, ◌>>=◌, on_queue, on_store,
  queue_reply, store_reply,
}

-- The same tables of the queue and of the users.
abbrev pub SameTables : Site → Site → Type 0
SameTables s t = SameDbs s.queue t.queue × SameRows s.accounts t.accounts

pub SameTables-refl : (s : Site) → SameTables s s
SameTables-refl s = ((refl, refl), (refl, refl))

pub SameTables-trans : (s t u : Site) → SameTables s t → SameTables t u → SameTables s u
SameTables-trans s t u a b = ((b.0.0 ∙ a.0.0, b.0.1 ∙ a.0.1), (b.1.0 ∙ a.1.0, b.1.1 ∙ a.1.1))

-- Nothing has changed, and a reply satisfies the condition.
abbrev pub Quiet {ℓ} : {E : Type 0} {A : Type ℓ} → (A → Type 0) → Site → Reply E A × Site → Type 0
Quiet Q s (replies a, t) = Q a × SameTables s t
Quiet Q s (refuses e, t) = SameTables s t

-- Refused, and nothing has changed.
abbrev pub Barred {ℓ} : {E : Type 0} {A : Type ℓ} → Site → Reply E A × Site → Type 0
Barred s (replies a, t) = ⊥
Barred s (refuses e, t) = SameTables s t

-- A condition is checked and holds.
pub Quiet-answer :
    (E : Type 0) (s : Site) → Quiet {E = E} (λ (_ : Unit {0}). Unit {0}) s (answer tt s)
unfolding answer
Quiet-answer E s = (tt, SameTables-refl s)

pub Barred-refuse : {E : Type 0} (e : E) (s : Site) → Barred {A = Unit {0}} s (refuse e s)
unfolding refuse
Barred-refuse e s = SameTables-refl s

module _ {ℓ} {E : Type 0} {A : Type ℓ} where
  pub Quiet-refuse : (Q : A → Type 0) (e : E) (s : Site) → Quiet Q s (refuse e s)
  unfolding refuse
  Quiet-refuse Q e s = SameTables-refl s

  -- A call of the service that leaves the tables alone.
  pub Quiet-on_queue :
      (Q : A → Type 0) (status : Error → E) (m : Op A) (s : Site)
      → Inert m
      → ((a : A) → (m s.queue).0 ≡ ok a → Q a)
      → Quiet Q s (on_queue status m s)
  unfolding on_queue
  Quiet-on_queue Q status m s i k = from (m s.queue) (i.same s.queue) k
    where
      from :
          (r : Result A × World)
          → SameDbs s.queue r.1
          → ((a : A) → r.0 ≡ ok a → Q a)
          → Quiet Q s (queue_reply s status r)
      from (ok a, w) d k = (k a refl, (d, (refl, refl)))
      from (err e, w) d k = (d, (refl, refl))

  pub Quiet-on_store :
      (Q : A → Type 0) (status : StoreError → E) (m : Act A) (s : Site)
      → SameRows s.accounts (m s.accounts).1
      → ((a : A) → (m s.accounts).0 ≡ done a → Q a)
      → Quiet Q s (on_store status m s)
  unfolding on_store
  Quiet-on_store Q status m s d k = from (m s.accounts) d k
    where
      from :
          (r : Outcome A × Accounts)
          → SameRows s.accounts r.1
          → ((a : A) → r.0 ≡ done a → Q a)
          → Quiet Q s (store_reply s status r)
      from (done a, t) d k = (k a refl, ((refl, refl), d))
      from (fails e, t) d k = ((refl, refl), d)

  Barred-from : (s t : Site) (r : Reply E A × Site) → SameTables s t → Barred t r → Barred s r
  Barred-from s t (replies a, u) h b = b
  Barred-from s t (refuses e, u) h b = SameTables-trans s t u h b

module _ {ℓ κ} {E : Type 0} {A : Type ℓ} {B : Type κ} where
  Barred-continue :
      (Q : A → Type 0) (f : A → Handler E B) (s : Site) (r : Reply E A × Site)
      → Quiet Q s r
      → ((a : A) (t : Site) → Q a → SameTables s t → Barred t (f a t))
      → Barred s (continue r f)
  Barred-continue Q f s (replies a, t) h k = Barred-from s t (f a t) h.1 (k a t h.0 h.1)
  Barred-continue Q f s (refuses e, t) h k = h

  -- A request is barred if it is after a quiet start.
  pub Barred-bind :
      (Q : A → Type 0) (m : Handler E A) (f : A → Handler E B) (s : Site)
      → Quiet Q s (m s)
      → ((a : A) (t : Site) → Q a → SameTables s t → Barred t (f a t))
      → Barred s ((m >>= f) s)
  unfolding ◌>>=◌
  Barred-bind Q m f s h k = Barred-continue Q f s (m s) h k

  stopped :
      (f : A → Handler E B) (s : Site) (r : Reply E A × Site) → Barred s r → Barred s (continue r f)
  stopped f s (replies a, t) h = absurd h
  stopped f s (refuses e, t) h = h

  -- What follows a refusal does not run.
  pub Barred-stop :
      (m : Handler E A) (f : A → Handler E B) (s : Site) → Barred s (m s) → Barred s ((m >>= f) s)
  unfolding ◌>>=◌
  Barred-stop m f s h = stopped f s (m s) h
