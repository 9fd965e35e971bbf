-- ===== src/Server/Replied.antt =====
-- What holds of the reply of a request, if there is one.
use queue_ti.Base.{◌≡◌}
use queue_ti.Users.Store.{Accounts, Act, Outcome, done, fails, StoreError}
use queue_ti.Users.Store.Effects.{Post}
use queue_ti.Server.Handler.{
  Site, Reply, replies, refuses, Handler, continue, on_store, store_reply, ◌>>=◌,
}

abbrev pub Replied {ℓ} : {E : Type 0} {A : Type ℓ} → (A → Type 0) → Reply E A × Site → Type 0
Replied P (replies a, t) = P a
Replied P (refuses e, t) = Unit

module _ {ℓ κ} {E : Type 0} {A : Type ℓ} {B : Type κ} (Q : A → Type 0) (P : B → Type 0) where
  Replied-continue :
      (f : A → Handler E B) (r : Reply E A × Site)
      → Replied Q r
      → ((a : A) (t : Site) → Q a → Replied P (f a t))
      → Replied P (continue r f)
  Replied-continue f (replies a, t) h k = k a t h
  Replied-continue f (refuses e, t) h k = tt

  pub Replied-bind :
      (m : Handler E A) (f : A → Handler E B) (s : Site)
      → Replied Q (m s)
      → ((a : A) (t : Site) → Q a → Replied P (f a t))
      → Replied P ((m >>= f) s)
  unfolding ◌>>=◌
  Replied-bind m f s h k = Replied-continue f (m s) h k

module _ {ℓ} {E : Type 0} {A : Type ℓ} (Q : A → Type 0) where
  Replied-store_reply :
      (s : Site) (status : StoreError → E) (r : Outcome A × Accounts)
      → Post (λ a _. Q a) r
      → Replied Q (store_reply s status r)
  Replied-store_reply s status (done a, t) h = h
  Replied-store_reply s status (fails e, t) h = tt

  pub Replied-on_store :
      (status : StoreError → E) (m : Act A) (s : Site)
      → Post (λ a _. Q a) (m s.accounts)
      → Replied Q (on_store status m s)
  unfolding on_store
  Replied-on_store status m s h = Replied-store_reply s status (m s.accounts) h

-- A reply satisfies what holds of every reply.
pub replied {ℓ} :
    {E : Type 0} {A : Type ℓ} (P : A → Type 0) (r : Reply E A × Site) {a : A}
    → Replied P r
    → r.0 ≡ replies a
    → P a
replied P (replies b, t) {a} h e = let same : b ≡ a = cc in rw (← same) h
replied P (refuses x, t) h e = cc
