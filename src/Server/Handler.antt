-- ===== src/Server/Handler.antt =====
-- What a request to the servers does: it calls the queue service and the user store, which stand
-- beside each other in the site, and ends with a reply or with the status of an error.
use queue_ti.Base.{Bool, true, false, Option, none, some, ℕ, [], ◌∷◌}
use queue_ti.Base.Text.{Text}
use queue_ti.Base.Postgres.{Postgres}
use queue_ti.Queue.Error.{Error, Result, ok, err, database}
use queue_ti.Queue.Service.{Service}
use queue_ti.Queue.Op.{World, Op, raise}
use queue_ti.Users.Store.{Accounts, Act, Outcome, done, fails, StoreError}

pub record Site : Type 0 where
  pub queue : World
  pub accounts : Accounts

-- A reply, or the status of a refusal.
pub data Reply {ℓ} (E : Type 0) (A : Type ℓ) : Type ℓ where
  replies : A → Reply E A
  refuses : E → Reply E A

abbrev pub Handler {ℓ} : Type 0 → Type ℓ → Type ℓ
Handler E A = Site → Reply E A × Site

module _ {ℓ} {E : Type 0} {A : Type ℓ} where
  unfoldable pub answer : A → Handler E A
  answer a s = (replies a, s)

  unfoldable pub refuse : E → Handler E A
  refuse e s = (refuses e, s)

  abbrev pub queue_reply : Site → (Error → E) → Result A × World → Reply E A × Site
  queue_reply s status (ok a, w) = (replies a, record s { queue = w })
  queue_reply s status (err e, w) = (refuses (status e), record s { queue = w })

  -- A call of the queue service, with the status of each of its errors.
  unfoldable pub on_queue : (Error → E) → Op A → Handler E A
  on_queue status m s = queue_reply s status (m s.queue)

  abbrev pub store_reply : Site → (StoreError → E) → Outcome A × Accounts → Reply E A × Site
  store_reply s status (done a, t) = (replies a, record s { accounts = t })
  store_reply s status (fails e, t) = (refuses (status e), record s { accounts = t })

  -- A call of the user store.
  unfoldable pub on_store : (StoreError → E) → Act A → Handler E A
  on_store status m s = store_reply s status (m s.accounts)

module _ {ℓ κ} {E : Type 0} {A : Type ℓ} {B : Type κ} where
  abbrev pub continue : Reply E A × Site → (A → Handler E B) → Reply E B × Site
  continue (replies a, s) f = f a s
  continue (refuses e, s) f = (refuses e, s)

  infixl 10 ◌>>=◌ ◌>>◌
  unfoldable pub ◌>>=◌ : Handler E A → (A → Handler E B) → Handler E B
  ◌>>=◌ m f s = continue (m s) f

  abbrev pub ◌>>◌ : Handler E A → Handler E B → Handler E B
  m >> n = m >>= λ _. n

-- Claims of jwt.go, less what the token library checks.
pub record Claims : Type 0 where
  pub user_id : Text
  pub username : Text
  pub is_admin : Bool

-- The two servers share the service and the store; there is no store when auth is disabled.
pub record Server : Type 0 where
  pub service : Service
  pub has_store : Bool
  pub auth_enabled : Bool
  pub postgres : Postgres

-- A message id of a request: a statement with a text that is no UUID fails.
abbrev pub by_id {ℓ} : {A : Type ℓ} → Option ℕ → (ℕ → Op A) → Op A
by_id none f = raise database
by_id (some i) f = f i

abbrev pub is_empty : Text → Bool
is_empty [] = true
is_empty (b ∷ t) = false
