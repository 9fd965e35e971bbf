-- ===== src/Server/Http/Middleware/Guards.antt =====
-- middleware.go: what a caller without the role or the grants can reach.
use queue_ti.Base.{
  ℕ, ◌≡◌, refl, Bool, true, false, not, Option, none, some, List, arith, ◌&&◌, ◌||◌,
}
use queue_ti.Base.Text.{Text}
use queue_ti.Queue.Tables.{Message}
use queue_ti.Users.Permissions.{Action, Grant, write, has_grant, has_dequeue_access}
use queue_ti.Server.Handler.{Site, Server, Claims, Handler, answer, refuse, ◌>>=◌, ◌>>◌}
use queue_ti.Server.Quiet.{SameTables-refl, Barred}
use queue_ti.Server.Grants.{grants_held, grants_held-SameRows}
use queue_ti.Server.Lookup.{row_of, lookup-Barred, held-Barred}
use queue_ti.Server.Auth.{group_allowed}
use queue_ti.Server.Http.{store_error}
use queue_ti.Server.Http.Middleware.{
  require_allowed, message_not_found, require_admin, require_grant, require_dequeue_grant,
  require_write_on_msg_topic, require_dequeue_on_msg_topic,
}

-- The middleware that http.go puts before a handler, with what it reads from the request.
pub data Guard : Type 0 where
  admin_only : Guard
  grant_on : Action → Text → Guard
  dequeue_on : Text → Text → Guard
  write_on_message : Text → Guard
  dequeue_on_message : Text → Text → Guard

unfoldable pub guarded {ℓ} :
    {A : Type ℓ} → Server → Option Claims → Guard → Handler ℕ A → Handler ℕ A
guarded sv caller admin_only next = require_admin sv caller next
guarded sv caller (grant_on action topic) next = require_grant sv caller next action topic
guarded sv caller (dequeue_on topic group) next = require_dequeue_grant sv caller next topic group
guarded sv caller (write_on_message id) next = require_write_on_msg_topic sv caller next id
guarded sv caller (dequeue_on_message id group) next =
    require_dequeue_on_msg_topic sv caller next id group

abbrev pub dequeue_allowed : List Grant → Text → Text → Bool
dequeue_allowed gs topic group = has_dequeue_access gs topic && group_allowed gs topic group

abbrev pub on_message : Option Message → (Text → Bool) → Bool
on_message none test = false
on_message (some m) test = test m.topic

-- What the grants of a user who is no administrator allow.
unfoldable pub grants_pass : Server → Site → List Grant → Guard → Bool
grants_pass sv s gs admin_only = false
grants_pass sv s gs (grant_on action topic) = has_grant gs action topic
grants_pass sv s gs (dequeue_on topic group) = dequeue_allowed gs topic group
grants_pass sv s gs (write_on_message id) =
    on_message (row_of (sv.postgres.uuid_in id) s.queue.committed) (has_grant gs write)
grants_pass sv s gs (dequeue_on_message id group) =
    on_message (row_of (sv.postgres.uuid_in id) s.queue.committed)
      (λ topic. dequeue_allowed gs topic group)

-- Without claims a caller passes when authentication is disabled; with them, as an administrator or
-- by the grants.
abbrev pub may_pass : Server → Site → Option Claims → Guard → Bool
may_pass sv s none g = not sv.auth_enabled
may_pass sv s (some claims) g =
    claims.is_admin || grants_pass sv s (grants_held sv.postgres claims.user_id s.accounts) g

module _ {ℓ} {A : Type ℓ} (sv : Server) (next : Handler ℕ A) where
  allowed-Barred :
      (b : Bool) (n : Handler ℕ A) (t : Site)
      → (b ≡ true → Barred t (n t))
      → Barred t ((require_allowed b >> n) t)
  unfolding ◌>>=◌ answer refuse
  allowed-Barred true n t k = k refl
  allowed-Barred false n t k = SameTables-refl t

  -- A test that fails in the end.
  denied-Barred : (b : Bool) (t : Site) → b ≡ false → Barred t ((require_allowed b >> next) t)
  denied-Barred b t e = allowed-Barred b next t (λ t'. cc)

  both-Barred :
      (a b : Bool) (t : Site)
      → (a && b) ≡ false
      → Barred t ((require_allowed a >> (require_allowed b >> next)) t)
  both-Barred a b t e = allowed-Barred a _ t (λ t'. denied-Barred b t (ground arith))

  module _ (claims : Claims) (plain : claims.is_admin ≡ false) where
    grants-Barred :
        (g : Guard) (s : Site)
        → grants_pass sv s (grants_held sv.postgres claims.user_id s.accounts) g ≡ false
        → Barred s (guarded sv (some claims) g next s)
    unfolding guarded grants_pass require_admin require_grant require_dequeue_grant
        require_write_on_msg_topic require_dequeue_on_msg_topic refuse
    grants-Barred admin_only s e = rw plain (SameTables-refl s)
    grants-Barred (grant_on action topic) s e =
        rw plain
          (held-Barred store_error sv.postgres claims.user_id _ s (λ t same. denied-Barred _ t e))
    grants-Barred (dequeue_on topic group) s e =
        rw plain
          (held-Barred store_error sv.postgres claims.user_id _ s (λ t same. both-Barred _ _ t e))
    grants-Barred (write_on_message id) s e = rw plain (
        lookup-Barred message_not_found (sv.postgres.uuid_in id) _ s (λ m t row same.
          held-Barred store_error sv.postgres claims.user_id _ t (λ u same'. denied-Barred _ u (
            rw (grants_held-SameRows sv.postgres claims.user_id s.accounts t.accounts same.1)
              (rw row at e)))))
    grants-Barred (dequeue_on_message id group) s e = rw plain (
        lookup-Barred message_not_found (sv.postgres.uuid_in id) _ s (λ m t row same.
          held-Barred store_error sv.postgres claims.user_id _ t (λ u same'. both-Barred _ _ u (
            rw (grants_held-SameRows sv.postgres claims.user_id s.accounts t.accounts same.1)
              (rw row at e)))))

  anonymous-Barred :
      (g : Guard) (s : Site) → sv.auth_enabled ≡ true → Barred s (guarded sv none g next s)
  unfolding guarded require_admin require_grant require_dequeue_grant require_write_on_msg_topic
      require_dequeue_on_msg_topic refuse
  anonymous-Barred admin_only s on = rw on (SameTables-refl s)
  anonymous-Barred (grant_on action topic) s on = rw on (SameTables-refl s)
  anonymous-Barred (dequeue_on topic group) s on = rw on (SameTables-refl s)
  anonymous-Barred (write_on_message id) s on = rw on (SameTables-refl s)
  anonymous-Barred (dequeue_on_message id group) s on = rw on (SameTables-refl s)

  -- Whatever handler stands behind it, the middleware refuses a caller who may not pass: without
  -- claims when authentication is enabled, or with claims that are neither an administrator's nor
  -- come with the grants for what the middleware reads from the request. No table of the queue or of
  -- the users changes, whatever the faults.
  pub guarded-Barred :
      (caller : Option Claims) (g : Guard) (s : Site)
      → may_pass sv s caller g ≡ false
      → Barred s (guarded sv caller g next s)
  guarded-Barred none g s e = anonymous-Barred g s (ground arith)
  guarded-Barred (some claims) g s e = grants-Barred claims (ground arith) g s (ground arith)
