-- ===== src/Server/Http/Middleware.antt =====
-- middleware.go, and jwt_middleware.go of package auth.
pub mod Guards
use queue_ti.Base.{ℕ, Bool, true, false, Option, none, some, List, if◌then◌else◌}
use queue_ti.Base.Text.{Text, has_prefix}
use queue_ti.Queue.Error.{Error}
use queue_ti.Queue.Queries.{topic_for_message}
use queue_ti.Users.Permissions.{Action, Grant, write, has_grant, has_dequeue_access}
use queue_ti.Users.Store.{get_user_grants}
use queue_ti.Server.Handler.{
  Server, Claims, Handler, answer, refuse, on_queue, on_store, ◌>>=◌, ◌>>◌, by_id, is_empty,
}
use queue_ti.Server.Auth.{ParseToken, token_claims, group_allowed}
use queue_ti.Server.Http.{store_error}

-- The handler runs with the claims of the token.
abbrev pub with_token {ℓ} :
    {A : Type ℓ} → Option Claims → (Option Claims → Handler ℕ A) → Handler ℕ A
with_token none next = refuse 401
with_token (some claims) next = next (some claims)

-- jwtAuth of http.go: JWTMiddleware, or nothing when auth is disabled. An absent header is empty.
unfoldable pub jwt_middleware {ℓ} :
    {A : Type ℓ} → Server → ParseToken → Text → (Option Claims → Handler ℕ A) → Handler ℕ A
jwt_middleware sv parse header next =
    if sv.auth_enabled then with_token (token_claims parse header) next else next none

-- checkAuthAndAdmin, with the grant logic of a caller who is no administrator.
abbrev pub check_auth_and_admin {ℓ} :
    {A : Type ℓ} → Server → Option Claims → Handler ℕ A → (Claims → Handler ℕ A) → Handler ℕ A
check_auth_and_admin sv none next check = if sv.auth_enabled then refuse 401 else next
check_auth_and_admin sv (some claims) next check = if claims.is_admin then next else check claims

abbrev pub require_allowed : Bool → Handler ℕ (Unit {0})
require_allowed allowed = if allowed then answer tt else refuse 403

-- A lookup that fails in any way is 404.
abbrev pub message_not_found : Error → ℕ
message_not_found e = 404

module _ {ℓ} {A : Type ℓ} (sv : Server) (caller : Option Claims) (next : Handler ℕ A) where
  unfoldable pub require_admin : Handler ℕ A
  require_admin = check_auth_and_admin sv caller next (λ claims. refuse 403)

  unfoldable pub require_grant : Action → Text → Handler ℕ A
  require_grant action topic = check_auth_and_admin sv caller next (λ claims. do
    gs ← on_store store_error (get_user_grants sv.postgres claims.user_id)
    require_allowed (has_grant gs action topic)
    next)

  unfoldable pub require_dequeue_grant : Text → Text → Handler ℕ A
  require_dequeue_grant topic group = check_auth_and_admin sv caller next (λ claims. do
    gs ← on_store store_error (get_user_grants sv.postgres claims.user_id)
    require_allowed (has_dequeue_access gs topic)
    require_allowed (group_allowed gs topic group)
    next)

  unfoldable pub require_write_on_msg_topic : Text → Handler ℕ A
  require_write_on_msg_topic id = check_auth_and_admin sv caller next (λ claims. do
    topic ← on_queue message_not_found (by_id (sv.postgres.uuid_in id) topic_for_message)
    gs ← on_store store_error (get_user_grants sv.postgres claims.user_id)
    require_allowed (has_grant gs write topic)
    next)

  unfoldable pub require_dequeue_on_msg_topic : Text → Text → Handler ℕ A
  require_dequeue_on_msg_topic id group = check_auth_and_admin sv caller next (λ claims. do
    topic ← on_queue message_not_found (by_id (sv.postgres.uuid_in id) topic_for_message)
    gs ← on_store store_error (get_user_grants sv.postgres claims.user_id)
    require_allowed (has_dequeue_access gs topic)
    require_allowed (group_allowed gs topic group)
    next)
