-- ===== src/Server/Http/Login.antt =====
-- handlers_auth.go: tokens for users, after a password or a token that is still good.
pub mod Issues
use queue_ti.Base.{ℕ, Bool, true, false, not, Option, none, some, ◌||◌, if◌then◌else◌}
use queue_ti.Base.Text.{Text}
use queue_ti.Users.Store.{User, StoreError, user_not_found, get_by_username, get_by_id}
use queue_ti.Server.Handler.{
  Server, Claims, Handler, answer, refuse, on_store, ◌>>=◌, ◌>>◌, is_empty,
}
use queue_ti.Server.Jwt.{Jwt, issue_token}
use queue_ti.Server.Http.{Http, Answer, json, reject_if}

pub record LoginRequest : Type 0 where
  pub username : Text
  pub password : Text

-- bcrypt.CompareHashAndPassword of a hash and a password, and the token library with the secret of
-- the server.
pub record Tokens : Type 0 where
  pub compare : Text → Text → Bool
  pub jwt : Jwt
  pub secret : Text

abbrev pub user_status : StoreError → ℕ
user_status user_not_found = 401
user_status _ = 500

-- IssueToken for the user, at the time of the call.
abbrev pub token_for : Server → Tokens → ℕ → User → Option Text
token_for sv tokens now u =
    issue_token tokens.jwt tokens.secret now (sv.postgres.uuid_out u.id) u.username u.is_admin

abbrev pub token_or_500 : Option Text → Http Text
token_or_500 none = refuse 500
token_or_500 (some token) = json token

module _ (sv : Server) (tokens : Tokens) (now : ℕ) where
  abbrev pub with_login : Option LoginRequest → (LoginRequest → Http Text) → Http Text
  with_login none f = refuse 400
  with_login (some req) f = reject_if (is_empty req.username || is_empty req.password) 400 >> f req

  unfoldable pub handle_login : Option LoginRequest → Http Text
  handle_login body = with_login body (λ req. do
    u ← on_store user_status (get_by_username req.username)
    reject_if (not (tokens.compare u.password_hash req.password)) 401
    token_or_500 (token_for sv tokens now u))

  -- The new token has what the store says of the user now.
  unfoldable pub handle_refresh : Option Claims → Http Text
  handle_refresh none = refuse 401
  handle_refresh (some claims) = do
    u ← on_store user_status (get_by_id sv.postgres claims.user_id)
    token_or_500 (token_for sv tokens now u)
