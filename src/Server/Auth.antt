-- ===== src/Server/Auth.antt =====
-- backend/internal/auth, and the checks of grants in grpc.go: who is calling, and may they.
pub mod Refuses
use queue_ti.Base.{ℕ, Bool, true, false, Option, none, some, List, [], ◌∷◌, if◌then◌else◌}
use queue_ti.Base.Text.{Text, bytes, has_prefix}
use queue_ti.Users.Permissions.{
  Action, Grant, has_grant, has_dequeue_access, has_consumer_group_access,
}
use queue_ti.Users.Store.{StoreError, get_user_grants}
use queue_ti.Server.Handler.{
  Server, Claims, Handler, Reply, answer, refuse, on_store, ◌>>=◌, ◌>>◌, is_empty,
}

-- google.golang.org/grpc/codes, as far as the code uses them.
pub data Code : Type 0 where
  invalid_argument permission_denied code_not_found failed_precondition : Code
  unauthenticated internal : Code

-- ParseToken of jwt.go (Server/Jwt) at a time and with the secret of the server.
abbrev pub ParseToken : Type 0
ParseToken = Text → Option Claims

-- strings.TrimPrefix of "Bearer "
unfoldable pub drop_bytes : Text → Text → Text
drop_bytes [] s = s
drop_bytes (b ∷ p) [] = []
drop_bytes (b ∷ p) (a ∷ s) = drop_bytes p s

abbrev pub bearer : Text
bearer = bytes "Bearer "

abbrev pub token_claims : ParseToken → Text → Option Claims
token_claims parse header =
    if has_prefix header bearer then parse (drop_bytes bearer header) else none

-- The metadata of a call: none, or the values of its authorization header.
abbrev pub Incoming : Type 0
Incoming = Option (List Text)

abbrev pub with_claims {ℓ} :
    {A : Type ℓ} → Option Claims → (Option Claims → Handler Code A) → Handler Code A
with_claims none handler = refuse unauthenticated
with_claims (some claims) handler = handler (some claims)

abbrev pub by_header {ℓ} :
    {A : Type ℓ} → ParseToken → Incoming → (Option Claims → Handler Code A) → Handler Code A
by_header parse none handler = refuse unauthenticated
by_header parse (some []) handler = refuse unauthenticated
by_header parse (some (header ∷ more)) handler = with_claims (token_claims parse header) handler

-- UnaryInterceptor: the handler gets the claims of the token, and none when auth is disabled.
unfoldable pub unary_interceptor {ℓ} :
    {A : Type ℓ}
    → Server
    → ParseToken
    → Incoming
    → (Option Claims → Handler Code A)
    → Handler Code A
unary_interceptor sv parse incoming handler =
    if sv.auth_enabled then by_header parse incoming handler else handler none

abbrev pub grants_failed : StoreError → Code
grants_failed e = internal

abbrev pub require : Bool → Handler Code (Unit {0})
require allowed = if allowed then answer tt else refuse permission_denied

-- Nothing is checked for an administrator, without claims, or without a store.
abbrev pub checked :
    Server → Option Claims → (List Grant → Handler Code (Unit {0})) → Handler Code (Unit {0})
checked sv none check = answer tt
checked sv (some claims) check =
    if claims.is_admin
    then answer tt
    else on_store grants_failed (get_user_grants sv.postgres claims.user_id) >>= check

unfoldable pub check_grant : Server → Option Claims → Action → Text → Handler Code (Unit {0})
check_grant sv caller action topic =
    if sv.has_store
    then checked sv caller (λ gs. require (has_grant gs action topic))
    else answer tt

-- The test of both checks on the grants: dequeue access, and the group if one is named.
abbrev pub group_allowed : List Grant → Text → Text → Bool
group_allowed gs topic group =
    if is_empty group then true else has_consumer_group_access gs topic group

unfoldable pub check_dequeue_grant : Server → Option Claims → Text → Text → Handler Code (Unit {0})
check_dequeue_grant sv caller topic group =
    if sv.has_store
    then checked sv caller
        (λ gs. require (has_dequeue_access gs topic) >> require (group_allowed gs topic group))
    else answer tt
