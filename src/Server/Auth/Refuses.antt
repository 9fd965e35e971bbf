-- ===== src/Server/Auth/Refuses.antt =====
-- grpc.go: a caller whose grants do not allow a request is refused by the checks.
use queue_ti.Base.{◌≡◌, Bool, true, false, some, List, arith, ◌&&◌, Bool-cases, inl, inr}
use queue_ti.Base.Text.{Text}
use queue_ti.Users.Permissions.{Action, Grant, has_grant, has_dequeue_access}
use queue_ti.Server.Handler.{Site, Server, Claims, Handler}
use queue_ti.Server.Quiet.{
  SameTables, Barred, Quiet-answer, Barred-refuse, Barred-bind, Barred-stop,
}
use queue_ti.Server.Grants.{grants_held}
use queue_ti.Server.Lookup.{held-Barred}
use queue_ti.Server.Auth.{
  Code, permission_denied, check_grant, check_dequeue_grant, checked, require, group_allowed,
  grants_failed,
}

module _ (sv : Server) (claims : Claims) (s : Site) where
  require-Barred : (b : Bool) (t : Site) → b ≡ false → Barred t (require b t)
  require-Barred b t e = rw e (Barred-refuse permission_denied t)

  checked-Barred :
      (check : List Grant → Handler Code (Unit {0}))
      → claims.is_admin ≡ false
      → ((t : Site)
          → SameTables s t
          → Barred t (check (grants_held sv.postgres claims.user_id s.accounts) t))
      → Barred s (checked sv (some claims) check s)
  checked-Barred check plain bar =
      rw plain (held-Barred grants_failed sv.postgres claims.user_id check s bar)

  pub check_grant-Barred :
      (action : Action) (topic : Text)
      → sv.has_store ≡ true
      → claims.is_admin ≡ false
      → has_grant (grants_held sv.postgres claims.user_id s.accounts) action topic ≡ false
      → Barred s (check_grant sv (some claims) action topic s)
  unfolding check_grant
  check_grant-Barred action topic on plain denied =
      rw on (checked-Barred _ plain (λ t same. require-Barred _ t denied))

  pub check_dequeue_grant-Barred :
      (topic group : Text)
      → sv.has_store ≡ true
      → claims.is_admin ≡ false
      → (has_dequeue_access (grants_held sv.postgres claims.user_id s.accounts) topic
          && group_allowed (grants_held sv.postgres claims.user_id s.accounts) topic group)
        ≡ false
      → Barred s (check_dequeue_grant sv (some claims) topic group s)
  unfolding check_dequeue_grant
  check_dequeue_grant-Barred topic group on plain denied = rw on (
      checked-Barred _ plain (λ t same.
        elim (Bool-cases
          (has_dequeue_access (grants_held sv.postgres claims.user_id s.accounts) topic)) [
            | inl access ↦
                Barred-bind (λ _. Unit {0}) _ _ t (rw access (Quiet-answer Code t))
                  (λ u v h same'. require-Barred _ v (ground arith))
            | inr barred ↦ Barred-stop _ _ t (require-Barred _ t barred)
          ]))
