-- ===== src/Server/Grpc/Guarded.antt =====
-- grpc.go: what a caller without the grants can reach.
use queue_ti.Base.{
  ℕ, ◌*◌, ◌==◌, ◌≡◌, Bool, true, false, Option, none, some, List, ◌&&◌, Bool-cases, inl, inr,
}
use queue_ti.Base.Text.{Text}
use queue_ti.Base.Postgres.{Postgres}
use queue_ti.Queue.Tables.{Db, Message}
use queue_ti.Queue.Service.{Call, Metadata}
use queue_ti.Users.Permissions.{Grant, write, has_grant, has_dequeue_access}
use queue_ti.Server.Handler.{Site, Server, Claims, Handler, answer, refuse, ◌>>=◌, ◌>>◌, is_empty}
use queue_ti.Server.Quiet.{SameTables-refl, Barred, Barred-stop}
use queue_ti.Server.Auth.{Code, group_allowed}
use queue_ti.Server.Grants.{grants_held, grants_held-SameRows}
use queue_ti.Server.Auth.Refuses.{check_grant-Barred, check_dequeue_grant-Barred}
use queue_ti.Server.Lookup.{row_of, lookup-Barred}
use queue_ti.Queue.Config.{second}
use queue_ti.Server.Grpc.{
  required, resolve_visibility_timeout_from_proto, lookup_code, check_message, rpc_enqueue,
  rpc_dequeue, rpc_batch_dequeue, rpc_ack, rpc_nack,
}

-- A call of a unary method, with the fields of its request.
pub data Rpc : Type 0 where
  enqueues : Text → Text → Metadata → Option Text → Rpc
  dequeues : Text → Text → Option ℕ → Rpc
  batches : Text → Text → ℕ → Option ℕ → Rpc
  acks : Text → Text → Rpc
  nacks : Text → Text → Text → Rpc

abbrev pub may_dequeue : List Grant → Text → Text → Bool
may_dequeue gs topic group = has_dequeue_access gs topic && group_allowed gs topic group

-- An id that names no message allows nothing.
abbrev pub may_settle : List Grant → Option Message → Text → Bool
may_settle gs none group = false
may_settle gs (some m) group = may_dequeue gs m.topic group

-- What the grants allow: write access to enqueue; dequeue access to the topic, and the group if one
-- is named, for all else.
unfoldable pub may_call : Postgres → Db → List Grant → Rpc → Bool
may_call pg db gs (enqueues topic payload metadata key) = has_grant gs write topic
may_call pg db gs (dequeues topic group seconds) = may_dequeue gs topic group
may_call pg db gs (batches topic group n seconds) = may_dequeue gs topic group
may_call pg db gs (acks id group) = may_settle gs (row_of (pg.uuid_in id) db) group
may_call pg db gs (nacks id group reason) = may_settle gs (row_of (pg.uuid_in id) db) group

abbrev pub RpcBarred : Server → Call → Option Claims → Site → Rpc → Type 0
RpcBarred sv c caller s (enqueues topic payload metadata key) =
    Barred s (rpc_enqueue sv c caller topic payload metadata key s)
RpcBarred sv c caller s (dequeues topic group seconds) =
    Barred s (rpc_dequeue sv c caller topic group seconds s)
RpcBarred sv c caller s (batches topic group n seconds) =
    Barred s (rpc_batch_dequeue sv c caller topic group n seconds s)
RpcBarred sv c caller s (acks id group) = Barred s (rpc_ack sv c caller id group s)
RpcBarred sv c caller s (nacks id group reason) = Barred s (rpc_nack sv c caller id group reason s)

module _ {ℓ} {A : Type ℓ} (s : Site) where
  required-Barred :
      (missing : Bool) (n : Handler Code A) → Barred s (n s) → Barred s ((required missing >> n) s)
  unfolding ◌>>=◌ refuse answer
  required-Barred true n h = SameTables-refl s
  required-Barred false n h = h

  resolve-Barred :
      (seconds : Option ℕ) (f : ℕ → Handler Code A)
      → ((n : ℕ) → Barred s (f n s))
      → Barred s ((resolve_visibility_timeout_from_proto seconds >>= f) s)
  unfolding ◌>>=◌ refuse answer resolve_visibility_timeout_from_proto
  resolve-Barred none f h = h 0
  resolve-Barred (some n) f h = elim (Bool-cases (n == 0)) [
    | inl e ↦ rw e (SameTables-refl s)
    | inr e ↦ rw e (h (n * second))
  ]

module _ (sv : Server) (c : Call) (claims : Claims) (s : Site) where
  abbrev held : List Grant
  held = grants_held sv.postgres claims.user_id s.accounts

  module _ (on : sv.has_store ≡ true) (plain : claims.is_admin ≡ false) where
    -- The check of the message's topic, which is looked up first.
    check_message-Barred :
        (id group : Text)
        → may_settle held (row_of (sv.postgres.uuid_in id) s.queue.committed) group ≡ false
        → Barred s (check_message sv c (some claims) id group s)
    check_message-Barred id group denied =
        lookup-Barred lookup_code (sv.postgres.uuid_in id) _ s (λ m t row same.
          check_dequeue_grant-Barred sv claims t m.topic group on plain (
            rw (grants_held-SameRows sv.postgres claims.user_id s.accounts t.accounts same.1)
              (rw row at denied)))

    -- A caller who is no administrator and whose grants do not allow a call is refused, whatever
    -- the faults: no table of the queue or of the users changes.
    pub rpc-RpcBarred :
        (r : Rpc)
        → may_call sv.postgres s.queue.committed held r ≡ false
        → RpcBarred sv c (some claims) s r
    unfolding may_call rpc_enqueue rpc_dequeue rpc_batch_dequeue rpc_ack rpc_nack
    rpc-RpcBarred (enqueues topic payload metadata key) denied =
        required-Barred s (is_empty topic) _ (
          required-Barred s (is_empty payload) _
            (Barred-stop _ _ s (check_grant-Barred sv claims s write topic on plain denied)))
    rpc-RpcBarred (dequeues topic group seconds) denied = required-Barred s (is_empty topic) _ (
        resolve-Barred s seconds _ (λ n.
          Barred-stop _ _ s (check_dequeue_grant-Barred sv claims s topic group on plain denied)))
    rpc-RpcBarred (batches topic group n seconds) denied = required-Barred s (is_empty topic) _ (
        required-Barred s _ _ (
          resolve-Barred s seconds _ (λ k.
            Barred-stop _ _ s
              (check_dequeue_grant-Barred sv claims s topic group on plain denied))))
    rpc-RpcBarred (acks id group) denied =
        required-Barred s (is_empty id) _ (Barred-stop _ _ s (check_message-Barred id group denied))
    rpc-RpcBarred (nacks id group reason) denied =
        required-Barred s (is_empty id) _ (Barred-stop _ _ s (check_message-Barred id group denied))
