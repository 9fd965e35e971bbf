-- ===== src/Server/Grpc/Subscribe/Sends.antt =====
-- grpc.go: what Subscribe sends, also to a caller without claims.
use queue_ti.Base.{
  ℕ, ◌≡◌, refl, true, false, none, some, Option, List, [], ◌∷◌, Bool-cases, inl, inr,
}
use queue_ti.Base.Text.{Text}
use queue_ti.Base.Order.{In}
use queue_ti.Queue.Error.{Result, ok, err}
use queue_ti.Queue.Tables.{Message}
use queue_ti.Queue.Service.{Metadata}
use queue_ti.Queue.Op.{World}
use queue_ti.Queue.Op.Total.{Calm}
use queue_ti.Queue.Throttle.{throughput_limit}
use queue_ti.Queue.Dequeue.{Received, decode_metadata, can_claim, dequeue}
use queue_ti.Queue.Dequeue.Claims.{Claimed, dequeue-Claimed}
use queue_ti.Queue.Dequeue.Delivers.{dequeue-Delivers}
use queue_ti.Server.Handler.{Server, Site, answer, ◌>>=◌, is_empty, replies}
use queue_ti.Server.Auth.{check_dequeue_grant}
use queue_ti.Server.Grpc.{resolve_visibility_timeout_from_proto}
use queue_ti.Server.Grpc.Subscribe.{
  Round, Stream, subscribe, subscribe_loop, min_backoff, to_sent, has_sent, after_dequeue,
}

check_passes :
    (sv : Server) (topic group : Text) (s : Site)
    → check_dequeue_grant sv none topic group s ≡ (replies tt, s)
unfolding check_dequeue_grant answer
check_passes sv topic group s = elim (Bool-cases sv.has_store) [
  | inl e ↦ rw e refl
  | inr e ↦ rw e refl
]

-- The first round claims a row, sends it, and the stream goes on with the next rounds.
abbrev pub Sends : Server → Text → ℕ → Round → List Round → Site → Stream × Site → Type 0
Sends sv topic timeout r rs s after =
    (m : Received) × (w : World) × Claimed sv.service r.call topic timeout s.queue.committed m
      w.committed
    × (after
        ≡ has_sent (to_sent sv m)
            (subscribe_loop sv topic [] timeout min_backoff rs (record s { queue = w })))

after_dequeue-ok :
    (sv : Server) (r : Round) (backoff : ℕ) (next : ℕ → Site → Stream × Site) (s : Site)
    (m : Received) (x : Result Received × World)
    → r.sent ≡ true
    → x.0 ≡ ok m
    → after_dequeue sv r backoff next s x
      ≡ has_sent (to_sent sv m) (next min_backoff (record s { queue = x.1 }))
after_dequeue-ok sv r backoff next s m (ok m', w) sent e =
    let same : m' ≡ m = cc in rw (sent, same) refl
after_dequeue-ok sv r backoff next s m (err x, w) sent e = absurd cc

module _ (sv : Server) (topic : Text) (timeout : ℕ) (r : Round) (rs : List Round) (s : Site) where
  first_round :
      (m : Received)
      → r.gone ≡ false
      → r.sent ≡ true
      → (dequeue sv.service r.call topic timeout s.queue).0 ≡ ok m
      → Sends sv topic timeout r rs s (subscribe_loop sv topic [] timeout min_backoff (r ∷ rs) s)
  unfolding subscribe_loop
  first_round m here sent e = (
    m,
    (dequeue sv.service r.call topic timeout s.queue).1,
    dequeue-Claimed sv.service r.call topic timeout s.queue m e,
    rw here (
        after_dequeue-ok sv r min_backoff (λ b. subscribe_loop sv topic [] timeout b rs) s m
          (dequeue sv.service r.call topic timeout s.queue) sent e),
  )

-- Let a caller without claims subscribe to a topic, that is not empty, with no group and a timeout
-- that is allowed (`timeout`, 0 if none is asked for). If the client is there, Send succeeds, no
-- statement fails, the topic has no throughput limit, some row of it can be claimed, and stored
-- metadata decodes, then the first round claims the oldest such row, sends it, and the stream goes on
-- with the tables that the claim left. No setting of the server and no grant stops it: without
-- claims nothing is checked, also if authentication is enabled.
pub subscribe-Sends :
    (sv : Server) (topic : Text) (seconds : Option ℕ) (timeout : ℕ) (r : Round) (rs : List Round)
    (s : Site) (m : Message)
    → is_empty topic ≡ false
    → resolve_visibility_timeout_from_proto seconds s ≡ (replies timeout, s)
    → r.gone ≡ false
    → r.sent ≡ true
    → Calm s.queue
    → throughput_limit topic s.queue.committed ≡ none
    → ((x : Message)
        → In x s.queue.committed.messages
        → (md : Metadata) × (decode_metadata sv.service.libraries x.metadata ≡ some md))
    → In m s.queue.committed.messages
    → can_claim r.call topic m ≡ true
    → Sends sv topic timeout r rs s (subscribe sv none topic [] seconds (r ∷ rs) s)
unfolding subscribe ◌>>=◌ answer
subscribe-Sends sv topic seconds timeout r rs s m named allowed here sent calm free decodes row e =
    let (x, done) =
      dequeue-Delivers sv.service r.call topic timeout s.queue m calm free decodes row e in
    rw (named, allowed, check_passes sv topic [] s)
      (first_round sv topic timeout r rs s x here sent done)
