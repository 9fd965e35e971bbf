-- ===== src/Server/Grpc/Subscribe/Backoff.antt =====
-- grpc.go: how long Subscribe waits.
use queue_ti.Base.{
  ℕ, zero, suc, ◌*◌, ◌≤◌, min, ◌≡◌, refl, ap, Bool, true, false, Option, List, [], ◌∷◌, arith,
  if◌then◌else◌,
}
use queue_ti.Base.Text.{Text}
use queue_ti.Base.Table.{All, length}
use queue_ti.Queue.Error.{Result, ok, err}
use queue_ti.Queue.Op.{World}
use queue_ti.Queue.Dequeue.{Received}
use queue_ti.Server.Handler.{Server, Site, Claims, Reply, replies, refuses}
use queue_ti.Server.Auth.{Code, internal}
use queue_ti.Server.Grpc.{dequeue_from}
use queue_ti.Server.Grpc.Subscribe.{
  Round, Stream, SubscribeResponse, Ending, closed, send_failed, running, failed, subscribe,
  subscribe_start, started, waited, has_sent, is_no_message, to_sent, ended, after_dequeue,
  subscribe_loop, next_backoff, min_backoff, max_backoff,
}

-- The waits of a stream that finds nothing: doubled from the first, two seconds at most.
unfoldable pub doublings : ℕ → ℕ → List ℕ
doublings first zero = []
doublings first (suc n) = min first max_backoff ∷ doublings (first * 2) n

next_backoff-min : (x : ℕ) → next_backoff (min x max_backoff) ≡ min (x * 2) max_backoff
unfolding next_backoff
next_backoff-min x = ground arith

-- Every wait is within the bounds, and up to the first message they are the doublings.
abbrev pub Paced : ℕ → Stream × Site → Type 0
Paced first r =
    All (λ w. (min_backoff ≤ w) × (w ≤ max_backoff)) r.0.waits
    × (r.0.sent ≡ [] → r.0.waits ≡ doublings first (length r.0.waits))

Paced-if :
    (first : ℕ) (b : Bool) (x y : Stream × Site)
    → Paced first x
    → Paced first y
    → Paced first (if b then x else y)
Paced-if first true x y h k = h
Paced-if first false x y h k = k

Paced-ended : (first : ℕ) (e : Ending) (s : Site) → Paced first (ended e s)
unfolding doublings
Paced-ended first e s = (tt, λ _. refl)

module _ (first : ℕ) (le : min_backoff ≤ first) where
  Paced-waited :
      (x : Stream × Site) → Paced (first * 2) x → Paced first (waited (min first max_backoff) x)
  unfolding doublings
  Paced-waited (x, s) h =
      (((omega (arith, le), omega arith), h.0), λ e. ap (λ ws. min first max_backoff ∷ ws) (h.1 e))

  Paced-has_sent :
      (m : SubscribeResponse) (x : Stream × Site) → Paced min_backoff x → Paced first (has_sent m x)
  Paced-has_sent m (x, s) h = (h.0, λ e. cc)

  Paced-after_dequeue :
      (sv : Server) (r : Round) (next : ℕ → Site → Stream × Site) (s : Site)
      (d : Result Received × World)
      → ((n : ℕ) (t : Site) → min_backoff ≤ n → Paced n (next (min n max_backoff) t))
      → Paced first (after_dequeue sv r (min first max_backoff) next s d)
  Paced-after_dequeue sv r next s (ok m, w) k =
      let s' = record s { queue = w } in
      Paced-if first r.sent _ _
        (Paced-has_sent (to_sent sv m) (next min_backoff s') (k min_backoff s' (omega arith)))
        (Paced-ended first send_failed s')
  Paced-after_dequeue sv r next s (err x, w) k =
      let s' = record s { queue = w } in
      let after_wait : Paced (first * 2) (next (next_backoff (min first max_backoff)) s') =
        rw (next_backoff-min first) (k (first * 2) s' (omega (arith, le))) in
      let paused : Stream × Site =
        if r.gone_waiting
        then ended closed s'
        else next (next_backoff (min first max_backoff)) s' in
      let paused-Paced : Paced (first * 2) paused =
        Paced-if (first * 2) r.gone_waiting _ _ (Paced-ended (first * 2) closed s') after_wait in
      Paced-if first r.gone_on_error _ _ (Paced-ended first closed s') (
        Paced-if first (is_no_message x) _ _ (Paced-waited paused paused-Paced)
          (Paced-ended first (failed internal) s'))

module _ (sv : Server) (topic group : Text) (timeout : ℕ) where
  subscribe_loop-Paced :
      (first : ℕ) (rs : List Round) (s : Site)
      → min_backoff ≤ first
      → Paced first (subscribe_loop sv topic group timeout (min first max_backoff) rs s)
  unfolding subscribe_loop
  subscribe_loop-Paced first [] s le = Paced-ended first running s
  subscribe_loop-Paced first (r ∷ rs) s le =
      Paced-if first r.gone _ _ (Paced-ended first closed s) (
        Paced-after_dequeue first le sv r (λ b. subscribe_loop sv topic group timeout b rs) s
          (dequeue_from sv r.call topic group timeout s.queue)
          (λ n t le'. subscribe_loop-Paced n rs t le'))

-- However many rounds a stream runs and whatever they meet, each of its waits is between 250
-- milliseconds and two seconds; and if it has sent no message, they double from the first up to two
-- seconds.
pub subscribe-Paced :
    (sv : Server) (caller : Option Claims) (topic group : Text) (seconds : Option ℕ)
    (rounds : List Round) (s : Site)
    → Paced min_backoff (subscribe sv caller topic group seconds rounds s)
unfolding subscribe
subscribe-Paced sv caller topic group seconds rounds s =
    by_start (subscribe_start sv caller topic group seconds s)
  where
    by_start : (r : Reply Code ℕ × Site) → Paced min_backoff (started sv topic group rounds r)
    by_start (replies timeout, t) =
        subscribe_loop-Paced sv topic group timeout min_backoff rounds t (omega arith)
    by_start (refuses code, t) = Paced-ended min_backoff (failed code) t
