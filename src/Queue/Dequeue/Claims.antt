-- ===== src/Queue/Dequeue/Claims.antt =====
-- What a dequeue that returns a message has done.
use queue_ti.Base.{ℕ, Option, none, some, List, [], ◌∷◌, ◌≡◌, refl, ap, arith, ◌==◌, inl, inr, ◌⊎◌}
use queue_ti.Base.Text.{Text}
use queue_ti.Base.Table.{update, any}
use queue_ti.Queue.Error.{ok, no_message, invalid_metadata}
use queue_ti.Queue.Tables.{Db, Message, Bucket, has_id}
use queue_ti.Queue.Service.{Service, Call, Libraries, Metadata}
use queue_ti.Queue.Op.{World, dequeued}
use queue_ti.Queue.Op.Triple.{
  Cond, Triple, Triple-bind, Triple-if, Triple-pure, Triple-raise, Triple-commit, Triple-observe,
  Triple-tx_exec, Triple-transaction, ok-IfOk,
}
use queue_ti.Queue.Throttle.Frame.{ButBuckets, Granted, Triple-apply_throughput_limit}
use queue_ti.Queue.Dequeue.Leased.{Leased, lease_end, claimed-Leased}
use queue_ti.Queue.Dequeue.Chosen.{Oldest, chosen_one, update_cong}
use queue_ti.Queue.Dequeue.{
  Received, hydrate, decode_metadata, can_claim, claimed, claim, commit_empty, deliver, dequeue,
  resolve_visibility_timeout,
}

-- What the caller receives of a row.
pub record Carries (l : Libraries) (m : Message) (r : Received) : Type 0 where
  pub same_id : r.id ≡ m.id
  pub same_topic : r.topic ≡ m.topic
  pub same_key : r.key ≡ m.key
  pub same_payload : r.payload ≡ m.payload
  pub decoded : decode_metadata l m.metadata ≡ some r.metadata
  pub same_count : r.retry_count ≡ m.retry_count
  pub same_limit : r.max_retries ≡ m.max_retries

pub Triple-hydrate :
    {P : Cond} (l : Libraries) (m : Message)
    → Triple P (hydrate l m) (λ r d c' s. P d c' s × Carries l m r)
unfolding hydrate
Triple-hydrate {P} l m = from (decode_metadata l m.metadata) refl
  where
    from :
        (o : Option Metadata)
        → decode_metadata l m.metadata ≡ o
        → Triple P (hydrate l m) (λ r d c' s. P d c' s × Carries l m r)
    from none e = rw (e, hydrate) (Triple-raise invalid_metadata)
    from (some md) e =
        rw (e, hydrate)
          (Triple-pure _ (λ d c' s h. (
            h,
            record {
              same_id = refl;
              same_topic = refl;
              same_key = refl;
              same_payload = refl;
              decoded = e;
              same_count = refl;
              same_limit = refl;
            },
          )))

-- A claim changes nothing that a caller receives.
pub of_claimed :
    (l : Libraries) (c : Call) (vt : ℕ) (m : Message) (r : Received)
    → Carries l (claimed c vt m) r
    → Carries l m r
of_claimed l c vt m r k = record {
  same_id = k.same_id;
  same_topic = k.same_topic;
  same_key = k.same_key;
  same_payload = k.same_payload;
  decoded = k.decoded;
  same_count = k.same_count;
  same_limit = k.same_limit;
}

-- A committed claim of `m` from the tables `before`.
abbrev pub ClaimedFrom : Call → ℕ → Db → Message → Db → Type 0
ClaimedFrom c vt before m after =
    (bs : List Bucket) × (f : Message → Message) × ((x : Message) → Leased (lease_end c vt) x (f x))
    × (after ≡ record before { buckets = bs; messages = update (has_id m.id) f before.messages })

-- The tables after the claim, and the row that it returned.
abbrev pub Claimed : Service → Call → Text → ℕ → Db → Received → Db → Type 0
Claimed sv c topic timeout before r after =
    (m : Message) × Oldest (can_claim c topic) before.messages m
    × Carries sv.libraries m r
    × ClaimedFrom c (resolve_visibility_timeout sv timeout) before m after

-- The rows that the claim returns, and the tables then.
abbrev RowsOf : Call → Text → ℕ → Db → List Message → Db → Type 0
RowsOf c topic vt before rows d =
    (rows ≡ [])
    ⊎ ((m : Message) × (rows ≡ claimed c vt m ∷ [])
        × Oldest (can_claim c topic) before.messages m
        × ClaimedFrom c vt before m d)

claim-RowsOf :
    (c : Call) (topic : Text) (vt : ℕ) (before d : Db)
    → ButBuckets before d
    → RowsOf c topic vt before
        (claim c vt (can_claim c topic) 1 d).0
        (claim c vt (can_claim c topic) 1 d).1
unfolding claim any
claim-RowsOf c topic vt before d (bs, e) = rw e (elim (chosen_one (can_claim c topic) before) [
  | inl none_found ↦ inl (rw none_found refl)
  | inr (m, one, o) ↦ inr (
    m,
    rw one refl,
    o,
    (
      bs,
      claimed c vt,
      claimed-Leased c vt,
      rw one (
          ap (λ ms. record before { buckets = bs; messages = ms })
            (update_cong _ (has_id m.id) (claimed c vt) before.messages (λ x. ground arith))),
    ),
  )
])

module _ (sv : Service) (c : Call) (topic : Text) (timeout : ℕ) (before : Db) where
  abbrev vt : ℕ
  vt = resolve_visibility_timeout sv timeout

  -- The end of the method, on the rows that the claim has returned.
  Triple-deliver :
      (rows : List Message)
      → Triple
          (λ d c' s. RowsOf c topic vt before rows d)
          (deliver sv.libraries rows)
          (λ r _ c' _. Claimed sv c topic timeout before r c')
  unfolding deliver commit_empty
  Triple-deliver [] =
      Triple-bind {R = λ _ _ _ _. Unit} (Triple-commit (λ d c' s h. tt))
        (λ u. Triple-raise no_message)
  Triple-deliver (m ∷ ms) = Triple-bind (Triple-hydrate sv.libraries m) (λ r.
      Triple-bind {R = λ _ _ c' _. Claimed sv c topic timeout before r c'}
        (Triple-commit (λ d c' s h. settle m ms r d h.0 h.1))
        (λ u.
          Triple-bind {R = λ _ _ c' _. Claimed sv c topic timeout before r c'}
            (Triple-observe (dequeued r.topic) (λ d c' s h. h))
            (λ u'. Triple-pure r (λ d c' s h. h))))
    where
      settle :
          (m : Message) (ms : List Message) (r : Received) (d : Db)
          → RowsOf c topic vt before (m ∷ ms) d
          → Carries sv.libraries m r
          → Claimed sv c topic timeout before r d
      settle m ms r d (inl e) k = absurd cc
      settle m ms r d (inr (m', e, o, from)) k =
          (let same : m ≡ claimed c vt m' = cc in
            (m', o, of_claimed sv.libraries c vt m' r (rw (← same) k), from))

-- Whatever fails: if Dequeue returns a message, it is the oldest of the rows of the topic that were
-- pending, visible, not expired, with retries left and not locked by another transaction. Its
-- fields are those of the row. The committed tables are those before the call with every row of its
-- id processing until the resolved timeout, in whole seconds, has passed, and with other token
-- buckets at most.
pub dequeue-Claimed :
    (sv : Service) (c : Call) (topic : Text) (timeout : ℕ) (s : World) (r : Received)
    → (dequeue sv c topic timeout s).0 ≡ ok r
    → Claimed sv c topic timeout s.committed r (dequeue sv c topic timeout s).1.committed
unfolding dequeue commit_empty
dequeue-Claimed sv c topic timeout s r e =
    ok-IfOk (λ r _ c' _. Done r c') (dequeue sv c topic timeout s) (triple.run s refl) e
  where
    before : Db
    before = s.committed

    Done : Received → Db → Type 0
    Done = Claimed sv c topic timeout before

    triple : Triple (λ _ c' _. c' ≡ before) (dequeue sv c topic timeout) (λ r _ c' _. Done r c')
    triple =
        Triple-transaction {P' = λ d _ _. ButBuckets before d} {R = λ r _ c' _. Done r c'}
          (λ d c' l h. (c'.buckets, ap (λ (x : Db). record x { buckets = c'.buckets }) h))
          (λ a d c' l h. h)
          (Triple-bind {R = Granted before 1} (Triple-apply_throughput_limit before c topic 1)
            (λ allowed.
              Triple-if (allowed == 0)
                (λ z.
                  Triple-bind {R = λ _ _ _ _. Unit} (Triple-commit (λ d c' l h. tt))
                    (λ u. Triple-raise no_message))
                (λ z.
                  Triple-bind
                    {R = λ rows d _ _.
                      RowsOf c topic (resolve_visibility_timeout sv timeout) before rows d}
                    (Triple-tx_exec _ (λ d c' l h.
                      claim-RowsOf c topic (resolve_visibility_timeout sv timeout) before d h.0))
                    (Triple-deliver sv c topic timeout before))))
