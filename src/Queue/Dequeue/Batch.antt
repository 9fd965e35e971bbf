-- ===== src/Queue/Dequeue/Batch.antt =====
-- What a batch dequeue that returns has done.
use queue_ti.Base.{ℕ, suc, ◌≤◌, Bool, List, [], ◌∷◌, map, ◌≡◌, refl, ap, ◌∙◌, sym, arith, ◌==◌}
use queue_ti.Base.Text.{Text}
use queue_ti.Base.Table.{update, any, select, order_by, length, take, length-take-le}
use queue_ti.Queue.Error.{ok, invalid_batch_size}
use queue_ti.Queue.Tables.{Db, Message, Bucket, same_id}
use queue_ti.Queue.Service.{Service, Call, Libraries}
use queue_ti.Queue.Op.{World, dequeued}
use queue_ti.Queue.Op.Triple.{
  Cond, Triple, Triple-bind, Triple-if, Triple-pure, Triple-raise, Triple-commit, Triple-observe,
  Triple-tx_exec, Triple-transaction, Triple-fact, Triple-from, Triple-weaken, ok-IfOk,
}
use queue_ti.Queue.Throttle.Frame.{ButBuckets, Granted, Triple-apply_throughput_limit}
use queue_ti.Queue.Dequeue.Claims.{Carries, Triple-hydrate, of_claimed}
use queue_ti.Queue.Dequeue.Leased.{Leased, lease_end, claimed-Leased}
use queue_ti.Queue.Dequeue.{
  Received, can_claim_batch, claimed, chosen, claim, scan_rows, commit_list, valid_batch, dequeue_n,
  resolve_visibility_timeout,
}

-- Row by row, in order, what the caller receives.
abbrev pub CarryAll : Libraries → List Message → List Received → Type 0
CarryAll l [] [] = Unit
CarryAll l (m ∷ ms) (r ∷ rs) = Carries l m r × CarryAll l ms rs
CarryAll l _ _ = ⊥

pub Triple-scan_rows :
    {P : Cond} (l : Libraries) (ms : List Message)
    → Triple P (scan_rows l ms) (λ rs d c' s. P d c' s × CarryAll l ms rs)
unfolding scan_rows
Triple-scan_rows {P} l [] = Triple-pure [] (λ d c' s h. (h, tt))
Triple-scan_rows {P} l (m ∷ ms) = Triple-bind (Triple-hydrate l m) (λ r.
    Triple-bind {R = λ _ d c' s. P d c' s × Carries l m r}
      (Triple-observe (dequeued r.topic) (λ d c' s h. h))
      (λ u.
        Triple-bind (Triple-scan_rows {P = λ d c' s. P d c' s × Carries l m r} l ms)
          (λ rs. Triple-pure (r ∷ rs) (λ d c' s h. (h.0.0, (h.0.1, h.1))))))

all_of_claimed :
    (l : Libraries) (c : Call) (vt : ℕ) (ms : List Message) (rs : List Received)
    → CarryAll l (map (claimed c vt) ms) rs
    → CarryAll l ms rs
all_of_claimed l c vt [] [] h = tt
all_of_claimed l c vt [] (r ∷ rs) h = h
all_of_claimed l c vt (m ∷ ms) [] h = h
all_of_claimed l c vt (m ∷ ms) (r ∷ rs) h =
    (of_claimed l c vt m r h.0, all_of_claimed l c vt ms rs h.1)

CarryAll-length :
    (l : Libraries) (ms : List Message) (rs : List Received)
    → CarryAll l ms rs
    → length rs ≡ length ms
CarryAll-length l [] [] h = refl
CarryAll-length l [] (r ∷ rs) h = absurd h
CarryAll-length l (m ∷ ms) [] h = absurd h
CarryAll-length l (m ∷ ms) (r ∷ rs) h = ap suc (CarryAll-length l ms rs h.1)

-- The tables after the claim of the `k` oldest rows that pass the test.
abbrev pub Took : Call → ℕ → (Message → Bool) → ℕ → Db → Db → Type 0
Took c vt p k before after =
    (bs : List Bucket) × (f : Message → Message) × ((x : Message) → Leased (lease_end c vt) x (f x))
    × (after ≡ record before {
      buckets = bs;
      messages = update (λ m. any (same_id m) (chosen p k before)) f before.messages;
    })

no_update : (f : Message → Message) (ms : List Message) → update (λ m. any (same_id m) []) f ms ≡ ms
unfolding update any
no_update f [] = refl
no_update f (m ∷ ms) = ap (λ xs. m ∷ xs) (no_update f ms)

module _ (sv : Service) (c : Call) (topic : Text) (n timeout : ℕ) (before : Db) where
  abbrev vt : ℕ
  vt = resolve_visibility_timeout sv timeout

  abbrev p : Message → Bool
  p = can_claim_batch c topic

  -- What a batch that is returned says: at most `n` rows were claimed, and these are they.
  abbrev pub Batch : List Received → Db → Type 0
  Batch rs after =
      (k : ℕ) × (k ≤ n)
      × (length rs ≤ k)
      × CarryAll sv.libraries (chosen p k before) rs
      × Took c vt p k before after

  Triple-commit_list :
      (rs : List Received)
      → Triple (λ d _ _. Batch rs d) (commit_list rs) (λ rs' _ c' _. Batch rs' c')
  unfolding commit_list
  Triple-commit_list rs =
      Triple-bind {R = λ _ _ c' _. Batch rs c'} (Triple-commit (λ d c' s h. h))
        (λ u. Triple-pure rs (λ d c' s h. h))

  -- Nothing was granted.
  nothing : (d : Db) → ButBuckets before d → Batch [] d
  unfolding take
  nothing d (bs, e) = (
    0,
    omega arith,
    omega arith,
    tt,
    (
      bs,
      claimed c vt,
      claimed-Leased c vt,
      e
          ∙ ap (λ ms. record before { buckets = bs; messages = ms })
              (sym (no_update (claimed c vt) before.messages)),
    ),
  )

  -- The claimed rows are read.
  Triple-rest :
      (k : ℕ)
      → k ≤ n
      → (rows : List Message)
      → Triple
          (λ d _ _. Took c vt p k before d × (rows ≡ map (claimed c vt) (chosen p k before)))
          (scan_rows sv.libraries rows)
          (λ rs d _ _. Batch rs d)
  Triple-rest k le rows = Triple-fact (λ same.
      Triple-weaken
        (λ rs d c' s h.
          let carried = all_of_claimed sv.libraries c vt (chosen p k before) rs (rw same at h.1) in
          (k, le, short k rs carried, carried, h.0))
        (Triple-scan_rows sv.libraries rows))
    where
      short :
          (k : ℕ) (rs : List Received)
          → CarryAll sv.libraries (chosen p k before) rs
          → length rs ≤ k
      short k rs h = omega (
        arith,
        CarryAll-length sv.libraries (chosen p k before) rs h,
        length-take-le k (order_by (λ m. m.created_at) (select p before.messages)),
      )

  claim-Took :
      (k : ℕ) (d : Db)
      → ButBuckets before d
      → Took c vt p k before (claim c vt p k d).1
        × ((claim c vt p k d).0 ≡ map (claimed c vt) (chosen p k before))
  unfolding claim
  claim-Took k d (bs, e) = rw e ((bs, claimed c vt, claimed-Leased c vt, refl), refl)

  Triple-dequeue_n :
      Triple (λ _ c' _. c' ≡ before) (dequeue_n sv c topic n timeout) (λ rs _ c' _. Batch rs c')
  unfolding dequeue_n
  Triple-dequeue_n =
      Triple-if (valid_batch n)
        (λ valid.
          Triple-transaction {P' = λ d _ _. ButBuckets before d} {R = λ rs _ c' _. Batch rs c'}
            (λ d c' l h. (c'.buckets, ap (λ (x : Db). record x { buckets = c'.buckets }) h))
            (λ a d c' l h. h)
            (Triple-bind {R = Granted before n} (Triple-apply_throughput_limit before c topic n)
              (λ k. Triple-fact (λ le.
                Triple-if (k == 0)
                  (λ z. Triple-from (λ d c' l h. nothing d h) (Triple-commit_list []))
                  (λ z.
                    Triple-bind
                      {R = λ rows d _ _.
                        Took c vt p k before d × (rows ≡ map (claimed c vt) (chosen p k before))}
                      (Triple-tx_exec _ (λ d c' l h. claim-Took k d h))
                      (λ rows. Triple-bind (Triple-rest k le rows) Triple-commit_list))))))
        (λ e. Triple-raise invalid_batch_size)

-- Whatever fails: if DequeueN returns messages, then for some `k` of at most `n` these are the `k`
-- oldest rows of the topic that were pending, visible, not expired, with retries left, not locked
-- and not on a dead-letter topic, oldest first, or all such rows if there are fewer. The committed
-- tables are those before the call with exactly these rows processing until the resolved timeout,
-- in whole seconds, has passed, and with other token buckets at most.
pub dequeue_n-Batch :
    (sv : Service) (c : Call) (topic : Text) (n timeout : ℕ) (s : World) (rs : List Received)
    → (dequeue_n sv c topic n timeout s).0 ≡ ok rs
    → Batch sv c topic n timeout s.committed rs (dequeue_n sv c topic n timeout s).1.committed
dequeue_n-Batch sv c topic n timeout s rs e =
    ok-IfOk (λ rs _ c' _. Batch sv c topic n timeout s.committed rs c')
      (dequeue_n sv c topic n timeout s)
      ((Triple-dequeue_n sv c topic n timeout s.committed).run s refl) e
