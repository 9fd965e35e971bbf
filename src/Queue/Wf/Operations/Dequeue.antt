-- ===== src/Queue/Wf/Operations/Dequeue.antt =====
-- The four ways to claim messages, with the throughput limit in front of them.
use queue_ti.Base.{
  ℕ, Bool, false, Option, none, some, List, [], ◌∷◌, ◌==◌, ◌≡◌, refl, if◌then◌else◌, Bool-cases,
  Option-cases, inl, inr, arith,
}
use queue_ti.Base.Text.{Text}
use queue_ti.Base.Table.{any, NoClash-update}
use queue_ti.Queue.Error.{no_message, invalid_batch_size, invalid_metadata, database}
use queue_ti.Queue.Tables.{Message, same_id, same_pending_key}
use queue_ti.Queue.Service.{Service, Call, Libraries}
use queue_ti.Queue.Op.{always, dequeued}
use queue_ti.Queue.Op.Keeps.{
  Keeps, KeepsDb, Any, Keeps-pure, Keeps-raise, Keeps-bind, Keeps-then, Keeps-if, Keeps-tx_query,
  Keeps-tx_exec, Keeps-transaction, Keeps-commit, Keeps-observe,
}
use queue_ti.Queue.Throttle.{
  find_bucket, upsert_bucket, grant, deduct_tokens, consume_tokens, throughput_limit, limit_to,
  apply_throughput_limit,
}
use queue_ti.Queue.Dequeue.{
  Received, decode_metadata, hydrate, claim, claimed, chosen, can_claim, can_claim_batch,
  commit_empty, deliver, dequeue, scan_rows, commit_list, valid_batch, dequeue_n, claim_deliveries,
  fetch_deliveries, deliver_group, deliver_claimed, dequeue_for_group, deliver_batch,
  dequeue_n_for_group,
}
use queue_ti.Queue.Wf.{Wf, IsRow}
use queue_ti.Queue.Wf.Statements.{update-Wf, update_deliveries-Wf}
use queue_ti.Queue.Wf.Operations.Rest.{Wf-rest}

upsert_bucket-Wf : (t : Text) (limit now : ℕ) → KeepsDb Wf Any (always (upsert_bucket t limit now))
unfolding upsert_bucket
upsert_bucket-Wf t limit now db w = elim (Option-cases (find_bucket t db.buckets)) [
  | inl e ↦ rw (e, upsert_bucket) (Wf-rest db db.groups db.configs _ db.schemas w, tt)
  | inr (b, e) ↦ rw (e, upsert_bucket) (Wf-rest db db.groups db.configs _ db.schemas w, tt)
]

Keeps-consume_tokens :
    (c : Call) (t : Text) (limit n : ℕ) → Keeps Wf Any (consume_tokens c t limit n)
unfolding consume_tokens deduct_tokens
Keeps-consume_tokens c t limit n = Keeps-then {Q = Any} (Keeps-tx_exec _ (λ db w. (w, tt))) (
    Keeps-bind {Q = Any} (Keeps-tx_exec _ (upsert_bucket-Wf t limit c.now)) (λ available q.
      Keeps-if (grant n available == 0) (λ e. Keeps-pure 0 tt)
        (λ e.
          Keeps-then {Q = Any}
            (Keeps-tx_exec _ (λ db w. (Wf-rest db db.groups db.configs _ db.schemas w, tt)))
            (Keeps-pure _ tt))))

Keeps-limit_to :
    (c : Call) (t : Text) (n : ℕ) (limit : Option ℕ) → Keeps Wf Any (limit_to c t n limit)
unfolding limit_to
Keeps-limit_to c t n none = Keeps-pure n tt
Keeps-limit_to c t n (some limit) =
    Keeps-if (limit == 0) (λ e. Keeps-pure n tt) (λ e. Keeps-consume_tokens c t limit n)

Keeps-apply_throughput_limit :
    (c : Call) (t : Text) (n : ℕ) → Keeps Wf Any (apply_throughput_limit c t n)
unfolding apply_throughput_limit
Keeps-apply_throughput_limit c t n =
    Keeps-bind {Q = Any} (Keeps-tx_query (throughput_limit t) (λ db w. tt))
      (λ limit q. Keeps-limit_to c t n limit)

Keeps-hydrate : (l : Libraries) (m : Message) → Keeps Wf Any (hydrate l m)
unfolding hydrate
Keeps-hydrate l m = elim (Option-cases (decode_metadata l m.metadata)) [
  | inl e ↦ rw (e, hydrate) (Keeps-raise invalid_metadata)
  | inr (d, e) ↦ rw (e, hydrate) (Keeps-pure _ tt)
]

-- A claimed row holds a timeout and has left the index of pending keys.
claimed-IsRow : (c : Call) (vt : ℕ) (m : Message) → IsRow m → IsRow (claimed c vt m)
claimed-IsRow c vt m r = record { idle = λ e. cc; leased = λ e f. cc; linked = r.linked }

claimed-keys :
    (c : Call) (vt : ℕ) (p : Message → Bool) (a b : Message)
    → same_pending_key a b ≡ false
    → same_pending_key (if p a then claimed c vt a else a) (if p b then claimed c vt b else b)
      ≡ false
claimed-keys c vt p a b h = elim (Bool-cases (p a)) [
  | inl e ↦ rw e refl
  | inr e ↦ rw e (elim (Bool-cases (p b)) [ inl f ↦ rw f (ground arith) | inr f ↦ rw f h ])
]

claim-Wf :
    (c : Call) (vt : ℕ) (p : Message → Bool) (n : ℕ) → KeepsDb Wf Any (always (claim c vt p n))
unfolding claim
claim-Wf c vt p n db w =
    let hit : Message → Bool = λ m. any (same_id m) (chosen p n db) in
    (
      update-Wf hit (claimed c vt) (λ m. refl) db (λ m _ r. claimed-IsRow c vt m r)
          (NoClash-update same_pending_key hit (claimed c vt) db.messages (claimed-keys c vt hit)
            w.keys)
          w,
      tt,
    )

Keeps-commit_empty : Keeps Wf Any commit_empty
unfolding commit_empty
Keeps-commit_empty = Keeps-then Keeps-commit (Keeps-raise no_message)

Keeps-received : (l : Libraries) (m : Message) → Keeps Wf Any (deliver_group l (m ∷ []))
unfolding deliver_group
Keeps-received l m = Keeps-bind {Q = Any} (Keeps-hydrate l m) (λ r q.
    Keeps-then Keeps-commit (Keeps-then (Keeps-observe (dequeued r.topic)) (Keeps-pure r tt)))

Keeps-deliver : (l : Libraries) (ms : List Message) → Keeps Wf Any (deliver l ms)
unfolding deliver deliver_group
Keeps-deliver l [] = Keeps-commit_empty
Keeps-deliver l (m ∷ ms) = Keeps-received l m

pub Keeps-dequeue :
    (sv : Service) (c : Call) (t : Text) (timeout : ℕ) → Keeps Wf Any (dequeue sv c t timeout)
unfolding dequeue
Keeps-dequeue sv c t timeout = Keeps-transaction (
    Keeps-bind {Q = Any} (Keeps-apply_throughput_limit c t 1) (λ allowed q.
      Keeps-if (allowed == 0) (λ e. Keeps-commit_empty)
        (λ e.
          Keeps-bind {Q = Any} (Keeps-tx_exec _ (claim-Wf c _ (can_claim c t) 1))
            (λ rows q'. Keeps-deliver sv.libraries rows))))

Keeps-scan_rows : (l : Libraries) (ms : List Message) → Keeps Wf Any (scan_rows l ms)
unfolding scan_rows
Keeps-scan_rows l [] = Keeps-pure [] tt
Keeps-scan_rows l (m ∷ ms) = Keeps-bind {Q = Any} (Keeps-hydrate l m) (λ r q.
    Keeps-then (Keeps-observe (dequeued r.topic))
      (Keeps-bind {Q = Any} (Keeps-scan_rows l ms) (λ rs q'. Keeps-pure (r ∷ rs) tt)))

Keeps-commit_list : (rs : List Received) → Keeps Wf Any (commit_list rs)
unfolding commit_list
Keeps-commit_list rs = Keeps-then Keeps-commit (Keeps-pure rs tt)

pub Keeps-dequeue_n :
    (sv : Service) (c : Call) (t : Text) (n timeout : ℕ) → Keeps Wf Any (dequeue_n sv c t n timeout)
unfolding dequeue_n
Keeps-dequeue_n sv c t n timeout =
    Keeps-if (valid_batch n)
      (λ v. Keeps-transaction (
        Keeps-bind {Q = Any} (Keeps-apply_throughput_limit c t n) (λ allowed q.
          Keeps-if (allowed == 0) (λ e. Keeps-commit_list [])
            (λ e.
              Keeps-bind {Q = Any} (Keeps-tx_exec _ (claim-Wf c _ (can_claim_batch c t) allowed))
                (λ rows q'.
                  Keeps-bind {Q = Any} (Keeps-scan_rows sv.libraries rows)
                    (λ rs q''. Keeps-commit_list rs))))))
      (λ v. Keeps-raise invalid_batch_size)

claim_deliveries-Wf :
    (c : Call) (vt : ℕ) (t g : Text) (n : ℕ) → KeepsDb Wf Any (always (claim_deliveries c vt t g n))
unfolding claim_deliveries
claim_deliveries-Wf c vt t g n db w = (update_deliveries-Wf _ _ (λ d. refl) (λ d. refl) db w, tt)

Keeps-deliver_group : (l : Libraries) (ms : List Message) → Keeps Wf Any (deliver_group l ms)
unfolding deliver_group
Keeps-deliver_group l [] = Keeps-raise database
Keeps-deliver_group l (m ∷ ms) = Keeps-received l m

Keeps-deliver_claimed :
    (l : Libraries) (g : Text) (is : List ℕ) → Keeps Wf Any (deliver_claimed l g is)
unfolding deliver_claimed
Keeps-deliver_claimed l g [] = Keeps-commit_empty
Keeps-deliver_claimed l g (i ∷ is) =
    Keeps-bind {Q = Any} (Keeps-tx_query (fetch_deliveries (i ∷ []) g) (λ db w. tt))
      (λ rows q. Keeps-deliver_group l rows)

pub Keeps-dequeue_for_group :
    (sv : Service) (c : Call) (t g : Text) (timeout : ℕ)
    → Keeps Wf Any (dequeue_for_group sv c t g timeout)
unfolding dequeue_for_group
Keeps-dequeue_for_group sv c t g timeout = Keeps-transaction (
    Keeps-bind {Q = Any} (Keeps-apply_throughput_limit c t 1) (λ allowed q.
      Keeps-if (allowed == 0) (λ e. Keeps-commit_empty)
        (λ e.
          Keeps-bind {Q = Any} (Keeps-tx_exec _ (claim_deliveries-Wf c _ t g 1))
            (λ ids q'. Keeps-deliver_claimed sv.libraries g ids))))

Keeps-deliver_batch : (l : Libraries) (g : Text) (is : List ℕ) → Keeps Wf Any (deliver_batch l g is)
unfolding deliver_batch
Keeps-deliver_batch l g [] = Keeps-commit_list []
Keeps-deliver_batch l g (i ∷ is) =
    Keeps-bind {Q = Any} (Keeps-tx_query (fetch_deliveries (i ∷ is) g) (λ db w. tt))
      (λ rows q. Keeps-bind {Q = Any} (Keeps-scan_rows l rows) (λ rs q'. Keeps-commit_list rs))

pub Keeps-dequeue_n_for_group :
    (sv : Service) (c : Call) (t g : Text) (n timeout : ℕ)
    → Keeps Wf Any (dequeue_n_for_group sv c t g n timeout)
unfolding dequeue_n_for_group
Keeps-dequeue_n_for_group sv c t g n timeout =
    Keeps-if (valid_batch n)
      (λ v. Keeps-transaction (
        Keeps-bind {Q = Any} (Keeps-apply_throughput_limit c t n) (λ allowed q.
          Keeps-if (allowed == 0) (λ e. Keeps-commit_list [])
            (λ e.
              Keeps-bind {Q = Any} (Keeps-tx_exec _ (claim_deliveries-Wf c _ t g allowed))
                (λ ids q'. Keeps-deliver_batch sv.libraries g ids)))))
      (λ v. Keeps-raise invalid_batch_size)
