-- ===== src/Queue/Dequeue/Delivers.antt =====
-- A message that can be claimed is given.
use queue_ti.Base.{
  ℕ, Bool, true, none, some, List, [], ◌∷◌, ◌≡◌, refl, ap, ◌∙◌, leb, Bool-cases, inl, inr,
}
use queue_ti.Base.Text.{Text}
use queue_ti.Base.Table.{select, insert_by, order_by, take}
use queue_ti.Base.Order.{In, at_head, in_tail}
use queue_ti.Queue.Error.{ok}
use queue_ti.Queue.Tables.{Db, Message}
use queue_ti.Queue.Service.{Service, Call, Metadata}
use queue_ti.Queue.Op.{World, dequeued}
use queue_ti.Queue.Op.Total.{
  Dbs, Calm, Total, Total-bind, Total-pure, Total-fact, Total-tx_query, Total-tx_exec,
  Total-transaction, Total-commit, Total-observe, Succeeds-ok,
}
use queue_ti.Queue.Throttle.{throughput_limit, limit_to, apply_throughput_limit}
use queue_ti.Queue.Dequeue.Chosen.{Oldest, chosen_one}
use queue_ti.Queue.Dequeue.{
  Received, hydrate, decode_metadata, can_claim, claimed, chosen, claim, deliver, dequeue,
  resolve_visibility_timeout,
}

-- A row is chosen if some row passes the test.
insert_by-some :
    (k : Message → ℕ) (m : Message) (ms : List Message)
    → (x : Message) × (xs : List Message) × (insert_by k m ms ≡ x ∷ xs)
unfolding insert_by
insert_by-some k m [] = (m, [], refl)
insert_by-some k m (x ∷ ms) = elim (Bool-cases (leb (k m) (k x))) [
  | inl e ↦ (m, x ∷ ms, rw e refl)
  | inr e ↦ (x, insert_by k m ms, rw e refl)
]

select-some :
    (p : Message → Bool) (ms : List Message) {m : Message}
    → In m ms
    → p m ≡ true
    → (x : Message) × (xs : List Message) × (select p ms ≡ x ∷ xs)
unfolding select
select-some p [] i e = elim i [ ]
select-some p (x ∷ ms) at_head e = (x, select p ms, rw e refl)
select-some p (x ∷ ms) {m} (in_tail i) e = elim (Bool-cases (p x)) [
  | inl t ↦ (x, select p ms, rw t refl)
  | inr t ↦ rw t (select-some p ms {m = m} i e)
]

chosen-some :
    (p : Message → Bool) (db : Db) {m : Message}
    → In m db.messages
    → p m ≡ true
    → (x : Message) × (chosen p 1 db ≡ x ∷ []) × Oldest p db.messages x
unfolding order_by take
chosen-some p db {m} i e = elim (chosen_one p db) [
  | inr found ↦ found
  | inl empty ↦
      let (x, xs, sel) = select-some p db.messages {m = m} i e in
      let (y, ys, ins) = insert_by-some (λ a. a.created_at) x (order_by (λ a. a.created_at) xs) in
      let gone = rw sel at empty in let gone' = rw ins at gone in absurd cc
]

module _ (sv : Service) (c : Call) (topic : Text) (timeout : ℕ) (before : Db) where
  abbrev vt : ℕ
  vt = resolve_visibility_timeout sv timeout

  abbrev At : Dbs
  At d c' = d ≡ before

  -- A topic without a limit grants all that is asked for.
  Total-unlimited :
      (want : ℕ)
      → throughput_limit topic before ≡ none
      → Total At (apply_throughput_limit c topic want) (λ n d c'. At d c' × (n ≡ want))
  unfolding apply_throughput_limit limit_to
  Total-unlimited want free =
      Total-bind {R = λ l d c'. At d c' × (l ≡ none)}
        (Total-tx_query (throughput_limit topic)
          (λ d c' h. (h, ap (throughput_limit topic) h ∙ free)))
        (λ l. Total-fact (λ same. rw same (Total-pure want (λ d c' h. (h, refl)))))

  Total-hydrate :
      {P : Dbs} (m : Message) (md : Metadata)
      → decode_metadata sv.libraries m.metadata ≡ some md
      → Total P (hydrate sv.libraries m) (λ r d c'. P d c')
  unfolding hydrate
  Total-hydrate m md e = rw (e, hydrate) (Total-pure _ (λ d c' h. h))

  Total-deliver :
      (m : Message) (md : Metadata)
      → decode_metadata sv.libraries m.metadata ≡ some md
      → Total (λ d c'. Unit) (deliver sv.libraries (claimed c vt m ∷ [])) (λ r d c'. Unit)
  unfolding deliver
  Total-deliver m md e = Total-bind {R = λ r d c'. Unit} (Total-hydrate (claimed c vt m) md e) (λ r.
      Total-bind {R = λ u d c'. Unit} (Total-commit (λ d c' h. tt)) (λ u.
        Total-bind {R = λ v d c'. Unit} (Total-observe (dequeued r.topic) (λ d c' h. tt))
          (λ v. Total-pure r (λ d c' h. tt))))

  Total-dequeue :
      (x : Message) (md : Metadata)
      → chosen (can_claim c topic) 1 before ≡ x ∷ []
      → decode_metadata sv.libraries x.metadata ≡ some md
      → throughput_limit topic before ≡ none
      → Total (λ d c'. c' ≡ before) (dequeue sv c topic timeout) (λ r d c'. Unit)
  unfolding dequeue claim
  Total-dequeue x md one decoded free =
      Total-transaction {P' = At} {R = λ r d c'. Unit} (λ d c' h. h) (λ a d c' h. tt)
        (Total-bind (Total-unlimited 1 free) (λ n. Total-fact (λ same. rw same (
          Total-bind {R = λ rows d c'. Unit × (rows ≡ claimed c vt x ∷ [])}
            (Total-tx_exec _ (λ d c' h. (tt, rw h (rw one refl))))
            (λ rows. Total-fact (λ these. rw these (Total-deliver x md decoded)))))))

-- If no statement fails, the topic has no throughput limit, some row of it can be claimed (pending,
-- visible, not expired, with retries left, not locked), and stored metadata decodes, then Dequeue
-- returns a message.
pub dequeue-Delivers :
    (sv : Service) (c : Call) (topic : Text) (timeout : ℕ) (s : World) (m : Message)
    → Calm s
    → throughput_limit topic s.committed ≡ none
    → ((x : Message)
        → In x s.committed.messages
        → (md : Metadata) × (decode_metadata sv.libraries x.metadata ≡ some md))
    → In m s.committed.messages
    → can_claim c topic m ≡ true
    → (r : Received) × ((dequeue sv c topic timeout s).0 ≡ ok r)
dequeue-Delivers sv c topic timeout s m calm free decodes here e =
    let (x, one, o) = chosen-some (can_claim c topic) s.committed {m = m} here e in
    let (md, decoded) = decodes x o.present in
    let (r, done, t) =
      Succeeds-ok (λ r d c'. Unit) (dequeue sv c topic timeout s)
        ((Total-dequeue sv c topic timeout s.committed x md one decoded free).run s calm refl) in
    (r, done)
