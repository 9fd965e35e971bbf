-- ===== src/Queue/Dequeue/Exclusive.antt =====
-- Claims exclude each other.
use queue_ti.Base.{ℕ, Bool, true, false, List, [], ◌∷◌, ◌≡◌, refl, arith, Bool-cases, inl, inr}
use queue_ti.Base.Table.{All, All-select, All-update, any, update, select}
use queue_ti.Base.Order.{All-order_by, All-take, All-select-test}
use queue_ti.Base.Text.{Text}
use queue_ti.Queue.Tables.{Db, Message, same_id, status_eq, pending}
use queue_ti.Queue.Service.{Call}
use queue_ti.Queue.Dequeue.{chosen, claim, claimed, can_claim}

-- Every row that bears the id of a chosen one is not pending.
Taken : List Message → Message → Type 0
Taken rows m = any (same_id m) rows ≡ true → status_eq m.status pending ≡ false

claimed_rows :
    (c : Call) (vt : ℕ) (rows ms : List Message)
    → All (Taken rows) (update (λ m. any (same_id m) rows) (claimed c vt) ms)
unfolding update Taken
claimed_rows c vt rows [] = tt
claimed_rows c vt rows (x ∷ ms) = elim (Bool-cases (any (same_id x) rows)) [
  | inl e ↦ rw e ((λ t. refl), claimed_rows c vt rows ms)
  | inr e ↦ rw e ((λ t. absurd (ground (arith, e, t))), claimed_rows c vt rows ms)
]

-- What a claim asks for: the call, the timeout, the topic and the number of rows.
pub record Claim : Type 0 where
  pub call : Call
  pub timeout : ℕ
  pub topic : Text
  pub size : ℕ

-- The tables after claims of Dequeue or BatchDequeue, one after the other.
abbrev pub after_claims : List Claim → Db → Db
after_claims [] db = db
after_claims (k ∷ ks) db =
    after_claims ks (claim k.call k.timeout (can_claim k.call k.topic) k.size db).1

-- A claim leaves no taken row pending.
update-Taken :
    (rows : List Message) (c : Call) (vt : ℕ) (p : Message → Bool) (ms : List Message)
    → All (Taken rows) ms
    → All (Taken rows) (update p (claimed c vt) ms)
unfolding Taken
update-Taken rows c vt p ms h = All-update (Taken rows) p (claimed c vt) ms (λ m e k. λ t. refl) h

after_claims-Taken :
    (rows : List Message) (ks : List Claim) (db : Db)
    → All (Taken rows) db.messages
    → All (Taken rows) (after_claims ks db).messages
unfolding claim
after_claims-Taken rows [] db h = h
after_claims-Taken rows (k ∷ ks) db h =
    after_claims-Taken rows ks _ (update-Taken rows k.call k.timeout _ db.messages h)

-- Of tables where no taken row is pending, no taken row is chosen.
chosen-free :
    (rows : List Message) (c : Call) (topic : Text) (n : ℕ) (db : Db)
    → All (Taken rows) db.messages
    → All (λ m. any (same_id m) rows ≡ false) (chosen (can_claim c topic) n db)
unfolding Taken
chosen-free rows c topic n db h = All-take Free n _ (
    All-order_by Free (λ m. m.created_at) _
      (free (select (can_claim c topic) db.messages)
        (All-select (Taken rows) (can_claim c topic) db.messages h)
        (All-select-test (can_claim c topic) db.messages)))
  where
    Free : Message → Type 0
    Free m = any (same_id m) rows ≡ false

    free :
        (xs : List Message)
        → All (Taken rows) xs
        → All (λ m. can_claim c topic m ≡ true) xs
        → All Free xs
    free [] h k = tt
    free (x ∷ xs) h k = (idle x (h.0) k.0, free xs h.1 k.1)
      where
        idle : (m : Message) → Taken rows m → can_claim c topic m ≡ true → Free m
        idle m t e = elim (Bool-cases (any (same_id m) rows)) [
          | inl y ↦ absurd (ground (arith, e, t y))
          | inr y ↦ y
        ]

-- Claims alone never give a row twice: after a claim by any rule, and then any further claims of any
-- topics, times and sizes, one more claim chooses no row with the id of a row that the first one
-- chose. This holds at any time, also past the visibility timeout of the first claim.
pub claim-exclusive :
    (c c' : Call) (vt n n' : ℕ) (p : Message → Bool) (ks : List Claim) (topic : Text) (db : Db)
    → All
        (λ m. any (same_id m) (chosen p n db) ≡ false)
        (chosen (can_claim c' topic) n' (after_claims ks (claim c vt p n db).1))
unfolding claim
claim-exclusive c c' vt n n' p ks topic db =
    chosen-free (chosen p n db) c' topic n' (after_claims ks (claim c vt p n db).1) (
      after_claims-Taken (chosen p n db) ks (claim c vt p n db).1
        (claimed_rows c vt (chosen p n db) db.messages))
