-- ===== src/Queue/Enqueue/Upsert.antt =====
-- enqueue.go: where the upsert places a message.
use queue_ti.Base.{
  ℕ, false, none, some, [], ◌∷◌, ◌++◌, ◌≡◌, refl, inl, inr, Bool-cases, Option-cases,
}
use queue_ti.Base.Table.{any, first, update}
use queue_ti.Queue.Tables.{Db, Message, same_id, same_pending_key, has_id}
use queue_ti.Queue.Op.Triple.{AfterDb}
use queue_ti.Queue.Statements.{mint_deliveries, insert_message}
use queue_ti.Queue.Enqueue.{merged, upsert_message}

-- A row before and after it has taken over the content of `new`.
pub record Merges (new m m' : Message) : Type 0 where
  pub payload : m'.payload ≡ new.payload
  pub metadata : m'.metadata ≡ new.metadata
  pub max_retries : m'.max_retries ≡ new.max_retries
  pub same_id : m'.id ≡ m.id
  pub same_topic : m'.topic ≡ m.topic
  pub same_key : m'.key ≡ m.key
  pub same_status : m'.status ≡ m.status
  pub same_count : m'.retry_count ≡ m.retry_count
  pub same_expiry : m'.expires_at ≡ m.expires_at
  pub same_age : m'.created_at ≡ m.created_at

merged-Merges : (new m : Message) → Merges new m (merged new m)
merged-Merges new m = record {
  payload = refl;
  metadata = refl;
  max_retries = refl;
  same_id = refl;
  same_topic = refl;
  same_key = refl;
  same_status = refl;
  same_count = refl;
  same_expiry = refl;
  same_age = refl;
}

-- The tables after the message `new` is placed, and the id of its row.
pub data Placed (new : Message) (now : ℕ) (before : Db) : ℕ → Db → Type 0 where
  inserted :
      first (same_pending_key new) before.messages ≡ none
      → any (same_id new) before.messages ≡ false
      → Placed new now before new.id (record before {
        messages = before.messages ++ new ∷ [];
        deliveries = mint_deliveries new now before.groups before.deliveries;
      })
  replaced :
      (old : Message) (f : Message → Message)
      → first (same_pending_key new) before.messages ≡ some old
      → ((m : Message) → Merges new m (f m))
      → Placed new now before old.id
          (record before { messages = update (has_id old.id) f before.messages })

pub upsert_message-Placed :
    (new : Message) (now : ℕ) (before : Db)
    → AfterDb (λ id d. Placed new now before id d) (upsert_message new now before)
unfolding upsert_message insert_message
upsert_message-Placed new now before =
    elim (Option-cases (first (same_pending_key new) before.messages)) [
      | inr (old, e) ↦ rw (e, upsert_message) (replaced old (merged new) e (merged-Merges new))
      | inl e ↦ elim (Bool-cases (any (same_id new) before.messages)) [
        | inl d ↦ rw (e, upsert_message) (rw d tt)
        | inr d ↦ rw (e, upsert_message) (rw d (inserted e d))
      ]
    ]
