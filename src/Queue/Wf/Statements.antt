-- ===== src/Queue/Wf/Statements.antt =====
-- Every statement on the tables keeps them well formed.
use queue_ti.Base.{
  ℕ, Bool, true, false, List, [], ◌∷◌, ◌++◌, ◌&&◌, ◌==◌, ◌≡◌, arith, Bool-cases, inl, inr,
}
use queue_ti.Base.Text.{text_eq}
use queue_ti.Base.Table.{
  All, All-imp, All-append, All-update, All-delete, NoClash, NoClash-update, NoClash-delete, update,
  delete, any,
}
use queue_ti.Queue.Tables.{
  Db, Message, Delivery, Group, LogRow, same_id, same_pending_key, same_delivery, has_id,
}
use queue_ti.Queue.Op.Keeps.{KeepsDb, Any}
use queue_ti.Queue.Statements.{
  no_clash-NoClash, keys_unique, update_message, delete_messages, new_delivery, add_delivery,
  mint_deliveries, insert_message, insert_log,
}
use queue_ti.Queue.Wf.{Wf, IsRow, IsLogRow}
use queue_ti.Queue.Wf.Keys.{
  NoClash-insert, same_id_comm, same_pending_key_comm, add_delivery-NoClash, any-append-left,
  any-append-last, any-has_id-update, any-has_id-delete, All-delete-not,
}

abbrev HasMessage : List Message → Delivery → Type 0
HasMessage ms d = any (has_id d.message_id) ms ≡ true

-- An UPDATE of messages keeps the ids and the references, whatever it does to the other columns.
module _ (p : Message → Bool) (f : Message → Message) (same : (m : Message) → (f m).id ≡ m.id) where
  pub update-ids : (ms : List Message) → NoClash same_id ms → NoClash same_id (update p f ms)
  update-ids ms h = NoClash-update same_id p f ms (λ a b e. ground (arith, same a, same b)) h

  pub update-references :
      (ms : List Message) (ds : List Delivery)
      → All (HasMessage ms) ds
      → All (HasMessage (update p f ms)) ds
  update-references ms ds h =
      All-imp {P = HasMessage ms} ds (λ d e. rw (any-has_id-update d.message_id p f ms same) e) h

  -- UPDATE messages … for rows that stay well formed and leave the index of pending keys.
  pub update-Wf :
      (db : Db)
      → ((m : Message) → p m ≡ true → IsRow m → IsRow (f m))
      → NoClash same_pending_key (update p f db.messages)
      → Wf db
      → Wf (record db { messages = update p f db.messages })
  update-Wf db row unique w = record {
    ids = update-ids db.messages w.ids;
    keys = unique;
    rows = All-update IsRow p f db.messages row w.rows;
    archived = w.archived;
    pairs = w.pairs;
    references = update-references db.messages db.deliveries w.references;
  }

-- UPDATE messages … WHERE id = $1
pub update_message-Wf :
    (id : ℕ) (f : Message → Message)
    → ((m : Message) → (f m).id ≡ m.id)
    → ((m : Message) → IsRow m → IsRow (f m))
    → KeepsDb Wf Any (update_message id f)
unfolding update_message
update_message-Wf id f same row db w =
    elim (Bool-cases (keys_unique (update (has_id id) f db.messages))) [
      | inl e ↦ rw e (
        update-Wf (has_id id) f same db (λ m _ r. row m r)
            (no_clash-NoClash same_pending_key (update (has_id id) f db.messages) e) w,
        tt,
      )
      | inr e ↦ rw e (w, tt)
    ]

-- UPDATE message_deliveries … keeps the keys of the deliveries.
pub update_deliveries-Wf :
    (p : Delivery → Bool) (f : Delivery → Delivery)
    → ((d : Delivery) → (f d).message_id ≡ d.message_id)
    → ((d : Delivery) → (f d).group ≡ d.group)
    → (db : Db) → Wf db
    → Wf (record db { deliveries = update p f db.deliveries })
update_deliveries-Wf p f same_m same_g db w = record {
  ids = w.ids;
  keys = w.keys;
  rows = w.rows;
  archived = w.archived;
  pairs =
      NoClash-update same_delivery p f db.deliveries
        (λ a b e. ground (arith, same_m a, same_m b, same_g a, same_g b)) w.pairs;
  references =
      All-update (HasMessage db.messages) p f db.deliveries (λ d _ e. rw (same_m d) e) w.references;
}

pub delete_deliveries-Wf :
    (p : Delivery → Bool) (db : Db) → Wf db → Wf (record db { deliveries = delete p db.deliveries })
delete_deliveries-Wf p db w = record {
  ids = w.ids;
  keys = w.keys;
  rows = w.rows;
  archived = w.archived;
  pairs = NoClash-delete same_delivery p db.deliveries w.pairs;
  references = All-delete (HasMessage db.messages) p db.deliveries w.references;
}

-- The cascade removes what would refer to nothing.
keep-references :
    (p : Message → Bool) (ms : List Message) (ds : List Delivery)
    → All (HasMessage ms) ds
    → All (λ d. any (λ m. p m && m.id == d.message_id) ms ≡ false) ds
    → All (HasMessage (delete p ms)) ds
keep-references p ms [] h k = tt
keep-references p ms (d ∷ ds) h k =
    (any-has_id-delete d.message_id p ms h.0 k.0, keep-references p ms ds h.1 k.1)

pub delete_messages-Wf : (p : Message → Bool) (db : Db) → Wf db → Wf (delete_messages p db)
unfolding delete_messages
delete_messages-Wf p db w = record {
  ids = NoClash-delete same_id p db.messages w.ids;
  keys = NoClash-delete same_pending_key p db.messages w.keys;
  rows = All-delete IsRow p db.messages w.rows;
  archived = w.archived;
  pairs = NoClash-delete same_delivery gone db.deliveries w.pairs;
  references =
      keep-references p db.messages (delete gone db.deliveries)
        (All-delete (HasMessage db.messages) gone db.deliveries w.references)
        (All-delete-not gone db.deliveries);
}
  where
    gone : Delivery → Bool
    gone d = any (λ m. p m && m.id == d.message_id) db.messages

pub add_delivery-references :
    (ms : List Message) (d : Delivery) (ds : List Delivery)
    → HasMessage ms d
    → All (HasMessage ms) ds
    → All (HasMessage ms) (add_delivery d ds)
unfolding add_delivery
add_delivery-references ms d ds h k = elim (Bool-cases (any (same_delivery d) ds)) [
  | inl e ↦ rw e k
  | inr e ↦ rw e (All-append (HasMessage ms) ds (d ∷ []) k (h, tt))
]

mint_deliveries-pairs :
    (m : Message) (now : ℕ) (gs : List Group) (ds : List Delivery)
    → NoClash same_delivery ds
    → NoClash same_delivery (mint_deliveries m now gs ds)
unfolding mint_deliveries
mint_deliveries-pairs m now [] ds h = h
mint_deliveries-pairs m now (g ∷ gs) ds h = elim (Bool-cases (text_eq g.topic m.topic)) [
  | inl e ↦ rw e (mint_deliveries-pairs m now gs _ (add_delivery-NoClash _ ds h))
  | inr e ↦ rw e (mint_deliveries-pairs m now gs ds h)
]

mint_deliveries-references :
    (ms : List Message) (m : Message) (now : ℕ) (gs : List Group) (ds : List Delivery)
    → any (has_id m.id) ms ≡ true
    → All (HasMessage ms) ds
    → All (HasMessage ms) (mint_deliveries m now gs ds)
unfolding mint_deliveries
mint_deliveries-references ms m now [] ds h k = k
mint_deliveries-references ms m now (g ∷ gs) ds h k = elim (Bool-cases (text_eq g.topic m.topic)) [
  | inl e ↦ rw e (
      mint_deliveries-references ms m now gs _ h
        (add_delivery-references ms (new_delivery m.id g.group m.max_retries now) ds h k))
  | inr e ↦ rw e (mint_deliveries-references ms m now gs ds h k)
]

-- INSERT INTO messages where neither unique index holds a row that clashes.
pub insert_message-Wf :
    (m : Message) (now : ℕ) (db : Db)
    → IsRow m
    → any (same_id m) db.messages ≡ false
    → any (same_pending_key m) db.messages ≡ false
    → Wf db
    → Wf (insert_message m now db)
unfolding insert_message
insert_message-Wf m now db row new_id new_key w = record {
  ids = NoClash-insert same_id same_id_comm m db.messages new_id w.ids;
  keys = NoClash-insert same_pending_key same_pending_key_comm m db.messages new_key w.keys;
  rows = All-append IsRow db.messages (m ∷ []) w.rows (row, tt);
  archived = w.archived;
  pairs = mint_deliveries-pairs m now db.groups db.deliveries w.pairs;
  references =
      mint_deliveries-references (db.messages ++ m ∷ []) m now db.groups db.deliveries
        (any-append-last (has_id m.id) db.messages m (ground arith))
        (All-imp {P = HasMessage db.messages} db.deliveries
          (λ d e. any-append-left (has_id d.message_id) db.messages (m ∷ []) e) w.references);
}

pub insert_log-Wf : (r : LogRow) → IsLogRow r → KeepsDb Wf Any (insert_log r)
unfolding insert_log
insert_log-Wf r row db w =
    elim (Bool-cases
      (any (λ q. text_eq q.topic r.topic && q.acked_at == r.acked_at && q.id == r.id) db.log)) [
        | inl e ↦ rw e (w, tt)
        | inr e ↦ rw e (
          record {
            ids = w.ids;
            keys = w.keys;
            rows = w.rows;
            archived = All-append IsLogRow db.log (r ∷ []) w.archived (row, tt);
            pairs = w.pairs;
            references = w.references;
          },
          tt,
        )
      ]
