-- ===== src/Queue/Statements.antt =====
-- The statements on `messages`, `message_deliveries` and `message_log` that several methods share,
-- with the constraints of the tables: primary keys, the unique index on pending keys, the cascade
-- from a message to its deliveries, and the trigger trg_mint_deliveries.
use queue_ti.Base.{
  ℕ, Bool, true, not, none, List, [], ◌∷◌, ◌++◌, ◌&&◌, ◌≡◌, arith, ◌==◌, if◌then◌else◌,
}
use queue_ti.Base.Text.{Text, text_eq}
use queue_ti.Base.Table.{NoClash, update, delete, any, any-false}
use queue_ti.Queue.Error.{Result, ok, err, database}
use queue_ti.Queue.Tables.{
  Db, Message, Delivery, Group, LogRow, pending, same_pending_key, same_delivery, has_id,
}

-- No row clashes with a later one, as a test.
unfoldable pub no_clash {ℓ} : {A : Type ℓ} → (A → A → Bool) → List A → Bool
no_clash c [] = true
no_clash c (x ∷ xs) = not (any (c x) xs) && no_clash c xs

-- A table fits idx_messages_topic_key.
abbrev pub keys_unique : List Message → Bool
keys_unique = no_clash same_pending_key

-- UPDATE messages SET … WHERE id = $1, refused where the result breaks the unique index.
unfoldable pub update_message : ℕ → (Message → Message) → Db → Result (Unit {0}) × Db
update_message id f db =
    let after = update (has_id id) f db.messages in
    if keys_unique after then (ok tt, record db { messages = after }) else (err database, db)

-- The primary key of a delivery.
abbrev pub is_delivery : ℕ → Text → Delivery → Bool
is_delivery id group d = d.message_id == id && text_eq d.group group

abbrev pub of_message : ℕ → Delivery → Bool
of_message id d = d.message_id == id

unfoldable pub update_delivery : ℕ → Text → (Delivery → Delivery) → Db → Db
update_delivery id group f db = record db {
  deliveries = update (is_delivery id group) f db.deliveries;
}

-- DELETE FROM messages WHERE p: ON DELETE CASCADE takes the deliveries of the rows.
unfoldable pub delete_messages : (Message → Bool) → Db → Db
delete_messages p db = record db {
  messages = delete p db.messages;
  deliveries = delete (λ d. any (λ m. p m && m.id == d.message_id) db.messages) db.deliveries;
}

-- A delivery row as the table's defaults make it.
abbrev pub new_delivery : ℕ → Text → ℕ → ℕ → Delivery
new_delivery id group max_retries now = record {
  message_id = id;
  group = group;
  status = pending;
  visibility_timeout = none;
  retry_count = 0;
  max_retries = max_retries;
  last_error = none;
  created_at = now;
  updated_at = now;
}

-- INSERT INTO message_deliveries … ON CONFLICT DO NOTHING
unfoldable pub add_delivery : Delivery → List Delivery → List Delivery
add_delivery d ds = if any (same_delivery d) ds then ds else ds ++ d ∷ []

-- fn_mint_deliveries: a delivery for each group that is registered on the topic of the new row.
unfoldable pub mint_deliveries : Message → ℕ → List Group → List Delivery → List Delivery
unfolding add_delivery
mint_deliveries m now [] ds = ds
mint_deliveries m now (g ∷ gs) ds = mint_deliveries m now gs (
    if text_eq g.topic m.topic
    then add_delivery (new_delivery m.id g.group m.max_retries now) ds
    else ds)

-- INSERT INTO messages, with the trigger behind it. The caller has looked at the constraints.
unfoldable pub insert_message : Message → ℕ → Db → Db
insert_message m now db = record db {
  messages = db.messages ++ m ∷ [];
  deliveries = mint_deliveries m now db.groups db.deliveries;
}

-- INSERT INTO message_log, whose primary key is (topic, acked_at, id).
unfoldable pub insert_log : LogRow → Db → Result (Unit {0}) × Db
insert_log r db =
    if any (λ q. text_eq q.topic r.topic && q.acked_at == r.acked_at && q.id == r.id) db.log
    then (err database, db)
    else (ok tt, record db { log = db.log ++ r ∷ [] })

pub no_clash-NoClash {ℓ} :
    {A : Type ℓ} (c : A → A → Bool) (xs : List A) → no_clash c xs ≡ true → NoClash c xs
unfolding no_clash
no_clash-NoClash c [] h = tt
no_clash-NoClash c (x ∷ xs) h =
    (any-false (c x) xs (ground arith), no_clash-NoClash c xs (ground arith))
