-- ===== src/Server/Lookup.antt =====
-- The lookups that the checks of both servers start with: the topic of a message, and the grants of a
-- user.
use queue_ti.Base.{ℕ, ◌≡◌, refl, Option, none, some, List}
use queue_ti.Base.Text.{Text}
use queue_ti.Base.Table.{first}
use queue_ti.Base.Postgres.{Postgres}
use queue_ti.Queue.Error.{Error, ok, database, not_found}
use queue_ti.Queue.Tables.{Db, Message, has_id}
use queue_ti.Queue.Op.{World, raise}
use queue_ti.Queue.Op.Inert.{Inert, Inert-bind, Inert-pure, Inert-raise, Inert-pool_query}
use queue_ti.Queue.Op.Triple.{
  Triple, Triple-bind, Triple-pool_query, Triple-pure, Triple-raise, ok-IfOk,
}
use queue_ti.Queue.Queries.{topic_for_message, topic_or_absent}
use queue_ti.Users.Permissions.{Grant}
use queue_ti.Server.Handler.{Site, Handler, on_queue, ◌>>=◌, by_id, on_store}
use queue_ti.Server.Quiet.{SameTables, Barred, Quiet-on_queue, Quiet-on_store, Barred-bind}
use queue_ti.Server.Grants.{grants_held, get_user_grants-Given}
use queue_ti.Users.Store.{StoreError, get_user_grants}

abbrev pub row_of : Option ℕ → Db → Option Message
row_of none db = none
row_of (some i) db = first (has_id i) db.messages

pub topic_for_message-Inert : (i : ℕ) → Inert (topic_for_message i)
unfolding topic_for_message
topic_for_message-Inert i = Inert-bind (Inert-pool_query _) by_row
  where
    by_row : (o : Option Message) → Inert (topic_or_absent o)
    by_row none = Inert-raise not_found
    by_row (some m) = Inert-pure m.topic

-- The topic is that of the message.
pub topic_for_message-row :
    (i : ℕ) (s : World) (topic : Text)
    → (topic_for_message i s).0 ≡ ok topic
    → (m : Message) × ((first (has_id i) s.committed.messages ≡ some m) × (m.topic ≡ topic))
unfolding topic_for_message
topic_for_message-row i s topic e = ok-IfOk (λ t _ _ _. Row t) _ (found.run s refl) e
  where
    Row : Text → Type 0
    Row t = (m : Message) × ((first (has_id i) s.committed.messages ≡ some m) × (m.topic ≡ t))

    by_row :
        (o : Option Message)
        → Triple
            (λ _ _ _. first (has_id i) s.committed.messages ≡ o)
            (topic_or_absent o)
            (λ t _ _ _. Row t)
    by_row none = Triple-raise not_found
    by_row (some m) = Triple-pure m.topic (λ _ _ _ h. (m, (h, refl)))

    found : Triple (λ _ c _. c ≡ s.committed) (topic_for_message i) (λ t _ _ _. Row t)
    found =
        Triple-bind {R = λ o _ _ _. first (has_id i) s.committed.messages ≡ o}
          (Triple-pool_query _ (λ d c l h. rw h refl)) by_row

module _ {ℓ} {E : Type 0} {A : Type ℓ} where
  -- A request that is barred once the topic of the message is known; without the message it is
  -- refused.
  pub lookup-Barred :
      (status : Error → E) (o : Option ℕ) (f : Text → Handler E A) (s : Site)
      → ((m : Message) (t : Site)
          → row_of o s.queue.committed ≡ some m
          → SameTables s t
          → Barred t (f m.topic t))
      → Barred s ((on_queue status (by_id o topic_for_message) >>= f) s)
  unfolding raise
  lookup-Barred status none f s k =
      Barred-bind (λ _. ⊥) _ f s (Quiet-on_queue _ status _ s (Inert-raise database) (λ a g. cc))
        (λ topic t h same. absurd h)
  lookup-Barred status (some i) f s k =
      Barred-bind
        (λ topic.
          (m : Message) × ((first (has_id i) s.queue.committed.messages ≡ some m)
            × (m.topic ≡ topic)))
        _ f s
        (Quiet-on_queue _ status _ s (topic_for_message-Inert i) (topic_for_message-row i s.queue))
        (λ topic t h same. let (m, (row, e)) = h in rw (← e) (k m t row same))

  -- A request that is barred by the grants that the user holds.
  pub held-Barred :
      (status : StoreError → E) (pg : Postgres) (user_id : Text) (f : List Grant → Handler E A)
      (s : Site)
      → ((t : Site) → SameTables s t → Barred t (f (grants_held pg user_id s.accounts) t))
      → Barred s ((on_store status (get_user_grants pg user_id) >>= f) s)
  held-Barred status pg user_id f s k =
      let store = get_user_grants-Given pg user_id s.accounts in
      Barred-bind (λ gs. gs ≡ grants_held pg user_id s.accounts) _ f s
        (Quiet-on_store _ status _ s store.0 store.1) (λ gs t e same. rw e (k t same))
