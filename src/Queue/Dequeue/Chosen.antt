-- ===== src/Queue/Dequeue/Chosen.antt =====
-- The rows that a claim chooses: each passes the test, and the oldest comes first.
use queue_ti.Base.{◌≤◌, Bool, true, List, [], ◌∷◌, ◌≡◌, refl, arith, ◌⊎◌, inl, inr}
use queue_ti.Base.Table.{All, select, update, order_by, take}
use queue_ti.Base.Order.{
  In, own_rows, All-select-test, All-of_select, All-order_by, All-of_order_by, order_by-HeadLeast,
}
use queue_ti.Base.Table.{All-select}
use queue_ti.Queue.Tables.{Db, Message}
use queue_ti.Queue.Dequeue.{chosen}

-- The oldest of the rows that pass the test.
pub record Oldest (p : Message → Bool) (ms : List Message) (m : Message) : Type 0 where
  pub present : In m ms
  pub passes : p m ≡ true
  pub least : All (λ x. p x ≡ true → m.created_at ≤ x.created_at) ms

module _ (p : Message → Bool) (ms : List Message) where
  chosen_of :
      (rows : List Message)
      → order_by (λ m. m.created_at) (select p ms) ≡ rows
      → (take 1 rows ≡ []) ⊎ ((m : Message) × (take 1 rows ≡ m ∷ []) × Oldest p ms m)
  unfolding take
  chosen_of [] e = inl refl
  chosen_of (m ∷ rest) e =
      let sits = rw e at (
        All-order_by (λ a. In a ms) (λ x. x.created_at) (select p ms)
          (All-select (λ a. In a ms) p ms (own_rows ms))) in
      let tested =
        rw e at (
          All-order_by (λ a. p a ≡ true) (λ x. x.created_at) (select p ms)
            (All-select-test p ms)) in
      let head = rw e at (order_by-HeadLeast (λ (x : Message). x.created_at) (select p ms)) in
      inr (
        m,
        refl,
        record {
          present = sits.0;
          passes = tested.0;
          least =
              All-of_select (λ x. m.created_at ≤ x.created_at) p ms
                (All-of_order_by (λ x. m.created_at ≤ x.created_at) (λ x. x.created_at)
                  (select p ms) (rw e (omega arith, head)));
        },
      )

pub chosen_one :
    (p : Message → Bool) (db : Db)
    → (chosen p 1 db ≡ []) ⊎ ((m : Message) × (chosen p 1 db ≡ m ∷ []) × Oldest p db.messages m)
chosen_one p db = chosen_of p db.messages _ refl

-- An update by two tests that agree.
pub update_cong :
    (p q : Message → Bool) (f : Message → Message) (ms : List Message)
    → ((m : Message) → p m ≡ q m)
    → update p f ms ≡ update q f ms
unfolding update
update_cong p q f [] h = refl
update_cong p q f (x ∷ ms) h = cc (h x, update_cong p q f ms h)
