-- ===== src/Client/Batches.antt =====
-- consumer.go of clients/go-client: ConsumeBatch, which polls.
use queue_ti.Base.{ℕ, Bool, true, false, List, [], ◌∷◌, arith, if◌then◌else◌}
use queue_ti.Base.Text.{Text}
use queue_ti.Base.Table.{All}
use queue_ti.Client.Consumer.{backoff_start, client_next_backoff}
use queue_ti.Client.Consumer.Runs.{InRange, client_next_backoff-InRange}

-- A round of ConsumeBatch: the context is over at its start; or BatchDequeue fails, with the context
-- over before the wait or during it; or it gives the ids of the messages, with the context over
-- during the wait when there are none.
pub data Poll : Type 0 where
  over : Poll
  fails : Bool → Bool → Poll
  gives : List Text → Bool → Poll

-- The waits, the batches that the handler was called with, and whether ConsumeBatch has returned.
-- What the handler returns is only logged.
pub record Polling : Type 0 where
  pub waits : List ℕ
  pub batches : List (List Text)
  pub returned : Bool

abbrev pub stops : Bool → Polling
stops returned = record { waits = []; batches = []; returned = returned }

abbrev pub pauses : ℕ → Polling → Polling
pauses w r = record r { waits = w ∷ r.waits }

abbrev pub hands_over : List Text → Polling → Polling
hands_over ids r = record r { batches = ids ∷ r.batches }

unfoldable pub consume_batch : ℕ → List Poll → Polling
consume_batch backoff [] = stops false
consume_batch backoff (over ∷ rest) = stops true
consume_batch backoff (fails ended gone ∷ rest) =
    let next = consume_batch (client_next_backoff backoff) rest in
    if ended then stops true else pauses backoff (if gone then stops true else next)
consume_batch backoff (gives [] gone ∷ rest) =
    let next = consume_batch (client_next_backoff backoff) rest in
    pauses backoff (if gone then stops true else next)
consume_batch backoff (gives (id ∷ ids) gone ∷ rest) =
    hands_over (id ∷ ids) (consume_batch backoff_start rest)

abbrev pub HasRows : List Text → Type 0
HasRows [] = ⊥
HasRows (id ∷ ids) = Unit

-- Waits within their range, and batches that are not empty.
abbrev pub Steady : Polling → Type 0
Steady r = All InRange r.waits × All HasRows r.batches

Steady-if : (b : Bool) (r : Polling) → Steady r → Steady (if b then stops true else r)
Steady-if true r h = (tt, tt)
Steady-if false r h = h

-- From a backoff within its range, each wait of ConsumeBatch is between 500 milliseconds and 30
-- seconds, and its handler is never called with an empty batch, however the polls go.
pub consume_batch-Steady :
    (backoff : ℕ) (polls : List Poll) → InRange backoff → Steady (consume_batch backoff polls)
unfolding consume_batch
consume_batch-Steady backoff [] h = (tt, tt)
consume_batch-Steady backoff (over ∷ rest) h = (tt, tt)
consume_batch-Steady backoff (fails ended gone ∷ rest) h =
    let (waits, batches) = Steady-if gone _ (
      consume_batch-Steady (client_next_backoff backoff) rest
        (client_next_backoff-InRange backoff h)) in
    Steady-if ended (pauses backoff _) ((h, waits), batches)
consume_batch-Steady backoff (gives [] gone ∷ rest) h =
    let (waits, batches) = Steady-if gone _ (
      consume_batch-Steady (client_next_backoff backoff) rest
        (client_next_backoff-InRange backoff h)) in
    ((h, waits), batches)
consume_batch-Steady backoff (gives (id ∷ ids) gone ∷ rest) h =
    let (waits, batches) = consume_batch-Steady backoff_start rest (omega arith, omega arith) in
    (waits, (tt, batches))
