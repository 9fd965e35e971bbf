-- ===== src/Client/Consumer.antt =====
-- consumer.go of clients/go-client: Consume and the dispatch of messages to a handler.
pub mod Runs
use queue_ti.Base.{ℕ, Bool, true, false, List, [], ◌∷◌, ◌++◌, ◌*◌, map, ltb, if◌then◌else◌}
use queue_ti.Base.Text.{Text, bytes}

abbrev pub backoff_start : ℕ
backoff_start = 500000000

abbrev pub backoff_max : ℕ
backoff_max = 30000000000

unfoldable pub client_next_backoff : ℕ → ℕ
client_next_backoff b = if ltb backoff_max (b * 2) then backoff_max else b * 2

-- What the handler does with a message: it returns nil, returns an error or panics.
pub data Handled : Type 0 where
  returns_nil : Handled
  returns_error panics : Text → Handled

-- The call that follows: Ack, or Nack with the text of the error.
pub data Settled : Type 0 where
  acked : Text → Settled
  nacked : Text → Text → Settled

-- dispatch for the message with the id.
unfoldable pub dispatch : Text → Handled → Settled
dispatch id returns_nil = acked id
dispatch id (returns_error reason) = nacked id reason
dispatch id (panics value) = nacked id (bytes "panic in handler: " ++ value)

-- How a stream ends: by EOF or the end of the context, or by an error.
pub data StreamEnd : Type 0 where
  clean broken : StreamEnd

-- A round of Consume: Subscribe fails, or a stream gives messages, with what the handler does with
-- each, and ends. The flags say that the context is over: before the wait and during it for a failed
-- Subscribe, at the end or during the wait for a stream.
pub data Attempt : Type 0 where
  fails : Bool → Bool → Attempt
  streams : List (Text × Handled) → StreamEnd → Bool → Attempt

-- The waits, the calls of the dispatches in the order in which the messages came, and whether
-- Consume has returned.
pub record Run : Type 0 where
  pub waits : List ℕ
  pub settled : List Settled
  pub returned : Bool

abbrev pub at_end : Bool → Run
at_end returned = record { waits = []; settled = []; returned = returned }

abbrev pub after_wait : ℕ → Run → Run
after_wait w r = record r { waits = w ∷ r.waits }

abbrev pub after_stream : List (Text × Handled) → Run → Run
after_stream ms r = record r {
  settled = map (λ (m : Text × Handled). dispatch m.0 m.1) ms ++ r.settled;
}

-- The first message of a stream resets the backoff.
abbrev pub reset_by : List (Text × Handled) → ℕ → ℕ
reset_by [] backoff = backoff
reset_by (m ∷ ms) backoff = backoff_start

-- Consume, for as many rounds as are given.
unfoldable pub consume : ℕ → List Attempt → Run
unfolding dispatch
consume backoff [] = at_end false
consume backoff (fails over gone ∷ rest) =
    let next = consume (client_next_backoff backoff) rest in
    if over then at_end true else after_wait backoff (if gone then at_end true else next)
consume backoff (streams ms clean gone ∷ rest) =
    let next = consume (reset_by ms backoff) rest in
    after_stream ms (if gone then at_end true else next)
consume backoff (streams ms broken gone ∷ rest) =
    let next = consume (client_next_backoff (reset_by ms backoff)) rest in
    after_stream ms (after_wait (reset_by ms backoff) (if gone then at_end true else next))
