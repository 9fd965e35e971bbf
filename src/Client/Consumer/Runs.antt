-- ===== src/Client/Consumer/Runs.antt =====
-- consumer.go of clients/go-client: the waits of Consume, and what becomes of the messages.
use queue_ti.Base.{
  ℕ, ◌≤◌, ◌≡◌, refl, Bool, true, false, List, [], ◌∷◌, ◌++◌, map, arith, if◌then◌else◌,
}
use queue_ti.Base.Text.{Text}
use queue_ti.Base.Table.{All}
use queue_ti.Client.Consumer.{
  backoff_start, backoff_max, client_next_backoff, Handled, returns_nil, returns_error, panics,
  Settled, acked, nacked, dispatch, clean, broken, Attempt, fails, streams, Run, at_end, after_wait,
  reset_by, consume,
}

abbrev pub InRange : ℕ → Type 0
InRange w = (backoff_start ≤ w) × (w ≤ backoff_max)

pub client_next_backoff-InRange : (b : ℕ) → InRange b → InRange (client_next_backoff b)
unfolding client_next_backoff
client_next_backoff-InRange b h = (ground arith, ground arith)

reset_by-InRange : (ms : List (Text × Handled)) (b : ℕ) → InRange b → InRange (reset_by ms b)
reset_by-InRange [] b h = h
reset_by-InRange (m ∷ ms) b h = (omega arith, omega arith)

-- The messages of all streams, in order, as far as Consume runs.
unfoldable pub received : List Attempt → List (Text × Handled)
received [] = []
received (fails over gone ∷ rest) =
    let next = received rest in if over then [] else if gone then [] else next
received (streams ms e gone ∷ rest) = let next = received rest in ms ++ (if gone then [] else next)

-- A message is acked if its handler returned nil, and nacked otherwise.
abbrev pub is_success : Handled → Bool
is_success returns_nil = true
is_success (returns_error reason) = false
is_success (panics value) = false

abbrev pub Fate : List (Text × Handled) → List Settled → Type 0
Fate [] [] = Unit
Fate ((id, h) ∷ ms) (acked id' ∷ ss) = ((id' ≡ id) × (is_success h ≡ true)) × Fate ms ss
Fate ((id, h) ∷ ms) (nacked id' reason ∷ ss) = ((id' ≡ id) × (is_success h ≡ false)) × Fate ms ss
Fate _ _ = ⊥

Fate-append :
    (ms ns : List (Text × Handled)) (ss : List Settled)
    → Fate ns ss
    → Fate (ms ++ ns) (map (λ (m : Text × Handled). dispatch m.0 m.1) ms ++ ss)
unfolding dispatch
Fate-append [] ns ss f = f
Fate-append ((id, returns_nil) ∷ ms) ns ss f = ((refl, refl), Fate-append ms ns ss f)
Fate-append ((id, returns_error reason) ∷ ms) ns ss f = ((refl, refl), Fate-append ms ns ss f)
Fate-append ((id, panics value) ∷ ms) ns ss f = ((refl, refl), Fate-append ms ns ss f)

abbrev pub Served : List (Text × Handled) → Run → Type 0
Served ms r = All InRange r.waits × Fate ms r.settled

Served-if :
    (gone : Bool) (ms : List (Text × Handled)) (r : Run)
    → Served ms r
    → Served (if gone then [] else ms) (if gone then at_end true else r)
Served-if true ms r h = (tt, tt)
Served-if false ms r h = h

-- From a backoff within its range, each wait of Consume is between 500 milliseconds and 30 seconds,
-- however its rounds go; and each message that it received, in order, is settled once: acked if the
-- handler returned nil, nacked if it returned an error or panicked.
pub consume-Served :
    (backoff : ℕ) (rounds : List Attempt)
    → InRange backoff
    → Served (received rounds) (consume backoff rounds)
unfolding consume received
consume-Served backoff [] h = (tt, tt)
consume-Served backoff (fails over gone ∷ rest) h =
    let (waits, fate) =
      Served-if gone (received rest) _ (
        consume-Served (client_next_backoff backoff) rest
          (client_next_backoff-InRange backoff h)) in
    Served-if over _ (after_wait backoff _) ((h, waits), fate)
consume-Served backoff (streams ms clean gone ∷ rest) h =
    let (waits, fate) =
      Served-if gone (received rest) _
        (consume-Served (reset_by ms backoff) rest (reset_by-InRange ms backoff h)) in
    (waits, Fate-append ms _ _ fate)
consume-Served backoff (streams ms broken gone ∷ rest) h =
    let b = reset_by-InRange ms backoff h in
    let (waits, fate) = Served-if gone (received rest) _ (
      consume-Served (client_next_backoff (reset_by ms backoff)) rest
        (client_next_backoff-InRange (reset_by ms backoff) b)) in
    ((b, waits), Fate-append ms _ _ fate)
