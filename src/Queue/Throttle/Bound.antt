-- ===== src/Queue/Throttle/Bound.antt =====
-- How much a token bucket lets through.
use queue_ti.Base.{
  ℕ, ◌-◌, ◌+◌, ◌*◌, ◌≤◌, List, [], ◌∷◌, ◌≡◌, refl, ap, arith, Bool-cases, inl, inr, ltb,
}
use queue_ti.Base.Int.{pos, sub_ℕ}
use queue_ti.Queue.Tables.{Bucket}
use queue_ti.Queue.Config.{second}
use queue_ti.Queue.Throttle.{min_ℤ, refill, grant, deduct}

-- Requests on one bucket, each with its time and its size, and what they were granted in all.
abbrev pub run : ℕ → Bucket → List (ℕ × ℕ) → ℕ × Bucket
run limit b [] = (0, b)
run limit b ((now, want) ∷ rs) =
    let full = refill limit now b in
    let n = grant want full.tokens in
    let rest = run limit (deduct n full) rs in (n + rest.0, rest.1)

-- The times do not go back.
abbrev pub InOrder : ℕ → List (ℕ × ℕ) → Type 0
InOrder t [] = Unit
InOrder t ((now, want) ∷ rs) = (t ≤ now) × InOrder now rs

-- A bucket with `k` billionths of a token.
abbrev pub Has : Bucket → ℕ → Type 0
Has b k = b.tokens ≡ pos k

sub_ℕ-pos : (a b : ℕ) → b ≤ a → (k : ℕ) × (sub_ℕ a b ≡ pos k) × (k + b ≡ a)
sub_ℕ-pos a b h = (a - b, ground arith, omega arith)

min_ℤ-pos : (a b : ℕ) → (k : ℕ) × (min_ℤ (pos a) (pos b) ≡ pos k) × (k ≤ a) × (k ≤ b)
min_ℤ-pos a b = elim (Bool-cases (ltb b a)) [
  | inl e ↦ (b, ground arith, ground arith, omega arith)
  | inr e ↦ (a, ground arith, omega arith, ground arith)
]

mul_mono_add : (n a d : ℕ) → n * a ≤ n * (a + d)
mul_mono_add n a d = omega arith

mul_mono : (n a b : ℕ) → a ≤ b → n * a ≤ n * b
mul_mono n a b h =
    let split : a + (b - a) ≡ b = omega arith in rw (← split) (mul_mono_add n a (b - a))

refill-Has :
    (limit now k : ℕ) (b : Bucket)
    → Has b k
    → b.last_refill ≤ now
    → (k' : ℕ) × Has (refill limit now b) k'
      × (k' ≤ limit * second)
      × (k' + limit * b.last_refill ≤ k + limit * now)
unfolding refill
refill-Has limit now k b h le =
    let mono = mul_mono limit b.last_refill now le in
    let (d, e, sum) = sub_ℕ-pos (k + limit * now) (0 + limit * b.last_refill) (omega arith) in
    let (k', m, cap, low) = min_ℤ-pos (limit * second) d in (k', rw (h, e) m, cap, omega arith)

grant-le : (want k : ℕ) → grant want (pos k) * second ≤ k
unfolding grant
grant-le want k = ground arith

deduct-Has :
    (want k : ℕ) (b : Bucket)
    → Has b k
    → (k' : ℕ) × Has (deduct (grant want b.tokens) b) k' × (k' + grant want b.tokens * second ≡ k)
unfolding deduct
deduct-Has want k b h =
    let (d, e, sum) =
      sub_ℕ-pos k (0 + grant want (pos k) * second) (omega (arith, grant-le want k)) in
    rw h (d, e, omega arith)

last_refill_lem : (limit now n : ℕ) (b : Bucket) → (deduct n (refill limit now b)).last_refill ≡ now
unfolding deduct refill
last_refill_lem limit now n b = refl

-- A bucket never gives more than it holds and what flows in: over any requests whose times do not
-- go back, the tokens granted and the tokens left together are at most the tokens at the start and
-- the limit times the time that has passed; so the balance never falls below zero either.
pub run-Bound :
    (limit k : ℕ) (b : Bucket) (rs : List (ℕ × ℕ))
    → Has b k
    → InOrder b.last_refill rs
    → (k' : ℕ) × Has (run limit b rs).1 k'
      × ((run limit b rs).0 * second + k' + limit * b.last_refill
          ≤ k + limit * (run limit b rs).1.last_refill)
run-Bound limit k b [] h o = (k, h, omega arith)
run-Bound limit k b ((now, want) ∷ rs) h o =
    let full = refill limit now b in
    let (k1, has1, cap, flow) = refill-Has limit now k b h o.0 in
    let (k2, has2, paid) = deduct-Has want k1 full has1 in
    let n = grant want full.tokens in
    let later = last_refill_lem limit now n b in
    let (k3, has3, rest) = run-Bound limit k2 (deduct n full) rs has2 (rw later o.1) in
    let scaled : limit * (deduct n full).last_refill ≡ limit * now = ap (λ t. limit * t) later in
    (k3, has3, omega arith)
