-- ===== src/Queue/Throttle.antt =====
-- throttle.go, and applyThroughputLimit of dequeue.go: a token bucket for each topic. Tokens are
-- floats there and billionths of a token here, so that a refill by whole nanoseconds is exact.
pub mod Bound
pub mod Frame
use queue_ti.Base.{
  ℕ, ◌+◌, ◌*◌, ◌/◌, min, Bool, Option, none, some, List, [], ◌∷◌, ◌++◌, ◌==◌, if◌then◌else◌,
}
use queue_ti.Base.Text.{Text, text_eq}
use queue_ti.Base.Int.{ℤ, pos, negsuc, pos_part, neg_part, sub_ℕ, ltb_ℤ}
use queue_ti.Base.Table.{first, update}
use queue_ti.Queue.Error.{Result, ok, err}
use queue_ti.Queue.Tables.{Db, Bucket}
use queue_ti.Queue.Service.{Call}
use queue_ti.Queue.Op.{World, Op, pure, ◌>>=◌, ◌>>◌, always, plain, tx_query, tx_exec}
use queue_ti.Queue.Config.{find_config, second}

abbrev pub find_bucket : Text → List Bucket → Option Bucket
find_bucket t = first (λ b. text_eq b.topic t)

abbrev pub min_ℤ : ℤ → ℤ → ℤ
min_ℤ a b = if ltb_ℤ b a then b else a

-- LEAST($2, tokens + $2 * EXTRACT(EPOCH FROM (now() - last_refill))). The clock of this transaction
-- may stand before that of the last refill.
unfoldable pub refill : ℕ → ℕ → Bucket → Bucket
refill limit now b = record b {
  tokens =
      min_ℤ (pos (limit * second))
        (sub_ℕ (pos_part b.tokens + limit * now) (neg_part b.tokens + limit * b.last_refill));
  last_refill = now;
}

-- INSERT … ON CONFLICT (topic) DO UPDATE … RETURNING tokens
unfoldable pub upsert_bucket : Text → ℕ → ℕ → Db → ℤ × Db
unfolding refill
upsert_bucket t limit now db = elim (find_bucket t db.buckets) [
  | none ↦ (
    pos (limit * second),
    record db {
      buckets =
          db.buckets ++ record { topic = t; tokens = pos (limit * second); last_refill = now } ∷ [];
    },
  )
  | some b ↦ (
    (refill limit now b).tokens,
    record db { buckets = update (λ r. text_eq r.topic t) (refill limit now) db.buckets },
  )
]

-- min(requested, int(available)), where less than one token is none: int() truncates.
unfoldable pub grant : ℕ → ℤ → ℕ
grant requested available = min requested (pos_part available / second)

-- UPDATE topic_throughput SET tokens = tokens - $2
unfoldable pub deduct : ℕ → Bucket → Bucket
deduct n b = record b { tokens = sub_ℕ (pos_part b.tokens) (neg_part b.tokens + n * second) }

unfoldable pub deduct_tokens : Text → ℕ → Db → Db
unfolding deduct
deduct_tokens t n db = record db { buckets = update (λ r. text_eq r.topic t) (deduct n) db.buckets }

-- The advisory lock orders the transactions on one topic; it changes no row.
unfoldable pub consume_tokens : Call → Text → ℕ → ℕ → Op ℕ
consume_tokens c t limit requested = do
  tx_exec (plain (λ db. db))
  available ← tx_exec (always (upsert_bucket t limit c.now))
  let allowed = grant requested available
  if allowed == 0 then pure 0 else (do tx_exec (plain (deduct_tokens t allowed)); pure allowed)

-- SELECT throughput_limit FROM topic_config; no row and NULL are no limit.
unfoldable pub throughput_limit : Text → Db → Option ℕ
throughput_limit t db = elim (find_config t db.configs) [
  | none ↦ none
  | some cfg ↦ cfg.throughput_limit
]

unfoldable pub limit_to : Call → Text → ℕ → Option ℕ → Op ℕ
limit_to c t want none = pure want
limit_to c t want (some limit) = if limit == 0 then pure want else consume_tokens c t limit want

unfoldable pub apply_throughput_limit : Call → Text → ℕ → Op ℕ
apply_throughput_limit c t want = do limit ← tx_query (throughput_limit t); limit_to c t want limit
