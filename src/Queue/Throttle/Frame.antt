-- ===== src/Queue/Throttle/Frame.antt =====
-- The token bucket changes no table but its own.
use queue_ti.Base.{ℕ, ◌≤◌, Option, none, some, List, ◌≡◌, ap, ◌==◌, Option-cases, inl, inr, arith}
use queue_ti.Base.Int.{ℤ}
use queue_ti.Base.Text.{Text}
use queue_ti.Queue.Tables.{Db, Bucket}
use queue_ti.Queue.Service.{Call}
use queue_ti.Queue.Op.Triple.{
  Cond, Triple, Triple-bind, Triple-pure, Triple-if, Triple-tx_query, Triple-tx_exec,
}
use queue_ti.Queue.Throttle.{
  find_bucket, upsert_bucket, deduct_tokens, grant, consume_tokens, throughput_limit, limit_to,
  apply_throughput_limit,
}

-- The tables of the transaction are `before`, but for the buckets.
abbrev pub ButBuckets : Db → Db → Type 0
ButBuckets before d = (bs : List Bucket) × (d ≡ record before { buckets = bs })

abbrev Open : Db → Cond
Open before d _ _ = ButBuckets before d

put :
    (before d : Db) (bs : List Bucket)
    → ButBuckets before d
    → ButBuckets before (record d { buckets = bs })
put before d bs h = (bs, ap (λ (x : Db). record x { buckets = bs }) h.1)

upsert_bucket-ButBuckets :
    (t : Text) (limit now : ℕ) (before d : Db)
    → ButBuckets before d
    → ButBuckets before (upsert_bucket t limit now d).1
unfolding upsert_bucket
upsert_bucket-ButBuckets t limit now before d h = elim (Option-cases (find_bucket t d.buckets)) [
  | inl none_found ↦ rw (none_found, upsert_bucket) (put before d _ h)
  | inr (b, found) ↦ rw (found, upsert_bucket) (put before d _ h)
]

-- At most what was asked for is granted.
grant-le : (want : ℕ) (available : ℤ) → grant want available ≤ want
unfolding grant
grant-le want available = ground arith

module _ (before : Db) where
  -- The tables are the same but for the buckets, and `n` is at most `want`.
  abbrev pub Granted : ℕ → ℕ → Cond
  Granted want n d c' l = ButBuckets before d × (n ≤ want)

  Triple-consume_tokens :
      (c : Call) (t : Text) (limit want : ℕ)
      → Triple (Open before) (consume_tokens c t limit want) (Granted want)
  unfolding consume_tokens deduct_tokens
  Triple-consume_tokens c t limit want =
      Triple-bind {R = λ _. Open before} (Triple-tx_exec _ (λ d c' l h. h)) (λ u.
        Triple-bind {R = λ _. Open before}
          (Triple-tx_exec _ (λ d c' l h. upsert_bucket-ButBuckets t limit c.now before d h))
          (λ available.
            Triple-if (grant want available == 0)
              (λ e. Triple-pure 0 (λ d c' l h. (h, omega arith)))
              (λ e.
                Triple-bind {R = λ _. Open before} (Triple-tx_exec _ (λ d c' l h. put before d _ h))
                  (λ u'.
                    Triple-pure (grant want available)
                      (λ d c' l h. (h, grant-le want available))))))

  Triple-limit_to :
      (c : Call) (t : Text) (want : ℕ) (limit : Option ℕ)
      → Triple (Open before) (limit_to c t want limit) (Granted want)
  unfolding limit_to
  Triple-limit_to c t want none = Triple-pure want (λ d c' l h. (h, omega arith))
  Triple-limit_to c t want (some limit) =
      Triple-if (limit == 0) (λ e. Triple-pure want (λ d c' l h. (h, omega arith)))
        (λ e. Triple-consume_tokens c t limit want)

  pub Triple-apply_throughput_limit :
      (c : Call) (t : Text) (want : ℕ)
      → Triple (Open before) (apply_throughput_limit c t want) (Granted want)
  unfolding apply_throughput_limit
  Triple-apply_throughput_limit c t want =
      Triple-bind {R = λ _. Open before} (Triple-tx_query (throughput_limit t) (λ d c' l h. h))
        (Triple-limit_to c t want)
