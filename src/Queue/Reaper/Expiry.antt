-- ===== src/Queue/Reaper/Expiry.antt =====
-- What the expiry reaper leaves.
use queue_ti.Base.{
  ℕ, suc, ◌<◌, true, List, [], ◌∷◌, ◌≡◌, refl, arith, ltb, Bool-cases, Option-cases, some, inl, inr,
  ◌⊎◌, ◌||◌,
}
use queue_ti.Base.Table.{update, count}
use queue_ti.Queue.Error.{ok}
use queue_ti.Queue.Tables.{Db, Message, Status, pending, processing, failed, expired, status_eq}
use queue_ti.Queue.Service.{Call}
use queue_ti.Queue.Op.{World, expired_rows}
use queue_ti.Queue.Op.Triple.{
  Triple, Triple-bind, Triple-pure, Triple-if, Triple-observe, Triple-pool_exec, ok-IfOk,
}
use queue_ti.Queue.Reaper.{is_overdue, expire, expire_messages, run_expiry_reaper_once}

-- A row whose time is over before it was settled.
abbrev pub Overdue : ℕ → Message → Type 0
Overdue now m =
    (t : ℕ) × (m.expires_at ≡ some t) × (t < now) × ((m.status ≡ pending) ⊎ (m.status ≡ processing))

-- A row before and after it has expired.
pub record ExpiredFrom (m m' : Message) : Type 0 where
  pub is_expired : m'.status ≡ expired
  pub same_id : m'.id ≡ m.id
  pub same_topic : m'.topic ≡ m.topic
  pub same_payload : m'.payload ≡ m.payload
  pub same_metadata : m'.metadata ≡ m.metadata
  pub same_key : m'.key ≡ m.key
  pub same_count : m'.retry_count ≡ m.retry_count
  pub same_limit : m'.max_retries ≡ m.max_retries
  pub same_error : m'.last_error ≡ m.last_error
  pub same_expiry : m'.expires_at ≡ m.expires_at
  pub same_origin : m'.original_topic ≡ m.original_topic
  pub same_age : m'.created_at ≡ m.created_at

expire-ExpiredFrom : (c : Call) (m : Message) → ExpiredFrom m (expire c m)
expire-ExpiredFrom c m = record {
  is_expired = refl;
  same_id = refl;
  same_topic = refl;
  same_payload = refl;
  same_metadata = refl;
  same_key = refl;
  same_count = refl;
  same_limit = refl;
  same_error = refl;
  same_expiry = refl;
  same_origin = refl;
  same_age = refl;
}

-- The rows before and after, and how many of them were overdue.
pub data Rows (now : ℕ) : ℕ → List Message → List Message → Type 0 where
  no_rows : Rows now 0 [] []
  due_row :
      {n : ℕ} {m m' : Message} {ms ms' : List Message}
      → Overdue now m
      → ExpiredFrom m m'
      → Rows now n ms ms'
      → Rows now (suc n) (m ∷ ms) (m' ∷ ms')
  other_row :
      {n : ℕ} {m : Message} {ms ms' : List Message}
      → ¬ (Overdue now m)
      → Rows now n ms ms'
      → Rows now n (m ∷ ms) (m ∷ ms')

unsettled :
    (st : Status)
    → (status_eq st pending || status_eq st processing) ≡ true
    → (st ≡ pending) ⊎ (st ≡ processing)
unsettled pending e = inl refl
unsettled processing e = inr refl
unsettled failed e = absurd cc
unsettled expired e = absurd cc

-- The test of the statement.
is_overdue-Overdue : (c : Call) (m : Message) → is_overdue c m ≡ true → Overdue c.now m
is_overdue-Overdue c m e = elim (Option-cases m.expires_at) [
  | inl n ↦ let gone = rw n at e in absurd cc
  | inr (t, s) ↦
      let test = rw s at e in
      (t, s, ground (arith, test), unsettled m.status (ground (arith, test)))
]

Overdue-is_overdue : (c : Call) (m : Message) → Overdue c.now m → is_overdue c m ≡ true
Overdue-is_overdue c m (t, s, l, inl q) = rw (s, q) (ground (arith, l))
Overdue-is_overdue c m (t, s, l, inr q) = rw (s, q) (ground (arith, l))

rows :
    (c : Call) (ms : List Message)
    → Rows c.now (count (is_overdue c) ms) ms (update (is_overdue c) (expire c) ms)
unfolding update count
rows c [] = no_rows
rows c (m ∷ ms) = elim (Bool-cases (is_overdue c m)) [
  | inl e ↦ rw e (due_row (is_overdue-Overdue c m e) (expire-ExpiredFrom c m) (rows c ms))
  | inr e ↦ rw e (other_row (λ o. let t = Overdue-is_overdue c m o in absurd cc) (rows c ms))
]

-- Whatever fails: if RunExpiryReaperOnce returns a number, it is the number of the pending and
-- processing rows that were past their expiry at the time of the call. Each of these is expired now
-- and keeps its content, times of update aside; every other row is the same and at the same place,
-- and no other table has changed.
pub run_expiry_reaper_once-Expired :
    (c : Call) (n : ℕ) (s : World)
    → (run_expiry_reaper_once c s).0 ≡ ok n
    → (ms : List Message) × (Rows c.now n s.committed.messages ms
        × ((run_expiry_reaper_once c s).1.committed ≡ record s.committed { messages = ms }))
unfolding run_expiry_reaper_once expire_messages
run_expiry_reaper_once-Expired c n s e =
    ok-IfOk (λ k _ c' _. Done k c') (run_expiry_reaper_once c s) (triple.run s refl) e
  where
    before : Db
    before = s.committed

    Done : ℕ → Db → Type 0
    Done k after =
        (ms : List Message) × (Rows c.now k before.messages ms
          × (after ≡ record before { messages = ms }))

    after_rows :
        (d : Db) → d ≡ before → Done (count (is_overdue c) d.messages) (expire_messages c d).1
    after_rows d h = rw h (_, (rows c before.messages, refl))

    triple : Triple (λ _ c' _. c' ≡ before) (run_expiry_reaper_once c) (λ k _ c' _. Done k c')
    triple =
        Triple-bind {R = λ k _ c' _. Done k c'} (Triple-pool_exec _ (λ d c' l h. after_rows c' h))
          (λ k.
            Triple-bind {R = λ _ _ c' _. Done k c'}
              (Triple-if (ltb 0 k) (λ t. Triple-observe (expired_rows k) (λ d c' l h. h))
                (λ t. Triple-pure tt (λ d c' l h. h)))
              (λ u. Triple-pure k (λ d c' l h. h)))
