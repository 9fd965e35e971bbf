-- ===== src/Queue/Queries/Counts.antt =====
-- query.go: Stats and List against counts of the table.
use queue_ti.Base.{
  ℕ, suc, ◌+◌, ◌≤◌, ◌≡◌, refl, ◌∙◌, ap, Bool, true, false, List, [], ◌∷◌, arith, Bool-cases, inl,
  inr, ◌&&◌, ◌==◌, if◌then◌else◌,
}
use queue_ti.Base.Text.{Text, text_eq, text_eq_iff}
use queue_ti.Base.Table.{count}
use queue_ti.Base.Sort.{sort, place, count-sort}
use queue_ti.Base.Postgres.{Postgres}
use queue_ti.Queue.Error.{ok}
use queue_ti.Queue.Tables.{Message, Status, pending, processing, failed, expired, status_eq}
use queue_ti.Queue.Op.{World}
use queue_ti.Queue.Op.Triple.{Triple-pool_query, ok-IfOk}
use queue_ti.Queue.Queries.{TopicStat, is_stat, count_in, group_rows, stats, stat_before}

-- The rows that an entry of the statistics counts.
abbrev pub is_row : Text → Status → Message → Bool
is_row t st m = text_eq m.topic t && status_eq m.status st

-- What the entries for a topic and a status say together.
unfoldable pub counted : Text → Status → List TopicStat → ℕ
counted t st [] = 0
counted t st (e ∷ es) =
    let rest = counted t st es in if is_stat t st e then e.count + rest else rest

pub status_eq_iff : (a b : Status) → status_eq a b ≡ true → a ≡ b
status_eq_iff pending pending e = refl
status_eq_iff pending processing e = cc
status_eq_iff pending failed e = cc
status_eq_iff pending expired e = cc
status_eq_iff processing pending e = cc
status_eq_iff processing processing e = refl
status_eq_iff processing failed e = cc
status_eq_iff processing expired e = cc
status_eq_iff failed pending e = cc
status_eq_iff failed processing e = cc
status_eq_iff failed failed e = refl
status_eq_iff failed expired e = cc
status_eq_iff expired pending e = cc
status_eq_iff expired processing e = cc
status_eq_iff expired failed e = cc
status_eq_iff expired expired e = refl

stat_of :
    (u : Text) (su : Status) (e : TopicStat)
    → is_stat u su e ≡ true
    → (e.topic ≡ u) × (e.status ≡ su)
stat_of u su e hit =
    ((text_eq_iff e.topic u).0 (ground arith), status_eq_iff e.status su (ground arith))

-- A row of a group is one more in that group, and in no other.
counted-count_in :
    (t u : Text) (st su : Status) (es : List TopicStat)
    → counted t st (count_in u su es)
      ≡ (if text_eq u t && status_eq su st then suc (counted t st es) else counted t st es)
unfolding counted count_in
counted-count_in t u st su [] = ground arith
counted-count_in t u st su (e ∷ es) = elim (Bool-cases (is_stat u su e)) [
  | inl hit ↦
      let (same_topic, same_status) = stat_of u su e hit in
      rw (hit, same_topic, same_status) (ground arith)
  | inr miss ↦ rw miss (ground (arith, counted-count_in t u st su es))
]

counted-group_rows :
    (t : Text) (st : Status) (ms : List Message)
    → counted t st (group_rows ms) ≡ count (is_row t st) ms
unfolding group_rows counted count
counted-group_rows t st [] = refl
counted-group_rows t st (m ∷ ms) =
    counted-count_in t m.topic st m.status (group_rows ms)
    ∙ ground (arith, counted-group_rows t st ms)

-- Two summands that a test may drop, in either order.
swap_summands :
    (a b : Bool) (m n r : ℕ)
    → (if a then m + (if b then n + r else r) else (if b then n + r else r))
      ≡ (if b then n + (if a then m + r else r) else (if a then m + r else r))
swap_summands true true m n r = omega arith
swap_summands true false m n r = refl
swap_summands false b m n r = refl

module _ (before : TopicStat → TopicStat → Bool) (t : Text) (st : Status) where
  counted-place :
      (e : TopicStat) (es : List TopicStat)
      → counted t st (place before e es) ≡ counted t st (e ∷ es)
  unfolding place counted
  counted-place e [] = refl
  counted-place e (x ∷ es) = elim (Bool-cases (before e x)) [
    | inl b ↦ rw b refl
    | inr b ↦
        rw (b, counted-place e es)
          (swap_summands (is_stat t st x) (is_stat t st e) x.count e.count (counted t st es))
  ]

  counted-sort : (es : List TopicStat) → counted t st (sort before es) ≡ counted t st es
  unfolding sort counted
  counted-sort [] = refl
  counted-sort (e ∷ es) =
      counted-place e (sort before es)
      ∙ ap (λ n. if is_stat t st e then e.count + n else n) (counted-sort es)

-- An entry that is not for a group is not for the group's topic and status.
stat_only :
    (t u : Text) (st su : Status) (e : TopicStat)
    → (text_eq u t && status_eq su st) ≡ true
    → is_stat t st e ≡ is_stat u su e
stat_only t u st su e h =
    let same_topic : u ≡ t = (text_eq_iff u t).0 (ground arith) in
    let same_status : su ≡ st = status_eq_iff su st (ground arith) in
    rw (same_topic, same_status) refl

-- A topic and a status have one entry at most.
count-count_in :
    (t u : Text) (st su : Status) (es : List TopicStat)
    → count (is_stat t st) (count_in u su es) ≡ (
        if (text_eq u t && status_eq su st) && count (is_stat t st) es == 0
        then 1
        else count (is_stat t st) es)
unfolding count count_in
count-count_in t u st su [] = ground arith
count-count_in t u st su (e ∷ es) = elim (Bool-cases (is_stat u su e)) [
  | inl hit ↦
      let (same_topic, same_status) = stat_of u su e hit in
      rw (hit, same_topic, same_status) (ground arith)
  | inr miss ↦ rw miss (ground (arith, count-count_in t u st su es, stat_only t u st su e))
]

count-group_rows :
    (t : Text) (st : Status) (ms : List Message) → count (is_stat t st) (group_rows ms) ≤ 1
unfolding group_rows count
count-group_rows t st [] = omega arith
count-group_rows t st (m ∷ ms) =
    let grouped = count-count_in t m.topic st m.status (group_rows ms) in
    ground (arith, grouped, count-group_rows t st ms)

-- Statistics that are returned say of every topic and status how many messages it has, in one entry
-- at most.
pub stats-counted :
    (pg : Postgres) (s : World) {es : List TopicStat} (t : Text) (st : Status)
    → (stats pg s).0 ≡ ok es
    → (counted t st es ≡ count (is_row t st) s.committed.messages) × (count (is_stat t st) es ≤ 1)
unfolding stats
stats-counted pg s {es} t st e =
    ok-IfOk (λ es _ _ _. Counted es) _
      ((Triple-pool_query {P = λ _ c _. c ≡ s.committed} {Q = λ es _ _ _. Counted es} _
          (λ d c l h. rw h (grouped s.committed.messages))).run
        s refl)
      e
  where
    Counted : List TopicStat → Type 0
    Counted es =
        (counted t st es ≡ count (is_row t st) s.committed.messages) × (count (is_stat t st) es ≤ 1)

    grouped :
        (ms : List Message)
        → (counted t st (sort (stat_before pg) (group_rows ms)) ≡ count (is_row t st) ms)
          × (count (is_stat t st) (sort (stat_before pg) (group_rows ms)) ≤ 1)
    grouped ms = (
      counted-sort (stat_before pg) t st (group_rows ms) ∙ counted-group_rows t st ms,
      rw (count-sort (stat_before pg) (is_stat t st) (group_rows ms)) (count-group_rows t st ms),
    )
