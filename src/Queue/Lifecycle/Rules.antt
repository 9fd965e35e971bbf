-- ===== src/Queue/Lifecycle/Rules.antt =====
-- Triples for the steps that the methods of lifecycle.go share.
use queue_ti.Base.{
  ℕ, Option, none, some, ◌≡◌, refl, sym, ◌∙◌, ◌++◌, ◌∷◌, [], if◌then◌else◌, Bool-cases, inl, inr,
  ◌&&◌, ◌==◌,
}
use queue_ti.Base.Text.{Text, text_eq}
use queue_ti.Base.Table.{any}
use queue_ti.Queue.Error.{Error, ok}
use queue_ti.Queue.Tables.{Db, TopicConfig, LogRow}
use queue_ti.Queue.Service.{Service, Call}
use queue_ti.Queue.Op.{Metric, ◌>>◌, commit, observe}
use queue_ti.Queue.Op.Triple.{
  Cond, Local, local_of, Triple, AfterDb, Triple-pure, Triple-raise, Triple-bind, Triple-if,
  Triple-tx_query, Triple-tx_exec, Triple-observe, Triple-commit,
}
use queue_ti.Queue.Config.{get_topic_config}
use queue_ti.Queue.Config.Inert.{Inert-get_topic_config}
use queue_ti.Queue.Config.Tiers.{Configured, get_topic_config-Configured}
use queue_ti.Queue.Statements.{insert_log}
use queue_ti.Queue.Lifecycle.{
  or_raise, effective_dlq_threshold, threshold_of, archive_to_log, is_replayable,
}

module _ {P : Cond} where
  pub Triple-or_raise {ℓ} :
      {A : Type ℓ} {Q : A → Cond} (e : Error) (o : Option A)
      → ((a : A) (d c : Db) (l : Local) → o ≡ some a → P d c l → Q a d c l)
      → Triple P (or_raise e o) Q
  Triple-or_raise e none k = Triple-raise e
  Triple-or_raise e (some a) k = Triple-pure a (λ d c l h. k a d c l refl h)

  -- A commit and the metric behind it.
  pub Triple-finish :
      {Q : Unit {0} → Cond} (m : Metric)
      → ((d c : Db) (l : Local) → P d c l → Q tt d d l)
      → Triple P (commit >> observe m) Q
  Triple-finish {Q} m k =
      Triple-bind {R = Q} (Triple-commit k) (λ u. Triple-observe m (λ d c l h. h))

  -- The threshold is that of the configuration that the tiers give for the topic.
  pub Triple-threshold :
      {Q : ℕ → Cond} (sv : Service) (c : Call) (t : Text)
      → ((d c' : Db) (l l' : Local)
          → P d c' l
          → (o : Option TopicConfig) × Configured sv c t c' l o
            × Q (threshold_of sv (ok o)) d c' l')
      → Triple P (effective_dlq_threshold sv c t) Q
  unfolding effective_dlq_threshold
  Triple-threshold {Q} sv c t k = record {
    run = λ s h.
        let after = (get_topic_config sv c t s).1 in
        let (o, known, q) = k s.db s.committed (local_of s) (local_of after) h in
        let (d, e) = (Inert-get_topic_config sv c t).same s in
        rw (d, e, get_topic_config-Configured sv c t s known) q;
  }

  -- The log row of a replayable topic is written; a topic that is not replayable leaves no row.
  pub Triple-archive :
      {Q : Unit {0} → Cond} (c : Call) (r : LogRow)
      → ((d c' : Db) (l : Local)
          → P d c' l
          → Q tt
              (record d { log = if is_replayable r.topic d then d.log ++ r ∷ [] else d.log })
              c'
              l)
      → Triple P (archive_to_log c r) Q
  unfolding archive_to_log insert_log
  Triple-archive {Q} c r k =
      Triple-bind {R = λ b d c' l. P d c' l × (b ≡ is_replayable r.topic d)}
        (Triple-tx_query (is_replayable r.topic) (λ d c' l h. (h, refl)))
        (λ b.
          Triple-if b
            (λ e. Triple-tx_exec _ (λ d c' l h. logged d l (rw (sym h.1 ∙ e) at (k d c' l h.0))))
            (λ e. Triple-pure tt (λ d c' l h. rw (sym h.1 ∙ e) at (k d c' l h.0))))
    where
      logged :
          (d : Db) (l : Local) {c' : Db}
          → Q tt (record d { log = d.log ++ r ∷ [] }) c' l
          → AfterDb (λ a d'. Q a d' c' l) (insert_log r d)
      logged d l h =
          elim (Bool-cases (
            any (λ q. text_eq q.topic r.topic && q.acked_at == r.acked_at && q.id == r.id) d.log)) [
              | inl e ↦ rw e tt
              | inr e ↦ rw e h
            ]
