-- ===== src/Queue/Queries/Pages.antt =====
-- query.go: the pages of List.
use queue_ti.Base.{ℕ, zero, suc, ◌-◌, min, ◌≡◌, refl, ◌∙◌, ap, Bool, List, [], ◌∷◌, arith}
use queue_ti.Base.Text.{Text}
use queue_ti.Base.Table.{select, count, take, length}
use queue_ti.Base.Sort.{sort, length-sort}
use queue_ti.Queue.Error.{ok}
use queue_ti.Queue.Tables.{Message}
use queue_ti.Queue.Service.{Libraries}
use queue_ti.Queue.Op.{World}
use queue_ti.Queue.Op.Triple.{Cond, Triple, Triple-bind, Triple-pool_query, Triple-pure, ok-IfOk}
use queue_ti.Queue.Dequeue.Claims.{Carries, Triple-hydrate}
use queue_ti.Queue.Queries.{drop, on_topic, newest_first, page_of, Listed, Page, hydrate_rows, list}

module _ {ℓ} {A : Type ℓ} where
  length-take : (n : ℕ) (xs : List A) → length (take n xs) ≡ min n (length xs)
  unfolding take
  length-take zero xs = omega arith
  length-take (suc n) [] = omega arith
  length-take (suc n) (x ∷ xs) = omega (arith, length-take n xs)

  length-drop : (n : ℕ) (xs : List A) → length (drop n xs) ≡ length xs - n
  unfolding drop
  length-drop zero xs = omega arith
  length-drop (suc n) [] = omega arith
  length-drop (suc n) (x ∷ xs) = omega (arith, length-drop n xs)

  length-select : (p : A → Bool) (xs : List A) → length (select p xs) ≡ count p xs
  unfolding select count
  length-select p [] = refl
  length-select p (x ∷ xs) = ground (arith, length-select p xs)

length-page_of :
    (topic : Text) (limit offset : ℕ) (ms : List Message)
    → length (page_of topic limit offset ms) ≡ min limit (count (on_topic topic) ms - offset)
unfolding page_of
length-page_of topic limit offset ms =
    let rows = select (on_topic topic) ms in
    length-take limit (drop offset (sort newest_first rows))
    ∙ ap (λ n. min limit n)
        (length-drop offset (sort newest_first rows)
          ∙ ap (λ n. n - offset)
              (length-sort newest_first rows ∙ length-select (on_topic topic) ms))

-- Each row gives one item.
Triple-hydrate_rows :
    {P : Cond} (l : Libraries) (ms : List Message)
    → Triple P (hydrate_rows l ms) (λ rs d c s. P d c s × (length rs ≡ length ms))
unfolding hydrate_rows
Triple-hydrate_rows {P} l [] = Triple-pure [] (λ d c s h. (h, refl))
Triple-hydrate_rows {P} l (m ∷ ms) = Triple-bind (Triple-hydrate l m) (λ r.
    Triple-bind (Triple-hydrate_rows {P = λ d c s. P d c s × Carries l m r} l ms)
      (λ rs. Triple-pure _ (λ d c s h. (h.0.0, ap suc h.1))))

-- A page of what is committed.
abbrev pub PageOf : Text → ℕ → ℕ → List Message → Page Listed → Type 0
PageOf topic limit offset ms p =
    (p.total ≡ count (on_topic topic) ms)
    × (length p.items ≡ min limit (count (on_topic topic) ms - offset))

module _ (l : Libraries) (topic : Text) (limit offset : ℕ) (s : World) where
  abbrev committed_rows : List Message
  committed_rows = s.committed.messages

  Triple-list :
      Triple
        (λ _ c _. c ≡ s.committed)
        (list l topic limit offset)
        (λ p _ _ _. PageOf topic limit offset committed_rows p)
  unfolding list
  Triple-list =
      Triple-bind {R = λ n _ c _. (c ≡ s.committed) × (n ≡ count (on_topic topic) committed_rows)}
        (Triple-pool_query _ (λ d c s' h. (h, ap (λ x. count (on_topic topic) x.messages) h)))
        (λ n.
          Triple-bind
            {R = λ rows _ _ _.
              (n ≡ count (on_topic topic) committed_rows)
              × (rows ≡ page_of topic limit offset committed_rows)}
            (Triple-pool_query _
              (λ d c s' h. (h.1, ap (λ x. page_of topic limit offset x.messages) h.0)))
            (λ rows. Triple-bind (Triple-hydrate_rows l rows) (λ items. Triple-pure _ (λ d c s' h. (
              h.0.0,
              h.1 ∙ ap (λ xs. length xs) h.0.1 ∙ length-page_of topic limit offset committed_rows,
            )))))

  -- A page that is returned has the number of messages of the topic, or of all topics if none is
  -- given, as its total, and as many items as the limit and the rows after the offset allow.
  pub list-PageOf :
      {p : Page Listed}
      → (list l topic limit offset s).0 ≡ ok p
      → PageOf topic limit offset committed_rows p
  list-PageOf e =
      ok-IfOk (λ p _ _ _. PageOf topic limit offset committed_rows p) _ (Triple-list.run s refl) e
