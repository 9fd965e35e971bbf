-- ===== src/Server/Http/Listing.antt =====
-- helpers.go with handlers_messages.go: the bounds of a listing.
use queue_ti.Base.{ℕ, ◌-◌, ◌≤◌, min, ◌≡◌, refl, Option, arith}
use queue_ti.Base.Text.{Text}
use queue_ti.Base.Table.{count, length}
use queue_ti.Base.Int.{ℤ, pos, negsuc}
use queue_ti.Queue.Error.{Result, ok, err}
use queue_ti.Queue.Service.{Call}
use queue_ti.Queue.Op.{World}
use queue_ti.Queue.Queries.{Page, Listed, list, on_topic}
use queue_ti.Queue.Queries.Pages.{PageOf, list-PageOf}
use queue_ti.Server.Handler.{Server, Site, replies, answer, on_queue, queue_reply}
use queue_ti.Server.Replied.{Replied, Replied-bind, replied}
use queue_ti.Server.Http.{
  Answer, server_error, parse_limit_offset, clamp_limit, clamp_offset, or_default,
}
use queue_ti.Server.Http.Messages.{ListResponse, list_messages}

-- A listing within the limits: a page of the committed messages, of 1 to 200 items at most.
pub record Listing (topic : Text) (s : Site) (r : ListResponse) : Type 0 where
  pub at_least : 1 ≤ r.limit
  pub at_most : r.limit ≤ 200
  pub total : r.total ≡ count (on_topic topic) s.queue.committed.messages
  pub items : length r.items ≡ min r.limit (r.total - r.offset)

clamp_limit-bounds : (n : ℤ) → (1 ≤ clamp_limit 200 n) × (clamp_limit 200 n ≤ 200)
clamp_limit-bounds (pos n) = (ground arith, ground arith)
clamp_limit-bounds (negsuc n) = (ground arith, ground arith)

module _ (sv : Server) (c : Call) (topic : Text) (limit offset : Option ℤ) (s : Site) where
  abbrev most : ℕ
  most = clamp_limit 200 (or_default 50 limit)

  abbrev from : ℕ
  from = clamp_offset (or_default 0 offset)

  abbrev ThePage : Page Listed → Type 0
  ThePage p = PageOf topic most from s.queue.committed.messages p

  Replied-page :
      (r : Result (Page Listed) × World)
      → ((p : Page Listed) → r.0 ≡ ok p → ThePage p)
      → Replied ThePage (queue_reply s server_error r)
  Replied-page (ok p, w) k = k p refl
  Replied-page (err e, w) k = tt

  -- A listing that is returned has a limit from 1 to 200, whatever limit and offset were asked for;
  -- its total is the number of messages of the topic, or of all topics without one, and it has as
  -- many items as the limit and the rows after the offset allow.
  pub list_messages-Listing :
      {a : Answer ListResponse}
      → (list_messages sv c topic limit offset s).0 ≡ replies a
      → Listing topic s a.body
  unfolding list_messages parse_limit_offset on_queue answer
  list_messages-Listing e =
      replied (λ a. Listing topic s a.body) _
        (Replied-bind ThePage (λ a. Listing topic s a.body)
          (on_queue server_error (list sv.service.libraries topic most from)) _ s
          (Replied-page (list sv.service.libraries topic most from s.queue)
            (λ p same. list-PageOf sv.service.libraries topic most from s.queue same))
          (λ p t h.
            let bounds = clamp_limit-bounds (or_default 50 limit) in
            record { at_least = bounds.0; at_most = bounds.1; total = h.0; items = rw h.0 h.1 }))
        e
