-- ===== src/Tests/Access.antt =====
-- Grants and patterns.
use queue_ti.Base.{Bool, true, false, not, ◌||◌, ◌≡◌, refl, ◌↔◌, [], ◌∷◌, List}
use queue_ti.Base.Text.{bytes}
use queue_ti.Base.Table.{any}
use queue_ti.Users.Permissions.{
  Grant, consume, write, has_consumer_group_access, has_dequeue_access, has_grant, matches_pattern,
}
use queue_ti.Users.Permissions.Access.{
  has_consumer_group_access-any, restricted_lem, names, consumes,
}
use queue_ti.Users.Permissions.Patterns.{Match, matches_pattern_iff}

-- A worker of the group `billing` on every topic under `orders`.
abbrev worker : List Grant
worker =
    record { action = consume; topic_pattern = bytes "orders.*"; consumer_group = bytes "billing" }
    ∷ []

has_consumer_group_access-any_example :
    has_consumer_group_access worker (bytes "orders.eu") (bytes "audit") ≡ (
      any (names (bytes "orders.eu") (bytes "audit")) worker
      || not (any (consumes (bytes "orders.eu")) worker))
has_consumer_group_access-any_example =
    has_consumer_group_access-any worker (bytes "orders.eu") (bytes "audit")

worker_dequeues : has_dequeue_access worker (bytes "orders.eu") ≡ true
unfolding has_dequeue_access has_grant matches_pattern queue_ti.Base.Text.text_eq
    queue_ti.Base.Text.cut_suffix queue_ti.Base.Text.has_prefix
worker_dequeues = refl

worker_reads : has_grant worker write (bytes "orders.eu") ≡ false
unfolding has_grant matches_pattern
worker_reads = refl

restricted_lem_example :
    has_consumer_group_access worker (bytes "orders.eu") (bytes "audit")
    ≡ any (names (bytes "orders.eu") (bytes "audit")) worker
restricted_lem_example =
    restricted_lem worker (bytes "orders.eu") (bytes "audit") worker_dequeues worker_reads

matches_pattern_iff_example :
    (matches_pattern (bytes "orders.*") (bytes "orders.eu") ≡ true)
    ↔ Match (bytes "orders.*") (bytes "orders.eu")
matches_pattern_iff_example = matches_pattern_iff (bytes "orders.*") (bytes "orders.eu")
