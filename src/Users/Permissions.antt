-- ===== src/Users/Permissions.antt =====
-- permissions.go
pub mod Patterns
pub mod Access
use queue_ti.Base.{
  Bool, true, false, not, Option, none, some, List, [], ◌∷◌, ◌++◌, ◌&&◌, ◌||◌, if◌then◌else◌,
}
use queue_ti.Base.Text.{Text, bytes, text_eq, has_prefix, cut_suffix}

pub data Action : Type 0 where
  read write admin consume : Action

abbrev pub action_eq : Action → Action → Bool
action_eq read read = true
action_eq write write = true
action_eq admin admin = true
action_eq consume consume = true
action_eq _ _ = false

-- Grant of users.go, less the columns that no check reads. The group is empty unless the action
-- is `consume`.
pub record Grant : Type 0 where
  pub action : Action
  pub topic_pattern : Text
  pub consumer_group : Text

unfoldable pub matches_pattern : Text → Text → Bool
matches_pattern pattern topic =
    if text_eq pattern (bytes "*") then true else elim (cut_suffix pattern (bytes ".*")) [
      | some prefix ↦ has_prefix topic (prefix ++ bytes ".")
      | none ↦ text_eq pattern topic
    ]

unfoldable pub has_grant : List Grant → Action → Text → Bool
has_grant [] action topic = false
has_grant (g ∷ gs) action topic =
    if action_eq g.action action && matches_pattern g.topic_pattern topic
    then true
    else has_grant gs action topic

unfoldable pub has_dequeue_access : List Grant → Text → Bool
has_dequeue_access gs topic = has_grant gs write topic || has_grant gs consume topic

-- The loop of HasConsumerGroupAccess, with its flag.
unfoldable pub group_access_loop : List Grant → Text → Text → Bool → Bool
group_access_loop [] topic group any_consume = not any_consume
group_access_loop (g ∷ gs) topic group any_consume =
    let skip = group_access_loop gs topic group any_consume in
    let rest = group_access_loop gs topic group true in
    if action_eq g.action consume && matches_pattern g.topic_pattern topic
    then (if text_eq g.consumer_group group then true else rest)
    else skip

unfoldable pub has_consumer_group_access : List Grant → Text → Text → Bool
unfolding group_access_loop
has_consumer_group_access gs topic group = group_access_loop gs topic group false
