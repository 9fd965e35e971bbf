-- ===== src/Users/Permissions/Access.antt =====
-- Which consumer groups a set of grants opens.
use queue_ti.Base.{Bool, true, false, not, List, [], ◌∷◌, ◌≡◌, refl, ◌&&◌, ◌||◌, arith}
use queue_ti.Base.Text.{Text, text_eq}
use queue_ti.Base.Table.{any}
use queue_ti.Users.Permissions.{
  Action, consume, write, action_eq, Grant, matches_pattern, has_grant, has_dequeue_access,
  group_access_loop, has_consumer_group_access,
}

-- A consume grant for the topic, and one that names the group too.
abbrev pub consumes : Text → Grant → Bool
consumes topic g = action_eq g.action consume && matches_pattern g.topic_pattern topic

abbrev pub names : Text → Text → Grant → Bool
names topic group g = consumes topic g && text_eq g.consumer_group group

abbrev pub grants : Action → Text → Grant → Bool
grants action topic g = action_eq g.action action && matches_pattern g.topic_pattern topic

pub has_grant-any :
    (gs : List Grant) (action : Action) (topic : Text)
    → has_grant gs action topic ≡ any (grants action topic) gs
unfolding has_grant any
has_grant-any [] action topic = refl
has_grant-any (g ∷ gs) action topic = ground (arith, has_grant-any gs action topic)

loop_lem :
    (gs : List Grant) (topic group : Text) (seen : Bool)
    → group_access_loop gs topic group seen
      ≡ (any (names topic group) gs || not (seen || any (consumes topic) gs))
unfolding group_access_loop any
loop_lem [] topic group seen = ground arith
loop_lem (g ∷ gs) topic group seen =
    ground (arith, loop_lem gs topic group seen, loop_lem gs topic group true)

-- A group is open exactly if a consume grant that matches the topic names it, or if no consume
-- grant matches the topic at all: one grant for one group closes every other group.
pub has_consumer_group_access-any :
    (gs : List Grant) (topic group : Text)
    → has_consumer_group_access gs topic group
      ≡ (any (names topic group) gs || not (any (consumes topic) gs))
unfolding has_consumer_group_access
has_consumer_group_access-any gs topic group = loop_lem gs topic group false

-- A user who may dequeue from the topic without a write grant on it holds a consume grant for it, and
-- then a group is open exactly if a matching consume grant names it.
pub restricted_lem :
    (gs : List Grant) (topic group : Text)
    → has_dequeue_access gs topic ≡ true
    → has_grant gs write topic ≡ false
    → has_consumer_group_access gs topic group ≡ any (names topic group) gs
unfolding has_dequeue_access
restricted_lem gs topic group d w =
    ground (arith, has_consumer_group_access-any gs topic group, has_grant-any gs consume topic)
