-- ===== src/Server/Http/Users.antt =====
-- handlers_users.go. The routes of http.go put jwtAuth and requireAdmin before each handler.
use queue_ti.Base.{ℕ, Bool, false, not, Option, none, some, List, [], map, ◌&&◌, ◌||◌, ltb}
use queue_ti.Base.Text.{Text, bytes, text_eq}
use queue_ti.Base.Table.{length}
use queue_ti.Users.Store.{
  User, GrantRow, StoreError, user_not_found, duplicate, cannot_delete_self, Visit, create,
  list_users, delete_user, list_grants, add_grant, add_consumer_group_grant, delete_grant,
  or_no_group,
}
use queue_ti.Users.Permissions.{Action}
use queue_ti.Users.Store.Update.{update_user}
use queue_ti.Server.Handler.{Server, Claims, on_store, ◌>>=◌, ◌>>◌, is_empty}
use queue_ti.Server.Http.{
  Http, json, created, no_content, with_body, reject_if, store_error, default_pattern,
}

-- userResponse: the hash of the password stays in the store.
pub record UserResponse : Type 0 where
  pub id : Text
  pub username : Text
  pub is_admin : Bool
  pub created_at : ℕ
  pub updated_at : ℕ

pub record GrantResponse : Type 0 where
  pub id : Text
  pub user_id : Text
  pub action : Action
  pub topic_pattern : Text
  pub consumer_group : Text
  pub created_at : ℕ

pub record CreateUserRequest : Type 0 where
  pub username : Text
  pub password : Text
  pub is_admin : Bool

pub record UpdateUserRequest : Type 0 where
  pub username : Option Text
  pub password : Option Text
  pub is_admin : Option Bool

pub record AddGrantRequest : Type 0 where
  pub action : Text
  pub topic_pattern : Text

pub record AddConsumerGroupGrantRequest : Type 0 where
  pub topic_pattern : Text
  pub consumer_group : Text

abbrev pub to_user_response : Server → User → UserResponse
to_user_response sv u = record {
  id = sv.postgres.uuid_out u.id;
  username = u.username;
  is_admin = u.is_admin;
  created_at = u.created_at;
  updated_at = u.updated_at;
}

abbrev pub to_grant_response : Server → GrantRow → GrantResponse
to_grant_response sv g = record {
  id = sv.postgres.uuid_out g.id;
  user_id = sv.postgres.uuid_out g.user_id;
  action = g.action;
  topic_pattern = g.topic_pattern;
  consumer_group = or_no_group g.consumer_group;
  created_at = g.created_at;
}

abbrev pub create_status : StoreError → ℕ
create_status duplicate = 409
create_status _ = 500

abbrev pub update_status : StoreError → ℕ
update_status user_not_found = 404
update_status duplicate = 409
update_status _ = 500

abbrev pub delete_status : StoreError → ℕ
delete_status cannot_delete_self = 400
delete_status user_not_found = 404
delete_status _ = 500

abbrev pub ungrant_status : StoreError → ℕ
ungrant_status user_not_found = 404
ungrant_status _ = 500

abbrev pub is_short : Text → Bool
is_short password = ltb (length password) 12

abbrev pub is_short_if_given : Option Text → Bool
is_short_if_given none = false
is_short_if_given (some password) = is_short password

abbrev pub is_other_action : Text → Bool
is_other_action a =
    not (text_eq a (bytes "read"))
    && not (text_eq a (bytes "write"))
    && not (text_eq a (bytes "admin"))

abbrev pub caller_id : Option Claims → Text
caller_id none = []
caller_id (some claims) = claims.user_id

module _ (sv : Server) where
  unfoldable pub users_list : Http (List UserResponse)
  users_list =
      on_store store_error (list_users sv.postgres) >>= λ us. json (map (to_user_response sv) us)

  unfoldable pub users_create : Visit → Option CreateUserRequest → Http UserResponse
  users_create v body = with_body body (λ req. do
    reject_if (is_empty req.username || is_empty req.password) 400
    reject_if (is_short req.password) 400
    u ← on_store create_status (create v req.username req.password req.is_admin)
    created (to_user_response sv u))

  unfoldable pub users_update : Visit → Text → Option UpdateUserRequest → Http UserResponse
  users_update v id body = with_body body (λ req. do
    reject_if (is_short_if_given req.password) 400
    u ← on_store update_status (update_user sv.postgres v id req.username req.password req.is_admin)
    json (to_user_response sv u))

  unfoldable pub users_delete : Option Claims → Text → Http (Unit {0})
  users_delete caller id =
      on_store delete_status (delete_user sv.postgres id (caller_id caller)) >> no_content

  unfoldable pub users_list_grants : Text → Http (List GrantResponse)
  users_list_grants id = on_store store_error (list_grants sv.postgres id) >>= λ gs.
      json (map (to_grant_response sv) gs)

  unfoldable pub users_add_grant : Visit → Text → Option AddGrantRequest → Http GrantResponse
  users_add_grant v id body = with_body body (λ req. do
    reject_if (is_other_action req.action) 400
    g ←
        on_store store_error
          (add_grant sv.postgres v id req.action (default_pattern req.topic_pattern))
    created (to_grant_response sv g))

  unfoldable pub users_add_group_grant :
      Visit → Text → Option AddConsumerGroupGrantRequest → Http GrantResponse
  users_add_group_grant v id body = with_body body (λ req. do
    reject_if (is_empty req.consumer_group) 400
    g ← on_store create_status (
        add_consumer_group_grant sv.postgres v id (default_pattern req.topic_pattern)
          req.consumer_group)
    created (to_grant_response sv g))

  unfoldable pub users_delete_grant : Text → Text → Http (Unit {0})
  users_delete_grant id grant_id =
      on_store ungrant_status (delete_grant sv.postgres grant_id id) >> no_content
