-- ===== src/Users/Store.antt =====
-- users.go: the store of users and their grants on the tables `users` and `user_grants`. Each method
-- runs one statement, which may fail; a schedule of faults says which do.
pub mod Seeding
pub mod Effects
pub mod Clean
pub mod Failures
pub mod Keeps
pub mod Reach
pub mod Update
pub mod Invariant
use queue_ti.Base.{
  ℕ, Bool, true, false, Option, none, some, List, [], ◌∷◌, ◌++◌, map, ◌&&◌, ◌==◌, if◌then◌else◌,
}
use queue_ti.Base.Text.{Text, bytes, text_eq}
use queue_ti.Base.Table.{select, delete, count, any, first, order_by, update}
use queue_ti.Base.Sort.{sort}
use queue_ti.Base.Postgres.{Postgres}
use queue_ti.Users.Permissions.{Action, read, write, admin, consume, action_eq, Grant}

-- A row of `users`.
pub record User : Type 0 where
  pub id : ℕ
  pub username : Text
  pub password_hash : Text
  pub is_admin : Bool
  pub created_at : ℕ
  pub updated_at : ℕ

-- A row of `user_grants`.
pub record GrantRow : Type 0 where
  pub id : ℕ
  pub user_id : ℕ
  pub action : Action
  pub topic_pattern : Text
  pub consumer_group : Option Text
  pub created_at : ℕ

pub record Accounts : Type 0 where
  pub users : List User
  pub grants : List GrantRow
  pub faults : List Bool

-- ErrNotFound, ErrDuplicate, ErrCannotDeleteSelf, a password that bcrypt refuses, and any error of
-- the database.
pub data StoreError : Type 0 where
  user_not_found duplicate cannot_delete_self hash_refused store_failed : StoreError

pub data Outcome {ℓ} (A : Type ℓ) : Type ℓ where
  done : A → Outcome A
  fails : StoreError → Outcome A

abbrev pub Act {ℓ} : Type ℓ → Type ℓ
Act A = Accounts → Outcome A × Accounts

-- What a call brings: now() and gen_random_uuid() of the database, and bcrypt with its salt.
pub record Visit : Type 0 where
  pub now : ℕ
  pub uuid : ℕ
  pub bcrypt : Text → Option Text

module _ {ℓ} {A : Type ℓ} where
  unfoldable pub fail : StoreError → Act A
  fail e s = (fails e, s)

  abbrev pub by_faults : Act A → List Bool → Act A
  by_faults m [] s = m s
  by_faults m (true ∷ fs) s = (fails store_failed, record s { faults = fs })
  by_faults m (false ∷ fs) s = m (record s { faults = fs })

  -- One statement of the pool, unless the schedule says that it fails.
  unfoldable pub statement : Act A → Act A
  statement m s = by_faults m s.faults s

  abbrev pub given {κ} : {B : Type κ} → StoreError → Option B → (B → Act A) → Act A
  given e none f = fail e
  given e (some b) f = f b

  -- A parameter that PostgreSQL reads as a UUID.
  abbrev pub with_uuid : Postgres → Text → (ℕ → Act A) → Act A
  with_uuid pg id f = given store_failed (pg.uuid_in id) f

  -- The hash of a password, before any statement runs.
  abbrev pub with_hash : (Text → Option Text) → Text → (Text → Act A) → Act A
  with_hash bcrypt password f = given hash_refused (bcrypt password) f

abbrev pub found {ℓ} : {A : Type ℓ} → Option A → Accounts → Outcome A × Accounts
found none s = (fails user_not_found, s)
found (some a) s = (done a, s)

abbrev pub has_username : Text → User → Bool
has_username name u = text_eq u.username name

abbrev pub is_user : ℕ → User → Bool
is_user i u = u.id == i

abbrev pub new_user : Visit → Text → Text → Bool → User
new_user v username hash is_admin = record {
  id = v.uuid;
  username = username;
  password_hash = hash;
  is_admin = is_admin;
  created_at = v.now;
  updated_at = v.now;
}

-- INSERT INTO users: the primary key and the unique index on the username refuse a second row.
unfoldable pub insert_user : User → Act User
insert_user u s =
    if any (is_user u.id) s.users
    then (fails duplicate, s)
    else if any (has_username u.username) s.users
    then (fails duplicate, s)
    else (done u, record s { users = s.users ++ u ∷ [] })

unfoldable pub create : Visit → Text → Text → Bool → Act User
create v username password is_admin =
    with_hash v.bcrypt password
      (λ hash. statement (insert_user (new_user v username hash is_admin)))

-- The user and the hash of the password.
unfoldable pub get_by_username : Text → Act User
get_by_username name = statement (λ s. found (first (has_username name) s.users) s)

unfoldable pub get_by_id : Postgres → Text → Act User
get_by_id pg id = statement (with_uuid pg id (λ i s. found (first (is_user i) s.users) s))

unfoldable pub list_users : Postgres → Act (List User)
list_users pg = statement (λ s. (done (sort (λ a b. pg.collate a.username b.username) s.users), s))

-- ON DELETE CASCADE takes the grants of a user who is deleted.
unfoldable pub delete_rows : ℕ → Accounts → Accounts
delete_rows i s = record s {
  users = delete (is_user i) s.users;
  grants = delete (λ g. g.user_id == i) s.grants;
}

unfoldable pub delete_user_row : ℕ → Act (Unit {0})
delete_user_row i s =
    if count (is_user i) s.users == 0 then (fails user_not_found, s) else (done tt, delete_rows i s)

-- Delete compares the two ids as texts.
unfoldable pub delete_user : Postgres → Text → Text → Act (Unit {0})
delete_user pg id caller =
    if text_eq id caller
    then fail cannot_delete_self
    else statement (with_uuid pg id delete_user_row)

-- The CHECK on the column `action`.
unfoldable pub action_of : Text → Option Action
action_of t =
    if text_eq t (bytes "read")
    then some read
    else if text_eq t (bytes "write")
    then some write
    else if text_eq t (bytes "admin")
    then some admin
    else if text_eq t (bytes "consume")
    then some consume
    else none

-- uq_user_grants_consume, a partial unique index in which absent groups are distinct.
abbrev pub same_group : Option Text → Option Text → Bool
same_group (some a) (some b) = text_eq a b
same_group _ _ = false

abbrev pub same_consume : GrantRow → GrantRow → Bool
same_consume a b =
    action_eq a.action consume
    && action_eq b.action consume
    && a.user_id == b.user_id
    && text_eq a.topic_pattern b.topic_pattern
    && same_group a.consumer_group b.consumer_group

abbrev pub same_grant_id : GrantRow → GrantRow → Bool
same_grant_id a b = a.id == b.id

-- INSERT INTO user_grants: the keys refuse a second row, the foreign key a user who is not there.
unfoldable pub insert_grant : GrantRow → Act GrantRow
insert_grant g s =
    if any (λ h. same_grant_id h g) s.grants
    then (fails duplicate, s)
    else if any (λ h. same_consume h g) s.grants
    then (fails duplicate, s)
    else if any (is_user g.user_id) s.users
    then (done g, record s { grants = s.grants ++ g ∷ [] })
    else (fails store_failed, s)

abbrev pub new_grant : Visit → ℕ → Action → Text → Option Text → GrantRow
new_grant v i action pattern group = record {
  id = v.uuid;
  user_id = i;
  action = action;
  topic_pattern = pattern;
  consumer_group = group;
  created_at = v.now;
}

-- AddGrant passes a clash on as it is, so it is no ErrDuplicate.
abbrev pub plain_error {ℓ} : {A : Type ℓ} → Outcome A × Accounts → Outcome A × Accounts
plain_error (done a, s) = (done a, s)
plain_error (fails e, s) = (fails store_failed, s)

unfoldable pub add_grant : Postgres → Visit → Text → Text → Text → Act GrantRow
add_grant pg v user_id action pattern = statement (
    with_uuid pg user_id (λ i.
      given store_failed (action_of action)
        (λ a s. plain_error (insert_grant (new_grant v i a pattern none) s))))

unfoldable pub add_consumer_group_grant : Postgres → Visit → Text → Text → Text → Act GrantRow
add_consumer_group_grant pg v user_id pattern group =
    statement
      (with_uuid pg user_id (λ i. insert_grant (new_grant v i consume pattern (some group))))

-- COALESCE(consumer_group, '')
abbrev pub or_no_group : Option Text → Text
or_no_group none = []
or_no_group (some g) = g

abbrev pub to_grant : GrantRow → Grant
to_grant g = record {
  action = g.action;
  topic_pattern = g.topic_pattern;
  consumer_group = or_no_group g.consumer_group;
}

abbrev pub grants_of : ℕ → Accounts → List GrantRow
grants_of i s = order_by (λ (g : GrantRow). g.created_at) (select (λ g. g.user_id == i) s.grants)

unfoldable pub list_grants : Postgres → Text → Act (List GrantRow)
list_grants pg user_id = statement (with_uuid pg user_id (λ i s. (done (grants_of i s), s)))

abbrev pub as_grants : Outcome (List GrantRow) × Accounts → Outcome (List Grant) × Accounts
as_grants (done gs, s) = (done (map to_grant gs), s)
as_grants (fails e, s) = (fails e, s)

-- GetUserGrants, with the columns that the checks read.
unfoldable pub get_user_grants : Postgres → Text → Act (List Grant)
get_user_grants pg user_id s = as_grants (list_grants pg user_id s)

abbrev pub is_grant_of : ℕ → ℕ → GrantRow → Bool
is_grant_of g i r = r.id == g && r.user_id == i

unfoldable pub delete_grant_row : ℕ → ℕ → Act (Unit {0})
delete_grant_row g i s =
    if count (is_grant_of g i) s.grants == 0
    then (fails user_not_found, s)
    else (done tt, record s { grants = delete (is_grant_of g i) s.grants })

unfoldable pub delete_grant : Postgres → Text → Text → Act (Unit {0})
delete_grant pg grant_id user_id =
    statement (with_uuid pg grant_id (λ g. with_uuid pg user_id (delete_grant_row g)))
