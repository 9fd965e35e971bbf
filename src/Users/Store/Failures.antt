-- ===== src/Users/Store/Failures.antt =====
-- users.go and seed.go: a method that returns an error has changed no row.
use queue_ti.Base.{
  refl, ◌∙◌, Bool, true, false, Option, none, some, List, [], ◌∷◌, Bool-cases, inl, inr, ◌==◌,
  if◌then◌else◌,
}
use queue_ti.Base.Text.{Text, text_eq}
use queue_ti.Base.Table.{first, count}
use queue_ti.Base.Sort.{sort}
use queue_ti.Base.Postgres.{Postgres}
use queue_ti.Users.Permissions.{consume}
use queue_ti.Users.Store.{
  User, Accounts, Outcome, done, fails, Visit, statement, by_faults, fail, with_uuid, is_user,
  is_grant_of, create, new_user, get_by_id, list_users, delete_user, delete_user_row, add_grant,
  add_consumer_group_grant, new_grant, list_grants, delete_grant, delete_grant_row, action_of,
  hash_refused, store_failed, user_not_found, duplicate, cannot_delete_self,
}
use queue_ti.Users.Store.Reach.{
  StoreCall, creates, gets, lists, updates, deletes, grants, grants_group, lists_grants, ungrants,
  seeds,
}
use queue_ti.Users.Store.Update.{
  seeded, seed_if_empty, seed_admin_user, is_empty_text, update_user, update_row,
}
use queue_ti.Users.Store.Clean.{
  SameRows, Unchanged, Clean, statement-Clean, given-Clean, with_uuid-Clean, if-Unchanged,
  found-Unchanged, insert_user-Clean, insert_grant-Clean, plain_error-Unchanged, update_found-Clean,
}

module _ (pg : Postgres) where
  update_to-Clean :
      (v : Visit) (id : Text) (name hash : Option Text) (is_admin : Option Bool)
      → Clean (statement (with_uuid pg id (λ i. update_row v i name hash is_admin)))
  unfolding update_row
  update_to-Clean v id name hash is_admin =
      with_uuid-Clean pg id _
        (λ i s. update_found-Clean v i name hash is_admin (first (is_user i) s.users) s)

  update_user-Clean :
      (v : Visit) (id : Text) (name password : Option Text) (is_admin : Option Bool)
      → Clean (update_user pg v id name password is_admin)
  unfolding update_user get_by_id
  update_user-Clean v id none none none = with_uuid-Clean pg id _ (λ i s. found-Unchanged _ s)
  update_user-Clean v id none none (some a) = update_to-Clean v id none none (some a)
  update_user-Clean v id (some n) none is_admin = update_to-Clean v id (some n) none is_admin
  update_user-Clean v id none (some p) is_admin =
      given-Clean hash_refused (v.bcrypt p) _ (λ h. update_to-Clean v id none (some h) is_admin)
  update_user-Clean v id (some n) (some p) is_admin =
      given-Clean hash_refused (v.bcrypt p) _ (λ h. update_to-Clean v id (some n) (some h) is_admin)

  delete_user-Clean : (id caller : Text) → Clean (delete_user pg id caller)
  unfolding delete_user delete_user_row fail
  delete_user-Clean id caller s = elim (Bool-cases (text_eq id caller)) [
    | inl e ↦ rw e (refl, refl)
    | inr e ↦
        rw e (
          with_uuid-Clean pg id _ (λ i t. if-Unchanged (count (is_user i) t.users == 0) _ t _ tt) s)
  ]

  delete_grant-Clean : (grant_id user_id : Text) → Clean (delete_grant pg grant_id user_id)
  unfolding delete_grant delete_grant_row
  delete_grant-Clean grant_id user_id = with_uuid-Clean pg grant_id _ (λ g.
      given-Clean store_failed (pg.uuid_in user_id) _
        (λ i s. if-Unchanged (count (is_grant_of g i) s.grants == 0) _ s _ tt))

  add_grant-Clean :
      (v : Visit) (id action pattern : Text) → Clean (add_grant pg v id action pattern)
  unfolding add_grant
  add_grant-Clean v id action pattern = with_uuid-Clean pg id _ (λ i.
      given-Clean store_failed (action_of action) _
        (λ a s. plain_error-Unchanged s _ (insert_grant-Clean (new_grant v i a pattern none) s)))

  add_consumer_group_grant-Clean :
      (v : Visit) (id pattern group : Text) → Clean (add_consumer_group_grant pg v id pattern group)
  unfolding add_consumer_group_grant
  add_consumer_group_grant-Clean v id pattern group =
      with_uuid-Clean pg id _ (λ i. insert_grant-Clean (new_grant v i consume pattern (some group)))

pub create-Clean :
    (v : Visit) (name password : Text) (is_admin : Bool) → Clean (create v name password is_admin)
unfolding create
create-Clean v name password is_admin =
    given-Clean hash_refused (v.bcrypt password) _
      (λ h. statement-Clean _ (insert_user-Clean (new_user v name h is_admin)))

seeded-Unchanged :
    (s : Accounts) (r : Outcome User × Accounts) → Unchanged s r → Unchanged s (seeded r)
seeded-Unchanged s (done u, t) h = tt
seeded-Unchanged s (fails user_not_found, t) h = h
seeded-Unchanged s (fails duplicate, t) h = tt
seeded-Unchanged s (fails cannot_delete_self, t) h = h
seeded-Unchanged s (fails hash_refused, t) h = h
seeded-Unchanged s (fails store_failed, t) h = h

-- The list is read first; what that leaves is where the rest starts.
seed_if_empty-Unchanged :
    (v : Visit) (name password : Text) (s : Accounts) (r : Outcome (List User) × Accounts)
    → SameRows s r.1
    → Unchanged s (seed_if_empty v name password r)
seed_if_empty-Unchanged v name password s (fails e, t) h = h
seed_if_empty-Unchanged v name password s (done (u ∷ us), t) h = tt
seed_if_empty-Unchanged v name password s (done [], t) h =
    by_credentials (is_empty_text name) (is_empty_text password)
  where
    from_there : (r : Outcome (Unit {0}) × Accounts) → Unchanged t r → Unchanged s r
    from_there (done u, t') k = tt
    from_there (fails e, t') k = (k.0 ∙ h.0, k.1 ∙ h.1)

    by_credentials :
        (a b : Bool)
        → Unchanged s (
            if a
            then (done tt, t)
            else if b
            then (done tt, t)
            else seeded (create v name password true t))
    by_credentials true b = tt
    by_credentials false true = tt
    by_credentials false false =
        from_there _ (seeded-Unchanged t _ (create-Clean v name password true t))

by_faults-SameRows :
    (pg : Postgres) (fs : List Bool) (s : Accounts)
    → SameRows s
        (by_faults (λ t. (done (sort (λ a b. pg.collate a.username b.username) t.users), t)) fs s).1
by_faults-SameRows pg [] s = (refl, refl)
by_faults-SameRows pg (true ∷ fs) s = (refl, refl)
by_faults-SameRows pg (false ∷ fs) s = (refl, refl)

pub list_users-SameRows : (pg : Postgres) (s : Accounts) → SameRows s (list_users pg s).1
unfolding list_users statement
list_users-SameRows pg s = by_faults-SameRows pg s.faults s

seed_admin_user-Clean :
    (pg : Postgres) (v : Visit) (name password : Text) → Clean (seed_admin_user pg v name password)
unfolding seed_admin_user
seed_admin_user-Clean pg v name password s =
    seed_if_empty-Unchanged v name password s (list_users pg s) (list_users-SameRows pg s)

-- What a call of each method does to the rows when it returns an error.
abbrev pub CallUnchanged : Postgres → StoreCall → Accounts → Type 0
CallUnchanged pg (creates v name password is_admin) s =
    Unchanged s (create v name password is_admin s)
CallUnchanged pg (gets id) s = Unchanged s (get_by_id pg id s)
CallUnchanged pg lists s = Unchanged s (list_users pg s)
CallUnchanged pg (updates v id name password is_admin) s =
    Unchanged s (update_user pg v id name password is_admin s)
CallUnchanged pg (deletes id caller) s = Unchanged s (delete_user pg id caller s)
CallUnchanged pg (grants v id action pattern) s = Unchanged s (add_grant pg v id action pattern s)
CallUnchanged pg (grants_group v id pattern group) s =
    Unchanged s (add_consumer_group_grant pg v id pattern group s)
CallUnchanged pg (lists_grants id) s = Unchanged s (list_grants pg id s)
CallUnchanged pg (ungrants g id) s = Unchanged s (delete_grant pg g id s)
CallUnchanged pg (seeds v name password) s = Unchanged s (seed_admin_user pg v name password s)

-- A method of the store that returns an error, whatever the error is and wherever a fault strikes,
-- has left the users and the grants as they were.
pub call-CallUnchanged : (pg : Postgres) (r : StoreCall) (s : Accounts) → CallUnchanged pg r s
unfolding get_by_id list_users list_grants
call-CallUnchanged pg (creates v name password is_admin) s = create-Clean v name password is_admin s
call-CallUnchanged pg (gets id) s = with_uuid-Clean pg id _ (λ i t. found-Unchanged _ t) s
call-CallUnchanged pg lists s = statement-Clean _ (λ t. tt) s
call-CallUnchanged pg (updates v id name password is_admin) s =
    update_user-Clean pg v id name password is_admin s
call-CallUnchanged pg (deletes id caller) s = delete_user-Clean pg id caller s
call-CallUnchanged pg (grants v id action pattern) s = add_grant-Clean pg v id action pattern s
call-CallUnchanged pg (grants_group v id pattern group) s =
    add_consumer_group_grant-Clean pg v id pattern group s
call-CallUnchanged pg (lists_grants id) s = with_uuid-Clean pg id _ (λ i t. tt) s
call-CallUnchanged pg (ungrants g id) s = delete_grant-Clean pg g id s
call-CallUnchanged pg (seeds v name password) s = seed_admin_user-Clean pg v name password s
