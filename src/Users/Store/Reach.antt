-- ===== src/Users/Store/Reach.antt =====
-- users.go and seed.go: every method, in any order and with any faults.
use queue_ti.Base.{ℕ, Bool, Option, none, some, List, [], ◌∷◌, Bool-cases, inl, inr}
use queue_ti.Base.Text.{Text, text_eq}
use queue_ti.Base.Postgres.{Postgres}
use queue_ti.Users.Permissions.{consume}
use queue_ti.Users.Store.{
  User, Accounts, Act, Visit, statement, fail, with_uuid, found, create, get_by_id, list_users,
  delete_user, add_grant, add_consumer_group_grant, new_grant, list_grants, delete_grant, action_of,
  hash_refused, store_failed,
}
use queue_ti.Users.Store.Update.{update_user, seed_admin_user}
use queue_ti.Users.Store.Invariant.{WfAccounts}
use queue_ti.Users.Store.Keeps.{
  statement-KeepsWf, given-KeepsWf, delete_user_row-KeepsWf, insert_grant-KeepsWf, plain_error-Wf,
  delete_grant_row-KeepsWf, update_row-KeepsWf, create-KeepsWf, seed_if_empty-Wf, with_faults,
  KeepsWf,
}

-- A call of a method of the store.
pub data StoreCall : Type 0 where
  creates : Visit → Text → Text → Bool → StoreCall
  gets : Text → StoreCall
  lists : StoreCall
  updates : Visit → Text → Option Text → Option Text → Option Bool → StoreCall
  deletes : Text → Text → StoreCall
  grants : Visit → Text → Text → Text → StoreCall
  grants_group : Visit → Text → Text → Text → StoreCall
  lists_grants : Text → StoreCall
  ungrants : Text → Text → StoreCall
  seeds : Visit → Text → Text → StoreCall

-- The accounts after a call.
unfoldable pub after : Postgres → StoreCall → Accounts → Accounts
after pg (creates v name password is_admin) s = (create v name password is_admin s).1
after pg (gets id) s = (get_by_id pg id s).1
after pg lists s = (list_users pg s).1
after pg (updates v id name password is_admin) s = (update_user pg v id name password is_admin s).1
after pg (deletes id caller) s = (delete_user pg id caller s).1
after pg (grants v id action pattern) s = (add_grant pg v id action pattern s).1
after pg (grants_group v id pattern group) s = (add_consumer_group_grant pg v id pattern group s).1
after pg (lists_grants id) s = (list_grants pg id s).1
after pg (ungrants g id) s = (delete_grant pg g id s).1
after pg (seeds v name password) s = (seed_admin_user pg v name password s).1

-- Calls in a row, each with the faults that it meets.
unfoldable pub history : Postgres → List (List Bool × StoreCall) → Accounts → Accounts
unfolding after
history pg [] s = s
history pg ((fs, r) ∷ rs) s = history pg rs (after pg r (record s { faults = fs }))

found-Wf : (o : Option User) (s : Accounts) → WfAccounts s → WfAccounts (found o s).1
found-Wf none s w = w
found-Wf (some u) s w = w

module _ (pg : Postgres) where
  with_uuid-KeepsWf {ℓ} :
      {A : Type ℓ} (id : Text) (f : ℕ → Act A)
      → ((i : ℕ) → KeepsWf (f i))
      → KeepsWf (statement (with_uuid pg id f))
  with_uuid-KeepsWf id f k = statement-KeepsWf _ (given-KeepsWf store_failed (pg.uuid_in id) f k)

  get_by_id-KeepsWf : (id : Text) → KeepsWf (get_by_id pg id)
  unfolding get_by_id
  get_by_id-KeepsWf id = with_uuid-KeepsWf id _ (λ i s w. found-Wf _ s w)

  update_user-KeepsWf :
      (v : Visit) (id : Text) (name password : Option Text) (is_admin : Option Bool)
      → KeepsWf (update_user pg v id name password is_admin)
  unfolding update_user
  update_user-KeepsWf v id none none none = get_by_id-KeepsWf id
  update_user-KeepsWf v id none none (some a) =
      with_uuid-KeepsWf id _ (λ i. update_row-KeepsWf v i none none (some a))
  update_user-KeepsWf v id (some n) none is_admin =
      with_uuid-KeepsWf id _ (λ i. update_row-KeepsWf v i (some n) none is_admin)
  update_user-KeepsWf v id none (some p) is_admin =
      given-KeepsWf hash_refused (v.bcrypt p) _
        (λ h. with_uuid-KeepsWf id _ (λ i. update_row-KeepsWf v i none (some h) is_admin))
  update_user-KeepsWf v id (some n) (some p) is_admin =
      given-KeepsWf hash_refused (v.bcrypt p) _
        (λ h. with_uuid-KeepsWf id _ (λ i. update_row-KeepsWf v i (some n) (some h) is_admin))

  delete_user-KeepsWf : (id caller : Text) → KeepsWf (delete_user pg id caller)
  unfolding delete_user fail
  delete_user-KeepsWf id caller s w = elim (Bool-cases (text_eq id caller)) [
    | inl e ↦ rw e w
    | inr e ↦ rw e (with_uuid-KeepsWf id _ delete_user_row-KeepsWf s w)
  ]

  add_grant-KeepsWf :
      (v : Visit) (id action pattern : Text) → KeepsWf (add_grant pg v id action pattern)
  unfolding add_grant
  add_grant-KeepsWf v id action pattern = with_uuid-KeepsWf id _ (λ i.
      given-KeepsWf store_failed (action_of action) _
        (λ a s w. plain_error-Wf _ (insert_grant-KeepsWf (new_grant v i a pattern none) s w)))

  delete_grant-KeepsWf : (grant_id user_id : Text) → KeepsWf (delete_grant pg grant_id user_id)
  unfolding delete_grant
  delete_grant-KeepsWf grant_id user_id =
      with_uuid-KeepsWf grant_id _
        (λ g. given-KeepsWf store_failed (pg.uuid_in user_id) _ (delete_grant_row-KeepsWf g))

  list_users-KeepsWf : KeepsWf (list_users pg)
  unfolding list_users
  list_users-KeepsWf = statement-KeepsWf _ (λ s w. w)

  after-Wf : (r : StoreCall) (s : Accounts) → WfAccounts s → WfAccounts (after pg r s)
  unfolding after list_grants add_consumer_group_grant seed_admin_user
  after-Wf (creates v name password is_admin) s w = create-KeepsWf v name password is_admin s w
  after-Wf (gets id) s w = get_by_id-KeepsWf id s w
  after-Wf lists s w = list_users-KeepsWf s w
  after-Wf (updates v id name password is_admin) s w =
      update_user-KeepsWf v id name password is_admin s w
  after-Wf (deletes id caller) s w = delete_user-KeepsWf id caller s w
  after-Wf (grants v id action pattern) s w = add_grant-KeepsWf v id action pattern s w
  after-Wf (grants_group v id pattern group) s w =
      with_uuid-KeepsWf id _
        (λ i. insert_grant-KeepsWf (new_grant v i consume pattern (some group))) s w
  after-Wf (lists_grants id) s w = with_uuid-KeepsWf id _ (λ i s w. w) s w
  after-Wf (ungrants g id) s w = delete_grant-KeepsWf g id s w
  after-Wf (seeds v name password) s w =
      seed_if_empty-Wf v name password (list_users pg s) (list_users-KeepsWf s w)

  -- Any calls of the store, in any order and with any faults, keep its tables well formed: unique
  -- ids and names of users, unique ids of grants, no second consume grant of a user for a pattern
  -- and a group, and no grant whose user is gone.
  pub history-WfAccounts :
      (rs : List (List Bool × StoreCall)) (s : Accounts)
      → WfAccounts s
      → WfAccounts (history pg rs s)
  unfolding history
  history-WfAccounts [] s w = w
  history-WfAccounts ((fs, r) ∷ rs) s w =
      history-WfAccounts rs _ (after-Wf r (record s { faults = fs }) (with_faults s fs w))
