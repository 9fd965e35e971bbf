-- ===== src/Tests/Accounts.antt =====
-- The user store.
use queue_ti.Base.{◌≡◌, refl, none, some, true, false, [], ◌∷◌}
use queue_ti.Base.Text.{bytes}
use queue_ti.Users.Store.{User, Accounts, done, fails}
use queue_ti.Users.Store.Update.{update_user, seed_admin_user}
use queue_ti.Users.Store.Invariant.{WfAccounts}
use queue_ti.Users.Store.Reach.{history, history-WfAccounts, creates, deletes}
use queue_ti.Users.Store.Failures.{CallUnchanged, call-CallUnchanged}
use queue_ti.Users.Store.Effects.{UpdatedBy, update_user-UpdatedBy}
use queue_ti.Users.Store.Seeding.{Seeded, seed_admin_user-Seeded}
use queue_ti.Tests.Desk.{postgres, visit, ann, accounts, no_accounts, accounts-WfAccounts}

history-WfAccounts_example : WfAccounts (
    history postgres
      (([], creates visit (bytes "bob") (bytes "a long password") false)
        ∷ (true ∷ [], deletes (bytes "1") (bytes "Z"))
        ∷ ([], deletes (bytes "1") (bytes "Z"))
        ∷ [])
      accounts)
history-WfAccounts_example =
    history-WfAccounts postgres
      (([], creates visit (bytes "bob") (bytes "a long password") false)
        ∷ (true ∷ [], deletes (bytes "1") (bytes "Z"))
        ∷ ([], deletes (bytes "1") (bytes "Z"))
        ∷ [])
      accounts accounts-WfAccounts

call-CallUnchanged_example :
    CallUnchanged postgres (creates visit (bytes "ann") (bytes "a long password") true) accounts
call-CallUnchanged_example =
    call-CallUnchanged postgres (creates visit (bytes "ann") (bytes "a long password") true)
      accounts

abbrev renamed : User
renamed = record ann { username = bytes "eve"; updated_at = 700 }

abbrev renamed_accounts : Accounts
renamed_accounts = record accounts { users = renamed ∷ [] }

update_run :
    update_user postgres visit (bytes "1") (some (bytes "eve")) none none accounts
    ≡ (done renamed, renamed_accounts)
unfolding update_user queue_ti.Users.Store.statement queue_ti.Users.Store.Update.update_row
    queue_ti.Base.Table.first queue_ti.Base.Table.any queue_ti.Base.Table.update
    queue_ti.Base.Text.text_eq
update_run = refl

update_user-UpdatedBy_example :
    UpdatedBy postgres visit
      (bytes "1")
      (some (bytes "eve"))
      none
      none
      accounts
      renamed
      renamed_accounts
update_user-UpdatedBy_example =
    update_user-UpdatedBy postgres visit (bytes "1") none accounts (some (bytes "eve")) none refl
      update_run

abbrev root : User
root = record {
  id = 90;
  username = bytes "root";
  password_hash = bytes "#";
  is_admin = true;
  created_at = 700;
  updated_at = 700;
}

seed_run :
    seed_admin_user postgres visit (bytes "root") (bytes "a long password") no_accounts
    ≡ (done tt, record no_accounts { users = root ∷ [] })
unfolding seed_admin_user queue_ti.Users.Store.list_users queue_ti.Users.Store.create
    queue_ti.Users.Store.statement queue_ti.Users.Store.insert_user queue_ti.Base.Table.any
    queue_ti.Base.Sort.sort
seed_run = refl

seed_admin_user-Seeded_example :
    Seeded visit
      (bytes "root")
      (bytes "a long password")
      no_accounts
      (record no_accounts { users = root ∷ [] })
seed_admin_user-Seeded_example =
    seed_admin_user-Seeded visit (bytes "root") (bytes "a long password") postgres no_accounts
      seed_run
