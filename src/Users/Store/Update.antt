-- ===== src/Users/Store/Update.antt =====
-- Store.Update of users.go, and SeedAdminUser of seed.go.
use queue_ti.Base.{
  ℕ, Bool, true, false, Option, none, some, List, [], ◌∷◌, ◌==◌, ◌&&◌, not, if◌then◌else◌,
}
use queue_ti.Base.Text.{Text, text_eq}
use queue_ti.Base.Table.{any, first, update}
use queue_ti.Base.Postgres.{Postgres}
use queue_ti.Users.Store.{
  User, Accounts, Act, Outcome, done, fails, user_not_found, duplicate, Visit, statement, with_uuid,
  with_hash, is_user, get_by_id, list_users, create,
}

-- CASE WHEN $n IS NOT NULL THEN $n ELSE column END
abbrev pub or_kept {ℓ} : {A : Type ℓ} → Option A → A → A
or_kept none old = old
or_kept (some new) old = new

abbrev pub updated : Visit → Option Text → Option Text → Option Bool → User → User
updated v username hash is_admin u = record u {
  username = or_kept username u.username;
  password_hash = or_kept hash u.password_hash;
  is_admin = or_kept is_admin u.is_admin;
  updated_at = v.now;
}

-- Another user has the name.
abbrev pub takes_name : ℕ → Text → User → Bool
takes_name i name u = not (u.id == i) && text_eq u.username name

module _ (v : Visit) (i : ℕ) (username hash : Option Text) (is_admin : Option Bool) where
  abbrev pub update_found : Option User → Act User
  update_found none s = (fails user_not_found, s)
  update_found (some u) s =
      let u' = updated v username hash is_admin u in
      if any (takes_name i u'.username) s.users then (fails duplicate, s) else (
        done u',
        record s { users = update (is_user i) (updated v username hash is_admin) s.users },
      )

  unfoldable pub update_row : Act User
  update_row s = update_found (first (is_user i) s.users) s

-- Hash the password before the query.
abbrev pub with_optional_hash {ℓ} :
    {A : Type ℓ} → Visit → Option Text → (Option Text → Act A) → Act A
with_optional_hash v none f = f none
with_optional_hash v (some password) f = with_hash v.bcrypt password (λ h. f (some h))

abbrev pub is_absent {ℓ} : {A : Type ℓ} → Option A → Bool
is_absent none = true
is_absent (some a) = false

unfoldable pub update_user :
    Postgres → Visit → Text → Option Text → Option Text → Option Bool → Act User
update_user pg v id username password is_admin =
    if is_absent username && is_absent password && is_absent is_admin
    then get_by_id pg id
    else with_optional_hash v password
        (λ hash. statement (with_uuid pg id (λ i. update_row v i username hash is_admin)))

-- Create's outcome: a duplicate is no error for the seeder.
abbrev pub seeded : Outcome User × Accounts → Outcome (Unit {0}) × Accounts
seeded (done u, s) = (done tt, s)
seeded (fails duplicate, s) = (done tt, s)
seeded (fails e, s) = (fails e, s)

abbrev pub is_empty_text : Text → Bool
is_empty_text [] = true
is_empty_text (b ∷ t) = false

abbrev pub seed_if_empty :
    Visit → Text → Text → Outcome (List User) × Accounts → Outcome (Unit {0}) × Accounts
seed_if_empty v username password (fails e, s) = (fails e, s)
seed_if_empty v username password (done (u ∷ us), s) = (done tt, s)
seed_if_empty v username password (done [], s) =
    if is_empty_text username
    then (done tt, s)
    else if is_empty_text password
    then (done tt, s)
    else seeded (create v username password true s)

unfoldable pub seed_admin_user : Postgres → Visit → Text → Text → Act (Unit {0})
seed_admin_user pg v username password s = seed_if_empty v username password (list_users pg s)
