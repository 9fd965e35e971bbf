-- ===== src/Users/Store/Seeding.antt =====
-- seed.go: what a seeding has done.
use queue_ti.Base.{
  ◌≡◌, refl, ap, sym, ◌∙◌, Bool, true, false, some, List, [], ◌∷◌, ◌++◌, Bool-cases, inl, inr,
  if◌then◌else◌,
}
use queue_ti.Base.Text.{Text}
use queue_ti.Base.Table.{any, length}
use queue_ti.Base.Sort.{length-sort}
use queue_ti.Base.Postgres.{Postgres}
use queue_ti.Users.Store.{
  User, Accounts, Outcome, done, fails, Visit, is_user, has_username, create, insert_user, new_user,
  list_users, hash_refused, store_failed, user_not_found, duplicate, cannot_delete_self,
}
use queue_ti.Users.Store.Update.{seeded, seed_if_empty, seed_admin_user, is_empty_text}
use queue_ti.Users.Store.Clean.{SameRows, Unchanged}
use queue_ti.Users.Store.Failures.{create-Clean, list_users-SameRows}
use queue_ti.Users.Store.Effects.{Post, statement-Post, given-Post, Post-imp, Post-done}

-- The seeder has left the users alone, or there were none and now there is the one administrator.
pub data Seeded (v : Visit) (name password : Text) (s t : Accounts) : Type 0 where
  left_alone : t.users ≡ s.users → Seeded v name password s t
  first_admin :
      (hash : Text)
      → v.bcrypt password ≡ some hash
      → s.users ≡ []
      → t.users ≡ new_user v name hash true ∷ []
      → Seeded v name password s t

pub no_rows {ℓ} : {A : Type ℓ} (xs : List A) → length xs ≡ 0 → xs ≡ []
no_rows [] e = refl
no_rows (x ∷ xs) e = cc

module _ (v : Visit) (name password : Text) where
  insert-first :
      (s : Accounts) (hash : Text)
      → v.bcrypt password ≡ some hash
      → s.users ≡ []
      → Post (λ u t. Seeded v name password s t) (insert_user (new_user v name hash true) s)
  unfolding insert_user
  insert-first s hash e empty = elim (Bool-cases (any (is_user v.uuid) s.users)) [
    | inl a ↦ rw a tt
    | inr a ↦ elim (Bool-cases (any (has_username name) s.users)) [
      | inl b ↦ rw (a, b) tt
      | inr b ↦
          rw (a, b)
            (first_admin hash e empty (ap (λ us. us ++ new_user v name hash true ∷ []) empty))
    ]
  ]

  create-Post :
      (s : Accounts)
      → s.users ≡ []
      → Post (λ u t. Seeded v name password s t) (create v name password true s)
  unfolding create
  create-Post s empty = given-Post _ hash_refused (v.bcrypt password) _ s (λ hash e.
      statement-Post _ _ s (λ fs.
        Post-imp _ _ _ (λ u t h. from_faults fs t h)
          (insert-first (record s { faults = fs }) hash e empty)))
    where
      from_faults :
          (fs : List Bool) (t : Accounts)
          → Seeded v name password (record s { faults = fs }) t
          → Seeded v name password s t
      from_faults fs t (left_alone e) = left_alone e
      from_faults fs t (first_admin hash e f g) = first_admin hash e f g

  seeded-Post :
      (s : Accounts) (r : Outcome User × Accounts)
      → Unchanged s r
      → Post (λ u t. Seeded v name password s t) r
      → Post (λ u t. Seeded v name password s t) (seeded r)
  seeded-Post s (done u, t) same h = h
  seeded-Post s (fails user_not_found, t) same h = tt
  seeded-Post s (fails duplicate, t) same h = left_alone same.0
  seeded-Post s (fails cannot_delete_self, t) same h = tt
  seeded-Post s (fails hash_refused, t) same h = tt
  seeded-Post s (fails store_failed, t) same h = tt

  -- The start of what follows the list.
  from_list :
      (s t t' : Accounts) → SameRows s t → Seeded v name password t t' → Seeded v name password s t'
  from_list s t t' same (left_alone e) = left_alone (e ∙ same.0)
  from_list s t t' same (first_admin hash e f g) = first_admin hash e (sym same.0 ∙ f) g

  seed_if_empty-Post :
      (s : Accounts) (r : Outcome (List User) × Accounts)
      → SameRows s r.1
      → Post (λ us t. length us ≡ length s.users) r
      → Post (λ u t. Seeded v name password s t) (seed_if_empty v name password r)
  seed_if_empty-Post s (fails e, t) same h = tt
  seed_if_empty-Post s (done (u ∷ us), t) same h = left_alone same.0
  seed_if_empty-Post s (done [], t) same h = by_name (is_empty_text name) (is_empty_text password)
    where
      none_there : t.users ≡ []
      none_there = same.0 ∙ no_rows s.users (sym h)

      by_name :
          (a b : Bool)
          → Post
              (λ u t'. Seeded v name password s t')
              (if a
                then (done tt, t)
                else if b
                then (done tt, t)
                else seeded (create v name password true t))
      by_name true b = left_alone same.0
      by_name false true = left_alone same.0
      by_name false false =
          Post-imp _ _ _ (λ u t' h'. from_list s t t' same h')
            (seeded-Post t _ (create-Clean v name password true t) (create-Post t none_there))

  -- A seeding that returns no error has left the users alone, or there was no user and now there is
  -- one, an administrator with the given name and the hash of the given password.
  pub seed_admin_user-Seeded :
      (pg : Postgres) (s : Accounts) {t : Accounts}
      → seed_admin_user pg v name password s ≡ (done tt, t)
      → Seeded v name password s t
  unfolding seed_admin_user list_users
  seed_admin_user-Seeded pg s e =
      Post-done (λ u t. Seeded v name password s t) e
        (seed_if_empty-Post s _ (list_users-SameRows pg s)
          (statement-Post _ _ s (λ fs. length-sort _ s.users)))
