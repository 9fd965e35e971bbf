-- ===== src/Users/Store/Effects.antt =====
-- users.go and seed.go: what a method that returns no error has done.
use queue_ti.Base.{
  ℕ, ◌≡◌, refl, subst, Bool, true, false, Option, none, some, List, [], ◌∷◌, ◌&&◌, Bool-cases, inl,
  inr,
}
use queue_ti.Base.Text.{Text}
use queue_ti.Base.Table.{any, first, update}
use queue_ti.Base.Postgres.{Postgres}
use queue_ti.Users.Store.{
  User, Accounts, Act, Outcome, done, fails, StoreError, Visit, statement, by_faults, given, fail,
  with_uuid, is_user, hash_refused, store_failed,
}
use queue_ti.Users.Store.Update.{
  update_user, update_row, update_found, updated, takes_name, or_kept, is_absent,
}

-- A condition on what is returned and on the accounts after it, if there is no error.
abbrev pub Post {ℓ} : {A : Type ℓ} → (A → Accounts → Type 0) → Outcome A × Accounts → Type 0
Post P (done a, t) = P a t
Post P (fails e, t) = Unit

module _ {ℓ} {A : Type ℓ} (P : A → Accounts → Type 0) where
  -- A statement has its effect on the rows that are there, whatever faults are to come.
  pub statement-Post :
      (m : Act A) (s : Accounts)
      → ((fs : List Bool) → Post P (m (record s { faults = fs })))
      → Post P (statement m s)
  unfolding statement
  statement-Post m s k = by_fault s.faults k
    where
      by_fault :
          (gs : List Bool)
          → ((fs : List Bool) → Post P (m (record s { faults = fs })))
          → Post P (by_faults m gs (record s { faults = gs }))
      by_fault [] k = k []
      by_fault (true ∷ gs) k = tt
      by_fault (false ∷ gs) k = k gs

  pub given-Post {κ} :
      {B : Type κ} (e : StoreError) (o : Option B) (f : B → Act A) (s : Accounts)
      → ((b : B) → o ≡ some b → Post P (f b s))
      → Post P (given e o f s)
  unfolding fail
  given-Post e none f s k = tt
  given-Post e (some b) f s k = k b refl

-- A column that is given has the new value, and one that is not given has the old one.
pub data Given {A : Type 0} : Option A → A → A → Type 0 where
  new : {a old : A} → Given (some a) old a
  kept : {old : A} → Given none old old

or_kept-Given : {A : Type 0} (o : Option A) (old : A) → Given o old (or_kept o old)
or_kept-Given none old = kept
or_kept-Given (some a) old = new

-- A user before and after the columns that are given have been set.
pub record Columns (name hash : Option Text) (is_admin : Option Bool) (u u' : User) : Type 0 where
  pub username : Given name u.username u'.username
  pub password_hash : Given hash u.password_hash u'.password_hash
  pub role : Given is_admin u.is_admin u'.is_admin
  pub same_id : u'.id ≡ u.id
  pub same_age : u'.created_at ≡ u.created_at

updated-Columns :
    (v : Visit) (name hash : Option Text) (is_admin : Option Bool) (u : User)
    → Columns name hash is_admin u (updated v name hash is_admin u)
updated-Columns v name hash is_admin u = record {
  username = or_kept-Given name u.username;
  password_hash = or_kept-Given hash u.password_hash;
  role = or_kept-Given is_admin u.is_admin;
  same_id = refl;
  same_age = refl;
}

-- The row of the id has the new columns and keeps the others; its name is free, and no other row
-- and no grant has changed.
pub record UserUpdated (id : Option ℕ) (name hash : Option Text) (is_admin : Option Bool)
    (s : Accounts) (u : User) (t : Accounts) : Type 0 where
  pub row : ℕ
  pub old : User
  pub has_row : id ≡ some row
  pub was : first (is_user row) s.users ≡ some old
  pub set : User → User
  pub columns : (x : User) → Columns name hash is_admin x (set x)
  pub now_is : u ≡ set old
  pub free : any (takes_name row u.username) s.users ≡ false
  pub users : t.users ≡ update (is_user row) set s.users
  pub grants : t.grants ≡ s.grants

module _ (pg : Postgres) (v : Visit) (id : Text) (is_admin : Option Bool) (s : Accounts) where
  update_to-Post :
      (name hash : Option Text)
      → Post
          (UserUpdated (pg.uuid_in id) name hash is_admin s)
          (statement (with_uuid pg id (λ i. update_row v i name hash is_admin)) s)
  unfolding update_row
  update_to-Post name hash = statement-Post _ _ s (λ fs.
      given-Post _ store_failed (pg.uuid_in id) _ (record s { faults = fs })
        (λ i e. by_row i e (first (is_user i) s.users) refl fs))
    where
      by_row :
          (i : ℕ)
          → pg.uuid_in id ≡ some i
          → (o : Option User) → first (is_user i) s.users ≡ o
          → (fs : List Bool)
          → Post
              (UserUpdated (pg.uuid_in id) name hash is_admin s)
              (update_found v i name hash is_admin o (record s { faults = fs }))
      by_row i e none f fs = tt
      by_row i e (some u) f fs =
          elim (Bool-cases (any (takes_name i (or_kept name u.username)) s.users)) [
            | inl t ↦ rw t tt
            | inr free ↦ rw free (record {
              row = i;
              old = u;
              has_row = e;
              was = f;
              set = updated v name hash is_admin;
              columns = updated-Columns v name hash is_admin;
              now_is = refl;
              free = free;
              users = refl;
              grants = refl;
            })
          ]

-- The hash that the row gets: that of the password, or none without one.
abbrev pub IsHash : Visit → Option Text → Option Text → Type 0
IsHash v none h = h ≡ none
IsHash v (some p) h = (x : Text) × ((v.bcrypt p ≡ some x) × (h ≡ some x))

abbrev pub UpdatedBy :
    Postgres
    → Visit
    → Text
    → Option Text
    → Option Text
    → Option Bool
    → Accounts
    → User
    → Accounts
    → Type 0
UpdatedBy pg v id name password is_admin s u t =
    (hash : Option Text) × (IsHash v password hash
      × UserUpdated (pg.uuid_in id) name hash is_admin s u t)

module _ {ℓ} {A : Type ℓ} where
  pub Post-imp :
      (P Q : A → Accounts → Type 0) (r : Outcome A × Accounts)
      → ((a : A) (t : Accounts) → P a t → Q a t)
      → Post P r
      → Post Q r
  Post-imp P Q (done a, t) f h = f a t h
  Post-imp P Q (fails e, t) f h = tt

  pub Post-done :
      (P : A → Accounts → Type 0) {r : Outcome A × Accounts} {a : A} {t : Accounts}
      → r ≡ (done a, t)
      → Post P r
      → P a t
  Post-done P e h = subst (Post P) e h

module _ (pg : Postgres) (v : Visit) (id : Text) (is_admin : Option Bool) (s : Accounts) where
  unhashed :
      (name : Option Text)
      → Post
          (UpdatedBy pg v id name none is_admin s)
          (statement (with_uuid pg id (λ i. update_row v i name none is_admin)) s)
  unhashed name =
      Post-imp _ (UpdatedBy pg v id name none is_admin s) _ (λ u t h. (none, (refl, h)))
        (update_to-Post pg v id is_admin s name none)

  hashed :
      (name : Option Text) (p : Text)
      → Post (UpdatedBy pg v id name (some p) is_admin s) (
          given hash_refused
            (v.bcrypt p)
            (λ h. statement (with_uuid pg id (λ i. update_row v i name (some h) is_admin)))
            s)
  hashed name p = given-Post _ hash_refused (v.bcrypt p) _ s (λ x e.
      Post-imp _ (UpdatedBy pg v id name (some p) is_admin s) _
        (λ u t h. (some x, ((x, (e, refl)), h))) (update_to-Post pg v id is_admin s name (some x)))

  update_user-Post :
      (name password : Option Text)
      → (is_absent name && is_absent password && is_absent is_admin) ≡ false
      → Post
          (UpdatedBy pg v id name password is_admin s)
          (update_user pg v id name password is_admin s)
  unfolding update_user
  update_user-Post none none given = rw given (unhashed none)
  update_user-Post (some n) none given = unhashed (some n)
  update_user-Post none (some p) given = hashed none p
  update_user-Post (some n) (some p) given = hashed (some n) p

  -- An update that names some column and returns a user found the row of the id, and its name is
  -- free. That row has the given name, the hash of the given password and the given role, and keeps
  -- each column that is not given; no other user and no grant has changed.
  pub update_user-UpdatedBy :
      (name password : Option Text) {u : User} {t : Accounts}
      → (is_absent name && is_absent password && is_absent is_admin) ≡ false
      → update_user pg v id name password is_admin s ≡ (done u, t)
      → UpdatedBy pg v id name password is_admin s u t
  update_user-UpdatedBy name password given e =
      Post-done (UpdatedBy pg v id name password is_admin s) e
        (update_user-Post name password given)
