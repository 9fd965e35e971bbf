-- ===== src/Users/Store/Clean.antt =====
-- users.go: a statement that refuses leaves the rows alone.
use queue_ti.Base.{
  ℕ, ◌≡◌, refl, Bool, true, false, Option, none, some, List, [], ◌∷◌, ◌++◌, if◌then◌else◌,
}
use queue_ti.Base.Text.{Text}
use queue_ti.Base.Table.{any}
use queue_ti.Base.Postgres.{Postgres}
use queue_ti.Users.Store.{
  User, GrantRow, Accounts, Act, Outcome, done, fails, StoreError, Visit, statement, by_faults,
  given, fail, with_uuid, is_user, has_username, found, insert_user, insert_grant, plain_error,
  same_consume, same_grant_id, store_failed,
}
use queue_ti.Users.Store.Update.{update_found, takes_name, or_kept}

abbrev pub SameRows : Accounts → Accounts → Type 0
SameRows s t = (t.users ≡ s.users) × (t.grants ≡ s.grants)

-- On an error the rows are the ones before.
abbrev pub Unchanged {ℓ} : {A : Type ℓ} → Accounts → Outcome A × Accounts → Type 0
Unchanged s (done a, t) = Unit
Unchanged s (fails e, t) = SameRows s t

abbrev pub Clean {ℓ} : {A : Type ℓ} → Act A → Type 0
Clean m = (s : Accounts) → Unchanged s (m s)

-- Only the rows count.
same_start {ℓ} :
    {A : Type ℓ} (s : Accounts) (fs : List Bool) (r : Outcome A × Accounts)
    → Unchanged (record s { faults = fs }) r
    → Unchanged s r
same_start s fs (done a, t) h = tt
same_start s fs (fails e, t) h = h

module _ {ℓ} {A : Type ℓ} where
  by_faults-Unchanged :
      (m : Act A) (fs : List Bool) (s : Accounts) → Clean m → Unchanged s (by_faults m fs s)
  by_faults-Unchanged m [] s k = k s
  by_faults-Unchanged m (true ∷ fs) s k = (refl, refl)
  by_faults-Unchanged m (false ∷ fs) s k = same_start s fs _ (k (record s { faults = fs }))

  pub statement-Clean : (m : Act A) → Clean m → Clean (statement m)
  unfolding statement
  statement-Clean m k s = by_faults-Unchanged m s.faults s k

  pub given-Clean {κ} :
      {B : Type κ} (e : StoreError) (o : Option B) (f : B → Act A)
      → ((b : B) → Clean (f b))
      → Clean (given e o f)
  unfolding fail
  given-Clean e none f k s = (refl, refl)
  given-Clean e (some b) f k s = k b s

  pub with_uuid-Clean :
      (pg : Postgres) (id : Text) (f : ℕ → Act A)
      → ((i : ℕ) → Clean (f i))
      → Clean (statement (with_uuid pg id f))
  with_uuid-Clean pg id f k = statement-Clean _ (given-Clean store_failed (pg.uuid_in id) f k)

  pub if-Unchanged :
      (b : Bool) (e : StoreError) (s : Accounts) (r : Outcome A × Accounts)
      → Unchanged s r
      → Unchanged s (if b then (fails e, s) else r)
  if-Unchanged true e s r h = (refl, refl)
  if-Unchanged false e s r h = h

pub found-Unchanged : (o : Option User) (s : Accounts) → Unchanged s (found o s)
found-Unchanged none s = (refl, refl)
found-Unchanged (some u) s = tt

pub insert_user-Clean : (u : User) → Clean (insert_user u)
unfolding insert_user
insert_user-Clean u s =
    if-Unchanged (any (is_user u.id) s.users) _ s _
      (if-Unchanged (any (has_username u.username) s.users) _ s _ tt)

pub insert_grant-Clean : (g : GrantRow) → Clean (insert_grant g)
unfolding insert_grant
insert_grant-Clean g s = if-Unchanged (any (λ h. same_grant_id h g) s.grants) _ s _ (
    if-Unchanged (any (λ h. same_consume h g) s.grants) _ s _
      (owned (any (is_user g.user_id) s.users)))
  where
    owned :
        (b : Bool)
        → Unchanged s (
            if b
            then (done g, record s { grants = s.grants ++ g ∷ [] })
            else (fails store_failed, s))
    owned true = tt
    owned false = (refl, refl)

pub plain_error-Unchanged {ℓ} :
    {A : Type ℓ} (s : Accounts) (r : Outcome A × Accounts)
    → Unchanged s r
    → Unchanged s (plain_error r)
plain_error-Unchanged s (done a, t) h = tt
plain_error-Unchanged s (fails e, t) h = h

pub update_found-Clean :
    (v : Visit) (i : ℕ) (name hash : Option Text) (is_admin : Option Bool) (o : Option User)
    → Clean (update_found v i name hash is_admin o)
update_found-Clean v i name hash is_admin none s = (refl, refl)
update_found-Clean v i name hash is_admin (some u) s =
    if-Unchanged (any (takes_name i (or_kept name u.username)) s.users) _ s _ tt
