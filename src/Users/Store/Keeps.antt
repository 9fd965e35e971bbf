-- ===== src/Users/Store/Keeps.antt =====
-- users.go and seed.go: the statements keep the keys of the tables.
use queue_ti.Base.{
  ℕ, ◌≡◌, refl, Bool, true, false, Option, none, some, List, [], ◌∷◌, arith, ◌==◌, Bool-cases, inl,
  inr,
}
use queue_ti.Base.Text.{Text}
use queue_ti.Base.Table.{
  All, NoClash, any, first, delete, update, count, All-append, All-delete, All-imp, NoClash-delete,
  NoClash-append-one, NoClash-update, any-false,
}
use queue_ti.Users.Store.{
  User, GrantRow, Accounts, Act, Outcome, done, fails, StoreError, Visit, statement, fail,
  by_faults, given, is_user, has_username, create, insert_user, new_user, delete_user_row,
  delete_rows, insert_grant, plain_error, delete_grant_row, is_grant_of, same_consume,
  same_grant_id, hash_refused, store_failed, cannot_delete_self, user_not_found, duplicate,
}
use queue_ti.Users.Store.Update.{
  update_row, update_found, updated, or_kept, takes_name, seed_if_empty, seeded, is_empty_text,
}
use queue_ti.Users.Store.Invariant.{
  WfAccounts, same_user_id, same_username, any-append, any-delete, any-update, found_only,
  rename-NoClash,
}

-- A method keeps the tables well formed, whatever it returns.
abbrev pub KeepsWf {ℓ} : {A : Type ℓ} → Act A → Type 0
KeepsWf m = (s : Accounts) → WfAccounts s → WfAccounts (m s).1

-- The faults to come are no part of the tables.
pub with_faults :
    (s : Accounts) (fs : List Bool) → WfAccounts s → WfAccounts (record s { faults = fs })
with_faults s fs w = record {
  ids = w.ids;
  names = w.names;
  grant_ids = w.grant_ids;
  consumes = w.consumes;
  owners = w.owners;
}

module _ {ℓ} {A : Type ℓ} (m : Act A) where
  by_faults-Wf :
      (fs : List Bool) (s : Accounts) → KeepsWf m → WfAccounts s → WfAccounts (by_faults m fs s).1
  by_faults-Wf [] s k w = k s w
  by_faults-Wf (true ∷ fs) s k w = with_faults s fs w
  by_faults-Wf (false ∷ fs) s k w = k (record s { faults = fs }) (with_faults s fs w)

  pub statement-KeepsWf : KeepsWf m → KeepsWf (statement m)
  unfolding statement
  statement-KeepsWf k s w = by_faults-Wf s.faults s k w

pub given-KeepsWf {ℓ κ} :
    {A : Type ℓ} {B : Type κ} (e : StoreError) (o : Option B) (f : B → Act A)
    → ((b : B) → KeepsWf (f b))
    → KeepsWf (given e o f)
unfolding fail
given-KeepsWf e none f k s w = w
given-KeepsWf e (some b) f k s w = k b s w

insert_user-KeepsWf : (u : User) → KeepsWf (insert_user u)
unfolding insert_user
insert_user-KeepsWf u s w = elim (Bool-cases (any (is_user u.id) s.users)) [
  | inl e ↦ rw e w
  | inr free ↦ elim (Bool-cases (any (has_username u.username) s.users)) [
    | inl e ↦ rw (free, e) w
    | inr unnamed ↦
        rw (free, unnamed)
          (record {
            ids = NoClash-append-one same_user_id s.users u (any-false _ s.users free) w.ids;
            names =
                NoClash-append-one same_username s.users u (any-false _ s.users unnamed) w.names;
            grant_ids = w.grant_ids;
            consumes = w.consumes;
            owners =
                All-imp s.grants (λ g. any-append (is_user g.user_id) s.users (u ∷ [])) w.owners;
          })
  ]
]

delete_rows-Wf : (i : ℕ) (s : Accounts) → WfAccounts s → WfAccounts (delete_rows i s)
unfolding delete_rows delete
delete_rows-Wf i s w = record {
  ids = NoClash-delete same_user_id (is_user i) s.users w.ids;
  names = NoClash-delete same_username (is_user i) s.users w.names;
  grant_ids = NoClash-delete same_grant_id _ s.grants w.grant_ids;
  consumes = NoClash-delete same_consume _ s.grants w.consumes;
  owners = spared s.grants w.owners;
}
  where
    spared :
        (gs : List GrantRow)
        → All (λ (g : GrantRow). any (is_user g.user_id) s.users ≡ true) gs
        → All
            (λ (g : GrantRow). any (is_user g.user_id) (delete (is_user i) s.users) ≡ true)
            (delete (λ g. g.user_id == i) gs)
    spared [] h = tt
    spared (g ∷ gs) h = elim (Bool-cases (g.user_id == i)) [
      | inl e ↦ rw e (spared gs h.1)
      | inr e ↦ rw e (
        any-delete (is_user g.user_id) (is_user i) s.users (λ u t. ground arith) h.0,
        spared gs h.1,
      )
    ]

pub delete_user_row-KeepsWf : (i : ℕ) → KeepsWf (delete_user_row i)
unfolding delete_user_row
delete_user_row-KeepsWf i s w = elim (Bool-cases (count (is_user i) s.users == 0)) [
  | inl e ↦ rw e w
  | inr e ↦ rw e (delete_rows-Wf i s w)
]

pub insert_grant-KeepsWf : (g : GrantRow) → KeepsWf (insert_grant g)
unfolding insert_grant
insert_grant-KeepsWf g s w = elim (Bool-cases (any (λ h. same_grant_id h g) s.grants)) [
  | inl e ↦ rw e w
  | inr fresh ↦ elim (Bool-cases (any (λ h. same_consume h g) s.grants)) [
    | inl e ↦ rw (fresh, e) w
    | inr single ↦ elim (Bool-cases (any (is_user g.user_id) s.users)) [
      | inr e ↦ rw (fresh, single, e) w
      | inl owner ↦
          rw (fresh, single, owner)
            (record {
              ids = w.ids;
              names = w.names;
              grant_ids =
                  NoClash-append-one same_grant_id s.grants g (any-false _ s.grants fresh)
                    w.grant_ids;
              consumes =
                  NoClash-append-one same_consume s.grants g (any-false _ s.grants single)
                    w.consumes;
              owners = All-append _ s.grants (g ∷ []) w.owners (owner, tt);
            })
    ]
  ]
]

pub plain_error-Wf {ℓ} :
    {A : Type ℓ} (r : Outcome A × Accounts) → WfAccounts r.1 → WfAccounts (plain_error r).1
plain_error-Wf (done a, s) w = w
plain_error-Wf (fails e, s) w = w

pub delete_grant_row-KeepsWf : (g i : ℕ) → KeepsWf (delete_grant_row g i)
unfolding delete_grant_row
delete_grant_row-KeepsWf g i s w = elim (Bool-cases (count (is_grant_of g i) s.grants == 0)) [
  | inl e ↦ rw e w
  | inr e ↦ rw e (record {
    ids = w.ids;
    names = w.names;
    grant_ids = NoClash-delete same_grant_id _ s.grants w.grant_ids;
    consumes = NoClash-delete same_consume _ s.grants w.consumes;
    owners = All-delete _ (is_grant_of g i) s.grants w.owners;
  })
]

module _ (v : Visit) (i : ℕ) (username hash : Option Text) (is_admin : Option Bool) where
  -- The names, when no other user has the name that the row gets.
  renamed :
      (s : Accounts) (u : User)
      → WfAccounts s
      → first (is_user i) s.users ≡ some u
      → any (takes_name i (or_kept username u.username)) s.users ≡ false
      → NoClash same_username (update (is_user i) (updated v username hash is_admin) s.users)
  renamed s u w e free =
      rename-NoClash i (or_kept username u.username) (updated v username hash is_admin) s.users
        w.ids w.names
        (All-imp s.users (λ y same t. rw (same t) refl) (found_only i s.users w.ids e))
        (any-false _ s.users free)

  update_found-Wf :
      (o : Option User) (s : Accounts)
      → first (is_user i) s.users ≡ o
      → WfAccounts s
      → WfAccounts (update_found v i username hash is_admin o s).1
  update_found-Wf none s e w = w
  update_found-Wf (some u) s e w =
      elim (Bool-cases (any (takes_name i (or_kept username u.username)) s.users)) [
        | inl t ↦ rw t w
        | inr free ↦ rw free (record {
          ids = NoClash-update same_user_id (is_user i) _ s.users (λ a b c. ground arith) w.ids;
          names = renamed s u w e free;
          grant_ids = w.grant_ids;
          consumes = w.consumes;
          owners =
              All-imp s.grants
                (λ g o.
                  rw
                    (any-update (is_user g.user_id) (is_user i) (updated v username hash is_admin)
                      s.users (λ a. refl))
                    o)
                w.owners;
        })
      ]

  pub update_row-KeepsWf : KeepsWf (update_row v i username hash is_admin)
  unfolding update_row
  update_row-KeepsWf s w = update_found-Wf (first (is_user i) s.users) s refl w

seeded-Wf : (r : Outcome User × Accounts) → WfAccounts r.1 → WfAccounts (seeded r).1
seeded-Wf (done u, s) w = w
seeded-Wf (fails user_not_found, s) w = w
seeded-Wf (fails duplicate, s) w = w
seeded-Wf (fails cannot_delete_self, s) w = w
seeded-Wf (fails hash_refused, s) w = w
seeded-Wf (fails store_failed, s) w = w

pub create-KeepsWf :
    (v : Visit) (username password : Text) (is_admin : Bool)
    → KeepsWf (create v username password is_admin)
unfolding create
create-KeepsWf v username password is_admin =
    given-KeepsWf hash_refused (v.bcrypt password) _
      (λ h. statement-KeepsWf _ (insert_user-KeepsWf (new_user v username h is_admin)))

pub seed_if_empty-Wf :
    (v : Visit) (username password : Text) (r : Outcome (List User) × Accounts)
    → WfAccounts r.1
    → WfAccounts (seed_if_empty v username password r).1
seed_if_empty-Wf v username password (fails e, s) w = w
seed_if_empty-Wf v username password (done (u ∷ us), s) w = w
seed_if_empty-Wf v username password (done [], s) w = elim (Bool-cases (is_empty_text username)) [
  | inl e ↦ rw e w
  | inr e ↦ elim (Bool-cases (is_empty_text password)) [
    | inl e' ↦ rw (e, e') w
    | inr e' ↦ rw (e, e') (seeded-Wf _ (create-KeepsWf v username password true s w))
  ]
]
