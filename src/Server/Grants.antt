-- ===== src/Server/Grants.antt =====
-- The grants of a user as the user store gives them.
use queue_ti.Base.{
  ℕ, ◌≡◌, refl, Bool, true, false, Option, none, some, List, [], ◌∷◌, map, Option-cases, inl, inr,
}
use queue_ti.Base.Text.{Text}
use queue_ti.Base.Postgres.{Postgres}
use queue_ti.Users.Permissions.{Grant}
use queue_ti.Users.Store.{
  Accounts, Outcome, done, get_user_grants, list_grants, as_grants, grants_of, to_grant, statement,
  by_faults, given, fail, store_failed,
}
use queue_ti.Users.Store.Clean.{SameRows}

abbrev grants_at : Option ℕ → Accounts → List Grant
grants_at none s = []
grants_at (some i) s = map to_grant (grants_of i s)

-- The grants of a user, in the tables.
unfoldable pub grants_held : Postgres → Text → Accounts → List Grant
grants_held pg user_id s = grants_at (pg.uuid_in user_id) s

pub grants_held-SameRows :
    (pg : Postgres) (user_id : Text) (s t : Accounts)
    → SameRows s t
    → grants_held pg user_id t ≡ grants_held pg user_id s
unfolding grants_held
grants_held-SameRows pg user_id s t h = elim (Option-cases (pg.uuid_in user_id)) [
  | inl e ↦ rw e refl
  | inr (i, e) ↦ rw (e, h.1) refl
]

-- The user store gives the grants of the tables, and changes none.
abbrev pub Given : Postgres → Text → Accounts → Outcome (List Grant) × Accounts → Type 0
Given pg user_id s r =
    SameRows s r.1 × ((gs : List Grant) → r.0 ≡ done gs → gs ≡ grants_held pg user_id s)

pub get_user_grants-Given :
    (pg : Postgres) (user_id : Text) (s : Accounts)
    → Given pg user_id s (get_user_grants pg user_id s)
unfolding get_user_grants list_grants statement grants_held fail
get_user_grants-Given pg user_id s = by_fault (pg.uuid_in user_id) s.faults
  where
    by_fault :
        (o : Option ℕ) (fs : List Bool)
        → SameRows s
            (as_grants (by_faults (given store_failed o (λ i t. (done (grants_of i t), t))) fs s)).1
          × ((gs : List Grant)
              → (as_grants
                  (by_faults (given store_failed o (λ i t. (done (grants_of i t), t))) fs s)).0
                ≡ done gs
              → gs ≡ grants_at o s)
    by_fault o (true ∷ fs) = ((refl, refl), λ gs e. cc)
    by_fault none [] = ((refl, refl), λ gs e. cc)
    by_fault none (false ∷ fs) = ((refl, refl), λ gs e. cc)
    by_fault (some i) [] = ((refl, refl), λ gs e. cc)
    by_fault (some i) (false ∷ fs) = ((refl, refl), λ gs e. cc)
