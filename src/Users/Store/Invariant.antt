-- ===== src/Users/Store/Invariant.antt =====
-- users.go and migrations 006, 007 and 014: the keys of `users` and `user_grants`.
use queue_ti.Base.{
  ℕ, ◌≡◌, refl, Bool, true, false, some, List, [], ◌∷◌, ◌++◌, arith, ◌==◌, if◌then◌else◌,
  Bool-cases, inl, inr,
}
use queue_ti.Base.Text.{Text, text_eq, text_eq_iff}
use queue_ti.Base.Table.{All, NoClash, any, first, delete, update, All-imp}
use queue_ti.Users.Store.{User, GrantRow, Accounts, same_consume, same_grant_id, is_user}
use queue_ti.Users.Store.Update.{takes_name}

abbrev pub same_user_id : User → User → Bool
same_user_id a b = a.id == b.id

abbrev pub same_username : User → User → Bool
same_username a b = text_eq a.username b.username

-- Unique ids and names of users, unique ids of grants, no second consume grant for a pattern and a
-- group, and no grant without its user.
pub record WfAccounts (s : Accounts) : Type 0 where
  pub ids : NoClash same_user_id s.users
  pub names : NoClash same_username s.users
  pub grant_ids : NoClash same_grant_id s.grants
  pub consumes : NoClash same_consume s.grants
  pub owners : All (λ (g : GrantRow). any (is_user g.user_id) s.users ≡ true) s.grants

module _ {ℓ} {A : Type ℓ} where
  pub any-append : (p : A → Bool) (xs ys : List A) → any p xs ≡ true → any p (xs ++ ys) ≡ true
  unfolding any
  any-append p [] ys h = cc
  any-append p (x ∷ xs) ys h = ground (arith, any-append p xs ys)

  -- A deletion spares the rows that the other test finds.
  pub any-delete :
      (p q : A → Bool) (xs : List A)
      → ((a : A) → p a ≡ true → q a ≡ false)
      → any p xs ≡ true
      → any p (delete q xs) ≡ true
  unfolding any delete
  any-delete p q [] f h = cc
  any-delete p q (x ∷ xs) f h = elim (Bool-cases (p x)) [
    | inl e ↦ rw (f x e, e) refl
    | inr e ↦ ground (arith, any-delete p q xs f)
  ]

  pub any-update :
      (p q : A → Bool) (f : A → A) (xs : List A)
      → ((a : A) → p (f a) ≡ p a)
      → any p (update q f xs) ≡ any p xs
  unfolding any update
  any-update p q f [] e = refl
  any-update p q f (x ∷ xs) e = ground (arith, any-update p q f xs e, e x)

  pub All-of-update {κ} :
      (P : A → Type κ) (p : A → Bool) (f : A → A) (xs : List A)
      → All (λ y. P (if p y then f y else y)) xs
      → All P (update p f xs)
  unfolding update
  All-of-update P p f [] h = tt
  All-of-update P p f (x ∷ xs) h = (h.0, All-of-update P p f xs h.1)

  pub All-both {κ μ} :
      (P : A → Type κ) (Q : A → Type μ) (xs : List A)
      → All P xs
      → All Q xs
      → All (λ a. P a × Q a) xs
  All-both P Q [] h k = tt
  All-both P Q (x ∷ xs) h k = ((h.0, k.0), All-both P Q xs h.1 k.1)

-- The row that a lookup by id finds is the only one with the id.
pub found_only :
    (i : ℕ) (us : List User) {u : User}
    → NoClash same_user_id us
    → first (is_user i) us ≡ some u
    → All (λ y. is_user i y ≡ true → y ≡ u) us
unfolding first
found_only i [] w e = tt
found_only i (x ∷ xs) {u} w e = elim (Bool-cases (is_user i x)) [
  | inl t ↦
      let same : x ≡ u = ground arith in
      ((λ _. same), All-imp xs (λ y (c : same_user_id x y ≡ false) t'. ground arith) w.0)
  | inr t ↦ ((λ t'. cc), found_only i xs w.1 (ground arith))
]

-- A user who takes a name that no other user has leaves the names unique.
pub rename-NoClash :
    (i : ℕ) (name : Text) (f : User → User) (us : List User)
    → NoClash same_user_id us
    → NoClash same_username us
    → All (λ y. is_user i y ≡ true → (f y).username ≡ name) us
    → All (λ y. takes_name i name y ≡ false) us
    → NoClash same_username (update (is_user i) f us)
unfolding update
rename-NoClash i name f [] wi wn n t = tt
rename-NoClash i name f (x ∷ xs) wi wn n t = (
  All-of-update (λ y. same_username (if is_user i x then f x else x) y ≡ false) (is_user i) f xs
      (All-imp xs (apart x n.0 t.0) (
        All-both (λ y. same_user_id x y ≡ false) _ xs wi.0
          (All-both (λ y. same_username x y ≡ false) _ xs wn.0
            (All-both (λ y. is_user i y ≡ true → (f y).username ≡ name) _ xs n.1 t.1)))),
  rename-NoClash i name f xs wi.1 wn.1 n.1 t.1,
)
  where
    apart :
        (x : User)
        → (is_user i x ≡ true → (f x).username ≡ name)
        → takes_name i name x ≡ false
        → (y : User)
        → (same_user_id x y ≡ false)
          × ((same_username x y ≡ false)
              × ((is_user i y ≡ true → (f y).username ≡ name) × (takes_name i name y ≡ false)))
        → same_username (if is_user i x then f x else x) (if is_user i y then f y else y) ≡ false
    apart x nx tx y (ci, (cn, (ny, ty))) = elim (Bool-cases (is_user i x)) [
      | inl ex ↦ elim (Bool-cases (is_user i y)) [
        | inl ey ↦ ground arith
        | inr ey ↦
            rw (ex, ey, nx ex)
              (ground (arith, text_eq_iff name y.username, text_eq_iff y.username name))
      ]
      | inr ex ↦ elim (Bool-cases (is_user i y)) [
        | inl ey ↦ rw (ex, ey, ny ey) (ground arith)
        | inr ey ↦ rw (ex, ey) cn
      ]
    ]
