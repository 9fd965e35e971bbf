-- ===== src/Base/Table.antt =====
-- SQL over a table held as a list of rows: SELECT, UPDATE and DELETE with a WHERE test, COUNT(*),
-- ORDER BY and LIMIT, and predicates on all rows and on all pairs of rows.
use Prim.Native.Nat.{ℕ, zero, suc, ◌≤◌}
use mathlib.Core.Path.{◌≡◌}
use mathlib.Core.Logic.{inl, inr}
use mathlib.Core.Bool.{Bool, true, false, ◌||◌}
use mathlib.Core.Option.{Option, none, some}
use mathlib.Core.List.{List, [], ◌∷◌, ◌++◌}
use native.Mathlib.Omega.{arith}
use queue_ti.Base.Tests.{leb, if◌then◌else◌, Bool-cases}

-- A predicate on every row.
abbrev pub All {ℓ κ} : {A : Type ℓ} → (A → Type κ) → List A → Type κ
All P [] = Unit
All P (x ∷ xs) = P x × All P xs

-- No row clashes with a later one: a unique index, with its test for two rows.
abbrev pub NoClash {ℓ} : {A : Type ℓ} → (A → A → Bool) → List A → Type 0
NoClash c [] = Unit
NoClash c (x ∷ xs) = All (λ y. c x y ≡ false) xs × NoClash c xs

module _ {ℓ} {A : Type ℓ} where
  unfoldable pub select : (A → Bool) → List A → List A
  select p [] = []
  select p (x ∷ xs) = let rest = select p xs in if p x then x ∷ rest else rest

  unfoldable pub update : (A → Bool) → (A → A) → List A → List A
  update p f [] = []
  update p f (x ∷ xs) = (if p x then f x else x) ∷ update p f xs

  unfoldable pub delete : (A → Bool) → List A → List A
  delete p [] = []
  delete p (x ∷ xs) = let rest = delete p xs in if p x then rest else x ∷ rest

  unfoldable pub count : (A → Bool) → List A → ℕ
  count p [] = 0
  count p (x ∷ xs) = let rest = count p xs in if p x then suc rest else rest

  unfoldable pub first : (A → Bool) → List A → Option A
  first p [] = none
  first p (x ∷ xs) = if p x then some x else first p xs

  unfoldable pub any : (A → Bool) → List A → Bool
  any p [] = false
  any p (x ∷ xs) = p x || any p xs

  unfoldable pub insert_by : (A → ℕ) → A → List A → List A
  insert_by k a [] = a ∷ []
  insert_by k a (x ∷ xs) = if leb (k a) (k x) then a ∷ x ∷ xs else x ∷ insert_by k a xs

  -- ORDER BY k, rows with equal keys in table order.
  unfoldable pub order_by : (A → ℕ) → List A → List A
  unfolding insert_by
  order_by k [] = []
  order_by k (x ∷ xs) = insert_by k x (order_by k xs)

  -- LIMIT n
  unfoldable pub take : ℕ → List A → List A
  take zero xs = []
  take (suc n) [] = []
  take (suc n) (x ∷ xs) = x ∷ take n xs

  abbrev pub length : List A → ℕ
  length [] = 0
  length (x ∷ xs) = suc (length xs)

module _ {ℓ κ} {A : Type ℓ} (P : A → Type κ) where
  pub All-append : (xs ys : List A) → All P xs → All P ys → All P (xs ++ ys)
  All-append [] ys h k = k
  All-append (x ∷ xs) ys h k = (h.0, All-append xs ys h.1 k)

  pub All-delete : (p : A → Bool) (xs : List A) → All P xs → All P (delete p xs)
  unfolding delete
  All-delete p [] h = tt
  All-delete p (x ∷ xs) h = elim (Bool-cases (p x)) [
    | inl e ↦ rw e (All-delete p xs h.1)
    | inr e ↦ rw e (h.0, All-delete p xs h.1)
  ]

  pub All-select : (p : A → Bool) (xs : List A) → All P xs → All P (select p xs)
  unfolding select
  All-select p [] h = tt
  All-select p (x ∷ xs) h = elim (Bool-cases (p x)) [
    | inl e ↦ rw e (h.0, All-select p xs h.1)
    | inr e ↦ rw e (All-select p xs h.1)
  ]

  pub All-update :
      (p : A → Bool) (f : A → A) (xs : List A)
      → ((a : A) → p a ≡ true → P a → P (f a))
      → All P xs
      → All P (update p f xs)
  unfolding update
  All-update p f [] keep h = tt
  All-update p f (x ∷ xs) keep h = elim (Bool-cases (p x)) [
    | inl e ↦ rw e (keep x e h.0, All-update p f xs keep h.1)
    | inr e ↦ rw e (h.0, All-update p f xs keep h.1)
  ]

  -- Every value is fine, or the row that is found is.
  pub All-first :
      (p : A → Bool) (xs : List A) {a : A} → All P xs → first p xs ≡ some a → P a × (p a ≡ true)
  unfolding first
  All-first p [] h e = cc
  All-first p (x ∷ xs) {a} h e = elim (Bool-cases (p x)) [
    | inl t ↦ let same : x ≡ a = ground arith in rw (← same) (h.0, t)
    | inr t ↦ All-first p xs h.1 (ground arith)
  ]

module _ {ℓ κ μ} {A : Type ℓ} {P : A → Type κ} {Q : A → Type μ} where
  pub All-imp : (xs : List A) → ((a : A) → P a → Q a) → All P xs → All Q xs
  All-imp [] f h = tt
  All-imp (x ∷ xs) f h = (f x h.0, All-imp xs f h.1)

module _ {ℓ} {A : Type ℓ} where
  pub first-holds : (p : A → Bool) (xs : List A) {a : A} → first p xs ≡ some a → p a ≡ true
  unfolding first
  first-holds p [] e = cc
  first-holds p (x ∷ xs) {a} e = elim (Bool-cases (p x)) [
    | inl t ↦ let same : x ≡ a = ground arith in rw (← same) t
    | inr t ↦ first-holds p xs (ground arith)
  ]

  pub any-false : (p : A → Bool) (xs : List A) → any p xs ≡ false → All (λ a. p a ≡ false) xs
  unfolding any
  any-false p [] h = tt
  any-false p (x ∷ xs) h = (ground arith, any-false p xs (ground arith))

  pub NoClash-delete :
      (c : A → A → Bool) (p : A → Bool) (xs : List A) → NoClash c xs → NoClash c (delete p xs)
  unfolding delete
  NoClash-delete c p [] h = tt
  NoClash-delete c p (x ∷ xs) h = elim (Bool-cases (p x)) [
    | inl e ↦ rw e (NoClash-delete c p xs h.1)
    | inr e ↦ rw e (All-delete (λ y. c x y ≡ false) p xs h.0, NoClash-delete c p xs h.1)
  ]

  pub NoClash-append-one :
      (c : A → A → Bool) (xs : List A) (a : A)
      → All (λ x. c x a ≡ false) xs
      → NoClash c xs
      → NoClash c (xs ++ a ∷ [])
  NoClash-append-one c [] a h k = (tt, tt)
  NoClash-append-one c (x ∷ xs) a h k =
      (All-append (λ y. c x y ≡ false) xs (a ∷ []) k.0 (h.0, tt), NoClash-append-one c xs a h.1 k.1)

  -- An update keeps a unique index if no two rows clash after it that did not before.
  pub NoClash-update :
      (c : A → A → Bool) (p : A → Bool) (f : A → A) (xs : List A)
      → ((a b : A) → c a b ≡ false → c (if p a then f a else a) (if p b then f b else b) ≡ false)
      → NoClash c xs
      → NoClash c (update p f xs)
  unfolding update
  NoClash-update c p f [] keep h = tt
  NoClash-update c p f (x ∷ xs) keep h = (rest xs h.0, NoClash-update c p f xs keep h.1)
    where
      rest :
          (ys : List A)
          → All (λ y. c x y ≡ false) ys
          → All (λ y. c (if p x then f x else x) y ≡ false) (update p f ys)
      rest [] k = tt
      rest (y ∷ ys) k = (keep x y k.0, rest ys k.1)

  pub length-take-le : (n : ℕ) (xs : List A) → length (take n xs) ≤ n
  unfolding take
  length-take-le zero xs = omega arith
  length-take-le (suc n) [] = omega arith
  length-take-le (suc n) (x ∷ xs) = omega (arith, length-take-le n xs)
