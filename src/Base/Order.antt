-- ===== src/Base/Order.antt =====
-- ORDER BY and LIMIT: the same rows, the least first.
use queue_ti.Base.{
  ℕ, zero, suc, ◌≤◌, ◌≡◌, Bool, true, List, [], ◌∷◌, arith, leb, Bool-cases, inl, inr,
}
use queue_ti.Base.Table.{All, All-imp, insert_by, order_by, take, select}

-- A row of a table.
pub data In {ℓ} {A : Type ℓ} (a : A) : List A → Type ℓ where
  at_head : {xs : List A} → In a (a ∷ xs)
  in_tail : {x : A} {xs : List A} → In a xs → In a (x ∷ xs)

module _ {ℓ} {A : Type ℓ} where
  own_rows_of : (xs ys : List A) → ((a : A) → In a xs → In a ys) → All (λ a. In a ys) xs
  own_rows_of [] ys f = tt
  own_rows_of (x ∷ xs) ys f = (f x at_head, own_rows_of xs ys (λ a i. f a (in_tail i)))

  pub own_rows : (xs : List A) → All (λ a. In a xs) xs
  own_rows xs = own_rows_of xs xs (λ a i. i)

  -- What `select p` leaves satisfies `p`.
  pub All-select-test : (p : A → Bool) (xs : List A) → All (λ a. p a ≡ true) (select p xs)
  unfolding select
  All-select-test p [] = tt
  All-select-test p (x ∷ xs) = elim (Bool-cases (p x)) [
    | inl e ↦ rw e (e, All-select-test p xs)
    | inr e ↦ rw e (All-select-test p xs)
  ]

  -- A row that `p` accepts stays.
  pub All-of_select {κ} :
      (P : A → Type κ) (p : A → Bool) (xs : List A)
      → All P (select p xs)
      → All (λ a. p a ≡ true → P a) xs
  unfolding select
  All-of_select P p [] h = tt
  All-of_select P p (x ∷ xs) h = elim (Bool-cases (p x)) [
    | inl e ↦ let h' = rw e at h in ((λ _. h'.0), All-of_select P p xs h'.1)
    | inr e ↦ ((λ t. cc), All-of_select P p xs (rw e at h))
  ]

module _ {ℓ κ} {A : Type ℓ} (P : A → Type κ) where
  All-insert_by : (k : A → ℕ) (a : A) (xs : List A) → P a → All P xs → All P (insert_by k a xs)
  unfolding insert_by
  All-insert_by k a [] p h = (p, tt)
  All-insert_by k a (x ∷ xs) p h = elim (Bool-cases (leb (k a) (k x))) [
    | inl e ↦ rw e (p, h)
    | inr e ↦ rw e (h.0, All-insert_by k a xs p h.1)
  ]

  All-of_insert_by : (k : A → ℕ) (a : A) (xs : List A) → All P (insert_by k a xs) → P a × All P xs
  unfolding insert_by
  All-of_insert_by k a [] h = h
  All-of_insert_by k a (x ∷ xs) h = elim (Bool-cases (leb (k a) (k x))) [
    | inl e ↦ rw e at h
    | inr e ↦
        let h' = rw e at h in let rest = All-of_insert_by k a xs h'.1 in (rest.0, (h'.0, rest.1))
  ]

  pub All-order_by : (k : A → ℕ) (xs : List A) → All P xs → All P (order_by k xs)
  unfolding order_by
  All-order_by k [] h = tt
  All-order_by k (x ∷ xs) h = All-insert_by k x (order_by k xs) h.0 (All-order_by k xs h.1)

  pub All-of_order_by : (k : A → ℕ) (xs : List A) → All P (order_by k xs) → All P xs
  unfolding order_by
  All-of_order_by k [] h = tt
  All-of_order_by k (x ∷ xs) h =
      let r = All-of_insert_by k x (order_by k xs) h in (r.0, All-of_order_by k xs r.1)

  pub All-take : (n : ℕ) (xs : List A) → All P xs → All P (take n xs)
  unfolding take
  All-take zero xs h = tt
  All-take (suc n) [] h = tt
  All-take (suc n) (x ∷ xs) h = (h.0, All-take n xs h.1)

module _ {ℓ} {A : Type ℓ} (k : A → ℕ) where
  -- The first row is the least.
  abbrev HeadLeast : List A → Type 0
  HeadLeast [] = Unit
  HeadLeast (x ∷ xs) = All (λ y. k x ≤ k y) xs

  insert_by-HeadLeast : (a : A) (xs : List A) → HeadLeast xs → HeadLeast (insert_by k a xs)
  unfolding insert_by
  insert_by-HeadLeast a [] h = tt
  insert_by-HeadLeast a (x ∷ xs) h = elim (Bool-cases (leb (k a) (k x))) [
    | inl e ↦ rw e (ground arith, All-imp {P = λ y. k x ≤ k y} xs (λ y l. ground arith) h)
    | inr e ↦ rw e (All-insert_by (λ y. k x ≤ k y) k a xs (ground arith) h)
  ]

  pub order_by-HeadLeast : (xs : List A) → HeadLeast (order_by k xs)
  unfolding order_by
  order_by-HeadLeast [] = tt
  order_by-HeadLeast (x ∷ xs) = insert_by-HeadLeast x (order_by k xs) (order_by-HeadLeast xs)
