-- ===== src/Queue/Reaper/Removed.antt =====
-- DELETE with a WHERE test: which rows are gone.
use queue_ti.Base.{ℕ, suc, Bool, true, List, [], ◌∷◌, ◌≡◌, refl, inl, inr, Bool-cases, arith}
use queue_ti.Base.Table.{delete, count, any}
use queue_ti.Base.Order.{In, at_head, in_tail}

-- The rows before and after the rows with `P` have gone, and the number of these.
pub data Removed {A : Type 0} (P : A → Type 0) : ℕ → List A → List A → Type 0 where
  no_rows : Removed P 0 [] []
  gone : {n : ℕ} {x : A} {xs ys : List A} → P x → Removed P n xs ys → Removed P (suc n) (x ∷ xs) ys
  stays :
      {n : ℕ} {x : A} {xs ys : List A} → ¬ (P x) → Removed P n xs ys → Removed P n (x ∷ xs) (x ∷ ys)

module _ {A : Type 0} where
  pub delete-Removed :
      (P : A → Type 0) (p : A → Bool) (xs : List A)
      → ((x : A) → p x ≡ true → P x)
      → ((x : A) → P x → p x ≡ true)
      → Removed P (count p xs) xs (delete p xs)
  unfolding delete count
  delete-Removed P p [] f g = no_rows
  delete-Removed P p (x ∷ xs) f g = elim (Bool-cases (p x)) [
    | inl e ↦ rw e (gone (f x e) (delete-Removed P p xs f g))
    | inr e ↦ rw e (stays (λ h. let t = g x h in absurd cc) (delete-Removed P p xs f g))
  ]

  -- A test that some row passes.
  pub any-In : (p : A → Bool) (xs : List A) → any p xs ≡ true → (x : A) × In x xs × (p x ≡ true)
  unfolding any
  any-In p [] e = absurd cc
  any-In p (x ∷ xs) e = elim (Bool-cases (p x)) [
    | inl t ↦ (x, at_head, t)
    | inr t ↦ let (y, i, h) = any-In p xs (ground arith) in (y, in_tail i, h)
  ]

  pub In-any : (p : A → Bool) (xs : List A) {x : A} → In x xs → p x ≡ true → any p xs ≡ true
  unfolding any
  In-any p [] i e = elim i [ ]
  In-any p (x ∷ xs) at_head e = rw e refl
  In-any p (y ∷ xs) {x} (in_tail i) e = let t = In-any p xs {x = x} i e in ground arith
