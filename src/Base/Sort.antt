-- ===== src/Base/Sort.antt =====
-- ORDER BY with any comparison, a stable insertion sort, and what it keeps.
use queue_ti.Base.{◌≡◌, refl, Bool, List, [], ◌∷◌, arith, if◌then◌else◌}
use queue_ti.Base.Table.{count, length}

module _ {ℓ} {A : Type ℓ} (before : A → A → Bool) where
  unfoldable pub place : A → List A → List A
  place a [] = a ∷ []
  place a (x ∷ xs) = if before a x then a ∷ x ∷ xs else x ∷ place a xs

  unfoldable pub sort : List A → List A
  unfolding place
  sort [] = []
  sort (x ∷ xs) = place x (sort xs)

  count-place : (p : A → Bool) (a : A) (xs : List A) → count p (place a xs) ≡ count p (a ∷ xs)
  unfolding place count
  count-place p a [] = refl
  count-place p a (x ∷ xs) = ground (arith, count-place p a xs)

  -- The sorted rows hold as many rows with a property as the given ones.
  pub count-sort : (p : A → Bool) (xs : List A) → count p (sort xs) ≡ count p xs
  unfolding sort count
  count-sort p [] = refl
  count-sort p (x ∷ xs) = ground (arith, count-place p x (sort xs), count-sort p xs)

  length-place : (a : A) (xs : List A) → length (place a xs) ≡ length (a ∷ xs)
  unfolding place
  length-place a [] = refl
  length-place a (x ∷ xs) = ground (arith, length-place a xs)

  pub length-sort : (xs : List A) → length (sort xs) ≡ length xs
  unfolding sort
  length-sort [] = refl
  length-sort (x ∷ xs) = ground (arith, length-place x (sort xs), length-sort xs)
