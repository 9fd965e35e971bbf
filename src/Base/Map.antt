-- ===== src/Base/Map.antt =====
-- sync.Map and other maps with text keys, as association lists.
use mathlib.Core.Path.{◌≡◌}
use mathlib.Core.Option.{Option, none, some}
use mathlib.Core.List.{List, [], ◌∷◌}
use native.Mathlib.Omega.{arith}
use queue_ti.Base.Tests.{if◌then◌else◌}
use queue_ti.Base.Text.{Text, text_eq, text_eq_iff}

module _ {ℓ} {V : Type ℓ} where
  -- Load
  unfoldable pub lookup : Text → List (Text × V) → Option V
  lookup k [] = none
  lookup k ((j, v) ∷ m) = if text_eq j k then some v else lookup k m

  -- Delete
  unfoldable pub remove : Text → List (Text × V) → List (Text × V)
  remove k [] = []
  remove k ((j, v) ∷ m) = let rest = remove k m in if text_eq j k then rest else (j, v) ∷ rest

  -- Store
  unfoldable pub store : Text → V → List (Text × V) → List (Text × V)
  store k v m = (k, v) ∷ remove k m

  pub lookup-remove :
      (k j : Text) (m : List (Text × V))
      → lookup j (remove k m) ≡ (if text_eq k j then none else lookup j m)
  unfolding lookup remove
  lookup-remove k j [] = ground arith
  lookup-remove k j ((i, v) ∷ m) =
      ground (arith, lookup-remove k j m, text_eq_iff i k, text_eq_iff i j, text_eq_iff k j)

  pub lookup-store :
      (k j : Text) (v : V) (m : List (Text × V))
      → lookup j (store k v m) ≡ (if text_eq k j then some v else lookup j m)
  unfolding lookup store
  lookup-store k j v m = ground (arith, lookup-remove k j m)
