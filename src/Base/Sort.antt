-- ===== src/Base/Sort.antt =====
-- `slice::sort` for a strict order: a stable insertion sort, with the facts that any sort has.
use Prim.Native.Nat.{suc}
use mathlib.Core.Path.{◌≡◌, refl}
use mathlib.Core.Bool.{Bool}
use mathlib.Core.List.{List, [], ◌∷◌}
use native.Mathlib.Omega.{arith}
use kerplace.Base.Tests.{if◌then◌else◌}
use kerplace.Base.Lists.{length}

module _ {ℓ} {A : Type ℓ} (lt : A → A → Bool) where
  unfoldable pub insert_by : A → List A → List A
  insert_by e [] = e ∷ []
  insert_by e (f ∷ l) = let rest = insert_by e l in if lt f e then f ∷ rest else e ∷ f ∷ l

  unfoldable pub sort_by : List A → List A
  sort_by [] = []
  sort_by (e ∷ l) = insert_by e (sort_by l)

  length-insert_by : (e : A) (l : List A) → length (insert_by e l) ≡ suc (length l)
  unfolding insert_by
  length-insert_by e [] = refl
  length-insert_by e (f ∷ l) = ground (arith, length-insert_by e l)

  pub length-sort_by : (l : List A) → length (sort_by l) ≡ length l
  unfolding sort_by
  length-sort_by [] = refl
  length-sort_by (e ∷ l) = ground (arith, length-insert_by e (sort_by l), length-sort_by l)
