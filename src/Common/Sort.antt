-- ===== src/Common/Sort.antt =====
-- `sort.Slice` on a slice of elements that the order tells apart, where every sorting procedure
-- gives the same slice: insertion sort.
use cribbager.Common.{Bool, List, [], ◌∷◌, if◌then◌else◌}

module _ {ℓ} {A : Type ℓ} where
  unfoldable pub insert : (A → A → Bool) → A → List A → List A
  insert less a [] = a ∷ []
  insert less a (x ∷ xs) = if less x a then x ∷ insert less a xs else a ∷ x ∷ xs

  unfoldable pub sort : (A → A → Bool) → List A → List A
  unfolding insert
  sort less [] = []
  sort less (x ∷ xs) = insert less x (sort less xs)
