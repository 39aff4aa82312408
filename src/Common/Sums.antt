-- ===== src/Common/Sums.antt =====
-- A weight summed over a list.
use Prim.Native.Nat.{ℕ, ◌+◌}
use mathlib.Core.Path.{◌≡◌, ap}
use mathlib.Core.List.{List, [], ◌∷◌, ◌++◌}
use native.Mathlib.Omega.{arith}

module _ {A : Type 0} (weight : A → ℕ) where
  unfoldable pub total : List A → ℕ
  total [] = 0
  total (x ∷ xs) = weight x + total xs

  pub total-append : (xs ys : List A) → total (xs ++ ys) ≡ total xs + total ys
  unfolding total
  total-append [] ys = omega arith
  total-append (x ∷ xs) ys = omega (arith, total-append xs ys)

  -- One element is replaced.
  pub total-move :
      (xs before after : List A) (x y : A)
      → xs ≡ before ++ (x ∷ after)
      → total (before ++ (y ∷ after)) + weight x ≡ total xs + weight y
  unfolding total
  total-move xs before after x y h =
      omega (arith, ap total h, total-append before (x ∷ after), total-append before (y ∷ after))
