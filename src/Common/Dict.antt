-- ===== src/Common/Dict.antt =====
-- A Go map as an association list, over keys with a Boolean equality.
use mathlib.Core.Path.{◌≡◌, refl}
use mathlib.Core.Bool.{Bool, true}
use mathlib.Core.Logic.{◌↔◌}
use mathlib.Core.List.{List, [], ◌∷◌}
use mathlib.Core.Option.{Option, none, some}
use native.Mathlib.Omega.{arith}
use in_proxy.Common.Tests.{if◌then◌else◌}

module _ {ℓ} {V : Type ℓ} {K : Type 0} (same : K → K → Bool) where
  -- `delete(m, k)`
  unfoldable pub remove : K → List (K × V) → List (K × V)
  remove k [] = []
  remove k ((key, v) ∷ m) = let rest = remove k m in if same key k then rest else (key, v) ∷ rest

  -- `m[k]`
  unfoldable pub lookup : K → List (K × V) → Option V
  lookup k [] = none
  lookup k ((key, v) ∷ m) = if same key k then some v else lookup k m

  -- `m[k] = v`: a key that is there keeps its place.
  unfoldable pub insert : K → V → List (K × V) → List (K × V)
  insert k new [] = (k, new) ∷ []
  insert k new ((key, v) ∷ m) = if same key k then (k, new) ∷ m else (key, v) ∷ insert k new m

module _ {ℓ} {V : Type ℓ} {K : Type 0} (same : K → K → Bool)
    (same_iff : (a b : K) → (same a b ≡ true) ↔ (a ≡ b)) where
  pub lookup-remove :
      (k asked : K) (m : List (K × V))
      → lookup same asked (remove same k m) ≡ (if same k asked then none else lookup same asked m)
  unfolding lookup remove
  lookup-remove k asked [] = ground arith
  lookup-remove k asked ((key, v) ∷ m) =
      ground (arith, lookup-remove k asked m, same_iff key k, same_iff key asked, same_iff k asked)

  pub lookup-insert :
      (k asked : K) (new : V) (m : List (K × V))
      → lookup same asked (insert same k new m)
        ≡ (if same k asked then some new else lookup same asked m)
  unfolding lookup insert
  lookup-insert k asked new [] = refl
  lookup-insert k asked new ((key, v) ∷ m) =
      ground
        (arith, lookup-insert k asked new m, same_iff key k, same_iff key asked, same_iff k asked)
