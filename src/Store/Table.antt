-- ===== src/Store/Table.antt =====
-- How every table of the store is edited: three loops, over a test on the entries, and the part that
-- the four Upsert methods have in common.
pub mod Laws
use in_proxy.Common.{
  Bool, true, false, List, [], ◌∷◌, Option, none, some, any, if◌then◌else◌, ◌&&◌, not, ◌++◌, Result,
  ok, err,
}

module _ {A : Type 0} (is : A → Bool) where
  -- `idx >= 0` behind the loop that looks for the last entry.
  unfoldable pub found : List A → Bool
  found = any is

  -- `for i := range xs { if is(xs[i]) { xs[i] = a; found = true; break } }`; `none` if not found.
  add_front : A → Option (List A) → Option (List A)
  add_front a none = none
  add_front a (some xs) = some (a ∷ xs)

  unfoldable pub replace_first : A → List A → Option (List A)
  unfolding add_front
  replace_first a [] = none
  replace_first a (x ∷ xs) =
      let later = add_front x (replace_first a xs) in if is x then some (a ∷ xs) else later

  -- `out` behind the loop that drops entries.
  unfoldable pub drop_all : List A → List A
  drop_all [] = []
  drop_all (x ∷ xs) = let rest = drop_all xs in if is x then rest else x ∷ rest

-- `if !found { return missing }`
replaced : {E A : Type 0} → E → Option (List A) → Result E (List A)
replaced missing none = err missing
replaced missing (some xs) = ok xs

-- The branches of an Upsert over the tests that it makes: `add` (no old key is given), `same` (the
-- key does not change), an entry of the new key, an entry of the old key.
unfoldable pub place :
    {E A : Type 0} → Bool → Bool → (A → Bool) → (A → Bool) → E → E → A → List A → Result E (List A)
unfolding found replace_first replaced
place add same is_new is_old exists missing a xs =
    if add
    then if found is_new xs then err exists else ok (xs ++ a ∷ [])
    else if not same && found is_new xs
    then err exists
    else replaced missing (replace_first is_old a xs)
