-- ===== src/Text.antt =====
-- Go strings as lists of bytes, with the functions of package strings that the program calls.
-- Case and white space are those of ASCII.
pub mod Trim
pub mod Numbers
pub mod HostPort
use Prim.Native.Char.{code}
use Prim.Native.String.{String}
use in_proxy.Common.{
  ℕ, ◌+◌, ◌-◌, ◌≡◌, refl, ◌↔◌, Bool, true, false, ◌&&◌, ◌||◌, List, [], ◌∷◌, ◌++◌, Option, none,
  some, arith, leb, nat_eq, if◌then◌else◌, map, any, All, ◌≢◌, length,
}

abbrev pub Text : Type 0
Text = List ℕ

-- The bytes of an ASCII literal.
abbrev pub codes : String → Text
codes String.[] = []
codes (String.◌∷◌ c s) = code c ∷ codes s

infix 50 ◌==◌
unfoldable pub ◌==◌ : Text → Text → Bool
[] == [] = true
(a ∷ s) == (b ∷ t) = nat_eq a b && (s == t)
_ == _ = false

pub eq_iff : (s t : Text) → ((s == t) ≡ true) ↔ (s ≡ t)
unfolding ◌==◌
eq_iff [] [] = (λ h. refl, λ h. refl)
eq_iff [] (b ∷ t) = (λ h. cc, λ h. cc)
eq_iff (a ∷ s) [] = (λ h. cc, λ h. cc)
eq_iff (a ∷ s) (b ∷ t) = (λ h. ground (arith, (eq_iff s t).0), λ h. ground (arith, (eq_iff s t).1))

pub eq_refl : (s : Text) → (s == s) ≡ true
eq_refl s = (eq_iff s s).1 refl

unfoldable pub lower_byte : ℕ → ℕ
lower_byte c = if leb b'A' c && leb c b'Z' then c + 32 else c

-- strings.ToLower
unfoldable pub to_lower : Text → Text
unfolding lower_byte
to_lower = map lower_byte

-- strings.EqualFold
unfoldable pub equal_fold : Text → Text → Bool
equal_fold s t = to_lower s == to_lower t

-- strings.HasPrefix(s, p)
unfoldable pub has_prefix : Text → Text → Bool
has_prefix s [] = true
has_prefix [] (b ∷ p) = false
has_prefix (a ∷ s) (b ∷ p) = nat_eq a b && has_prefix s p

-- strings.TrimPrefix(s, p)
drop_prefix : Text → Text → Text
drop_prefix s [] = s
drop_prefix [] (b ∷ p) = []
drop_prefix (a ∷ s) (b ∷ p) = drop_prefix s p

unfoldable pub trim_prefix : Text → Text → Text
unfolding drop_prefix has_prefix
trim_prefix s p = if has_prefix s p then drop_prefix s p else s

-- strings.HasSuffix(s, "/") for one byte
unfoldable pub ends_with : ℕ → Text → Bool
ends_with b [] = false
ends_with b (a ∷ []) = nat_eq a b
ends_with b (a ∷ c ∷ s) = ends_with b (c ∷ s)

unfoldable pub contains : ℕ → Text → Bool
contains b = any (λ a. nat_eq a b)

abbrev pub Lacks : ℕ → Text → Type 0
Lacks b = All (λ c. c ≢ b)

pub lower_byte_idem : (c : ℕ) → lower_byte (lower_byte c) ≡ lower_byte c
unfolding lower_byte
lower_byte_idem c = ground arith

pub to_lower_idem : (s : Text) → to_lower (to_lower s) ≡ to_lower s
unfolding to_lower
to_lower_idem [] = refl
to_lower_idem (c ∷ s) = cc (lower_byte_idem c, to_lower_idem s)

pub equal_fold_iff : (s t : Text) → (equal_fold s t ≡ true) ↔ (to_lower s ≡ to_lower t)
unfolding equal_fold
equal_fold_iff s t = eq_iff (to_lower s) (to_lower t)

-- A prefix is a head that can be split off.
pub has_prefix_sound : (s p : Text) → has_prefix s p ≡ true → s ≡ p ++ trim_prefix s p
unfolding trim_prefix
has_prefix_sound s [] h = refl
has_prefix_sound [] (b ∷ p) h = cc
has_prefix_sound (a ∷ s) (b ∷ p) h = ground (arith, has_prefix_sound s p)

pub has_prefix-append : (p t : Text) → has_prefix (p ++ t) p ≡ true
unfolding has_prefix
has_prefix-append [] t = refl
has_prefix-append (b ∷ p) t = ground (arith, has_prefix-append p t)

pub trim_prefix-append : (p t : Text) → trim_prefix (p ++ t) p ≡ t
unfolding trim_prefix
trim_prefix-append [] t = refl
trim_prefix-append (b ∷ p) t = ground (arith, trim_prefix-append p t, has_prefix-append p t)

pub contains→Lacks : (b : ℕ) (s : Text) → contains b s ≡ false → Lacks b s
unfolding contains
contains→Lacks b [] h = tt
contains→Lacks b (a ∷ s) h = (ground arith, contains→Lacks b s (ground arith))

pub Lacks→contains : (b : ℕ) (s : Text) → Lacks b s → contains b s ≡ false
unfolding contains
Lacks→contains b [] h = refl
Lacks→contains b (a ∷ s) (x, h) = ground (arith, Lacks→contains b s h)

pub to_lower-IsLower : (s : Text) → All (λ c. lower_byte c ≡ c) (to_lower s)
unfolding to_lower
to_lower-IsLower [] = tt
to_lower-IsLower (c ∷ s) = (lower_byte_idem c, to_lower-IsLower s)

pub to_lower_of_IsLower : (s : Text) → All (λ c. lower_byte c ≡ c) s → to_lower s ≡ s
unfolding to_lower
to_lower_of_IsLower [] h = refl
to_lower_of_IsLower (c ∷ s) (x, h) = cc (to_lower_of_IsLower s h)
