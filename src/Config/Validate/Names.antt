-- ===== src/Config/Validate/Names.antt =====
-- What the pattern of a prefix says of its bytes.
use in_proxy.Common.{ℕ, ◌≡◌, true, false, [], ◌∷◌, all, arith, All, All-weaken}
use in_proxy.Text.{Text}
use in_proxy.Text.Trim.{trim_space, trim_slashes, is_space, is_slash, trim_of_none}
use in_proxy.Config.Patterns.{prefix_pattern, is_alnum, is_name_byte}

-- A byte of a name is neither white space nor a slash, so trimming leaves a name alone.
name_byte_kept : (c : ℕ) → is_name_byte c ≡ true → (is_space c ≡ false) × (is_slash c ≡ false)
unfolding is_name_byte is_space is_slash
name_byte_kept c h = (ground arith, ground arith)

alnum_is_name : (c : ℕ) → is_alnum c ≡ true → is_name_byte c ≡ true
unfolding is_name_byte
alnum_is_name c h = ground arith

all→All : (s : Text) → all is_name_byte s ≡ true → All (λ c. is_name_byte c ≡ true) s
all→All [] h = tt
all→All (c ∷ s) h = (ground arith, all→All s (ground arith))

pub prefix_pattern-name : (s : Text) → prefix_pattern s ≡ true → All (λ c. is_name_byte c ≡ true) s
unfolding prefix_pattern
prefix_pattern-name [] h = tt
prefix_pattern-name (c ∷ s) h = (alnum_is_name c (ground arith), all→All s (ground arith))

pub trim_space_of_name : (s : Text) → prefix_pattern s ≡ true → trim_space s ≡ s
unfolding trim_space
trim_space_of_name s h = trim_of_none is_space s (
    All-weaken (λ c. is_name_byte c ≡ true) (λ c. is_space c ≡ false)
      (λ c k. (name_byte_kept c k).0) s (prefix_pattern-name s h))

pub trim_slashes_of_name : (s : Text) → prefix_pattern s ≡ true → trim_slashes s ≡ s
unfolding trim_slashes
trim_slashes_of_name s h = trim_of_none is_slash s (
    All-weaken (λ c. is_name_byte c ≡ true) (λ c. is_slash c ≡ false)
      (λ c k. (name_byte_kept c k).1) s (prefix_pattern-name s h))
