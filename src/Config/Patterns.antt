-- ===== src/Config/Patterns.antt =====
-- The two regular expressions of config.go, as automata over bytes.
use in_proxy.Common.{
  ℕ, ◌≡◌, refl, Bool, true, false, ◌&&◌, ◌||◌, [], ◌∷◌, nat_eq, leb, all, if◌then◌else◌, not,
}
use in_proxy.Text.{Text, codes}

-- [A-Za-z0-9]
unfoldable pub is_alnum : ℕ → Bool
is_alnum c =
    (leb b'A' c && leb c b'Z') || ((leb b'a' c && leb c b'z') || (leb b'0' c && leb c b'9'))

-- [A-Za-z0-9_-]
unfoldable pub is_name_byte : ℕ → Bool
unfolding is_alnum
is_name_byte c = is_alnum c || (nat_eq c b'_' || nat_eq c b'-')

-- ^[A-Za-z0-9][A-Za-z0-9_-]*$
unfoldable pub prefix_pattern : Text → Bool
unfolding is_alnum is_name_byte
prefix_pattern [] = false
prefix_pattern (c ∷ s) = is_alnum c && all is_name_byte s

-- The rest of a host behind a byte of it: `dot` tells whether a dot was read, `last` is the byte.
-- A label starts and ends with a letter or a digit.
host_rest : Bool → ℕ → Text → Bool
unfolding is_alnum
host_rest dot last [] = dot && is_alnum last
host_rest dot last (c ∷ s) =
    let next_label = host_rest true c s in
    let same_label = host_rest dot c s in
    if nat_eq c b'.'
    then is_alnum last && next_label
    else if is_alnum c
    then same_label
    else nat_eq c b'-' && (not (nat_eq last b'.') && same_label)

-- ^[A-Za-z0-9]([A-Za-z0-9-]*[A-Za-z0-9])?(\.[A-Za-z0-9]([A-Za-z0-9-]*[A-Za-z0-9])?)+$
unfoldable pub host_pattern : Text → Bool
unfolding is_alnum host_rest
host_pattern [] = false
host_pattern (c ∷ s) = is_alnum c && host_rest false c s

pattern_examples :
    (prefix_pattern (codes "service-A_1") ≡ true)
    × (prefix_pattern (codes "_admin") ≡ false)
    × (host_pattern (codes "tools.example.com") ≡ true)
    × (host_pattern (codes "localhost") ≡ false)
    × (host_pattern (codes "a-.com") ≡ false)
    × (host_pattern (codes "a.-b") ≡ false)
    × (host_pattern (codes "a..b") ≡ false)
    × (host_pattern (codes "a.b.") ≡ false)
unfolding prefix_pattern host_pattern
pattern_examples = (refl, refl, refl, refl, refl, refl, refl, refl)
