-- ===== src/Text/HostPort.antt =====
-- net.SplitHostPort and net.JoinHostPort.
pub mod Laws
use in_proxy.Common.{
  ℕ, ◌+◌, ◌≡◌, refl, Bool, true, false, List, [], ◌∷◌, ◌++◌, Option, none, some, nat_eq,
  if◌then◌else◌, length, Result, ok, err,
}
use in_proxy.Text.{Text, codes, contains}

pub data AddrError : Type 0 where
  missing_port too_many_colons missing_bracket unexpected_open unexpected_close : AddrError

abbrev prepend : ℕ → Text × Text → Text × Text
prepend c (before, after) = (c ∷ before, after)

prepend_found : ℕ → Option (Text × Text) → Option (Text × Text)
prepend_found c none = none
prepend_found c (some parts) = some (prepend c parts)

-- What stands before and behind the first `b` of a text.
split_first : ℕ → Text → Option (Text × Text)
unfolding prepend_found
split_first b [] = none
split_first b (c ∷ s) =
    let later = prepend_found c (split_first b s) in if nat_eq c b then some ([], s) else later

-- The same for the last `b`.
or_here : ℕ → ℕ → Text → Option (Text × Text) → Option (Text × Text)
or_here b c s none = if nat_eq c b then some ([], s) else none
or_here b c s (some parts) = some (prepend c parts)

split_last : ℕ → Text → Option (Text × Text)
unfolding or_here
split_last b [] = none
split_last b (c ∷ s) = or_here b c s (split_last b s)

-- `hostport[j:]` and `hostport[k:]` hold no further bracket.
unbracketed : Text → Text → Text × Text → Result AddrError (Text × Text)
unbracketed from_j from_k parts =
    if contains b'[' from_j
    then err unexpected_open
    else if contains b']' from_k
    then err unexpected_close
    else ok parts

-- The branch of an address that starts with '['. The first ']' has `inside` in front of it and
-- `behind` after it; it must be the last byte in front of the last colon.
bracketed : Text → Text → Text → Option (Text × Text) → Result AddrError (Text × Text)
unfolding unbracketed
bracketed rest before port none = err missing_bracket
bracketed rest before port (some (inside, [])) = err missing_port
bracketed rest before port (some (inside, d ∷ behind)) =
    if nat_eq (length inside + 2) (length before)
    then unbracketed rest (d ∷ behind) (inside, port)
    else if nat_eq d b':'
    then err too_many_colons
    else err missing_port

split_at_colon : Text → Option (Text × Text) → Result AddrError (Text × Text)
unfolding unbracketed bracketed split_first contains
split_at_colon s none = err missing_port
split_at_colon [] (some (before, port)) = err missing_port
split_at_colon (c ∷ s) (some (before, port)) =
    if nat_eq c b'['
    then bracketed s before port (split_first b']' s)
    else if contains b':' before
    then err too_many_colons
    else unbracketed (c ∷ s) (c ∷ s) (before, port)

unfoldable pub split_host_port : Text → Result AddrError (Text × Text)
unfolding split_at_colon split_last
split_host_port s = split_at_colon s (split_last b':' s)

unfoldable pub join_host_port : Text → Text → Text
unfolding contains
join_host_port host port =
    if contains b':' host then b'[' ∷ host ++ b']' ∷ b':' ∷ port else host ++ b':' ∷ port

split_examples :
    (split_host_port (codes "10.8.0.5:22") ≡ ok (codes "10.8.0.5", codes "22"))
    × (split_host_port (codes "[::1]:8443") ≡ ok (codes "::1", codes "8443"))
    × (split_host_port (codes ":53") ≡ ok ([], codes "53"))
    × (split_host_port (codes "host") ≡ err missing_port)
    × (split_host_port (codes "::1:80") ≡ err too_many_colons)
    × (split_host_port (codes "[::1]") ≡ err missing_port)
    × (split_host_port (codes "[::1]80:1") ≡ err missing_port)
    × (split_host_port (codes "a]:1") ≡ err unexpected_close)
unfolding split_host_port
split_examples = (refl, refl, refl, refl, refl, refl, refl, refl)
