-- ===== src/Store/Match.antt =====
-- The lookups of the Store that route requests and connections.
pub mod Hosts
pub mod Longest
pub mod Lookups
pub mod Ports
pub mod Terminate
use in_proxy.Common.{
  ℕ, Bool, true, false, ◌||◌, ◌&&◌, List, [], ◌∷◌, ◌++◌, Option, none, some, if◌then◌else◌, leb,
  map,
}
use in_proxy.Common.Int.{ℤ, pos, negsuc, int_eq}
use in_proxy.Common.Dict.{lookup}
use in_proxy.Text.{Text, codes, ◌==◌, to_lower, has_prefix}
use in_proxy.Store.{Store}
use in_proxy.Store.Compile.{CompiledRoute, CompiledPf, SiteMap, DomainMap}

-- `path == p || strings.HasPrefix(path, p+"/")` for `p := "/" + prefix`
unfoldable pub covers : Text → Text → Bool
unfolding has_prefix
covers prefix path = path == b'/' ∷ prefix || has_prefix path (b'/' ∷ prefix ++ codes "/")

-- The loop of MatchSite.
unfoldable pub first_covering : Text → List CompiledRoute → Option CompiledRoute
unfolding covers
first_covering path [] = none
first_covering path (c ∷ cs) = if covers c.route.prefix path then some c else first_covering path cs

abbrev routes_of : Option (List CompiledRoute) → List CompiledRoute
routes_of none = []
routes_of (some cs) = cs

unfoldable pub match_site : Store → Text → Text → Option CompiledRoute
unfolding first_covering lookup
match_site s host path =
    first_covering path (routes_of (lookup ◌==◌ (to_lower host) s.compiled_sites))

abbrev pub is_some {ℓ} : {A : Type ℓ} → Option A → Bool
is_some none = false
is_some (some a) = true

unfoldable pub is_http_host : Store → Text → Bool
unfolding lookup
is_http_host s host = is_some (lookup ◌==◌ (to_lower host) s.compiled_sites)

find_host : Text → Option (List (Text × CompiledPf)) → Option CompiledPf
find_host host none = none
find_host host (some m) = lookup ◌==◌ host m

-- `dom[port][lower(host)]`
unfoldable pub find_forward : DomainMap → Text → ℤ → Option CompiledPf
unfolding find_host lookup
find_forward dom host port = find_host (to_lower host) (lookup int_eq port dom)

unfoldable pub match_domain : Store → Text → ℤ → Option CompiledPf
unfolding find_forward
match_domain s = find_forward s.compiled_dom

manages : Option CompiledPf → Bool
manages none = false
manages (some cp) = cp.forward.manage_cert

-- The loop over the tables of the ports.
any_manages : Text → DomainMap → Bool
unfolding manages lookup
any_manages h [] = false
any_manages h ((port, m) ∷ dom) = manages (lookup ◌==◌ h m) || any_manages h dom

unfoldable pub is_terminate_host : Store → Text → Bool
unfolding any_manages
is_terminate_host s host = any_manages (to_lower host) s.compiled_dom

unfoldable pub int_le : ℤ → ℤ → Bool
int_le (negsuc a) (negsuc b) = leb b a
int_le (negsuc a) (pos b) = true
int_le (pos a) (negsuc b) = false
int_le (pos a) (pos b) = leb a b

-- sort.Ints
insert_port : ℤ → List ℤ → List ℤ
unfolding int_le
insert_port p [] = p ∷ []
insert_port p (q ∷ qs) = if int_le p q then p ∷ q ∷ qs else q ∷ insert_port p qs

sort_ports : List ℤ → List ℤ
unfolding insert_port
sort_ports [] = []
sort_ports (p ∷ ps) = insert_port p (sort_ports ps)

unfoldable pub domain_ports : Store → List ℤ
unfolding sort_ports
domain_ports s = sort_ports (map (λ (e : ℤ × List (Text × CompiledPf)). e.0) s.compiled_dom)
