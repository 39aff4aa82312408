-- ===== src/Proxy/Rewrites.antt =====
-- The path that a backend of a route sees.
use in_proxy.Common.{◌≡◌, true, false, [], ◌∷◌, ◌++◌, append-nil, arith, ap, sym, ◌∙◌}
use in_proxy.Text.{Text, codes, trim_prefix, trim_prefix-append, has_prefix}
use in_proxy.Proxy.{RouteProxy, Request, stripped_path, direct_route}
use in_proxy.Proxy.Paths.{
  single_joining_slash, drop_end_slash, drop_front_slash, single_joining_slash_lem,
}

-- The bare prefix is the root of the backend.
stripped_path_bare : (p : RouteProxy) → p.strip_prefix ≡ true → stripped_path p p.prefix ≡ codes "/"
unfolding stripped_path
stripped_path_bare p h =
    let gone : trim_prefix p.prefix p.prefix ≡ [] =
      ap (λ t. trim_prefix t p.prefix) (sym (append-nil p.prefix))
      ∙ trim_prefix-append p.prefix [] in
    rw h (rw gone)

stripped_path_below :
    (p : RouteProxy) (rest : Text)
    → p.strip_prefix ≡ true
    → stripped_path p (p.prefix ++ b'/' ∷ rest) ≡ b'/' ∷ rest
unfolding stripped_path
stripped_path_below p rest h = rw h (rw (trim_prefix-append p.prefix (b'/' ∷ rest)))

joined_root :
    (a rest : Text) → single_joining_slash a (b'/' ∷ rest) ≡ drop_end_slash a ++ b'/' ∷ rest
unfolding drop_front_slash has_prefix
joined_root a rest = single_joining_slash_lem a (b'/' ∷ rest) (ground arith)

-- When the route strips its prefix, a request for the prefix, a slash and a rest goes to the
-- target's path without a final slash, then that slash and the rest.
pub path-direct_route_below :
    (p : RouteProxy) (req : Request) (rest : Text)
    → p.strip_prefix ≡ true
    → req.path ≡ p.prefix ++ b'/' ∷ rest
    → (direct_route p req).path ≡ drop_end_slash p.target.path ++ b'/' ∷ rest
unfolding direct_route
path-direct_route_below p req rest h e =
    rw e (rw (stripped_path_below p rest h) (joined_root p.target.path rest))

pub path-direct_route_bare :
    (p : RouteProxy) (req : Request)
    → p.strip_prefix ≡ true
    → req.path ≡ p.prefix
    → (direct_route p req).path ≡ drop_end_slash p.target.path ++ codes "/"
unfolding direct_route
path-direct_route_bare p req h e = rw e (rw (stripped_path_bare p h) (joined_root p.target.path []))

-- Without stripping the path is joined as it is.
pub path-direct_route_kept :
    (p : RouteProxy) (req : Request)
    → p.strip_prefix ≡ false
    → (direct_route p req).path ≡ single_joining_slash p.target.path req.path
unfolding direct_route
path-direct_route_kept p req h = rw (h, stripped_path)
