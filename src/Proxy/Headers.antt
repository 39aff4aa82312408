-- ===== src/Proxy/Headers.antt =====
-- The forwarding headers that the directors of proxy.go set.
use in_proxy.Common.{
  ◌≡◌, refl, Bool, true, false, List, [], ◌∷◌, Option, none, some, if◌then◌else◌, Option-cases,
  Bool-cases, inl, inr,
}
use in_proxy.Common.Dict.{lookup, lookup-insert}
use in_proxy.Text.{Text, codes, ◌==◌, eq_iff, eq_refl}
use in_proxy.Proxy.{
  RouteProxy, TerminateProxy, Request, get_header, set_header, set_default_header, direct_route,
  direct_terminate,
}

-- Reading a header after it was set, or after another was.
get_header-set_header :
    (k j v : Text) (h : List (Text × List Text))
    → get_header j (set_header k v h) ≡ (if k == j then v else get_header j h)
unfolding get_header set_header
get_header-set_header k j v h = elim (Bool-cases (k == j)) [
  | inl same ↦ rw (lookup-insert ◌==◌ eq_iff k j (v ∷ []) h) (rw same)
  | inr other ↦ rw (lookup-insert ◌==◌ eq_iff k j (v ∷ []) h) (rw other)
]

-- Is there a value for the key, an empty one included?
abbrev pub is_present : Option (List Text) → Bool
is_present none = false
is_present (some vs) = true

get_header-set_default_header :
    (k v : Text) (h : List (Text × List Text))
    → get_header k (set_default_header k v h)
      ≡ (if is_present (lookup ◌==◌ k h) then get_header k h else v)
unfolding set_default_header
get_header-set_default_header k v h = elim (Option-cases (lookup ◌==◌ k h)) [
  | inl absent ↦ rw absent (rw (get_header-set_header k k v h) (rw (eq_refl k)))
  | inr (vs, found) ↦ rw found
]

get_header-set_default_header_ne :
    (k j v : Text) (h : List (Text × List Text))
    → k == j ≡ false
    → get_header j (set_default_header k v h) ≡ get_header j h
unfolding set_default_header
get_header-set_default_header_ne k j v h n = elim (Option-cases (lookup ◌==◌ k h)) [
  | inl absent ↦ rw absent (rw (get_header-set_header k j v h) (rw n))
  | inr (vs, found) ↦ rw found
]

abbrev pub forwarded_host : Text
forwarded_host = codes "X-Forwarded-Host"

abbrev pub forwarded_prefix : Text
forwarded_prefix = codes "X-Forwarded-Prefix"

abbrev pub forwarded_proto : Text
forwarded_proto = codes "X-Forwarded-Proto"

distinct_keys :
    (forwarded_proto == forwarded_prefix ≡ false)
    × (forwarded_proto == forwarded_host ≡ false)
    × (forwarded_prefix == forwarded_host ≡ false)
unfolding ◌==◌
distinct_keys = (refl, refl, refl)

pub route_forwarded_prefix :
    (p : RouteProxy) (req : Request)
    → get_header forwarded_prefix (direct_route p req).header ≡ p.prefix
unfolding direct_route
route_forwarded_prefix p req = rw (get_header-set_header forwarded_proto forwarded_prefix _ _) (
    rw distinct_keys.0 (
      rw (get_header-set_header forwarded_prefix forwarded_prefix p.prefix _)
        (rw (eq_refl forwarded_prefix))))

pub route_forwarded_proto :
    (p : RouteProxy) (req : Request)
    → get_header forwarded_proto (direct_route p req).header
      ≡ (if req.over_tls then codes "https" else codes "http")
unfolding direct_route
route_forwarded_proto p req =
    rw (get_header-set_header forwarded_proto forwarded_proto _ _) (rw (eq_refl forwarded_proto))

-- The backend of a route gets the X-Forwarded-Host that came with the request, and where there was
-- none the header "Host", not the request's own host.
pub route_forwarded_host :
    (p : RouteProxy) (req : Request)
    → get_header forwarded_host (direct_route p req).header ≡ (
        if is_present (lookup ◌==◌ forwarded_host req.header)
        then get_header forwarded_host req.header
        else get_header (codes "Host") req.header)
unfolding direct_route
route_forwarded_host p req = rw (get_header-set_header forwarded_proto forwarded_host _ _) (
    rw distinct_keys.1 (
      rw (get_header-set_header forwarded_prefix forwarded_host p.prefix _) (
        rw distinct_keys.2 (
          get_header-set_default_header forwarded_host (get_header (codes "Host") req.header)
            req.header))))

-- The backend of a domain is told that the client came by https, whether it came by TLS or not.
pub terminate_forwarded_proto :
    (p : TerminateProxy) (req : Request)
    → get_header forwarded_proto (direct_terminate p req).header ≡ codes "https"
unfolding direct_terminate
terminate_forwarded_proto p req =
    rw (get_header-set_header forwarded_proto forwarded_proto _ _) (rw (eq_refl forwarded_proto))

pub terminate_forwarded_host :
    (p : TerminateProxy) (req : Request)
    → get_header forwarded_host (direct_terminate p req).header ≡ (
        if is_present (lookup ◌==◌ forwarded_host req.header)
        then get_header forwarded_host req.header
        else req.host)
unfolding direct_terminate
terminate_forwarded_host p req =
    rw (get_header-set_header forwarded_proto forwarded_host _ _)
      (rw distinct_keys.1 (get_header-set_default_header forwarded_host req.host req.header))
