-- ===== src/Store/Compile.antt =====
-- recompileLocked of config.go: the routing tables are built from the configured sites and domains.
pub mod Order
pub mod Routes
use in_proxy.Common.{
  ℕ, Bool, true, false, List, [], ◌∷◌, Option, none, some, if◌then◌else◌, Result, ok, err, ◌>>=◌,
  leb, length,
}
use in_proxy.Common.Int.{ℤ, pos, int_eq}
use in_proxy.Common.Dict.{lookup, insert}
use in_proxy.Text.{Text, ◌==◌, to_lower}
use in_proxy.Config.{Route, HttpSite, PortForward, Domain, ParseUrl}
use in_proxy.Config.Errors.{Fallible, no_route_proxy, no_domain_proxy}
use in_proxy.Proxy.{RouteProxy, TerminateProxy, concurrency, build_proxy, build_terminate_proxy}

-- `limiter` is the capacity of the semaphore.
pub record CompiledRoute : Type 0 where
  pub route : Route
  pub proxy : RouteProxy
  pub limiter : Option ℕ

pub record CompiledPf : Type 0 where
  pub host : Text
  pub forward : PortForward
  pub proxy : Option TerminateProxy

abbrev pub SiteMap : Type 0
SiteMap = List (Text × List CompiledRoute)

abbrev pub DomainMap : Type 0
DomainMap = List (ℤ × List (Text × CompiledPf))

abbrev prefix_length : CompiledRoute → ℕ
prefix_length c = length c.route.prefix

-- sort.SliceStable, longest prefix first: an entry goes in front of those that are not longer.
unfoldable pub insert_longest : CompiledRoute → List CompiledRoute → List CompiledRoute
insert_longest c [] = c ∷ []
insert_longest c (d ∷ ds) =
    if leb (prefix_length d) (prefix_length c) then c ∷ d ∷ ds else d ∷ insert_longest c ds

unfoldable pub longest_first : List CompiledRoute → List CompiledRoute
unfolding insert_longest
longest_first [] = []
longest_first (c ∷ cs) = insert_longest c (longest_first cs)

-- `&PortForward{Target: f.Target}`
abbrev pub plain_backend : PortForward → PortForward
plain_backend f = record {
  port = pos 0;
  target = f.target;
  manage_cert = false;
  backend_tls = false;
  skip_verify = false;
  proxy_proto = false;
  description = [];
  enabled = false;
}

unfoldable pub or_fail : Text → ℤ → Option TerminateProxy → Fallible (Option TerminateProxy)
or_fail host port none = err (no_domain_proxy host port)
or_fail host port (some p) = ok (some p)

-- `if dom[f.Port] == nil { dom[f.Port] = … }`
unfoldable pub port_table : Option (List (Text × CompiledPf)) → List (Text × CompiledPf)
port_table none = []
port_table (some m) = m

-- `dom[port][lower(host)] = cp`
unfoldable pub put_forward : ℤ → Text → CompiledPf → DomainMap → DomainMap
unfolding port_table lookup insert
put_forward port host cp dom =
    insert int_eq port (insert ◌==◌ (to_lower host) cp (port_table (lookup int_eq port dom))) dom

module _ (parse_url : ParseUrl) where
  unfoldable pub compile_route : Text → Route → Fallible CompiledRoute
  compile_route host r = elim (build_proxy parse_url r) [
    | none ↦ err (no_route_proxy host r.prefix)
    | some p ↦ ok (record { route = r; proxy = p; limiter = concurrency r.max_concurrent })
  ]

  -- The loop over the routes of a site.
  unfoldable pub compile_routes : Text → List Route → Fallible (List CompiledRoute)
  compile_routes host [] = ok []
  compile_routes host (r ∷ rs) =
      let compiled = compile_route host r >>= λ c. compile_routes host rs >>= λ cs. ok (c ∷ cs) in
      let skipped = compile_routes host rs in if r.enabled then compiled else skipped

  -- The loop over the sites: a later site of the same host wins.
  unfoldable pub compile_sites : SiteMap → List HttpSite → Fallible SiteMap
  compile_sites m [] = ok m
  compile_sites m (st ∷ sts) = compile_routes st.host st.routes >>= λ crs.
      compile_sites (insert ◌==◌ (to_lower st.host) (longest_first crs) m) sts

  unfoldable pub forward_proxy : Text → PortForward → Fallible (Option TerminateProxy)
  unfolding or_fail
  forward_proxy host f =
      if int_eq f.port (pos 80)
      then or_fail host (pos 80) (build_terminate_proxy parse_url (plain_backend f))
      else if f.manage_cert
      then or_fail host f.port (build_terminate_proxy parse_url f)
      else ok none

  -- The loop over the forwards of a domain.
  unfoldable pub compile_forwards : Text → DomainMap → List PortForward → Fallible DomainMap
  compile_forwards host dom [] = ok dom
  compile_forwards host dom (f ∷ fs) =
      let skipped = compile_forwards host dom fs in
      let compiled = forward_proxy host f >>= λ p.
      compile_forwards host
        (put_forward f.port host (record { host = host; forward = f; proxy = p }) dom) fs in
      if f.enabled then compiled else skipped

  unfoldable pub compile_domains : DomainMap → List Domain → Fallible DomainMap
  compile_domains dom [] = ok dom
  compile_domains dom (d ∷ ds) =
      compile_forwards d.host dom d.forwards >>= λ dom'. compile_domains dom' ds
