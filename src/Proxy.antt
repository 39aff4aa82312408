-- ===== src/Proxy.antt =====
-- proxy.go: reverse proxies, as the data that their `Director` reads, and the directors.
pub mod Paths
pub mod Headers
pub mod Rewrites
pub mod Serve
use in_proxy.Common.{
  ℕ, zero, suc, Bool, true, false, ◌&&◌, List, [], ◌∷◌, ◌++◌, Option, none, some, if◌then◌else◌,
  Result, ok, err,
}
use in_proxy.Common.Int.{ℤ, pos, negsuc}
use in_proxy.Common.Dict.{lookup, insert}
use in_proxy.Text.{Text, codes, ◌==◌, trim_prefix}
use in_proxy.Config.{Route, PortForward, Url, ParseUrl}
use in_proxy.Config.Endpoints.{is_empty}
use in_proxy.Proxy.Paths.{single_joining_slash}

-- The proxy of one route. `max_conns` is the transport's MaxConnsPerHost, 0 for no limit.
pub record RouteProxy : Type 0 where
  pub target : Url
  pub prefix : Text
  pub strip_prefix : Bool
  pub max_conns : ℕ
  pub max_idle : ℕ

-- The transport's TLSClientConfig; `server_name` is "" where it is left unset.
pub record TlsClient : Type 0 where
  pub skip_verify : Bool
  pub server_name : Text

-- The proxy of a forward of a domain.
pub record TerminateProxy : Type 0 where
  pub target : Url
  pub tls_client : Option TlsClient
  pub max_idle : ℕ

-- A request on its way out. The keys of `header` are canonical.
pub record Request : Type 0 where
  pub scheme : Text
  pub url_host : Text
  pub path : Text
  pub raw_path : Text
  pub host : Text
  pub header : List (Text × List Text)
  pub over_tls : Bool

-- `if r.MaxConcurrent > 0`
unfoldable pub concurrency : ℤ → Option ℕ
concurrency (pos zero) = none
concurrency (pos (suc n)) = some (suc n)
concurrency (negsuc n) = none

route_proxy : Route → Url → Option ℕ → RouteProxy
route_proxy r u none = record {
  target = u;
  prefix = b'/' ∷ r.prefix;
  strip_prefix = r.strip_prefix;
  max_conns = 0;
  max_idle = 100;
}
route_proxy r u (some n) = record {
  target = u;
  prefix = b'/' ∷ r.prefix;
  strip_prefix = r.strip_prefix;
  max_conns = n;
  max_idle = n;
}

tls_client : PortForward → Url → Option TlsClient
tls_client f u =
    if f.backend_tls
    then some (record {
      skip_verify = f.skip_verify;
      server_name = if f.skip_verify then [] else u.hostname;
    })
    else none

abbrev pub backend_scheme : PortForward → Text
backend_scheme f = if f.backend_tls then codes "https" else codes "http"

module _ (parse_url : ParseUrl) where
  -- `none` is the error of `url.Parse`.
  unfoldable pub build_proxy : Route → Option RouteProxy
  unfolding route_proxy concurrency
  build_proxy r = elim (parse_url r.target) [
    | none ↦ none
    | some u ↦ some (route_proxy r u (concurrency r.max_concurrent))
  ]

  unfoldable pub build_terminate_proxy : PortForward → Option TerminateProxy
  unfolding tls_client
  build_terminate_proxy f = elim (parse_url (backend_scheme f ++ codes "://" ++ f.target)) [
    | none ↦ none
    | some u ↦ some (record { target = u; tls_client = tls_client f u; max_idle = 100 })
  ]

-- req.Header.Get(k)
first_value : Option (List Text) → Text
first_value none = []
first_value (some []) = []
first_value (some (v ∷ vs)) = v

unfoldable pub get_header : Text → List (Text × List Text) → Text
unfolding first_value lookup
get_header k h = first_value (lookup ◌==◌ k h)

-- req.Header.Set(k, v)
unfoldable pub set_header : Text → Text → List (Text × List Text) → List (Text × List Text)
unfolding insert
set_header k v h = insert ◌==◌ k (v ∷ []) h

-- `if _, ok := req.Header[k]; !ok { req.Header.Set(k, v) }`
set_if_absent : Option (List Text) → Text → Text → List (Text × List Text) → List (Text × List Text)
unfolding set_header
set_if_absent none k v h = set_header k v h
set_if_absent (some _) k v h = h

unfoldable pub set_default_header : Text → Text → List (Text × List Text) → List (Text × List Text)
unfolding set_if_absent lookup
set_default_header k v h = set_if_absent (lookup ◌==◌ k h) k v h

abbrev or_root : Text → Text
or_root path = if is_empty path then codes "/" else path

-- The path that the backend of a route sees, before it is joined to the path of the target.
unfoldable pub stripped_path : RouteProxy → Text → Text
unfolding trim_prefix
stripped_path p path = if p.strip_prefix then or_root (trim_prefix path p.prefix) else path

-- The `Director` of buildProxy.
unfoldable pub direct_route : RouteProxy → Request → Request
unfolding stripped_path single_joining_slash
direct_route p req = record {
  scheme = p.target.scheme;
  url_host = p.target.host;
  path = single_joining_slash p.target.path (stripped_path p req.path);
  raw_path = [];
  host = p.target.host;
  header =
      set_header (codes "X-Forwarded-Proto") (if req.over_tls then codes "https" else codes "http")
        (set_header (codes "X-Forwarded-Prefix") p.prefix (
          set_default_header (codes "X-Forwarded-Host") (get_header (codes "Host") req.header)
            req.header));
  over_tls = req.over_tls;
}

-- The `Director` of buildTerminateProxy.
unfoldable pub direct_terminate : TerminateProxy → Request → Request
unfolding single_joining_slash
direct_terminate p req = record {
  scheme = p.target.scheme;
  url_host = p.target.host;
  path = single_joining_slash p.target.path req.path;
  raw_path = [];
  host = req.host;
  header =
      set_header (codes "X-Forwarded-Proto") (codes "https")
        (set_default_header (codes "X-Forwarded-Host") req.host req.header);
  over_tls = req.over_tls;
}
