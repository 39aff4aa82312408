-- ===== src/Routing.antt =====
-- The routing decisions of main.go and of `startPort` in domains.go. Each reads the store as it is at
-- the time of the connection or request.
pub mod Certificates
pub mod Safety
use in_proxy.Common.{
  ℕ, Bool, true, false, ◌&&◌, ◌||◌, not, List, [], ◌∷◌, ◌++◌, Option, none, some, if◌then◌else◌,
  Result, ok, err,
}
use in_proxy.Common.Int.{ℤ, pos, negsuc, int_eq}
use in_proxy.Text.{Text, codes, ◌==◌, equal_fold}
use in_proxy.Text.Numbers.{atoi}
use in_proxy.Text.HostPort.{AddrError, split_host_port}
use in_proxy.Config.{PortForward}
use in_proxy.Config.Endpoints.{is_empty}
use in_proxy.Store.{Store}
use in_proxy.Store.Compile.{CompiledRoute, CompiledPf}
use in_proxy.Store.Match.{match_site, match_domain, is_http_host, is_terminate_host}

or_whole : Text → Result AddrError (Text × Text) → Text
or_whole whole (ok (host, port)) = host
or_whole whole (err e) = whole

unfoldable pub host_only : Text → Text
unfolding or_whole split_host_port
host_only host = or_whole host (split_host_port host)

-- What answers a request.
pub data Answer : Type 0 where
  healthy : Answer
  by_route : CompiledRoute → Answer
  by_domain : CompiledPf → Answer
  not_found : Answer
  -- the redirect, or the challenge of the certificate authority
  by_base : Answer

-- `if cp, ok := …; ok && cp.ManageCert { cp.serve } else { http.NotFound }`
or_not_found : Option CompiledPf → Answer
or_not_found none = not_found
or_not_found (some cp) = if cp.forward.manage_cert then by_domain cp else not_found

route_or : Option CompiledRoute → Answer → Answer
route_or none other = other
route_or (some c) other = by_route c

-- `proxyHandler`
unfoldable pub answer_https : Store → ℤ → Text → Text → Answer
unfolding or_not_found route_or
answer_https s main_port req_host path =
    if path == codes "/_healthz"
    then healthy
    else route_or (match_site s (host_only req_host) path)
        (or_not_found (match_domain s (host_only req_host) main_port))

-- The handler of an extra port.
unfoldable pub answer_extra : Store → ℤ → Text → Answer
unfolding or_not_found
answer_extra s port req_host = or_not_found (match_domain s (host_only req_host) port)

or_base : Option CompiledPf → Answer
or_base none = by_base
or_base (some cp) = elim cp.proxy [ none ↦ by_base | some p ↦ by_domain cp ]

-- The handler of the plaintext listener.
unfoldable pub answer_http : Store → ℤ → Text → Answer
unfolding or_base
answer_http s redirect_port req_host = or_base (match_domain s (host_only req_host) redirect_port)

-- `HostPolicy`: `true` is no error.
unfoldable pub host_policy : Text → Store → Text → Bool
host_policy external_host s host =
    equal_fold host external_host || (is_http_host s host || is_terminate_host s host)

-- `sniDecision`, with the target and the flag that a passthrough has.
pub data SniDecision : Type 0 where
  accept : SniDecision
  passthrough : Text → Bool → SniDecision
  drop : SniDecision

splice_or_accept : Option CompiledPf → SniDecision
splice_or_accept none = accept
splice_or_accept (some cp) =
    if cp.forward.manage_cert then accept else passthrough cp.forward.target cp.forward.proxy_proto

-- The decision at the main listener.
unfoldable pub decide_main : Store → ℤ → Text → SniDecision
unfolding splice_or_accept
decide_main s main_port sni = splice_or_accept (match_domain s sni main_port)

splice_or_drop : Bool → Option CompiledPf → SniDecision
splice_or_drop has_tls none = drop
splice_or_drop has_tls (some cp) =
    if cp.forward.manage_cert
    then if has_tls then accept else drop
    else passthrough cp.forward.target cp.forward.proxy_proto

-- `decide` of startPort; `has_tls` is `r.tlsConf != nil`.
unfoldable pub decide_extra : Store → Bool → ℤ → Text → SniDecision
unfolding splice_or_drop
decide_extra s has_tls port sni = splice_or_drop has_tls (match_domain s sni port)

-- The location of redirectToHTTPS, with the request's URI.
unfoldable pub https_location : Text → Text → Text → Text
https_location https_port req_host uri =
    (codes "https://" ++ host_only req_host)
    ++ (if not (is_empty https_port) && not (https_port == codes "443")
        then b':' ∷ https_port
        else [])
    ++ uri

port_or : ℤ → Option ℤ → ℤ
port_or default none = default
port_or default (some p) = if int_eq p (pos 0) then default else p

-- The port of an address that is listened on; SplitHostPort gives "" for the port where it fails.
main_text : Result AddrError (Text × Text) → Text
main_text (ok (host, port)) = port
main_text (err e) = []

unfoldable pub main_port_of : Text → ℤ
unfolding port_or main_text split_host_port
main_port_of proxy_addr = port_or (pos 443) (atoi (main_text (split_host_port proxy_addr)))

redirect_text : Result AddrError (Text × Text) → ℤ
unfolding port_or
redirect_text (ok (host, port)) = port_or (pos 80) (atoi port)
redirect_text (err e) = pos 80

unfoldable pub redirect_port_of : Text → ℤ
unfolding redirect_text split_host_port
redirect_port_of redirect_addr =
    if is_empty redirect_addr then pos 80 else redirect_text (split_host_port redirect_addr)
