-- ===== src/Config/Validate.antt =====
-- The validation functions of config.go. A function that mutates its argument returns the new one.
pub mod Names
pub mod Sites
pub mod Forwards
pub mod Domains
use in_proxy.Common.{
  Bool, true, false, ◌&&◌, ◌||◌, not, List, [], ◌∷◌, Option, none, some, any, if◌then◌else◌, Result,
  ok, err, ◌>>=◌, ◌>>◌, require, wrap,
}
use in_proxy.Common.Int.{ℤ, pos, negsuc, int_eq}
use in_proxy.Text.{Text, codes, ◌==◌, to_lower}
use in_proxy.Text.Trim.{trim_space, trim_slashes}
use in_proxy.Config.{Route, HttpSite, Forward, DnatRule, PortForward, Domain, Url, ParseUrl}
use in_proxy.Config.Patterns.{prefix_pattern, host_pattern}
use in_proxy.Config.Endpoints.{is_port, is_empty, normalize_host_port, normalize_listen}
use in_proxy.Config.Errors.{
  Error, Fallible, bad_host, bad_name, bad_prefix, bad_protocol, bad_public_port, no_forwards,
  reserved_prefix, duplicate_prefix, bad_url, bad_scheme, no_url_host, bad_concurrency,
  port_out_of_range, duplicate_port, bad_listen, bad_target, bad_port_target,
}

-- The map `reserved`.
unfoldable pub is_reserved : Text → Bool
is_reserved p = p == codes "_admin" || p == codes "_healthz"

unfoldable pub seen_text : Text → List Text → Bool
seen_text t = any (λ s. s == t)

unfoldable pub seen_port : ℤ → List ℤ → Bool
seen_port p = any (λ q. int_eq q p)

abbrev pub is_negative : ℤ → Bool
is_negative (pos n) = false
is_negative (negsuc n) = true

parsed_url : Option Url → Fallible Url
parsed_url none = err bad_url
parsed_url (some u) = ok u

module _ (parse_url : ParseUrl) where
  unfoldable pub validate : Route → Fallible (Unit {0})
  unfolding is_reserved parsed_url
  validate r = do
    require (prefix_pattern r.prefix) bad_prefix
    require (not (is_reserved r.prefix)) (reserved_prefix r.prefix)
    u ← parsed_url (parse_url r.target)
    require (u.scheme == codes "http" || u.scheme == codes "https") bad_scheme
    require (not (is_empty u.host)) no_url_host
    require (not (is_negative r.max_concurrent)) bad_concurrency
    ok tt

  abbrev pub normal_route : Route → Route
  normal_route r = record r {
    prefix = trim_slashes (trim_space r.prefix);
    target = trim_space r.target;
    description = trim_space r.description;
  }

  -- The loop over the routes, with the prefixes that it has seen.
  unfoldable pub validate_routes : List Text → List Route → Fallible (List Route)
  validate_routes seen [] = ok []
  validate_routes seen (route ∷ routes) =
      let r = normal_route route in
      validate r
      >> (require (not (seen_text r.prefix seen)) (duplicate_prefix r.prefix)
          >> (validate_routes (r.prefix ∷ seen) routes >>= λ rest. ok (r ∷ rest)))

  unfoldable pub validate_site : HttpSite → Fallible HttpSite
  validate_site site = do
    let host = trim_space (to_lower site.host)
    require (host_pattern host) bad_host
    routes ← validate_routes [] site.routes
    ok (record { host = host; description = trim_space site.description; routes = routes })

unfoldable pub validate_dnat : DnatRule → Fallible DnatRule
validate_dnat d = do
  let name = trim_space d.name
  require (prefix_pattern name) bad_name
  let proto = to_lower (trim_space d.proto)
  require (proto == codes "tcp" || proto == codes "udp") bad_protocol
  require (is_port d.listen_port) bad_public_port
  target ← wrap bad_target (normalize_host_port (trim_space d.target) false)
  ok (record d {
    name = name;
    proto = proto;
    target = target;
    description = trim_space d.description;
  })

-- `if f.Port == 80`: no TLS setting applies.
abbrev pub plain_http : PortForward → PortForward
plain_http f =
    if int_eq f.port (pos 80)
    then record f { manage_cert = false; backend_tls = false; skip_verify = false }
    else f

-- `if !f.ManageCert`: the settings of the backend's TLS do not apply.
abbrev pub without_backend_tls : PortForward → PortForward
without_backend_tls f =
    if f.manage_cert then f else record f { backend_tls = false; skip_verify = false }

-- The body of the loop over the forwards of a domain.
unfoldable pub validate_port_forward : List ℤ → PortForward → Fallible PortForward
validate_port_forward seen f = do
  require (is_port f.port) (port_out_of_range f.port)
  require (not (seen_port f.port seen)) (duplicate_port f.port)
  target ← wrap (bad_port_target f.port) (normalize_host_port (trim_space f.target) false)
  let g = plain_http (record f { description = trim_space f.description })
  ok (without_backend_tls (record g { target = target }))

unfoldable pub validate_port_forwards : List ℤ → List PortForward → Fallible (List PortForward)
validate_port_forwards seen [] = ok []
validate_port_forwards seen (f ∷ fs) = validate_port_forward seen f >>= λ g.
    validate_port_forwards (f.port ∷ seen) fs >>= λ rest. ok (g ∷ rest)

abbrev pub has_forwards : List PortForward → Bool
has_forwards [] = false
has_forwards (f ∷ fs) = true

unfoldable pub validate_domain : Domain → Fallible Domain
validate_domain d = do
  let host = trim_space (to_lower d.host)
  require (host_pattern host) bad_host
  require (has_forwards d.forwards) no_forwards
  forwards ← validate_port_forwards [] d.forwards
  ok (record { host = host; description = trim_space d.description; forwards = forwards })

abbrev pub or_tcp : Text → Text
or_tcp proto = if proto == codes "" then codes "tcp" else proto

unfoldable pub is_forward_proto : Text → Bool
is_forward_proto p = p == codes "tcp" || (p == codes "udp" || p == codes "tcp+udp")

unfoldable pub validate_forward : Forward → Fallible Forward
validate_forward f = do
  let name = trim_space f.name
  require (prefix_pattern name) bad_name
  let proto = or_tcp (to_lower (trim_space f.proto))
  require (is_forward_proto proto) bad_protocol
  listen ← wrap bad_listen (normalize_listen f.listen)
  target ← wrap bad_target (normalize_host_port (trim_space f.target) false)
  ok (record f {
    name = name;
    proto = proto;
    listen = listen;
    target = target;
    description = trim_space f.description;
  })
