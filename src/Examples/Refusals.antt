-- ===== src/Examples/Refusals.antt =====
-- A domain whose backend is no host of a URL, and what it does to the edits behind it.
use in_proxy.Common.{◌≡◌, refl, [], ◌∷◌, none, ok, err, if◌then◌else◌}
use in_proxy.Common.Int.{pos, int_eq}
use in_proxy.Common.Dict.{insert}
use in_proxy.Text.{codes, to_lower, ◌==◌, has_prefix, trim_prefix, contains}
use in_proxy.Text.Trim.{trim_space, trim_slashes}
use in_proxy.Text.Numbers.{atoi, magnitude, digits}
use in_proxy.Text.HostPort.{split_host_port, join_host_port}
use in_proxy.Config.{Domain, ParseUrl}
use in_proxy.Config.Patterns.{prefix_pattern, host_pattern}
use in_proxy.Config.Errors.{no_domain_proxy}
use in_proxy.Config.Endpoints.{is_port, normalize_host_port}
use in_proxy.Config.Validate.{
  validate, validate_site, validate_routes, validate_domain, validate_port_forward,
  validate_port_forwards, is_reserved, seen_text, seen_port,
}
use in_proxy.Config.Validate.Sites.{validate_site_idem}
use in_proxy.Proxy.{build_proxy, build_terminate_proxy, concurrency}
use in_proxy.Store.{written}
use in_proxy.Store.Table.{place, found}
use in_proxy.Store.Compile.{
  SiteMap, compile_sites, compile_routes, compile_route, compile_domains, compile_forwards,
  forward_proxy, or_fail, longest_first,
}
use in_proxy.Store.Sites.{place_site, upsert_site}
use in_proxy.Store.Domains.{place_domain, upsert_domain}
use in_proxy.Store.Domains.Failures.{upsert_site_poisoned}
use in_proxy.Examples.Configs.{parse, tools, mail, mail_443, empty_store, wiki_compiled}

-- The parser of the examples, with no space in a host.
unfoldable strict_parse : ParseUrl
unfolding contains
strict_parse t = if contains b' ' t then none else parse t

abbrev spaced : Domain
spaced = record mail { forwards = record mail_443 { target = codes "mail host:25" } ∷ [] }

spaced_valid : validate_domain spaced ≡ ok spaced
unfolding validate_domain trim_space to_lower host_pattern validate_port_forwards
    validate_port_forward is_port seen_port normalize_host_port split_host_port contains atoi
    magnitude digits join_host_port int_eq
spaced_valid = refl

spaced_placed : place_domain [] spaced [] ≡ ok (spaced ∷ [])
unfolding place_domain place found
spaced_placed = refl

no_sites : compile_sites strict_parse [] [] ≡ ok []
unfolding compile_sites
no_sites = refl

spaced_bad :
    compile_domains strict_parse [] (spaced ∷ []) ≡ err (no_domain_proxy spaced.host (pos 443))
unfolding compile_domains compile_forwards forward_proxy or_fail build_terminate_proxy strict_parse
    contains int_eq
spaced_bad = refl

tools_valid : validate_site strict_parse tools ≡ ok tools
unfolding validate_site trim_space to_lower host_pattern validate_routes validate trim_slashes
    prefix_pattern is_reserved ◌==◌ strict_parse contains parse has_prefix trim_prefix seen_text
tools_valid = refl

tools_placed : place_site [] tools [] ≡ ok (tools ∷ [])
unfolding place_site place found
tools_placed = refl

abbrev tools_table : SiteMap
tools_table = (codes "tools.example.com", wiki_compiled ∷ []) ∷ []

tools_fine : compile_sites strict_parse [] (tools ∷ []) ≡ ok tools_table
unfolding compile_sites compile_routes compile_route build_proxy strict_parse contains parse
    to_lower insert longest_first ◌==◌ concurrency has_prefix trim_prefix
tools_fine = refl

upsert_site_poisoned_example :
    (upsert_site strict_parse [] tools written
      (upsert_domain strict_parse [] spaced written empty_store).1).0
    ≡ err (no_domain_proxy spaced.host (pos 443))
upsert_site_poisoned_example =
    upsert_site_poisoned strict_parse [] spaced spaced (spaced ∷ []) written empty_store []
      (no_domain_proxy spaced.host (pos 443)) spaced_valid spaced_placed no_sites spaced_bad []
      tools tools (tools ∷ []) written tools_table tools_valid tools_placed tools_fine

validate_site_idem_example : validate_site strict_parse tools ≡ ok tools
validate_site_idem_example = validate_site_idem strict_parse tools tools tools_valid
