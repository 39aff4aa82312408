-- ===== src/Examples/Matching.antt =====
-- Compiling and matching at the example configuration.
use in_proxy.Common.{◌≡◌, ◌≢◌, ◌↔◌, refl, true, none, some, inl}
use in_proxy.Common.Int.{ℤ, pos, int_eq}
use in_proxy.Common.Dict.{lookup, insert}
use in_proxy.Text.{Text, codes, to_lower, ◌==◌, has_prefix, trim_prefix}
use in_proxy.Config.{HttpSite}
use in_proxy.Proxy.{build_proxy, build_terminate_proxy, concurrency}
use in_proxy.Store.Compile.{
  CompiledPf, compile_sites, compile_domains, compile_routes, compile_route, longest_first,
  compile_forwards, forward_proxy, put_forward, or_fail, port_table,
}
use in_proxy.Store.Compile.Routes.{last_site, IsCompiled}
use in_proxy.Store.Match.{match_site, match_domain, first_covering, covers, is_terminate_host}
use in_proxy.Store.Match.Longest.{IsBest, SitesCompiled, match_site-IsBest, match_site_complete}
use in_proxy.Store.Match.Lookups.{Matches, last_in_domains, match_domain-Matches}
use in_proxy.Store.Match.Ports.{DomainsCompiled}
use in_proxy.Store.Match.Terminate.{is_terminate_host_iff}
use in_proxy.Examples.Configs.{parse, wiki, tools, full_store, wiki_compiled}

pub full_sites : SitesCompiled parse full_store
unfolding compile_sites compile_routes compile_route build_proxy parse to_lower insert longest_first
    ◌==◌ concurrency has_prefix trim_prefix
full_sites = refl

pub full_domains : DomainsCompiled parse full_store
unfolding compile_domains compile_forwards forward_proxy build_terminate_proxy put_forward or_fail
    int_eq parse to_lower lookup insert ◌==◌ has_prefix trim_prefix port_table
full_domains = refl

abbrev tools_host : Text
tools_host = codes "Tools.example.com"

abbrev wiki_path : Text
wiki_path = codes "/wiki/start"

wiki_matched : match_site full_store tools_host wiki_path ≡ some wiki_compiled
unfolding match_site first_covering covers lookup to_lower ◌==◌ has_prefix
wiki_matched = refl

wiki_covers : covers wiki.prefix wiki_path ≡ true
unfolding covers ◌==◌ has_prefix
wiki_covers = refl

tools_last : last_site (to_lower tools_host) full_store.sites ≡ some tools
unfolding last_site to_lower ◌==◌
tools_last = refl

match_site-IsBest_example :
    (st : HttpSite) × (last_site (to_lower tools_host) full_store.sites ≡ some st)
    × IsBest wiki_path st.routes wiki
    × IsCompiled parse wiki_compiled
match_site-IsBest_example =
    match_site-IsBest parse full_store tools_host wiki_path wiki_compiled full_sites wiki_matched

match_site_complete_example : match_site full_store tools_host wiki_path ≢ none
match_site_complete_example =
    match_site_complete parse full_store tools_host wiki_path tools wiki full_sites tools_last
      (inl refl) refl wiki_covers

match_domain-Matches_example :
    Matches parse
      (last_in_domains (codes "MAIL.example.com") (pos 993) full_store.domains)
      (match_domain full_store (codes "MAIL.example.com") (pos 993))
match_domain-Matches_example =
    match_domain-Matches parse full_store (codes "MAIL.example.com") (pos 993) full_domains

is_terminate_host_iff_example : (is_terminate_host full_store (codes "mail.example.com") ≡ true) ↔ (
    (p : ℤ) × (cp : CompiledPf) × (match_domain full_store (codes "mail.example.com") p ≡ some cp)
    × (cp.forward.manage_cert ≡ true))
is_terminate_host_iff_example =
    is_terminate_host_iff parse full_store (codes "mail.example.com") full_domains
