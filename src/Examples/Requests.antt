-- ===== src/Examples/Requests.antt =====
-- Requests and connections at the example configuration, and addresses.
use in_proxy.Common.{◌≡◌, ◌≢◌, refl, true, none, inl}
use in_proxy.Common.Int.{pos, int_eq}
use in_proxy.Common.Dict.{lookup}
use in_proxy.Text.{Text, codes, to_lower, ◌==◌, has_prefix, contains}
use in_proxy.Text.HostPort.{split_host_port}
use in_proxy.Store.Compile.{CompiledPf}
use in_proxy.Store.Match.{match_site, match_domain, find_forward, first_covering, covers}
use in_proxy.Routing.{
  host_only, by_route, by_domain, answer_https, answer_extra, host_policy, accept, passthrough,
  decide_main, decide_extra,
}
use in_proxy.Routing.Safety.{served_has_proxy, passed_through_not_terminated}
use in_proxy.Routing.Certificates.{answer_https-host_policy, decide_extra-accept}
use in_proxy.Examples.Configs.{parse, full_store, wiki_compiled, mail_443_compiled}
use in_proxy.Examples.Matching.{full_domains}

abbrev wiki_host : Text
wiki_host = codes "tools.example.com:443"

abbrev mail_host : Text
mail_host = codes "mail.example.com"

wiki_answered : answer_https full_store (pos 443) wiki_host (codes "/wiki") ≡ by_route wiki_compiled
unfolding answer_https host_only split_host_port contains match_site first_covering covers lookup
    to_lower ◌==◌ has_prefix
wiki_answered = refl

answer_https-host_policy_example :
    host_policy (codes "admin.example.com") full_store (host_only wiki_host) ≡ true
answer_https-host_policy_example =
    answer_https-host_policy parse (codes "admin.example.com") full_store full_domains (pos 443)
      wiki_host (codes "/wiki") (inl (wiki_compiled, wiki_answered))

mail_accepted : decide_extra full_store true (pos 443) (host_only mail_host) ≡ accept
unfolding decide_extra host_only split_host_port match_domain find_forward lookup to_lower ◌==◌
    int_eq contains
mail_accepted = refl

decide_extra-accept_example :
    (true ≡ true)
    × (host_policy (codes "admin.example.com") full_store (host_only mail_host) ≡ true)
    × ((cp : CompiledPf) × (answer_extra full_store (pos 443) mail_host ≡ by_domain cp))
decide_extra-accept_example =
    decide_extra-accept parse (codes "admin.example.com") full_store full_domains true (pos 443)
      mail_host mail_accepted

mail_answered :
    answer_https full_store (pos 443) mail_host (codes "/") ≡ by_domain mail_443_compiled
unfolding answer_https host_only split_host_port contains match_site first_covering match_domain
    find_forward lookup to_lower ◌==◌ int_eq
mail_answered = refl

served_has_proxy_example : mail_443_compiled.proxy ≢ none
served_has_proxy_example =
    served_has_proxy parse full_store (pos 443) mail_host (codes "/") mail_443_compiled full_domains
      (inl mail_answered)

mail_passed :
    decide_main full_store (pos 993) (host_only mail_host)
    ≡ passthrough (codes "10.8.0.60:18443") true
unfolding decide_main host_only split_host_port match_domain find_forward lookup to_lower ◌==◌
    int_eq contains
mail_passed = refl

passed_through_not_terminated_example :
    answer_https full_store (pos 993) mail_host (codes "/") ≢ by_domain mail_443_compiled
passed_through_not_terminated_example =
    passed_through_not_terminated parse full_store (pos 993) mail_host (codes "/")
      (codes "10.8.0.60:18443") true mail_443_compiled mail_passed
