-- ===== src/Routing/Certificates.antt =====
-- Which hosts certificates are asked for.
use in_proxy.Common.{
  ◌≡◌, refl, Bool, true, ◌||◌, Option, none, some, arith, Bool-cases, Option-cases, inl, inr, ◌⊎◌,
}
use in_proxy.Common.Int.{ℤ}
use in_proxy.Common.Dict.{lookup}
use in_proxy.Text.{Text, codes, ◌==◌, to_lower, equal_fold}
use in_proxy.Config.{ParseUrl}
use in_proxy.Store.{Store}
use in_proxy.Store.Compile.{CompiledRoute, CompiledPf}
use in_proxy.Store.Match.{match_site, match_domain, is_http_host, is_terminate_host}
use in_proxy.Store.Match.Ports.{DomainsCompiled}
use in_proxy.Store.Match.Terminate.{is_terminate_host_iff}
use in_proxy.Routing.{
  host_only, by_route, by_domain, or_not_found, answer_https, answer_extra, host_policy, accept,
  splice_or_drop, decide_extra,
}
use in_proxy.Routing.Safety.{answer_https-by_domain}

match_site-is_http_host :
    (s : Store) (host path : Text) (c : CompiledRoute)
    → match_site s host path ≡ some c
    → is_http_host s host ≡ true
unfolding match_site is_http_host
match_site-is_http_host s host path c h =
    elim (Option-cases (lookup ◌==◌ (to_lower host) s.compiled_sites)) [
      | inl missing ↦ absurd (ground arith)
      | inr (cs, there) ↦ rw there
    ]

answer_https-by_route :
    (s : Store) (main_port : ℤ) (host path : Text) (c : CompiledRoute)
    → answer_https s main_port host path ≡ by_route c
    → match_site s (host_only host) path ≡ some c
unfolding answer_https or_not_found
answer_https-by_route s main_port host path c h = elim (Bool-cases (path == codes "/_healthz")) [
  | inl health ↦ absurd (ground arith)
  | inr other ↦ elim (Option-cases (match_site s (host_only host) path)) [
    | inr (c', found) ↦ ground arith
    | inl missing ↦ absurd (ground arith)
  ]
]

or_third : (a b c : Bool) → c ≡ true → a || (b || c) ≡ true
or_third a b c h = ground arith

or_second : (a b c : Bool) → b ≡ true → a || (b || c) ≡ true
or_second a b c h = ground arith

module _ (parse_url : ParseUrl) (external_host : Text) (s : Store)
    (v : DomainsCompiled parse_url s) where
  managed-host_policy :
      (host : Text) (port : ℤ) (cp : CompiledPf)
      → match_domain s host port ≡ some cp
      → cp.forward.manage_cert ≡ true
      → host_policy external_host s host ≡ true
  unfolding host_policy
  managed-host_policy host port cp found managed =
      or_third (equal_fold host external_host) (is_http_host s host) (is_terminate_host s host)
        ((is_terminate_host_iff parse_url s host v).1 (port, cp, found, managed))

  -- Where the table of the domains is compiled from the configured domains: every host that the
  -- main listener answers by a route or by a domain is one that the policy asks a certificate for.
  pub answer_https-host_policy :
      (main_port : ℤ) (host path : Text)
      → ((c : CompiledRoute) × (answer_https s main_port host path ≡ by_route c))
        ⊎ ((cp : CompiledPf) × (answer_https s main_port host path ≡ by_domain cp))
      → host_policy external_host s (host_only host) ≡ true
  unfolding host_policy
  answer_https-host_policy main_port host path (inl (c, h)) =
      or_second (equal_fold (host_only host) external_host) (is_http_host s (host_only host))
        (is_terminate_host s (host_only host))
        (match_site-is_http_host s (host_only host) path c
          (answer_https-by_route s main_port host path c h))
  answer_https-host_policy main_port host path (inr (cp, h)) =
      let (found, managed) = answer_https-by_domain parse_url s main_port host path cp h in
      managed-host_policy (host_only host) main_port cp found managed

  splice_or_drop-accept :
      (has_tls : Bool) (o : Option CompiledPf)
      → splice_or_drop has_tls o ≡ accept
      → (cp : CompiledPf) × (o ≡ some cp) × (cp.forward.manage_cert ≡ true) × (has_tls ≡ true)
  unfolding splice_or_drop
  splice_or_drop-accept has_tls none h = cc
  splice_or_drop-accept has_tls (some cp) h = elim (Bool-cases cp.forward.manage_cert) [
    | inl managed ↦ (cp, refl, managed, ground arith)
    | inr plain ↦ absurd (ground arith)
  ]

  -- Where the table of the domains is compiled from the configured domains: if an extra port
  -- accepts a connection for termination, there is a source of certificates, the policy asks one
  -- for the host, and a request for that host is answered by a domain.
  pub decide_extra-accept :
      (has_tls : Bool) (port : ℤ) (host : Text)
      → decide_extra s has_tls port (host_only host) ≡ accept
      → (has_tls ≡ true)
        × (host_policy external_host s (host_only host) ≡ true)
        × ((cp : CompiledPf) × (answer_extra s port host ≡ by_domain cp))
  unfolding decide_extra answer_extra
  decide_extra-accept has_tls port host h =
      let (cp, found, managed, tls) =
        splice_or_drop-accept has_tls (match_domain s (host_only host) port) h in
      (
        tls,
        managed-host_policy (host_only host) port cp found managed,
        (cp, rw found (simp managed)),
      )
