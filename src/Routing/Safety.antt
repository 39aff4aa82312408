-- ===== src/Routing/Safety.antt =====
-- The proxies that the handlers of main.go and domains.go call, and the hosts that are passed through.
use in_proxy.Common.{
  ◌≡◌, ◌≢◌, refl, sym, ap, ◌∙◌, subst, Bool, true, false, Option, none, some, arith, Bool-cases,
  Option-cases, inl, inr, ◌⊎◌, ok,
}
use in_proxy.Common.Int.{ℤ, pos, int_eq}
use in_proxy.Text.{Text, codes, ◌==◌}
use in_proxy.Proxy.{TerminateProxy, build_terminate_proxy}
use in_proxy.Config.{PortForward, ParseUrl}
use in_proxy.Store.{Store}
use in_proxy.Store.Compile.{CompiledPf, forward_proxy, plain_backend, or_fail}
use in_proxy.Store.Match.{match_site, match_domain}
use in_proxy.Store.Match.Lookups.{last_in_domains, compile_domains-Matches}
use in_proxy.Store.Match.Ports.{DomainsCompiled}
use in_proxy.Routing.{
  host_only, by_domain, or_not_found, answer_https, answer_extra, or_base, answer_http, passthrough,
  splice_or_accept, decide_main,
}

module _ (parse_url : ParseUrl) where
  or_fail-some :
      (host : Text) (port : ℤ) (o p : Option TerminateProxy) → or_fail host port o ≡ ok p → p ≢ none
  unfolding or_fail
  or_fail-some host port none p h = cc
  or_fail-some host port (some q) p h = cc

  forward_proxy-some :
      (host : Text) (f : PortForward) (p : Option TerminateProxy)
      → forward_proxy parse_url host f ≡ ok p
      → f.manage_cert ≡ true
      → p ≢ none
  unfolding forward_proxy
  forward_proxy-some host f p h m = elim (Bool-cases (int_eq f.port (pos 80))) [
    | inl plain ↦
        or_fail-some host (pos 80) (build_terminate_proxy parse_url (plain_backend f)) p
          (rw plain at h)
    | inr other ↦
        or_fail-some host f.port (build_terminate_proxy parse_url f) p (simp m at (rw other at h))
  ]

  -- A domain's forward that MatchDomain gives and that manages a certificate has its proxy.
  match_domain-has_proxy :
      (s : Store) (host : Text) (port : ℤ) (cp : CompiledPf)
      → DomainsCompiled parse_url s
      → match_domain s host port ≡ some cp
      → cp.forward.manage_cert ≡ true
      → cp.proxy ≢ none
  unfolding match_domain
  match_domain-has_proxy s host port cp v h m =
      elim (Option-cases (last_in_domains host port s.domains)) [
        | inl absent ↦
            let missing : match_domain s host port ≡ none =
              rw absent at
                (compile_domains-Matches parse_url host port s.domains s.compiled_dom v) in
            absurd (ground arith)
        | inr ((d, f), there) ↦
            let (cp', found, _, fw, made) =
              rw there at
                (compile_domains-Matches parse_url host port s.domains s.compiled_dom v) in
            let same : cp' ≡ cp = ground arith in
            forward_proxy-some d f cp.proxy
              (subst (λ (c : CompiledPf). forward_proxy parse_url d f ≡ ok c.proxy) same made)
              (sym (ap (λ (g : PortForward). g.manage_cert) fw)
                ∙ ap (λ (c : CompiledPf). c.forward.manage_cert) same
                ∙ m)
      ]

  or_not_found-by_domain :
      (o : Option CompiledPf) (cp : CompiledPf)
      → or_not_found o ≡ by_domain cp
      → (o ≡ some cp) × (cp.forward.manage_cert ≡ true)
  unfolding or_not_found
  or_not_found-by_domain none cp h = cc
  or_not_found-by_domain (some c) cp h = elim (Bool-cases c.forward.manage_cert) [
    | inl managed ↦ let same : c ≡ cp = ground arith in (ap some same, rw same at managed)
    | inr plain ↦ absurd (ground arith)
  ]

  -- What the handlers of the main port and of the extra ports answer by a domain.
  pub answer_https-by_domain :
      (s : Store) (main_port : ℤ) (host path : Text) (cp : CompiledPf)
      → answer_https s main_port host path ≡ by_domain cp
      → (match_domain s (host_only host) main_port ≡ some cp) × (cp.forward.manage_cert ≡ true)
  unfolding answer_https
  answer_https-by_domain s main_port host path cp h =
      elim (Bool-cases (path == codes "/_healthz")) [
        | inl health ↦ absurd (ground arith)
        | inr other ↦ elim (Option-cases (match_site s (host_only host) path)) [
          | inr (c, found) ↦ absurd (ground arith)
          | inl none_there ↦
              or_not_found-by_domain (match_domain s (host_only host) main_port) cp (ground arith)
        ]
      ]

  or_base-by_domain :
      (o : Option CompiledPf) (cp : CompiledPf) → or_base o ≡ by_domain cp → cp.proxy ≢ none
  unfolding or_base
  or_base-by_domain none cp h = cc
  or_base-by_domain (some c) cp h = elim (Option-cases c.proxy) [
    | inl missing ↦ absurd (ground arith)
    | inr (p, there) ↦
        let same : c ≡ cp = ground arith in λ gone. cc (ap (λ (d : CompiledPf). d.proxy) same)
  ]

  -- Where the table of the domains is compiled from the configured domains: whichever listener
  -- answers a request by a domain, the proxy that it calls is there.
  pub served_has_proxy :
      (s : Store) (port : ℤ) (host path : Text) (cp : CompiledPf)
      → DomainsCompiled parse_url s
      → (answer_https s port host path ≡ by_domain cp)
        ⊎ ((answer_extra s port host ≡ by_domain cp) ⊎ (answer_http s port host ≡ by_domain cp))
      → cp.proxy ≢ none
  unfolding answer_extra answer_http
  served_has_proxy s port host path cp v (inl h) =
      let (found, managed) = answer_https-by_domain s port host path cp h in
      match_domain-has_proxy s (host_only host) port cp v found managed
  served_has_proxy s port host path cp v (inr (inl h)) =
      let (found, managed) = or_not_found-by_domain (match_domain s (host_only host) port) cp h in
      match_domain-has_proxy s (host_only host) port cp v found managed
  served_has_proxy s port host path cp v (inr (inr h)) =
      or_base-by_domain (match_domain s (host_only host) port) cp h

splice_or_accept-passthrough :
    (o : Option CompiledPf) (target : Text) (pp : Bool)
    → splice_or_accept o ≡ passthrough target pp
    → (cp : CompiledPf) × (o ≡ some cp)
      × (cp.forward.manage_cert ≡ false)
      × (cp.forward.target ≡ target)
      × (cp.forward.proxy_proto ≡ pp)
unfolding splice_or_accept
splice_or_accept-passthrough none target pp h = cc
splice_or_accept-passthrough (some cp) target pp h = elim (Bool-cases cp.forward.manage_cert) [
  | inl managed ↦ absurd (ground arith)
  | inr plain ↦
      let split : passthrough cp.forward.target cp.forward.proxy_proto ≡ passthrough target pp =
        ground arith in
      (cp, refl, plain, cc, cc)
]

-- A request for a host whose connections the main listener passes through is never answered there
-- by a domain.
pub passed_through_not_terminated :
    (parse_url : ParseUrl) (s : Store) (main_port : ℤ) (host path target : Text) (pp : Bool)
    (cp : CompiledPf)
    → decide_main s main_port (host_only host) ≡ passthrough target pp
    → answer_https s main_port host path ≢ by_domain cp
unfolding decide_main
passed_through_not_terminated parse_url s main_port host path target pp cp h k =
    let (c, found, plain, _, _) =
      splice_or_accept-passthrough (match_domain s (host_only host) main_port) target pp h in
    let (found', managed) = answer_https-by_domain parse_url s main_port host path cp k in
    let same : c ≡ cp = cc in
    let both : true ≡ false =
      sym managed ∙ sym (ap (λ (d : CompiledPf). d.forward.manage_cert) same) ∙ plain in
    cc
