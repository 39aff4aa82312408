-- ===== src/Store/Told/Commits.antt =====
-- What the edits of config.go end with, where the file is written, and whom it tells.
use in_proxy.Common.{
  ◌≡◌, refl, sym, List, [], ◌∷◌, some, ok, err, Bool-cases, Option-cases, Result-cases, inl, inr,
  All,
}
use in_proxy.Text.{Text, to_lower, ◌==◌}
use in_proxy.Common.Dict.{insert}
use in_proxy.Config.{Route, HttpSite, Domain, Forward, DnatRule, ParseUrl}
use in_proxy.Config.Errors.{Error}
use in_proxy.Config.Validate.Sites.{IsNormalRoute, IsNormalSite}
use in_proxy.Proxy.{build_proxy, concurrency}
use in_proxy.Store.{
  Store, written, config_of, persist, with_sites, with_domains, recompile, commit, fire_domain,
  fire_forwards, fire_dnat,
}
use in_proxy.Store.Compile.{
  CompiledRoute, SiteMap, DomainMap, compile_route, compile_routes, compile_sites, compile_domains,
  longest_first,
}
use in_proxy.Store.Domains.{save_domains}
use in_proxy.Store.Forwards.{save_forwards}
use in_proxy.Store.Dnat.{save_dnat}
use in_proxy.Store.Told.{
  quiet, told_forwards, told_rules, told_domains, HasListeners, IsCurrent, TellsAll,
}

module _ (parse_url : ParseUrl) where
  compile_route-normal :
      (host : Text) (r : Route)
      → IsNormalRoute parse_url r
      → (c : CompiledRoute) × (compile_route parse_url host r ≡ ok c)
  unfolding compile_route build_proxy
  compile_route-normal host r v = elim (Option-cases (build_proxy parse_url r)) [
    | inl missing ↦ absurd (cc (rw (v.parses, build_proxy) at missing))
    | inr (p, good) ↦ (
      record { route = r; proxy = p; limiter = concurrency r.max_concurrent },
      rw (good, compile_route) refl,
    )
  ]

  compile_routes-normal :
      (host : Text) (rs : List Route)
      → All (IsNormalRoute parse_url) rs
      → (cs : List CompiledRoute) × (compile_routes parse_url host rs ≡ ok cs)
  unfolding compile_routes
  compile_routes-normal host [] h = ([], refl)
  compile_routes-normal host (r ∷ rs) (v, h) =
      let (c, here) = compile_route-normal host r v in
      let (cs, later) = compile_routes-normal host rs h in
      elim (Bool-cases r.enabled) [
        | inr off ↦ (cs, simp off later)
        | inl on ↦ (c ∷ cs, simp on (rw here (rw later refl)))
      ]

  -- Valid sites compile.
  pub compile_sites-normal :
      (m : SiteMap) (sts : List HttpSite)
      → All (IsNormalSite parse_url) sts
      → (m' : SiteMap) × (compile_sites parse_url m sts ≡ ok m')
  unfolding compile_sites
  compile_sites-normal m [] h = (m, refl)
  compile_sites-normal m (st ∷ sts) (v, h) =
      let (cs, here) = compile_routes-normal st.host st.routes v.routes in
      let (m', later) =
        compile_sites-normal (insert ◌==◌ (to_lower st.host) (longest_first cs) m) sts h in
      (m', rw here later)

  -- The store after a commit that was written.
  abbrev committed : Store → SiteMap → DomainMap → Store
  committed s m dom = record s { compiled_sites = m; compiled_dom = dom; disk = some (config_of s) }

  commit-compiled :
      (s : Store) (m : SiteMap) (dom : DomainMap)
      → compile_sites parse_url [] s.sites ≡ ok m
      → compile_domains parse_url [] s.domains ≡ ok dom
      → commit parse_url written s ≡ (ok tt, committed s m dom)
  unfolding commit recompile persist
  commit-compiled s m dom good fine = rw (good, with_sites) (rw (fine, with_domains) refl)

  commit-uncompiled :
      (s : Store) (m : SiteMap) (e : Error)
      → compile_sites parse_url [] s.sites ≡ ok m
      → compile_domains parse_url [] s.domains ≡ err e
      → commit parse_url written s ≡ (err e, record s { compiled_sites = m })
  unfolding commit recompile persist
  commit-uncompiled s m e good bad = rw (good, with_sites) (rw (bad, with_domains) refl)

  pub nothing_told : (s : Store) → IsCurrent parse_url s → HasListeners s → TellsAll parse_url s s
  nothing_told s v l = record { told = quiet refl refl refl refl; current = v; listened = l }

  -- UpsertSite and DeleteSite from the commit on.
  pub commit-TellsAll :
      (s : Store) (sts : List HttpSite)
      → All (IsNormalSite parse_url) sts
      → IsCurrent parse_url s
      → HasListeners s
      → TellsAll parse_url s (commit parse_url written (record s { sites = sts })).1
  commit-TellsAll s sts n v l =
      let t = record s { sites = sts } in
      let (m, good) = compile_sites-normal [] sts n in
      elim (Result-cases (compile_domains parse_url [] s.domains)) [
        | inl (dom, fine) ↦ rw (commit-compiled t m dom good fine) (record {
          told = quiet refl refl refl (sym (v dom fine));
          current = λ k h. cc;
          listened = record {
            forward_set = l.forward_set;
            dnat_set = l.dnat_set;
            domain_set = l.domain_set;
          };
        })
        | inr (e, bad) ↦ rw (commit-uncompiled t m e good bad) (record {
          told = quiet refl refl refl refl;
          current = λ k h. v k h;
          listened = record {
            forward_set = l.forward_set;
            dnat_set = l.dnat_set;
            domain_set = l.domain_set;
          };
        })
      ]

  -- UpsertDomain and DeleteDomain from the commit on.
  pub save_domains-TellsAll :
      (s : Store) (ds : List Domain)
      → All (IsNormalSite parse_url) s.sites
      → HasListeners s
      → TellsAll parse_url s (save_domains parse_url written s ds).1
  unfolding fire_domain
  save_domains-TellsAll s ds n l =
      let t = record s { domains = ds } in
      let (m, good) = compile_sites-normal [] s.sites n in
      elim (Result-cases (compile_domains parse_url [] ds)) [
        | inl (dom, fine) ↦ rw (commit-compiled t m dom good fine) (
            simp l.domain_set (record {
              told = told_domains refl refl refl;
              current = λ k h. cc;
              listened = record {
                forward_set = l.forward_set;
                dnat_set = l.dnat_set;
                domain_set = refl;
              };
            }))
        | inr (e, bad) ↦ rw (commit-uncompiled t m e good bad) (record {
          told = quiet refl refl refl refl;
          current = λ k h. cc;
          listened = record {
            forward_set = l.forward_set;
            dnat_set = l.dnat_set;
            domain_set = l.domain_set;
          };
        })
      ]

  pub save_forwards-TellsAll :
      (s : Store) (fs : List Forward)
      → IsCurrent parse_url s
      → HasListeners s
      → TellsAll parse_url s (save_forwards written s fs).1
  unfolding persist fire_forwards
  save_forwards-TellsAll s fs v l = simp l.forward_set (record {
    told = told_forwards refl refl refl;
    current = λ k h. v k h;
    listened = record { forward_set = refl; dnat_set = l.dnat_set; domain_set = l.domain_set };
  })

  pub save_dnat-TellsAll :
      (s : Store) (ds : List DnatRule)
      → IsCurrent parse_url s
      → HasListeners s
      → TellsAll parse_url s (save_dnat written s ds).1
  unfolding persist fire_dnat
  save_dnat-TellsAll s ds v l = simp l.dnat_set (record {
    told = told_rules refl refl refl;
    current = λ k h. v k h;
    listened = record { forward_set = l.forward_set; dnat_set = refl; domain_set = l.domain_set };
  })
