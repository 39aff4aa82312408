-- ===== src/Store/Domains/Failures.antt =====
-- UpsertDomain and UpsertSite of config.go where recompileLocked fails, as it does for a domain whose
-- backend address is no host of a URL.
use in_proxy.Common.{◌≡◌, List, [], ok, err}
use in_proxy.Text.{Text}
use in_proxy.Config.{HttpSite, Domain, ParseUrl}
use in_proxy.Config.Validate.{validate_site, validate_domain}
use in_proxy.Config.Errors.{Error}
use in_proxy.Store.{Store, Io, with_sites, with_domains, commit}
use in_proxy.Store.Compile.{SiteMap, compile_sites, compile_domains}
use in_proxy.Store.Sites.{place_site, upsert_site}
use in_proxy.Store.Domains.{place_domain, upsert_domain}

module _ (parse_url : ParseUrl) where
  -- Sites compile and domains do not: the commit fails, with the new table of the sites in place.
  commit_fails :
      (io : Io) (s : Store) (m : SiteMap) (e : Error)
      → compile_sites parse_url [] s.sites ≡ ok m
      → compile_domains parse_url [] s.domains ≡ err e
      → commit parse_url io s ≡ (err e, record s { compiled_sites = m })
  unfolding commit
  commit_fails io s m e good bad = rw (good, with_sites) (rw (bad, with_domains))

  module _ (old : Text) (d g : Domain) (ds : List Domain) (io : Io) (s : Store) (m : SiteMap)
      (e : Error) (valid : validate_domain d ≡ ok g) (placed : place_domain old g s.domains ≡ ok ds)
      (sites_fine : compile_sites parse_url [] s.sites ≡ ok m)
      (domains_bad : compile_domains parse_url [] ds ≡ err e) where
    -- UpsertDomain of a valid domain that does not compile returns the error, with the domain in
    -- memory, the file and the listener as before.
    pub upsert_domain_unbuilt :
        upsert_domain parse_url old d io s ≡ (err e, record s { domains = ds; compiled_sites = m })
    unfolding upsert_domain
    upsert_domain_unbuilt =
        rw (valid, upsert_domain)
          (rw (placed, upsert_domain)
            (rw (commit_fails io (record s { domains = ds }) m e sites_fine domains_bad)))

    -- After an edit of a domain that is valid and placed, but does not compile beside sites that do,
    -- an edit of a site that is valid, placed and compiles fails with the error of the domain.
    pub upsert_site_poisoned :
        (old' : Text) (site st : HttpSite) (sts : List HttpSite) (io' : Io) (n : SiteMap)
        → validate_site parse_url site ≡ ok st
        → place_site old' st s.sites ≡ ok sts
        → compile_sites parse_url [] sts ≡ ok n
        → (upsert_site parse_url old' site io' (upsert_domain parse_url old d io s).1).0 ≡ err e
    unfolding upsert_site
    upsert_site_poisoned old' site st sts io' n valid' placed' sites_fine' =
        rw upsert_domain_unbuilt (
          rw (valid', upsert_site)
            (rw (placed', upsert_site)
              (rw (
                commit_fails io' (record s { sites = sts; domains = ds; compiled_sites = m }) n e
                  sites_fine' domains_bad))))
