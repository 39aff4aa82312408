-- ===== src/Store/Told/Methods.antt =====
-- The methods of the store of config.go with a file that is written, and whom they tell.
use in_proxy.Common.{◌≡◌, Bool-cases, Result-cases, inl, inr, All}
use in_proxy.Text.{Text}
use in_proxy.Config.{HttpSite, Domain, Forward, DnatRule, ParseUrl}
use in_proxy.Config.Validate.{validate_site, validate_domain, validate_forward, validate_dnat}
use in_proxy.Config.Validate.Sites.{IsNormalSite}
use in_proxy.Store.{Store, written, sites-commit}
use in_proxy.Store.Table.Laws.{All-drop_all}
use in_proxy.Store.Sites
use in_proxy.Store.Domains
use in_proxy.Store.Forwards
use in_proxy.Store.Dnat
use in_proxy.Store.Table.{found, drop_all}
use in_proxy.Store.Sites.{place_site, upsert_site, delete_site}
use in_proxy.Store.Domains.{place_domain, upsert_domain, delete_domain, save_domains}
use in_proxy.Store.Forwards.{place_forward, upsert_forward, delete_forward, save_forwards}
use in_proxy.Store.Dnat.{place_dnat, upsert_dnat, delete_dnat, save_dnat}
use in_proxy.Store.Told.{HasListeners, IsCurrent, TellsAll}
use in_proxy.Store.Told.Commits.{
  nothing_told, commit-TellsAll, save_domains-TellsAll, save_forwards-TellsAll, save_dnat-TellsAll,
}

module _ (parse_url : ParseUrl) where
  -- The methods.
  pub upsert_site-TellsAll :
      (old : Text) (site : HttpSite) (s : Store)
      → Sites.Unique.IsSound parse_url s.sites
      → IsCurrent parse_url s
      → HasListeners s
      → TellsAll parse_url s (upsert_site parse_url old site written s).1
  unfolding upsert_site
  upsert_site-TellsAll old site s n v l =
      let after = Sites.Unique.upsert_site-IsSound parse_url old site written s n in
      elim (Result-cases (validate_site parse_url site)) [
        | inr (e, bad) ↦ rw (bad, upsert_site) (nothing_told parse_url s v l)
        | inl (g, good) ↦ elim (Result-cases (place_site old g s.sites)) [
          | inr (e, bad) ↦
              rw (good, upsert_site) (rw (bad, upsert_site) (nothing_told parse_url s v l))
          | inl (sts, placed) ↦
              let same : (upsert_site parse_url old site written s).1.sites ≡ sts =
                rw (good, upsert_site)
                  (rw (placed, upsert_site)
                    (sites-commit parse_url written (record s { sites = sts }))) in
              let normal : All (IsNormalSite parse_url) sts = rw same at after.normal in
              rw (good, upsert_site)
                (rw (placed, upsert_site) (commit-TellsAll parse_url s sts normal v l))
        ]
      ]

  pub delete_site-TellsAll :
      (host : Text) (s : Store)
      → Sites.Unique.IsSound parse_url s.sites
      → IsCurrent parse_url s
      → HasListeners s
      → TellsAll parse_url s (delete_site parse_url host written s).1
  unfolding delete_site
  delete_site-TellsAll host s n v l = elim (Bool-cases (found (Sites.has_host host) s.sites)) [
    | inr missing ↦ rw missing (nothing_told parse_url s v l)
    | inl there ↦
        let sts = drop_all (Sites.has_host host) s.sites in
        let normal = All-drop_all (Sites.has_host host) (IsNormalSite parse_url) s.sites n.normal in
        rw there (commit-TellsAll parse_url s sts normal v l)
  ]

  pub upsert_domain-TellsAll :
      (old : Text) (d : Domain) (s : Store)
      → Sites.Unique.IsSound parse_url s.sites
      → IsCurrent parse_url s
      → HasListeners s
      → TellsAll parse_url s (upsert_domain parse_url old d written s).1
  unfolding upsert_domain
  upsert_domain-TellsAll old d s n v l = elim (Result-cases (validate_domain d)) [
    | inr (e, bad) ↦ rw (bad, upsert_domain) (nothing_told parse_url s v l)
    | inl (g, good) ↦ elim (Result-cases (place_domain old g s.domains)) [
      | inr (e, bad) ↦
          rw (good, upsert_domain) (rw (bad, upsert_domain) (nothing_told parse_url s v l))
      | inl (ds, placed) ↦
          rw (good, upsert_domain)
            (rw (placed, upsert_domain) (save_domains-TellsAll parse_url s ds n.normal l))
    ]
  ]

  pub delete_domain-TellsAll :
      (host : Text) (s : Store)
      → Sites.Unique.IsSound parse_url s.sites
      → IsCurrent parse_url s
      → HasListeners s
      → TellsAll parse_url s (delete_domain parse_url host written s).1
  unfolding delete_domain
  delete_domain-TellsAll host s n v l =
      elim (Bool-cases (found (Domains.has_host host) s.domains)) [
        | inr missing ↦ rw missing (nothing_told parse_url s v l)
        | inl there ↦ rw there (
            save_domains-TellsAll parse_url s (drop_all (Domains.has_host host) s.domains) n.normal
              l)
      ]

  pub upsert_forward-TellsAll :
      (old : Text) (f : Forward) (s : Store)
      → IsCurrent parse_url s
      → HasListeners s
      → TellsAll parse_url s (upsert_forward old f written s).1
  unfolding upsert_forward
  upsert_forward-TellsAll old f s v l = elim (Result-cases (validate_forward f)) [
    | inr (e, bad) ↦ rw (bad, upsert_forward) (nothing_told parse_url s v l)
    | inl (g, good) ↦ elim (Result-cases (place_forward old g s.forwards)) [
      | inr (e, bad) ↦
          rw (good, upsert_forward) (rw (bad, upsert_forward) (nothing_told parse_url s v l))
      | inl (fs, placed) ↦
          rw (good, upsert_forward)
            (rw (placed, upsert_forward) (save_forwards-TellsAll parse_url s fs v l))
    ]
  ]

  pub delete_forward-TellsAll :
      (name : Text) (s : Store)
      → IsCurrent parse_url s
      → HasListeners s
      → TellsAll parse_url s (delete_forward name written s).1
  unfolding delete_forward
  delete_forward-TellsAll name s v l =
      elim (Bool-cases (found (Forwards.has_name name) s.forwards)) [
        | inr missing ↦ rw missing (nothing_told parse_url s v l)
        | inl there ↦
            rw there (
              save_forwards-TellsAll parse_url s (drop_all (Forwards.has_name name) s.forwards) v l)
      ]

  pub upsert_dnat-TellsAll :
      (old : Text) (d : DnatRule) (s : Store)
      → IsCurrent parse_url s
      → HasListeners s
      → TellsAll parse_url s (upsert_dnat old d written s).1
  unfolding upsert_dnat
  upsert_dnat-TellsAll old d s v l = elim (Result-cases (validate_dnat d)) [
    | inr (e, bad) ↦ rw (bad, upsert_dnat) (nothing_told parse_url s v l)
    | inl (g, good) ↦ elim (Result-cases (place_dnat old g s.dnat)) [
      | inr (e, bad) ↦ rw (good, upsert_dnat) (rw (bad, upsert_dnat) (nothing_told parse_url s v l))
      | inl (ds, placed) ↦
          rw (good, upsert_dnat) (rw (placed, upsert_dnat) (save_dnat-TellsAll parse_url s ds v l))
    ]
  ]

  pub delete_dnat-TellsAll :
      (name : Text) (s : Store)
      → IsCurrent parse_url s
      → HasListeners s
      → TellsAll parse_url s (delete_dnat name written s).1
  unfolding delete_dnat
  delete_dnat-TellsAll name s v l = elim (Bool-cases (found (Dnat.has_name name) s.dnat)) [
    | inr missing ↦ rw missing (nothing_told parse_url s v l)
    | inl there ↦
        rw there (save_dnat-TellsAll parse_url s (drop_all (Dnat.has_name name) s.dnat) v l)
  ]
