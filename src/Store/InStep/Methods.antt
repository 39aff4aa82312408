-- ===== src/Store/InStep/Methods.antt =====
-- The methods of the store of config.go, and whether they leave it in step.
use in_proxy.Common.{◌≡◌, refl, List, arith, Bool-cases, Result-cases, inl, inr, ok, err}
use in_proxy.Text.{Text}
use in_proxy.Config.{HttpSite, Domain, Forward, DnatRule, ParseUrl}
use in_proxy.Config.Validate.{validate_site, validate_domain, validate_forward, validate_dnat}
use in_proxy.Store.{
  Store, Io, written, write_fails, rename_fails, Outcome, persist, and_then, commit, fire_domain,
  fire_forwards, fire_dnat,
}
use in_proxy.Store.Sites
use in_proxy.Store.Domains
use in_proxy.Store.Forwards
use in_proxy.Store.Dnat
use in_proxy.Store.Table.{found, drop_all}
use in_proxy.Store.Sites.{place_site, upsert_site, delete_site}
use in_proxy.Store.Domains.{place_domain, upsert_domain, delete_domain, save_domains}
use in_proxy.Store.Forwards.{place_forward, upsert_forward, delete_forward, save_forwards}
use in_proxy.Store.Dnat.{place_dnat, upsert_dnat, delete_dnat, save_dnat}
use in_proxy.Store.InStep.{IsCompiled, IsInStep, commit-IsInStep, fire_domain-IsInStep}

pair_ok : (o : Outcome) → o.0 ≡ ok tt → o ≡ (ok tt, o.1)
pair_ok (r, t) h = ground arith

module _ (parse_url : ParseUrl) where
  abbrev EndsInStep : Outcome → Type 0
  EndsInStep o = o.0 ≡ ok tt → IsInStep parse_url o.1

  commit-EndsInStep : (io : Io) (s : Store) → EndsInStep (commit parse_url io s)
  commit-EndsInStep io s h =
      commit-IsInStep parse_url io s (commit parse_url io s).1 (pair_ok (commit parse_url io s) h)

  and_fire-EndsInStep :
      (o : Outcome) → EndsInStep o → EndsInStep (and_then o λ t. (ok tt, fire_domain t))
  and_fire-EndsInStep (ok u, t) v h = fire_domain-IsInStep parse_url t (v refl)
  and_fire-EndsInStep (err e, t) v h = cc

  -- UpsertSite and DeleteSite.
  pub upsert_site-EndsInStep :
      (old : Text) (site : HttpSite) (io : Io) (s : Store)
      → (upsert_site parse_url old site io s).0 ≡ ok tt
      → IsInStep parse_url (upsert_site parse_url old site io s).1
  unfolding upsert_site
  upsert_site-EndsInStep old site io s = elim (Result-cases (validate_site parse_url site)) [
    | inr (e, bad) ↦ rw (bad, upsert_site) (λ h. cc)
    | inl (g, good) ↦ elim (Result-cases (place_site old g s.sites)) [
      | inr (e, bad) ↦ rw (good, upsert_site) (rw (bad, upsert_site) (λ h. cc))
      | inl (sts, placed) ↦
          rw (good, upsert_site)
            (rw (placed, upsert_site) (commit-EndsInStep io (record s { sites = sts })))
    ]
  ]

  pub delete_site-EndsInStep :
      (host : Text) (io : Io) (s : Store)
      → (delete_site parse_url host io s).0 ≡ ok tt
      → IsInStep parse_url (delete_site parse_url host io s).1
  unfolding delete_site
  delete_site-EndsInStep host io s = elim (Bool-cases (found (Sites.has_host host) s.sites)) [
    | inr missing ↦ rw missing (λ h. cc)
    | inl there ↦
        rw there
          (commit-EndsInStep io (record s { sites = drop_all (Sites.has_host host) s.sites }))
  ]

  save_domains-EndsInStep :
      (io : Io) (s : Store) (ds : List Domain) → EndsInStep (save_domains parse_url io s ds)
  save_domains-EndsInStep io s ds =
      and_fire-EndsInStep (commit parse_url io (record s { domains = ds }))
        (commit-EndsInStep io (record s { domains = ds }))

  -- UpsertDomain and DeleteDomain.
  pub upsert_domain-EndsInStep :
      (old : Text) (d : Domain) (io : Io) (s : Store)
      → (upsert_domain parse_url old d io s).0 ≡ ok tt
      → IsInStep parse_url (upsert_domain parse_url old d io s).1
  unfolding upsert_domain
  upsert_domain-EndsInStep old d io s = elim (Result-cases (validate_domain d)) [
    | inr (e, bad) ↦ rw (bad, upsert_domain) (λ h. cc)
    | inl (g, good) ↦ elim (Result-cases (place_domain old g s.domains)) [
      | inr (e, bad) ↦ rw (good, upsert_domain) (rw (bad, upsert_domain) (λ h. cc))
      | inl (ds, placed) ↦
          rw (good, upsert_domain) (rw (placed, upsert_domain) (save_domains-EndsInStep io s ds))
    ]
  ]

  pub delete_domain-EndsInStep :
      (host : Text) (io : Io) (s : Store)
      → (delete_domain parse_url host io s).0 ≡ ok tt
      → IsInStep parse_url (delete_domain parse_url host io s).1
  unfolding delete_domain
  delete_domain-EndsInStep host io s = elim (Bool-cases (found (Domains.has_host host) s.domains)) [
    | inr missing ↦ rw missing (λ h. cc)
    | inl there ↦
        rw there (save_domains-EndsInStep io s (drop_all (Domains.has_host host) s.domains))
  ]

  -- The tables do not depend on forwards and rules, so these methods keep them compiled.
  save_forwards-EndsInStep :
      (io : Io) (s : Store) (fs : List Forward)
      → IsCompiled parse_url s
      → EndsInStep (save_forwards io s fs)
  unfolding persist fire_forwards
  save_forwards-EndsInStep written s fs v h = elim (Bool-cases s.on_forward) [
    | inl on ↦
        simp on
          (record { compiled = record { sites = v.sites; domains = v.domains }; on_disk = refl })
    | inr off ↦
        simp off
          (record { compiled = record { sites = v.sites; domains = v.domains }; on_disk = refl })
  ]
  save_forwards-EndsInStep write_fails s fs v h = cc
  save_forwards-EndsInStep rename_fails s fs v h = cc

  save_dnat-EndsInStep :
      (io : Io) (s : Store) (ds : List DnatRule)
      → IsCompiled parse_url s
      → EndsInStep (save_dnat io s ds)
  unfolding persist fire_dnat
  save_dnat-EndsInStep written s ds v h = elim (Bool-cases s.on_dnat) [
    | inl on ↦
        simp on
          (record { compiled = record { sites = v.sites; domains = v.domains }; on_disk = refl })
    | inr off ↦
        simp off
          (record { compiled = record { sites = v.sites; domains = v.domains }; on_disk = refl })
  ]
  save_dnat-EndsInStep write_fails s ds v h = cc
  save_dnat-EndsInStep rename_fails s ds v h = cc

  pub upsert_forward-EndsInStep :
      (old : Text) (f : Forward) (io : Io) (s : Store)
      → IsCompiled parse_url s
      → (upsert_forward old f io s).0 ≡ ok tt
      → IsInStep parse_url (upsert_forward old f io s).1
  unfolding upsert_forward
  upsert_forward-EndsInStep old f io s v = elim (Result-cases (validate_forward f)) [
    | inr (e, bad) ↦ rw (bad, upsert_forward) (λ h. cc)
    | inl (g, good) ↦ elim (Result-cases (place_forward old g s.forwards)) [
      | inr (e, bad) ↦ rw (good, upsert_forward) (rw (bad, upsert_forward) (λ h. cc))
      | inl (fs, placed) ↦
          rw (good, upsert_forward)
            (rw (placed, upsert_forward) (save_forwards-EndsInStep io s fs v))
    ]
  ]

  pub delete_forward-EndsInStep :
      (name : Text) (io : Io) (s : Store)
      → IsCompiled parse_url s
      → (delete_forward name io s).0 ≡ ok tt
      → IsInStep parse_url (delete_forward name io s).1
  unfolding delete_forward
  delete_forward-EndsInStep name io s v =
      elim (Bool-cases (found (Forwards.has_name name) s.forwards)) [
        | inr missing ↦ rw missing (λ h. cc)
        | inl there ↦
            rw there
              (save_forwards-EndsInStep io s (drop_all (Forwards.has_name name) s.forwards) v)
      ]

  pub upsert_dnat-EndsInStep :
      (old : Text) (d : DnatRule) (io : Io) (s : Store)
      → IsCompiled parse_url s
      → (upsert_dnat old d io s).0 ≡ ok tt
      → IsInStep parse_url (upsert_dnat old d io s).1
  unfolding upsert_dnat
  upsert_dnat-EndsInStep old d io s v = elim (Result-cases (validate_dnat d)) [
    | inr (e, bad) ↦ rw (bad, upsert_dnat) (λ h. cc)
    | inl (g, good) ↦ elim (Result-cases (place_dnat old g s.dnat)) [
      | inr (e, bad) ↦ rw (good, upsert_dnat) (rw (bad, upsert_dnat) (λ h. cc))
      | inl (ds, placed) ↦
          rw (good, upsert_dnat) (rw (placed, upsert_dnat) (save_dnat-EndsInStep io s ds v))
    ]
  ]

  pub delete_dnat-EndsInStep :
      (name : Text) (io : Io) (s : Store)
      → IsCompiled parse_url s
      → (delete_dnat name io s).0 ≡ ok tt
      → IsInStep parse_url (delete_dnat name io s).1
  unfolding delete_dnat
  delete_dnat-EndsInStep name io s v = elim (Bool-cases (found (Dnat.has_name name) s.dnat)) [
    | inr missing ↦ rw missing (λ h. cc)
    | inl there ↦ rw there (save_dnat-EndsInStep io s (drop_all (Dnat.has_name name) s.dnat) v)
  ]
