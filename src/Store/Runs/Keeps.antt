-- ===== src/Store/Runs/Keeps.antt =====
-- What the edits of one table of config.go leave alone.
use in_proxy.Common.{◌≡◌, refl, List, arith, Bool-cases, Result-cases, inl, inr, ok, err}
use in_proxy.Text.{Text}
use in_proxy.Config.{HttpSite, Domain, Forward, DnatRule, ParseUrl}
use in_proxy.Config.Validate.{validate_site, validate_domain, validate_forward, validate_dnat}
use in_proxy.Store.{
  Store, Io, written, write_fails, rename_fails, Outcome, persist, and_then, commit,
  commit-SameLists, fire_domain, fire_forwards, fire_dnat,
}
use in_proxy.Store.Table.{found, drop_all}
use in_proxy.Store.Sites
use in_proxy.Store.Domains
use in_proxy.Store.Forwards
use in_proxy.Store.Dnat
use in_proxy.Store.Sites.{place_site, upsert_site, delete_site}
use in_proxy.Store.Domains.{place_domain, upsert_domain, delete_domain, save_domains}
use in_proxy.Store.Forwards.{place_forward, upsert_forward, delete_forward, save_forwards}
use in_proxy.Store.Dnat.{place_dnat, upsert_dnat, delete_dnat, save_dnat}

abbrev pub KeepsButSites : Store → Store → Type 0
KeepsButSites s t = (t.forwards ≡ s.forwards) × (t.dnat ≡ s.dnat) × (t.domains ≡ s.domains)

abbrev pub KeepsButDomains : Store → Store → Type 0
KeepsButDomains s t = (t.sites ≡ s.sites) × (t.forwards ≡ s.forwards) × (t.dnat ≡ s.dnat)

abbrev pub KeepsButForwards : Store → Store → Type 0
KeepsButForwards s t = (t.sites ≡ s.sites) × (t.dnat ≡ s.dnat) × (t.domains ≡ s.domains)

abbrev pub KeepsButDnat : Store → Store → Type 0
KeepsButDnat s t = (t.sites ≡ s.sites) × (t.forwards ≡ s.forwards) × (t.domains ≡ s.domains)

save_forwards-keeps :
    (io : Io) (s : Store) (fs : List Forward) → KeepsButForwards s (save_forwards io s fs).1
unfolding persist fire_forwards
save_forwards-keeps written s fs = (ground arith, ground arith, ground arith)
save_forwards-keeps write_fails s fs = (refl, refl, refl)
save_forwards-keeps rename_fails s fs = (refl, refl, refl)

save_dnat-keeps : (io : Io) (s : Store) (ds : List DnatRule) → KeepsButDnat s (save_dnat io s ds).1
unfolding persist fire_dnat
save_dnat-keeps written s ds = (ground arith, ground arith, ground arith)
save_dnat-keeps write_fails s ds = (refl, refl, refl)
save_dnat-keeps rename_fails s ds = (refl, refl, refl)

pub upsert_forward-keeps :
    (old : Text) (f : Forward) (io : Io) (s : Store)
    → KeepsButForwards s (upsert_forward old f io s).1
unfolding upsert_forward
upsert_forward-keeps old f io s = elim (Result-cases (validate_forward f)) [
  | inr (e, bad) ↦ rw (bad, upsert_forward) (refl, refl, refl)
  | inl (g, good) ↦ elim (Result-cases (place_forward old g s.forwards)) [
    | inr (e, bad) ↦ rw (good, upsert_forward) (rw (bad, upsert_forward) (refl, refl, refl))
    | inl (fs, placed) ↦
        rw (good, upsert_forward) (rw (placed, upsert_forward) (save_forwards-keeps io s fs))
  ]
]

pub delete_forward-keeps :
    (name : Text) (io : Io) (s : Store) → KeepsButForwards s (delete_forward name io s).1
unfolding delete_forward
delete_forward-keeps name io s = elim (Bool-cases (found (Forwards.has_name name) s.forwards)) [
  | inr missing ↦ rw missing (refl, refl, refl)
  | inl there ↦ rw there (save_forwards-keeps io s (drop_all (Forwards.has_name name) s.forwards))
]

pub upsert_dnat-keeps :
    (old : Text) (d : DnatRule) (io : Io) (s : Store) → KeepsButDnat s (upsert_dnat old d io s).1
unfolding upsert_dnat
upsert_dnat-keeps old d io s = elim (Result-cases (validate_dnat d)) [
  | inr (e, bad) ↦ rw (bad, upsert_dnat) (refl, refl, refl)
  | inl (g, good) ↦ elim (Result-cases (place_dnat old g s.dnat)) [
    | inr (e, bad) ↦ rw (good, upsert_dnat) (rw (bad, upsert_dnat) (refl, refl, refl))
    | inl (ds, placed) ↦ rw (good, upsert_dnat) (rw (placed, upsert_dnat) (save_dnat-keeps io s ds))
  ]
]

pub delete_dnat-keeps :
    (name : Text) (io : Io) (s : Store) → KeepsButDnat s (delete_dnat name io s).1
unfolding delete_dnat
delete_dnat-keeps name io s = elim (Bool-cases (found (Dnat.has_name name) s.dnat)) [
  | inr missing ↦ rw missing (refl, refl, refl)
  | inl there ↦ rw there (save_dnat-keeps io s (drop_all (Dnat.has_name name) s.dnat))
]

module _ (parse_url : ParseUrl) where
  save_sites-keeps :
      (io : Io) (s : Store) (sts : List HttpSite)
      → KeepsButSites s (commit parse_url io (record s { sites = sts })).1
  save_sites-keeps io s sts =
      let (_, p, q, r) = commit-SameLists parse_url io (record s { sites = sts }) in (p, q, r)

  fired_keeps :
      (s : Store) (o : Outcome)
      → KeepsButDomains s o.1
      → KeepsButDomains s (and_then o λ t. (ok tt, fire_domain t)).1
  unfolding fire_domain
  fired_keeps s (ok u, t) h = (ground arith, ground arith, ground arith)
  fired_keeps s (err e, t) h = h

  save_domains-keeps :
      (io : Io) (s : Store) (ds : List Domain)
      → KeepsButDomains s (save_domains parse_url io s ds).1
  save_domains-keeps io s ds =
      let (p, q, r, _) = commit-SameLists parse_url io (record s { domains = ds }) in
      fired_keeps s (commit parse_url io (record s { domains = ds })) (p, q, r)

  pub upsert_site-keeps :
      (old : Text) (site : HttpSite) (io : Io) (s : Store)
      → KeepsButSites s (upsert_site parse_url old site io s).1
  unfolding upsert_site
  upsert_site-keeps old site io s = elim (Result-cases (validate_site parse_url site)) [
    | inr (e, bad) ↦ rw (bad, upsert_site) (refl, refl, refl)
    | inl (g, good) ↦ elim (Result-cases (place_site old g s.sites)) [
      | inr (e, bad) ↦ rw (good, upsert_site) (rw (bad, upsert_site) (refl, refl, refl))
      | inl (sts, placed) ↦
          rw (good, upsert_site) (rw (placed, upsert_site) (save_sites-keeps io s sts))
    ]
  ]

  pub delete_site-keeps :
      (host : Text) (io : Io) (s : Store) → KeepsButSites s (delete_site parse_url host io s).1
  unfolding delete_site
  delete_site-keeps host io s = elim (Bool-cases (found (Sites.has_host host) s.sites)) [
    | inr missing ↦ rw missing (refl, refl, refl)
    | inl there ↦ rw there (save_sites-keeps io s (drop_all (Sites.has_host host) s.sites))
  ]

  pub upsert_domain-keeps :
      (old : Text) (d : Domain) (io : Io) (s : Store)
      → KeepsButDomains s (upsert_domain parse_url old d io s).1
  unfolding upsert_domain
  upsert_domain-keeps old d io s = elim (Result-cases (validate_domain d)) [
    | inr (e, bad) ↦ rw (bad, upsert_domain) (refl, refl, refl)
    | inl (g, good) ↦ elim (Result-cases (place_domain old g s.domains)) [
      | inr (e, bad) ↦ rw (good, upsert_domain) (rw (bad, upsert_domain) (refl, refl, refl))
      | inl (ds, placed) ↦
          rw (good, upsert_domain) (rw (placed, upsert_domain) (save_domains-keeps io s ds))
    ]
  ]

  pub delete_domain-keeps :
      (host : Text) (io : Io) (s : Store) → KeepsButDomains s (delete_domain parse_url host io s).1
  unfolding delete_domain
  delete_domain-keeps host io s = elim (Bool-cases (found (Domains.has_host host) s.domains)) [
    | inr missing ↦ rw missing (refl, refl, refl)
    | inl there ↦ rw there (save_domains-keeps io s (drop_all (Domains.has_host host) s.domains))
  ]
