-- ===== src/Store/Sites/Unique.antt =====
-- The table of sites of config.go, and what makes it valid: normal entries, with no two of one host.
use in_proxy.Common.{
  ◌≡◌, ◌≢◌, refl, sym, ◌∙◌, true, false, List, [], ◌∷◌, All, All-weaken, Pairwise, Bool-cases,
  Result-cases, inl, inr, ok,
}
use in_proxy.Text.{Text, to_lower, equal_fold, equal_fold_iff}
use in_proxy.Config.{HttpSite, ParseUrl}
use in_proxy.Config.Errors.{exists_already, not_there}
use in_proxy.Config.Endpoints.{is_empty}
use in_proxy.Config.Validate.{validate_site}
use in_proxy.Config.Validate.Sites.{IsNormalSite, validate_site-IsNormal}
use in_proxy.Store.{Store, Io, sites-commit}
use in_proxy.Store.Table.{found, drop_all}
use in_proxy.Store.Table.Laws.{found-none, All-drop_all, Pairwise-drop_all, place-keeps}
use in_proxy.Store.Sites.{has_host, place_site, upsert_site, delete_site}

-- Hosts are compared without regard to case.
abbrev pub Apart : HttpSite → HttpSite → Type 0
Apart d e = to_lower d.host ≢ to_lower e.host

Apart-sym : (d e : HttpSite) → Apart d e → Apart e d
Apart-sym d e n p = n (sym p)

same_host : (host : Text) (d : HttpSite) → has_host host d ≡ true → to_lower d.host ≡ to_lower host
same_host host d h = (equal_fold_iff d.host host).0 h

Apart-has_host :
    (old : Text) (d e : HttpSite) → Apart d e → has_host old d ≡ true → has_host old e ≡ false
Apart-has_host old d e n h = elim (Bool-cases (has_host old e)) [
  | inl same ↦ absurd (n (same_host old d h ∙ sym (same_host old e same)))
  | inr other ↦ other
]

other_host :
    (host : Text) (d e : HttpSite)
    → to_lower host ≡ to_lower d.host
    → has_host host e ≡ false
    → Apart d e
other_host host d e same h p =
    let hit : has_host host e ≡ true = (equal_fold_iff e.host host).1 (sym p ∙ sym same) in cc

other_hosts :
    (host : Text) (d : HttpSite) (ds : List HttpSite)
    → to_lower host ≡ to_lower d.host
    → All (λ e. has_host host e ≡ false) ds
    → All (λ e. Apart d e) ds
other_hosts host d ds same h =
    All-weaken (λ e. has_host host e ≡ false) (λ e. Apart d e) (λ e p. other_host host d e same p)
      ds h

kept_host :
    (old : Text) (d : HttpSite) (ds : List HttpSite)
    → equal_fold old d.host ≡ true
    → All (λ e. has_host old e ≡ false → Apart d e) ds
kept_host old d [] h = tt
kept_host old d (e ∷ es) h =
    (other_host old d e ((equal_fold_iff old d.host).0 h), kept_host old d es h)

module _ (parse_url : ParseUrl) where
  pub record IsSound (ds : List HttpSite) : Type 0 where
    pub normal : All (IsNormalSite parse_url) ds
    pub apart : Pairwise Apart ds

  place_site-IsSound :
      (old : Text) (d : HttpSite) (ds es : List HttpSite)
      → IsNormalSite parse_url d
      → IsSound ds
      → place_site old d ds ≡ ok es
      → IsSound es
  unfolding place_site
  place_site-IsSound old d ds es n v h =
      let (normal, apart) =
        place-keeps (IsNormalSite parse_url) Apart Apart-sym (is_empty old) (equal_fold old d.host)
          (has_host d.host) (has_host old) (exists_already d.host) (not_there old) d ds es
          (Apart-has_host old) n
          (λ fresh. other_hosts d.host d ds refl (found-none (has_host d.host) ds fresh))
          (kept_host old d ds) (v.normal, v.apart) h in
      record { normal = normal; apart = apart }

  -- UpsertSite keeps the table of sites sound, on every path, errors included.
  pub upsert_site-IsSound :
      (old : Text) (d : HttpSite) (io : Io) (s : Store)
      → IsSound s.sites
      → IsSound (upsert_site parse_url old d io s).1.sites
  unfolding upsert_site
  upsert_site-IsSound old d io s v = elim (Result-cases (validate_site parse_url d)) [
    | inr (e, bad) ↦ rw (bad, upsert_site) v
    | inl (g, good) ↦ elim (Result-cases (place_site old g s.sites)) [
      | inr (e, bad) ↦ rw (good, upsert_site) (rw (bad, upsert_site) v)
      | inl (ds, placed) ↦
          rw (good, upsert_site)
            (rw (placed, upsert_site)
              (rw (sites-commit parse_url io (record s { sites = ds })) (
                place_site-IsSound old g s.sites ds (validate_site-IsNormal parse_url d g good) v
                  placed)))
    ]
  ]

  pub delete_site-IsSound :
      (host : Text) (io : Io) (s : Store)
      → IsSound s.sites
      → IsSound (delete_site parse_url host io s).1.sites
  unfolding delete_site
  delete_site-IsSound host io s v = elim (Bool-cases (found (has_host host) s.sites)) [
    | inr missing ↦ rw missing v
    | inl there ↦ rw there (
        rw (sites-commit parse_url io (record s { sites = drop_all (has_host host) s.sites }))
          (record {
            normal = All-drop_all (has_host host) (IsNormalSite parse_url) s.sites v.normal;
            apart = Pairwise-drop_all (has_host host) Apart s.sites v.apart;
          }))
  ]
