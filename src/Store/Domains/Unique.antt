-- ===== src/Store/Domains/Unique.antt =====
-- The table of domains of config.go, and what makes it valid: normal entries, with no two of one host.
use in_proxy.Common.{
  ◌≡◌, ◌≢◌, refl, sym, ◌∙◌, true, false, List, [], ◌∷◌, arith, All, All-weaken, Pairwise,
  Bool-cases, Result-cases, inl, inr, ok,
}
use in_proxy.Text.{Text, to_lower, equal_fold, equal_fold_iff}
use in_proxy.Config.{Domain, ParseUrl}
use in_proxy.Config.Errors.{exists_already, not_there}
use in_proxy.Config.Endpoints.{is_empty}
use in_proxy.Config.Validate.{validate_domain}
use in_proxy.Config.Validate.Domains.{IsNormalDomain, validate_domain-IsNormal}
use in_proxy.Store.{Store, Io, fire_domain, domains-commit}
use in_proxy.Store.Table.{found, drop_all}
use in_proxy.Store.Table.Laws.{found-none, All-drop_all, Pairwise-drop_all, place-keeps}
use in_proxy.Store.Domains.{has_host, place_domain, upsert_domain, delete_domain, save_domains}

-- Hosts are compared without regard to case.
abbrev pub Apart : Domain → Domain → Type 0
Apart d e = to_lower d.host ≢ to_lower e.host

Apart-sym : (d e : Domain) → Apart d e → Apart e d
Apart-sym d e n p = n (sym p)

same_host : (host : Text) (d : Domain) → has_host host d ≡ true → to_lower d.host ≡ to_lower host
same_host host d h = (equal_fold_iff d.host host).0 h

Apart-has_host :
    (old : Text) (d e : Domain) → Apart d e → has_host old d ≡ true → has_host old e ≡ false
Apart-has_host old d e n h = elim (Bool-cases (has_host old e)) [
  | inl same ↦ absurd (n (same_host old d h ∙ sym (same_host old e same)))
  | inr other ↦ other
]

other_host :
    (host : Text) (d e : Domain)
    → to_lower host ≡ to_lower d.host
    → has_host host e ≡ false
    → Apart d e
other_host host d e same h p =
    let hit : has_host host e ≡ true = (equal_fold_iff e.host host).1 (sym p ∙ sym same) in cc

other_hosts :
    (host : Text) (d : Domain) (ds : List Domain)
    → to_lower host ≡ to_lower d.host
    → All (λ e. has_host host e ≡ false) ds
    → All (λ e. Apart d e) ds
other_hosts host d ds same h =
    All-weaken (λ e. has_host host e ≡ false) (λ e. Apart d e) (λ e p. other_host host d e same p)
      ds h

kept_host :
    (old : Text) (d : Domain) (ds : List Domain)
    → equal_fold old d.host ≡ true
    → All (λ e. has_host old e ≡ false → Apart d e) ds
kept_host old d [] h = tt
kept_host old d (e ∷ es) h =
    (other_host old d e ((equal_fold_iff old d.host).0 h), kept_host old d es h)

pub record IsSound (ds : List Domain) : Type 0 where
  pub normal : All (IsNormalDomain) ds
  pub apart : Pairwise Apart ds

place_domain-IsSound :
    (old : Text) (d : Domain) (ds es : List Domain)
    → IsNormalDomain d
    → IsSound ds
    → place_domain old d ds ≡ ok es
    → IsSound es
unfolding place_domain
place_domain-IsSound old d ds es n v h =
    let (normal, apart) =
      place-keeps (IsNormalDomain) Apart Apart-sym (is_empty old) (equal_fold old d.host)
        (has_host d.host) (has_host old) (exists_already d.host) (not_there old) d ds es
        (Apart-has_host old) n
        (λ fresh. other_hosts d.host d ds refl (found-none (has_host d.host) ds fresh))
        (kept_host old d ds) (v.normal, v.apart) h in
    record { normal = normal; apart = apart }

module _ (parse_url : ParseUrl) where
  domains-save_domains :
      (io : Io) (s : Store) (ds : List Domain) → (save_domains parse_url io s ds).1.domains ≡ ds
  unfolding fire_domain
  domains-save_domains io s ds =
      ground (arith, domains-commit parse_url io (record s { domains = ds }))

  -- UpsertDomain keeps the table of domains sound, on every path, errors included.
  pub upsert_domain-IsSound :
      (old : Text) (d : Domain) (io : Io) (s : Store)
      → IsSound s.domains
      → IsSound (upsert_domain parse_url old d io s).1.domains
  unfolding upsert_domain
  upsert_domain-IsSound old d io s v = elim (Result-cases (validate_domain d)) [
    | inr (e, bad) ↦ rw (bad, upsert_domain) v
    | inl (g, good) ↦ elim (Result-cases (place_domain old g s.domains)) [
      | inr (e, bad) ↦ rw (good, upsert_domain) (rw (bad, upsert_domain) v)
      | inl (ds, placed) ↦
          rw (good, upsert_domain)
            (rw (placed, upsert_domain)
              (rw (domains-save_domains io s ds) (
                place_domain-IsSound old g s.domains ds (validate_domain-IsNormal d g good) v
                  placed)))
    ]
  ]

  pub delete_domain-IsSound :
      (host : Text) (io : Io) (s : Store)
      → IsSound s.domains
      → IsSound (delete_domain parse_url host io s).1.domains
  unfolding delete_domain
  delete_domain-IsSound host io s v = elim (Bool-cases (found (has_host host) s.domains)) [
    | inr missing ↦ rw missing v
    | inl there ↦ rw there (
        rw (domains-save_domains io s (drop_all (has_host host) s.domains)) (record {
          normal = All-drop_all (has_host host) IsNormalDomain s.domains v.normal;
          apart = Pairwise-drop_all (has_host host) Apart s.domains v.apart;
        }))
  ]
