-- ===== src/Store/Domains.antt =====
-- UpsertDomain, DeleteDomain and ListDomains of config.go.
pub mod Unique
pub mod Failures
use in_proxy.Common.{
  ℕ, Bool, true, false, ◌&&◌, not, List, [], ◌∷◌, ◌++◌, Option, none, some, if◌then◌else◌, Result,
  ok, err,
}
use in_proxy.Text.{Text, equal_fold}
use in_proxy.Config.{Domain, ParseUrl}
use in_proxy.Config.Endpoints.{is_empty}
use in_proxy.Config.Validate.{validate_domain}
use in_proxy.Config.Errors.{Error, Fallible, exists_already, not_there}
use in_proxy.Store.{Store, Io, Outcome, and_then, commit, fire_domain}
use in_proxy.Store.Table.{found, drop_all, place}

abbrev pub has_host : Text → Domain → Bool
has_host host e = equal_fold e.host host

unfoldable pub place_domain : Text → Domain → List Domain → Fallible (List Domain)
unfolding place
place_domain old d =
    place (is_empty old) (equal_fold old d.host) (has_host d.host) (has_host old)
      (exists_already d.host) (not_there old) d

module _ (parse_url : ParseUrl) where
  abbrev pub save_domains : Io → Store → List Domain → Outcome
  save_domains io s ds =
      and_then (commit parse_url io (record s { domains = ds })) λ t. (ok tt, fire_domain t)

  unfoldable pub upsert_domain : Text → Domain → Io → Store → Outcome
  unfolding place_domain commit fire_domain
  upsert_domain old d io s = elim (validate_domain d) [
    | err e ↦ (err e, s)
    | ok g ↦ elim (place_domain old g s.domains) [
      | err e ↦ (err e, s)
      | ok ds ↦ save_domains io s ds
    ]
  ]

  unfoldable pub delete_domain : Text → Io → Store → Outcome
  unfolding commit fire_domain found drop_all
  delete_domain host io s =
      if found (has_host host) s.domains
      then save_domains io s (drop_all (has_host host) s.domains)
      else (err (not_there host), s)

pub list_domains : Store → List Domain
list_domains s = s.domains
