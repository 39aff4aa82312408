-- ===== src/Store/Sites.antt =====
-- UpsertSite, DeleteSite and ListSites of config.go.
pub mod Unique
use in_proxy.Common.{
  ℕ, Bool, true, false, ◌&&◌, not, List, [], ◌∷◌, ◌++◌, Option, none, some, if◌then◌else◌, Result,
  ok, err,
}
use in_proxy.Text.{Text, equal_fold}
use in_proxy.Config.{HttpSite, ParseUrl}
use in_proxy.Config.Endpoints.{is_empty}
use in_proxy.Config.Validate.{validate_site}
use in_proxy.Config.Errors.{Error, Fallible, exists_already, not_there}
use in_proxy.Store.{Store, Io, Outcome, commit}
use in_proxy.Store.Table.{found, drop_all, place}

abbrev pub has_host : Text → HttpSite → Bool
has_host host e = equal_fold e.host host

unfoldable pub place_site : Text → HttpSite → List HttpSite → Fallible (List HttpSite)
unfolding place
place_site old site =
    place (is_empty old) (equal_fold old site.host) (has_host site.host) (has_host old)
      (exists_already site.host) (not_there old) site

module _ (parse_url : ParseUrl) where
  unfoldable pub upsert_site : Text → HttpSite → Io → Store → Outcome
  unfolding place_site commit
  upsert_site old site io s = elim (validate_site parse_url site) [
    | err e ↦ (err e, s)
    | ok st ↦ elim (place_site old st s.sites) [
      | err e ↦ (err e, s)
      | ok sts ↦ commit parse_url io (record s { sites = sts })
    ]
  ]

  unfoldable pub delete_site : Text → Io → Store → Outcome
  unfolding commit found drop_all
  delete_site host io s =
      if found (has_host host) s.sites
      then commit parse_url io (record s { sites = drop_all (has_host host) s.sites })
      else (err (not_there host), s)

pub list_sites : Store → List HttpSite
list_sites s = s.sites
