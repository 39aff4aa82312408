-- ===== src/Store/Runs.antt =====
-- The methods of the store that edit it, as one alphabet, and sequences of them with what the file
-- system does at each. The lock makes any interleaving of the callers such a sequence.
pub mod Keeps
pub mod Sound
use in_proxy.Common.{List, [], ◌∷◌}
use in_proxy.Text.{Text}
use in_proxy.Config.{HttpSite, Forward, DnatRule, Domain, ParseUrl}
use in_proxy.Store.{Store, Io, Outcome}
use in_proxy.Store.Sites.{upsert_site, delete_site}
use in_proxy.Store.Forwards.{upsert_forward, delete_forward}
use in_proxy.Store.Dnat.{upsert_dnat, delete_dnat}
use in_proxy.Store.Domains.{upsert_domain, delete_domain}

pub data Edit : Type 0 where
  put_site : Text → HttpSite → Edit
  drop_site : Text → Edit
  put_forward : Text → Forward → Edit
  drop_forward : Text → Edit
  put_dnat : Text → DnatRule → Edit
  drop_dnat : Text → Edit
  put_domain : Text → Domain → Edit
  drop_domain : Text → Edit

module _ (parse_url : ParseUrl) where
  unfoldable pub run : Edit → Io → Store → Outcome
  run (put_site old site) = upsert_site parse_url old site
  run (drop_site host) = delete_site parse_url host
  run (put_forward old f) = upsert_forward old f
  run (drop_forward name) = delete_forward name
  run (put_dnat old d) = upsert_dnat old d
  run (drop_dnat name) = delete_dnat name
  run (put_domain old d) = upsert_domain parse_url old d
  run (drop_domain host) = delete_domain parse_url host

  unfoldable pub run_all : List (Edit × Io) → Store → Store
  unfolding run
  run_all [] s = s
  run_all ((e, io) ∷ es) s = run_all es (run e io s).1
