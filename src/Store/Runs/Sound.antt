-- ===== src/Store/Runs/Sound.antt =====
-- Sequences of edits of the store of config.go: the four tables, and memory beside the file.
use in_proxy.Common.{◌≡◌, List, [], ◌∷◌, ok}
use in_proxy.Config.{ParseUrl}
use in_proxy.Store.{Store, Io}
use in_proxy.Store.Sites
use in_proxy.Store.Domains
use in_proxy.Store.Forwards
use in_proxy.Store.Dnat
use in_proxy.Store.Sites.{place_site, upsert_site, delete_site}
use in_proxy.Store.Domains.{place_domain, upsert_domain, delete_domain, save_domains}
use in_proxy.Store.Forwards.{place_forward, upsert_forward, delete_forward, save_forwards}
use in_proxy.Store.Dnat.{place_dnat, upsert_dnat, delete_dnat, save_dnat}
use in_proxy.Store.InStep.{IsCompiled, IsInStep}
use in_proxy.Store.InStep.Methods.{
  upsert_site-EndsInStep, delete_site-EndsInStep, upsert_forward-EndsInStep,
  delete_forward-EndsInStep, upsert_dnat-EndsInStep, delete_dnat-EndsInStep,
  upsert_domain-EndsInStep, delete_domain-EndsInStep,
}
use in_proxy.Store.Runs.{
  Edit, put_site, drop_site, put_forward, drop_forward, put_dnat, drop_dnat, put_domain,
  drop_domain, run, run_all,
}
use in_proxy.Store.Runs.Keeps.{
  upsert_forward-keeps, delete_forward-keeps, upsert_dnat-keeps, delete_dnat-keeps,
  upsert_site-keeps, delete_site-keeps, upsert_domain-keeps, delete_domain-keeps,
}

module _ (parse_url : ParseUrl) where
  -- All four tables are sound.
  pub record IsSound (s : Store) : Type 0 where
    pub sites : Sites.Unique.IsSound parse_url s.sites
    pub forwards : Forwards.Unique.IsSound s.forwards
    pub dnat : Dnat.Unique.IsSound s.dnat
    pub domains : Domains.Unique.IsSound s.domains

  pub run-IsSound : (e : Edit) (io : Io) (s : Store) → IsSound s → IsSound (run parse_url e io s).1
  unfolding run
  run-IsSound (put_site old site) io s v =
      let (f, d, m) = upsert_site-keeps parse_url old site io s in
      record {
        sites = Sites.Unique.upsert_site-IsSound parse_url old site io s v.sites;
        forwards = rw f v.forwards;
        dnat = rw d v.dnat;
        domains = rw m v.domains;
      }
  run-IsSound (drop_site host) io s v =
      let (f, d, m) = delete_site-keeps parse_url host io s in
      record {
        sites = Sites.Unique.delete_site-IsSound parse_url host io s v.sites;
        forwards = rw f v.forwards;
        dnat = rw d v.dnat;
        domains = rw m v.domains;
      }
  run-IsSound (put_forward old f) io s v =
      let (t, d, m) = upsert_forward-keeps old f io s in
      record {
        sites = rw t v.sites;
        forwards = Forwards.Unique.upsert_forward-IsSound old f io s v.forwards;
        dnat = rw d v.dnat;
        domains = rw m v.domains;
      }
  run-IsSound (drop_forward name) io s v =
      let (t, d, m) = delete_forward-keeps name io s in
      record {
        sites = rw t v.sites;
        forwards = Forwards.Unique.delete_forward-IsSound name io s v.forwards;
        dnat = rw d v.dnat;
        domains = rw m v.domains;
      }
  run-IsSound (put_dnat old r) io s v =
      let (t, f, m) = upsert_dnat-keeps old r io s in
      record {
        sites = rw t v.sites;
        forwards = rw f v.forwards;
        dnat = Dnat.Unique.upsert_dnat-IsSound old r io s v.dnat;
        domains = rw m v.domains;
      }
  run-IsSound (drop_dnat name) io s v =
      let (t, f, m) = delete_dnat-keeps name io s in
      record {
        sites = rw t v.sites;
        forwards = rw f v.forwards;
        dnat = Dnat.Unique.delete_dnat-IsSound name io s v.dnat;
        domains = rw m v.domains;
      }
  run-IsSound (put_domain old d) io s v =
      let (t, f, r) = upsert_domain-keeps parse_url old d io s in
      record {
        sites = rw t v.sites;
        forwards = rw f v.forwards;
        dnat = rw r v.dnat;
        domains = Domains.Unique.upsert_domain-IsSound parse_url old d io s v.domains;
      }
  run-IsSound (drop_domain host) io s v =
      let (t, f, r) = delete_domain-keeps parse_url host io s in
      record {
        sites = rw t v.sites;
        forwards = rw f v.forwards;
        dnat = rw r v.dnat;
        domains = Domains.Unique.delete_domain-IsSound parse_url host io s v.domains;
      }

  -- From a sound store, every sequence of edits, whatever fails on the way, ends in a sound store:
  -- all entries normal, hosts and names unique, and no two forwards or rules of one protocol at one
  -- address or public port.
  pub run_all-IsSound :
      (es : List (Edit × Io)) (s : Store) → IsSound s → IsSound (run_all parse_url es s)
  unfolding run_all
  run_all-IsSound [] s v = v
  run_all-IsSound ((e, io) ∷ es) s v =
      run_all-IsSound es (run parse_url e io s).1 (run-IsSound e io s v)

  -- An edit that returns no error, on a store whose tables are compiled, leaves the tables compiled
  -- from the lists, and the file equal to the lists.
  pub run-IsInStep :
      (e : Edit) (io : Io) (s : Store)
      → IsCompiled parse_url s
      → (run parse_url e io s).0 ≡ ok tt
      → IsInStep parse_url (run parse_url e io s).1
  unfolding run
  run-IsInStep (put_site old site) io s v = upsert_site-EndsInStep parse_url old site io s
  run-IsInStep (drop_site host) io s v = delete_site-EndsInStep parse_url host io s
  run-IsInStep (put_forward old f) io s v = upsert_forward-EndsInStep parse_url old f io s v
  run-IsInStep (drop_forward name) io s v = delete_forward-EndsInStep parse_url name io s v
  run-IsInStep (put_dnat old d) io s v = upsert_dnat-EndsInStep parse_url old d io s v
  run-IsInStep (drop_dnat name) io s v = delete_dnat-EndsInStep parse_url name io s v
  run-IsInStep (put_domain old d) io s v = upsert_domain-EndsInStep parse_url old d io s
  run-IsInStep (drop_domain host) io s v = delete_domain-EndsInStep parse_url host io s
