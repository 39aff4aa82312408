-- ===== src/Store/Load/Start.antt =====
-- The store that NewStore of config.go returns, also for a file of the first release.
use in_proxy.Common.{
  ℕ, ◌≡◌, ◌≢◌, refl, sym, ap, ◌∙◌, Bool, true, false, List, [], ◌∷◌, none, some, ok, err, arith,
  Bool-cases, Option-cases, inl, inr, In,
}
use in_proxy.Text.{Text, codes, eq_refl, has_prefix, to_lower}
use in_proxy.Text.Trim.{trim_space}
use in_proxy.Config.{Route, HttpSite, ConfigFile, ParseUrl}
use in_proxy.Config.Endpoints.{is_empty}
use in_proxy.Store.{Store, Io, Outcome, persist, recompile, recompile-SameLists}
use in_proxy.Store.InStep.{IsCompiled, IsInStep, recompile-IsCompiled}
use in_proxy.Store.Runs.{Edit, run}
use in_proxy.Store.Runs.Sound.{run-IsInStep}
use in_proxy.Store.Match.{covers, match_site}
use in_proxy.Store.Match.Longest.{match_site_complete}
use in_proxy.Store.Compile.Routes.{last_site}
use in_proxy.Store.Load.{
  Json, File, absent, broken, content, none_of, migrate_routes, parse_config, store_of,
  empty_config, finish, compiled_after, load, new_store,
}

module _ (parse_url : ParseUrl) (json : Json) where
  finish-ok : (o : Outcome) (t : Store) → finish o ≡ ok t → o ≡ (ok tt, t)
  finish-ok (err e, s) t h = cc
  finish-ok (ok u, s) t h = let same : s ≡ t = ground arith in ap (λ (r : Store). (ok tt, r)) same

  finish-IsCompiled : (s t : Store) → finish (recompile parse_url s) ≡ ok t → IsCompiled parse_url t
  finish-IsCompiled s t h =
      recompile-IsCompiled parse_url s t (finish-ok (recompile parse_url s) t h)

  compiled_after-IsCompiled :
      (o : Outcome) (t : Store) → compiled_after parse_url json o ≡ ok t → IsCompiled parse_url t
  compiled_after-IsCompiled (err e, s) t h = cc
  compiled_after-IsCompiled (ok u, s) t h = finish-IsCompiled s t h

  load-IsCompiled :
      (host : Text) (file : File) (io : Io) (t : Store)
      → load parse_url json host file io ≡ ok t
      → IsCompiled parse_url t
  unfolding load
  load-IsCompiled host absent io t h =
      compiled_after-IsCompiled (persist io (store_of empty_config)) t h
  load-IsCompiled host broken io t h = cc
  load-IsCompiled host (content []) io t h = finish-IsCompiled (store_of empty_config) t h
  load-IsCompiled host (content (c ∷ text)) io t h =
      elim (Option-cases (parse_config parse_url json (c ∷ text) host)) [
        | inl bad ↦ absurd (ground arith)
        | inr (config, good) ↦ finish-IsCompiled (store_of config) t (rw (good, load) at h)
      ]

  new_store-load :
      (has_dir : Bool) (host : Text) (file : File) (io : Io) (s : Store)
      → new_store parse_url json has_dir host file io ≡ ok s
      → load parse_url json host file io ≡ ok s
  unfolding new_store
  new_store-load has_dir host file io s h = elim (Bool-cases has_dir) [
    | inl there ↦ rw there at h
    | inr missing ↦ absurd (ground arith)
  ]

  -- A store that NewStore returns has its tables compiled, so that an edit of it that returns no error
  -- leaves memory, tables and file in step.
  pub new_store-IsCompiled :
      (has_dir : Bool) (host : Text) (file : File) (io : Io) (s : Store)
      → new_store parse_url json has_dir host file io ≡ ok s
      → IsCompiled parse_url s
        × ((e : Edit) (io' : Io)
            → (run parse_url e io' s).0 ≡ ok tt
            → IsInStep parse_url (run parse_url e io' s).1)
  new_store-IsCompiled has_dir host file io s h =
      let v = load-IsCompiled host file io s (new_store-load has_dir host file io s h) in
      (v, λ e io' k. run-IsInStep parse_url e io' s v k)

  finish-sites : (s t : Store) → finish (recompile parse_url s) ≡ ok t → t.sites ≡ s.sites
  finish-sites s t h =
      sym (ap (λ (o : Outcome). o.1.sites) (finish-ok (recompile parse_url s) t h))
      ∙ (recompile-SameLists parse_url s).0

  some_routes : (r : Route) (rs : List Route) → In r rs → none_of rs ≡ false
  some_routes r [] i = absurd i
  some_routes r (q ∷ rs) i = refl

  abbrev legacy_site : Text → List Route → HttpSite
  legacy_site host routes = record { host = host; description = []; routes = routes }

  abbrev legacy_config : List HttpSite → ConfigFile
  legacy_config sites = record { sites = sites; forwards = []; dnat = []; domains = [] }

  parse_config-array :
      (text host : Text) (routes : List Route)
      → has_prefix (trim_space text) (codes "[") ≡ true
      → json.array text ≡ some routes
      → parse_config parse_url json text host ≡ some (legacy_config (migrate_routes routes host))
  unfolding parse_config
  parse_config-array text host routes is_array decoded =
      rw (is_array, parse_config) (rw decoded refl)

  migrate_routes-some :
      (routes : List Route) (host : Text)
      → none_of routes ≡ false
      → is_empty host ≡ false
      → migrate_routes routes host ≡ legacy_site host routes ∷ []
  unfolding migrate_routes
  migrate_routes-some routes host h k = rw (h, migrate_routes) (rw k refl)

  load-array :
      (c : ℕ) (text host : Text) (io : Io) (s : Store) (routes : List Route)
      → load parse_url json host (content (c ∷ text)) io ≡ ok s
      → parse_config parse_url json (c ∷ text) host
        ≡ some (legacy_config (migrate_routes routes host))
      → s.sites ≡ migrate_routes routes host
  unfolding load
  load-array c text host io s routes h parsed =
      finish-sites (store_of (legacy_config (migrate_routes routes host))) s
        (rw (parsed, load) at h)

  last_site-one :
      (st : HttpSite) (s : Store)
      → s.sites ≡ st ∷ []
      → last_site (to_lower st.host) s.sites ≡ some st
  unfolding last_site
  last_site-one st s h = rw h (rw (eq_refl (to_lower st.host)) refl)

  -- Where the file is an array of routes, as the first release wrote it, and the default host is not
  -- empty, a store that NewStore returns serves each enabled route under that host: a path that the
  -- route covers is matched.
  pub first_release_served :
      (has_dir : Bool) (host path : Text) (text : Text) (io : Io) (s : Store) (routes : List Route)
      (r : Route)
      → new_store parse_url json has_dir host (content text) io ≡ ok s
      → is_empty text ≡ false
      → has_prefix (trim_space text) (codes "[") ≡ true
      → json.array text ≡ some routes
      → is_empty host ≡ false
      → In r routes
      → r.enabled ≡ true
      → covers r.prefix path ≡ true
      → match_site s host path ≢ none
  first_release_served has_dir host path [] io s routes r h some_text is_array decoded named i on
        cover =
      cc
  first_release_served has_dir host path (c ∷ text) io s routes r h some_text is_array decoded named
        i on cover =
      let loaded = new_store-load has_dir host (content (c ∷ text)) io s h in
      let v = load-IsCompiled host (content (c ∷ text)) io s loaded in
      let parsed = parse_config-array (c ∷ text) host routes is_array decoded in
      let sites =
        load-array c text host io s routes loaded parsed
        ∙ migrate_routes-some routes host (some_routes r routes i) named in
      match_site_complete parse_url s host path (legacy_site host routes) r v.sites
        (last_site-one (legacy_site host routes) s sites) i on cover
