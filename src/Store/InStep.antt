-- ===== src/Store/InStep.antt =====
-- Memory, the routing tables and the file in step, and what establishes it.
pub mod Methods
use in_proxy.Common.{
  ◌≡◌, refl, sym, ap, ◌∙◌, Bool, true, false, List, [], ◌∷◌, Option, none, some, if◌then◌else◌,
  arith, Bool-cases, Option-cases, Result-cases, inl, inr, Result, ok, err,
}
use in_proxy.Text.{Text}
use in_proxy.Config.{HttpSite, Domain, Forward, DnatRule, ParseUrl}
use in_proxy.Config.Validate.{validate_site, validate_domain, validate_forward, validate_dnat}
use in_proxy.Store.{
  Store, Io, written, write_fails, rename_fails, Outcome, config_of, persist, and_then, with_sites,
  with_domains, recompile, commit, fire_domain, fire_forwards, fire_dnat,
}
use in_proxy.Store.Compile.{compile_sites, compile_domains}
use in_proxy.Store.Sites
use in_proxy.Store.Domains
use in_proxy.Store.Forwards
use in_proxy.Store.Dnat
use in_proxy.Store.Table.{found, drop_all}
use in_proxy.Store.Sites.{place_site, upsert_site, delete_site}
use in_proxy.Store.Domains.{place_domain, upsert_domain, delete_domain, save_domains}
use in_proxy.Store.Forwards.{place_forward, upsert_forward, delete_forward, save_forwards}
use in_proxy.Store.Dnat.{place_dnat, upsert_dnat, delete_dnat, save_dnat}

module _ (parse_url : ParseUrl) where
  -- The tables are those that the configured sites and domains compile to.
  pub record IsCompiled (s : Store) : Type 0 where
    pub sites : compile_sites parse_url [] s.sites ≡ ok s.compiled_sites
    pub domains : compile_domains parse_url [] s.domains ≡ ok s.compiled_dom

  pub record IsInStep (s : Store) : Type 0 where
    pub compiled : IsCompiled s
    pub on_disk : s.disk ≡ some (config_of s)

  pub recompile-IsCompiled : (s t : Store) → recompile parse_url s ≡ (ok tt, t) → IsCompiled t
  unfolding recompile
  recompile-IsCompiled s t h = elim (Result-cases (compile_sites parse_url [] s.sites)) [
    | inr (e, bad) ↦ absurd (ground arith)
    | inl (m, good) ↦ elim (Result-cases (compile_domains parse_url [] s.domains)) [
      | inr (e, bad) ↦ absurd (ground arith)
      | inl (dom, fine) ↦
          let whole : t ≡ record s { compiled_sites = m; compiled_dom = dom } = ground arith in
          rw whole (record { sites = good; domains = fine })
    ]
  ]

  persist-IsInStep : (io : Io) (s t : Store) → IsCompiled s → persist io s ≡ (ok tt, t) → IsInStep t
  unfolding persist
  persist-IsInStep written s t v h =
      let whole : t ≡ record s { disk = some (config_of s) } = ground arith in
      rw whole
        (record { compiled = record { sites = v.sites; domains = v.domains }; on_disk = refl })
  persist-IsInStep write_fails s t v h = absurd (ground arith)
  persist-IsInStep rename_fails s t v h = absurd (ground arith)

  and_then-ok :
      (o : Outcome) (next : Store → Outcome) (t : Store)
      → and_then o next ≡ (ok tt, t)
      → (r : Store) × (o ≡ (ok tt, r)) × (next r ≡ (ok tt, t))
  and_then-ok (ok u, r) next t h = (r, refl, h)
  and_then-ok (err e, r) next t h = absurd (ground arith)

  pub commit-IsInStep : (io : Io) (s t : Store) → commit parse_url io s ≡ (ok tt, t) → IsInStep t
  unfolding commit
  commit-IsInStep io s t h =
      let (r, built, saved) = and_then-ok (recompile parse_url s) (persist io) t h in
      persist-IsInStep io r t (recompile-IsCompiled s r built) saved

  pub fire_domain-IsInStep : (s : Store) → IsInStep s → IsInStep (fire_domain s)
  unfolding fire_domain
  fire_domain-IsInStep s v = elim (Bool-cases s.on_domain) [
    | inl on ↦ simp on (record {
      compiled = record { sites = v.compiled.sites; domains = v.compiled.domains };
      on_disk = v.on_disk;
    })
    | inr off ↦ simp off v
  ]
