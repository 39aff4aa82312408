-- ===== src/Store.antt =====
-- The Store of config.go: its state, the compiled routing tables, and what is on disk.
-- A method takes the store and gives its result beside the new store, since what it changed before
-- it failed stays changed. The lock makes each method one step.
pub mod Table
pub mod Compile
pub mod Match
pub mod Sites
pub mod Forwards
pub mod Dnat
pub mod Domains
pub mod InStep
pub mod Told
pub mod Runs
pub mod Load
use in_proxy.Common.{
  ℕ, Bool, true, false, List, [], ◌∷◌, ◌++◌, Option, none, some, if◌then◌else◌, Result, ok, err,
  ◌≡◌, refl, ◌∙◌, Result-cases, inl, inr,
}
use in_proxy.Common.Int.{ℤ}
use in_proxy.Text.{Text}
use in_proxy.Config.{HttpSite, Forward, DnatRule, Domain, ConfigFile, ParseUrl}
use in_proxy.Config.Errors.{Error, Fallible, write_config, rename_config}
use in_proxy.Store.Compile.{CompiledRoute, SiteMap, DomainMap, compile_sites, compile_domains}

-- A call of a registered listener.
pub data Notice : Type 0 where
  forwards_changed : List Forward → Notice
  dnat_changed : List DnatRule → Notice
  domains_changed : Notice

-- `on_forward`, `on_dnat` and `on_domain` tell whether the listener is set; `calls` are the calls of
-- listeners so far, and `disk` is the configuration last written to the store's path.
pub record Store : Type 0 where
  pub sites : List HttpSite
  pub forwards : List Forward
  pub dnat : List DnatRule
  pub domains : List Domain
  pub compiled_sites : SiteMap
  pub compiled_dom : DomainMap
  pub on_forward : Bool
  pub on_dnat : Bool
  pub on_domain : Bool
  pub disk : Option ConfigFile
  pub calls : List Notice

-- What the file system does with a write: the temporary file is written and renamed, or either
-- fails and the file at the path stays.
pub data Io : Type 0 where
  written write_fails rename_fails : Io

abbrev pub Outcome : Type 0
Outcome = Fallible (Unit {0}) × Store

abbrev pub config_of : Store → ConfigFile
config_of s = record { sites = s.sites; forwards = s.forwards; dnat = s.dnat; domains = s.domains }

unfoldable pub persist : Io → Store → Outcome
persist written s = (ok tt, record s { disk = some (config_of s) })
persist write_fails s = (err write_config, s)
persist rename_fails s = (err rename_config, s)

-- `if err := …; err != nil { return err }`, and then `next`
abbrev pub and_then : Outcome → (Store → Outcome) → Outcome
and_then (ok u, s) next = next s
and_then (err e, s) next = (err e, s)

abbrev with_sites : Fallible SiteMap → Store → Outcome
with_sites (err e) s = (err e, s)
with_sites (ok m) s = (ok tt, record s { compiled_sites = m })

abbrev with_domains : Fallible DomainMap → Store → Outcome
with_domains (err e) s = (err e, s)
with_domains (ok m) s = (ok tt, record s { compiled_dom = m })

module _ (parse_url : ParseUrl) where
  -- The table of the sites is in place before that of the domains is built.
  unfoldable pub recompile : Store → Outcome
  recompile s =
      and_then (with_sites (compile_sites parse_url [] s.sites) s)
        λ t. with_domains (compile_domains parse_url [] t.domains) t

  unfoldable pub commit : Io → Store → Outcome
  unfolding recompile persist
  commit io s = and_then (recompile s) (persist io)

unfoldable pub fire_forwards : Store → Store
fire_forwards s =
    if s.on_forward then record s { calls = s.calls ++ forwards_changed s.forwards ∷ [] } else s

unfoldable pub fire_dnat : Store → Store
fire_dnat s = if s.on_dnat then record s { calls = s.calls ++ dnat_changed s.dnat ∷ [] } else s

unfoldable pub fire_domain : Store → Store
fire_domain s = if s.on_domain then record s { calls = s.calls ++ domains_changed ∷ [] } else s

unfoldable pub set_forward_listener : Store → Store
set_forward_listener s = record s { on_forward = true }

unfoldable pub set_dnat_listener : Store → Store
set_dnat_listener s = record s { on_dnat = true }

unfoldable pub set_domain_listener : Store → Store
set_domain_listener s = record s { on_domain = true }

-- Compiling and persisting touch none of the four lists.
abbrev pub SameLists : Store → Store → Type 0
SameLists s t =
    (s.sites ≡ t.sites) × (s.forwards ≡ t.forwards) × (s.dnat ≡ t.dnat) × (s.domains ≡ t.domains)

persist-SameLists : (io : Io) (s : Store) → SameLists (persist io s).1 s
unfolding persist
persist-SameLists written s = (refl, refl, refl, refl)
persist-SameLists write_fails s = (refl, refl, refl, refl)
persist-SameLists rename_fails s = (refl, refl, refl, refl)

persist_after :
    (io : Io) (s : Store) (o : Outcome) → SameLists o.1 s → SameLists (and_then o (persist io)).1 s
persist_after io s (err e, t) (p, q, r, w) = (p, q, r, w)
persist_after io s (ok u, t) (p, q, r, w) =
    let (p', q', r', w') = persist-SameLists io t in (p' ∙ p, q' ∙ q, r' ∙ r, w' ∙ w)

module _ (parse_url : ParseUrl) where
  pub recompile-SameLists : (s : Store) → SameLists (recompile parse_url s).1 s
  unfolding recompile
  recompile-SameLists s = elim (Result-cases (compile_sites parse_url [] s.sites)) [
    | inr (e, bad) ↦ rw (bad, with_sites) (refl, refl, refl, refl)
    | inl (m, good) ↦ elim (Result-cases (compile_domains parse_url [] s.domains)) [
      | inr (e, bad) ↦ rw (good, with_sites) (rw (bad, with_domains) (refl, refl, refl, refl))
      | inl (dom, fine) ↦ rw (good, with_sites) (rw (fine, with_domains) (refl, refl, refl, refl))
    ]
  ]

  pub commit-SameLists : (io : Io) (s : Store) → SameLists (commit parse_url io s).1 s
  unfolding commit
  commit-SameLists io s = persist_after io s (recompile parse_url s) (recompile-SameLists s)

  pub sites-commit : (io : Io) (s : Store) → (commit parse_url io s).1.sites ≡ s.sites
  sites-commit io s = (commit-SameLists io s).0

  pub domains-commit : (io : Io) (s : Store) → (commit parse_url io s).1.domains ≡ s.domains
  domains-commit io s = (commit-SameLists io s).3
