-- ===== src/Store/Told.antt =====
-- Which listeners of config.go an edit calls, when the file is written.
pub mod Commits
pub mod Methods
use in_proxy.Common.{◌≡◌, Bool, true, List, [], ◌∷◌, ◌++◌, ok}
use in_proxy.Config.{ParseUrl}
use in_proxy.Store.{Store, forwards_changed, dnat_changed, domains_changed}
use in_proxy.Store.Compile.{DomainMap, compile_domains}

-- An edit tells nobody and changes nothing that a listener reads, or calls one listener, with what is
-- configured now, and changes nothing that the others read.
pub data Told (s t : Store) : Type 0 where
  quiet :
      t.calls ≡ s.calls
      → t.forwards ≡ s.forwards
      → t.dnat ≡ s.dnat
      → t.compiled_dom ≡ s.compiled_dom
      → Told s t
  told_forwards :
      t.calls ≡ s.calls ++ (forwards_changed t.forwards ∷ [])
      → t.dnat ≡ s.dnat
      → t.compiled_dom ≡ s.compiled_dom
      → Told s t
  told_rules :
      t.calls ≡ s.calls ++ (dnat_changed t.dnat ∷ [])
      → t.forwards ≡ s.forwards
      → t.compiled_dom ≡ s.compiled_dom
      → Told s t
  told_domains :
      t.calls ≡ s.calls ++ (domains_changed ∷ [])
      → t.forwards ≡ s.forwards
      → t.dnat ≡ s.dnat
      → Told s t

-- The three listeners are set.
pub record HasListeners (s : Store) : Type 0 where
  pub forward_set : s.on_forward ≡ true
  pub dnat_set : s.on_dnat ≡ true
  pub domain_set : s.on_domain ≡ true

module _ (parse_url : ParseUrl) where
  -- The table of the domains is what they compile to, if they do.
  abbrev pub IsCurrent : Store → Type 0
  IsCurrent s = (m : DomainMap) → compile_domains parse_url [] s.domains ≡ ok m → s.compiled_dom ≡ m

  pub record TellsAll (s t : Store) : Type 0 where
    pub told : Told s t
    pub current : IsCurrent t
    pub listened : HasListeners t
