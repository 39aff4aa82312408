-- ===== src/Process/Races.antt =====
-- Edits at the same time: the methods of the store of config.go call their listeners after they have
-- unlocked it, so what other callers do comes between the edit and its effect. fireForwards copies
-- the forwards, and then calls Apply of the forwarder with the copy; fireDomain calls Apply of the
-- domain router, which reads the store under its own lock. (fireDNAT is as fireForwards.)
pub mod Servers
pub mod Stale
use in_proxy.Common.{ℕ, ◌+◌, ◌-◌, ◌<◌, ◌≡◌, List, [], ◌∷◌, ◌++◌, Option, none, some}
use in_proxy.Common.Int.{ℤ}
use in_proxy.Config.{Forward}
use in_proxy.Store.{Store, written, Notice, forwards_changed, dnat_changed, domains_changed}
use in_proxy.Store.Runs.{Edit, run}
use in_proxy.Store.Match.{domain_ports}
use in_proxy.Forwarder
use in_proxy.Forwarder.{Forwarder}
use in_proxy.DomainRouter.{DomainRouter, apply_ports}
use in_proxy.Process.{World, Process, uncalled}

-- `forwards_due` and `domains_due` count the callers between the unlocking of the store and the first
-- step of the listener; `copies` are the forwards that callers hold before Apply; `reading` are the
-- ports that the one Apply which holds the router's lock has read.
pub record Race : Type 0 where
  pub store : Store
  pub forwarder : Forwarder
  pub router : DomainRouter
  pub forwards_due : ℕ
  pub copies : List (List Forward)
  pub domains_due : ℕ
  pub reading : Option (List ℤ)

-- The process with no call under way.
abbrev pub at_rest_of : Process → Race
at_rest_of p = record {
  store = p.store;
  forwarder = p.forwarder;
  router = p.router;
  forwards_due = 0;
  copies = [];
  domains_due = 0;
  reading = none;
}

-- How many of the calls are of one listener.
abbrev pub forward_calls : List Notice → ℕ
forward_calls [] = 0
forward_calls (forwards_changed fws ∷ ns) = forward_calls ns + 1
forward_calls (dnat_changed rules ∷ ns) = forward_calls ns
forward_calls (domains_changed ∷ ns) = forward_calls ns

abbrev pub domain_calls : List Notice → ℕ
domain_calls [] = 0
domain_calls (forwards_changed fws ∷ ns) = domain_calls ns
domain_calls (dnat_changed rules ∷ ns) = domain_calls ns
domain_calls (domains_changed ∷ ns) = domain_calls ns + 1

module _ (w : World) where
  -- The locked part of a method, with a file that is written.
  abbrev pub locked : Edit → Race → Store
  locked e s = (run w.parse_url e written (uncalled s.store)).1

  abbrev pub after_edit : Edit → Race → Race
  after_edit e s =
      let t = locked e s in
      record s {
        store = uncalled t;
        forwards_due = s.forwards_due + forward_calls t.calls;
        domains_due = s.domains_due + domain_calls t.calls;
      }

  pub data Step (s : Race) : Race → Type 0 where
    edit : (e : Edit) → Step s (after_edit e s)
    copy :
        0 < s.forwards_due
        → Step s
            (record s { forwards_due = s.forwards_due - 1; copies = s.store.forwards ∷ s.copies })
    feed :
        (before after : List (List Forward)) (fws : List Forward)
        → s.copies ≡ before ++ (fws ∷ after)
        → Step s (record s {
          copies = before ++ after;
          forwarder = Forwarder.apply w.net fws s.forwarder;
        })
    read :
        0 < s.domains_due
        → s.reading ≡ none
        → Step s
            (record s { domains_due = s.domains_due - 1; reading = some (domain_ports s.store) })
    reconcile :
        (ports : List ℤ)
        → s.reading ≡ some ports
        → Step s (record s { reading = none; router = apply_ports w.listen ports s.router })

  pub data Reach (s : Race) : Race → Type 0 where
    here : Reach s s
    later : {t u : Race} → Reach s t → Step t u → Reach s u
