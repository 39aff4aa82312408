-- ===== src/Process/InForce.antt =====
-- What is in force behind the store, after edits through the methods of config.go.
use in_proxy.Common.{◌≡◌, ◌≢◌, sym, ap, ◌∙◌, subst, ◌&&◌, [], none, ok, All, In}
use in_proxy.Common.Int.{ℤ}
use in_proxy.Common.Dict.{lookup}
use in_proxy.Text.{Text, ◌==◌}
use in_proxy.Config.{Forward}
use in_proxy.Store.Compile.{DomainMap, compile_domains}
use in_proxy.Store.Match.Ports.{uses_port}
use in_proxy.Forwarder.{Forwarder}
use in_proxy.Forwarder.Started.{by_name}
use in_proxy.Forwarder.Open.{IsProper, IsServed}
use in_proxy.Forwarder.Reconcile.{apply_reconciles}
use in_proxy.Forwarder.Fed.{Distinct-by_name}
use in_proxy.Kernel.{Manager, dnat_chain, post_chain, flush}
use in_proxy.Kernel.Rebuilt.{of_enabled, dnat_of, post_of, apply_rebuilds, last_err-apply}
use in_proxy.DomainRouter
use in_proxy.DomainRouter.{DomainRouter, has_key}
use in_proxy.DomainRouter.Reconcile.{is_extra, opens, apply_ports_listens}
use in_proxy.Process.{World, Process}
use in_proxy.Process.Follows.{Follows}

module _ (w : World) where
  -- Each configured forward is served, no other runs, and the process holds just the sockets of those
  -- that run; where iptables hooked the chains and flushes them, they hold the accepted rules of the
  -- enabled entries; and where the configured domains compile, a server runs on just the extra ports
  -- of their enabled forwards that can be listened on.
  pub record IsInForce (p : Process) : Type 0 where
    pub served : (fw : Forward) → In fw p.store.forwards → IsServed w.net fw p.forwarder
    pub no_others :
        (name : Text)
        → All (λ fw. name ≢ by_name fw) p.store.forwards
        → lookup ◌==◌ name p.forwarder.active ≡ none
    pub proper : IsProper p.forwarder
    pub rules :
        p.manager.last_err ≡ none
        → w.refuses (flush dnat_chain) ≡ none
        → w.refuses (flush post_chain) ≡ none
        → (p.manager.table.dnat_rules ≡ of_enabled w.refuses (dnat_of w.refuses) p.store.dnat)
          × (p.manager.table.post_rules ≡ of_enabled w.refuses (post_of w.refuses) p.store.dnat)
    pub servers :
        (dom : DomainMap)
        → compile_domains w.parse_url [] p.store.domains ≡ ok dom
        → (port : ℤ)
        → has_key port p.router.active
          ≡ ((uses_port port p.store.domains && is_extra p.router port) && opens (w.listen port))

  pub Follows-IsInForce : (p : Process) → Follows w p → IsInForce p
  unfolding DomainRouter.apply
  Follows-IsInForce p f =
      let (f', proper, fed) = f.fed in
      let (m', ruled) = f.ruled in
      let (r', open_before, routed) = f.routed in
      let (served, no_others, still_proper) =
        apply_reconciles w.net p.store.forwards f'
          (Distinct-by_name p.store.forwards f.sound.forwards.apart) proper in
      record {
        served = λ fw i. subst (IsServed w.net fw) (sym fed) (served fw i);
        no_others =
            λ name h. ap (λ (g : Forwarder). lookup ◌==◌ name g.active) fed ∙ no_others name h;
        proper = subst IsProper (sym fed) still_proper;
        rules = λ h k l.
            let hooked =
              sym (last_err-apply w.refuses p.store.dnat m')
              ∙ sym (ap (λ (m : Manager). m.last_err) ruled)
              ∙ h in
            let (d, q) = apply_rebuilds w.refuses p.store.dnat m' hooked k l in
            (
              ap (λ (m : Manager). m.table.dnat_rules) ruled ∙ d,
              ap (λ (m : Manager). m.table.post_rules) ruled ∙ q,
            );
        servers = λ dom compiles port.
            subst
              (λ (r : DomainRouter).
                has_key port r.active
                ≡ ((uses_port port p.store.domains && is_extra r port) && opens (w.listen port)))
              (sym routed)
              (apply_ports_listens w.parse_url w.listen p.store r' port
                (compiles ∙ ap ok (sym (f.current dom compiles))) open_before);
      }
