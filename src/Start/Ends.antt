-- ===== src/Start/Ends.antt =====
-- How a process of main.go ends, and what it leaves in the kernel's nat table.
use in_proxy.Common.{
  ◌≡◌, refl, sym, ap, ◌∙◌, ◌⊎◌, inl, inr, subst, true, List, [], ◌∷◌, ◌++◌, none, ok,
}
use in_proxy.Text.{Text}
use in_proxy.Config.{DnatRule}
use in_proxy.Config.Validate.{validate_dnat}
use in_proxy.Store.{
  Store, written, dnat_changed, persist, fire_dnat, set_forward_listener, set_dnat_listener,
  set_domain_listener,
}
use in_proxy.Store.Dnat.{place_dnat, upsert_dnat, list_dnat}
use in_proxy.Store.Runs.{put_dnat, run}
use in_proxy.Forwarder.{Socket}
use in_proxy.Forwarder.Sockets.{count}
use in_proxy.Forwarder.Tidy.{IsTidy, shutdown_closes}
use in_proxy.Kernel
use in_proxy.Kernel.{Manager, new_manager, dnat_chain, post_chain, flush, ensure_scaffolding}
use in_proxy.Kernel.Rebuilt.{of_enabled, dnat_of, post_of, apply_rebuilds, last_err-apply, emptied}
use in_proxy.DomainRouter
use in_proxy.Process.{World, Process, uncalled, deliver, deliver_all, after_edit, perform}
use in_proxy.Start.{Settings, Fatal, Machine, gave_up_late, applied, routed, start, shut_down}
use in_proxy.Start.Wired.{Built, late, start-Built}

-- The chains hold what iptables accepts of what the enabled rules ask for.
abbrev pub IsRuled : World → Process → List DnatRule → Type 0
IsRuled w p rules =
    (p.manager.table.dnat_rules ≡ of_enabled w.refuses (dnat_of w.refuses) rules)
    × (p.manager.table.post_rules ≡ of_enabled w.refuses (post_of w.refuses) rules)

module _ (w : World) (flushes : w.refuses (flush dnat_chain) ≡ none)
    (flushes_post : w.refuses (flush post_chain) ≡ none) where
  -- Where iptables flushes the chains, and the process holds no sockets but those of its listeners:
  -- after the shutdown no socket is held, no server of a domain port runs, and both chains are empty.
  pub shut_down_leaves_nothing :
      (p : Process)
      → IsTidy p.forwarder
      → ((k : Socket) → count k (shut_down w p).forwarder.held ≡ 0)
        × ((shut_down w p).router.active ≡ [])
        × ((shut_down w p).manager.table.dnat_rules ≡ [])
        × ((shut_down w p).manager.table.post_rules ≡ [])
  unfolding shut_down Kernel.shutdown DomainRouter.shutdown
  shut_down_leaves_nothing p v =
      let empty = emptied w.refuses p.manager.table flushes flushes_post in
      (
        shutdown_closes p.forwarder v,
        refl,
        ap (λ (t : Kernel.Table). t.dnat_rules) empty,
        ap (λ (t : Kernel.Table). t.post_rules) empty,
      )

  -- UpsertDNAT with an entry that is valid and placed.
  calls-upsert_dnat :
      (s : Store) (old : Text) (d r : DnatRule) (rules : List DnatRule)
      → s.on_dnat ≡ true
      → s.calls ≡ []
      → validate_dnat d ≡ ok r
      → place_dnat old r s.dnat ≡ ok rules
      → (upsert_dnat old d written s).1.calls ≡ dnat_changed rules ∷ []
  unfolding upsert_dnat persist fire_dnat
  calls-upsert_dnat s old d r rules on none_yet valid placed =
      rw (valid, upsert_dnat)
        (rw (placed, upsert_dnat) (simp on (ap (λ ns. ns ++ (dnat_changed rules ∷ [])) none_yet)))

  manager-perform :
      (p : Process) (old : Text) (d r : DnatRule) (rules : List DnatRule)
      → p.store.on_dnat ≡ true
      → p.store.calls ≡ []
      → validate_dnat d ≡ ok r
      → place_dnat old r p.store.dnat ≡ ok rules
      → (perform w (put_dnat old d) written p).1.manager ≡ Kernel.apply w.refuses rules p.manager
  unfolding perform after_edit deliver_all deliver run
  manager-perform p old d r rules on none_yet valid placed =
      let t = (upsert_dnat old d written p.store).1 in
      ap (λ ns. (deliver_all w ns (record p { store = uncalled t })).manager)
        (calls-upsert_dnat p.store old d r rules on none_yet valid placed)

  -- Where iptables flushes both chains: a rule that the admin page saves behind the shutdown of the
  -- manager, whose listener is set and which has no call under way: if the rule is valid, finds its
  -- place and is written, and iptables hooks the chains, these hold again what iptables accepts of all
  -- enabled rules.
  pub saved_after_shut_down :
      (p : Process) (old : Text) (d r : DnatRule) (rules : List DnatRule)
      → p.store.on_dnat ≡ true
      → p.store.calls ≡ []
      → validate_dnat d ≡ ok r
      → place_dnat old r p.store.dnat ≡ ok rules
      → (ensure_scaffolding w.refuses (shut_down w p).manager.table).0 ≡ none
      → IsRuled w (perform w (put_dnat old d) written (shut_down w p)).1 rules
  unfolding shut_down
  saved_after_shut_down p old d r rules on none_yet valid placed hooked =
      let m = (shut_down w p).manager in
      let same = manager-perform (shut_down w p) old d r rules on none_yet valid placed in
      let (ds, ps) = apply_rebuilds w.refuses rules m hooked flushes flushes_post in
      (
        ap (λ (n : Manager). n.table.dnat_rules) same ∙ ds,
        ap (λ (n : Manager). n.table.post_rules) same ∙ ps,
      )

module _ {Network : Type 0} (m : Machine Network) where
  -- When main gives up after the rules were applied, and iptables had hooked the chains and flushes
  -- them, what iptables accepted of the configuration's enabled rules stays in the nat table, with no
  -- process to forward for.
  pub gave_up_late_leaves_rules :
      (s : Settings) (e : Fatal) (p : Process)
      → start m s ≡ gave_up_late e p
      → p.manager.last_err ≡ none
      → m.world.refuses (flush dnat_chain) ≡ none
      → m.world.refuses (flush post_chain) ≡ none
      → IsRuled m.world p p.store.dnat
  unfolding applied routed set_forward_listener set_dnat_listener set_domain_listener list_dnat
  gave_up_late_leaves_rules s e p h = left (subst (Built m s) h (start-Built m s))
    where
      by_apply :
          (st : Store)
          → (p ≡ applied m s st) ⊎ (p ≡ routed m (applied m s st))
          → p.manager ≡ Kernel.apply m.world.refuses p.store.dnat (new_manager m.table)
      by_apply st (inl whole) = rw whole refl
      by_apply st (inr whole) = rw whole refl

      left :
          Built m s (gave_up_late e p)
          → p.manager.last_err ≡ none
          → m.world.refuses (flush dnat_chain) ≡ none
          → m.world.refuses (flush post_chain) ≡ none
          → IsRuled m.world p p.store.dnat
      left (late e st p loaded how) fine f g =
          let same = by_apply st how in
          let hooked =
            sym (last_err-apply m.world.refuses p.store.dnat (new_manager m.table))
            ∙ sym (ap (λ (n : Manager). n.last_err) same)
            ∙ fine in
          let (ds, ps) =
            apply_rebuilds m.world.refuses p.store.dnat (new_manager m.table) hooked f g in
          (
            ap (λ (n : Manager). n.table.dnat_rules) same ∙ ds,
            ap (λ (n : Manager). n.table.post_rules) same ∙ ps,
          )
