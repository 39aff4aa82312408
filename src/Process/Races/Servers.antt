-- ===== src/Process/Races/Servers.antt =====
-- However the callers interleave, the servers of the domain ports follow the table of the domains.
use in_proxy.Common.{
  ℕ, ◌-◌, ◌<◌, ◌≡◌, refl, sym, ap, ◌∙◌, subst, ◌&&◌, List, [], ◌∷◌, ◌++◌, none, some, ok, arith,
}
use in_proxy.Common.Int.{ℤ}
use in_proxy.Store.{Store, written}
use in_proxy.Store.Runs.{Edit}
use in_proxy.Store.Runs.Sound.{IsSound, run-IsSound}
use in_proxy.Store.Match.{domain_ports}
use in_proxy.Store.Told.{
  Told, quiet, told_forwards, told_rules, told_domains, HasListeners, IsCurrent,
}
use in_proxy.Config.{Forward}
use in_proxy.Forwarder
use in_proxy.Forwarder.{Forwarder}
use in_proxy.DomainRouter.{DomainRouter, has_key, apply_ports}
use in_proxy.Store.Compile.{DomainMap, compile_domains}
use in_proxy.Store.Match.Ports.{uses_port}
use in_proxy.DomainRouter.Reconcile.{
  is_extra, opens, AreOpen, apply_ports-AreOpen, apply_ports_listens,
}
use in_proxy.Process.{World, uncalled}
use in_proxy.Process.Follows.{run-TellsAll, uncalled-IsSound, uncalled-HasListeners}
use in_proxy.Process.Races.{
  Race, domain_calls, locked, after_edit, Step, edit, copy, feed, read, reconcile, Reach, here,
  later,
}

module _ (w : World) where
  -- The router is what Apply made of the ports of the store.
  abbrev pub IsReconciled : Race → Type 0
  IsReconciled s =
      (r : DomainRouter) × AreOpen w.listen r
      × (s.router ≡ apply_ports w.listen (domain_ports s.store) r)

  -- Some caller has yet to begin, or what an Apply has read is what the store has, or the router is
  -- reconciled.
  pub data IsFresh (s : Race) : Type 0 where
    due : 0 < s.domains_due → IsFresh s
    read_now : s.reading ≡ some (domain_ports s.store) → IsFresh s
    at_rest : s.reading ≡ none → IsReconciled s → IsFresh s

  pub record IsGood (s : Race) : Type 0 where
    pub sound : IsSound w.parse_url s.store
    pub current : IsCurrent w.parse_url s.store
    pub listened : HasListeners s.store
    pub opened : AreOpen w.listen s.router
    pub fresh : IsFresh s

  domain_ports-compiled_dom :
      (s t : Store) → s.compiled_dom ≡ t.compiled_dom → domain_ports s ≡ domain_ports t
  unfolding domain_ports
  domain_ports-compiled_dom s t h = rw h refl

  -- An edit that leaves the table of the domains alone.
  kept-IsFresh :
      (e : Edit) (s : Race)
      → (locked w e s).compiled_dom ≡ s.store.compiled_dom
      → IsFresh s
      → IsFresh (after_edit w e s)
  kept-IsFresh e s same (due h) = due (omega arith)
  kept-IsFresh e s same (read_now h) =
      read_now
        (h ∙ ap some (domain_ports-compiled_dom s.store (uncalled (locked w e s)) (sym same)))
  kept-IsFresh e s same (at_rest h (r, o, k)) = at_rest h (
    r,
    o,
    k
        ∙ ap (λ ps. apply_ports w.listen ps r)
            (domain_ports-compiled_dom s.store (uncalled (locked w e s)) (sym same)),
  )

  edit-IsFresh :
      (e : Edit) (s : Race)
      → Told (uncalled s.store) (locked w e s)
      → IsFresh s
      → IsFresh (after_edit w e s)
  edit-IsFresh e s (quiet calls fs ds dom) f = kept-IsFresh e s dom f
  edit-IsFresh e s (told_forwards calls ds dom) f = kept-IsFresh e s dom f
  edit-IsFresh e s (told_rules calls fs dom) f = kept-IsFresh e s dom f
  edit-IsFresh e s (told_domains calls fs ds) f = due (omega (arith, ap domain_calls calls))

  -- A caller that has to do with the forwards.
  unmoved :
      (s : Race) (n : ℕ) (cs : List (List Forward)) (f : Forwarder)
      → IsFresh s
      → IsFresh (record s { forwards_due = n; copies = cs; forwarder = f })
  unmoved s n cs f (due h) = due h
  unmoved s n cs f (read_now h) = read_now h
  unmoved s n cs f (at_rest h k) = at_rest h k

  reconcile-IsFresh :
      (s : Race) (ports : List ℤ)
      → s.reading ≡ some ports
      → AreOpen w.listen s.router
      → IsFresh s
      → IsFresh (record s { reading = none; router = apply_ports w.listen ports s.router })
  reconcile-IsFresh s ports h o (due k) = due k
  reconcile-IsFresh s ports h o (read_now k) =
      let same : ports ≡ domain_ports s.store = cc in
      at_rest refl (s.router, o, ap (λ ps. apply_ports w.listen ps s.router) same)
  reconcile-IsFresh s ports h o (at_rest k r) = absurd (cc)

  Step-IsGood : {s t : Race} → Step w s t → IsGood s → IsGood t
  Step-IsGood {s} (edit e) g =
      let c =
        run-TellsAll w e (uncalled s.store) (uncalled-IsSound w s.store g.sound) g.current
          (uncalled-HasListeners w s.store g.listened) in
      let t = locked w e s in
      record {
        sound = uncalled-IsSound w t (
            run-IsSound w.parse_url e written (uncalled s.store)
              (uncalled-IsSound w s.store g.sound));
        current = c.current;
        listened = uncalled-HasListeners w t c.listened;
        opened = g.opened;
        fresh = edit-IsFresh e s c.told g.fresh;
      }
  Step-IsGood {s} (copy h) g = record {
    sound = g.sound;
    current = g.current;
    listened = g.listened;
    opened = g.opened;
    fresh = unmoved s (s.forwards_due - 1) (s.store.forwards ∷ s.copies) s.forwarder g.fresh;
  }
  Step-IsGood {s} (feed b a fws h) g = record {
    sound = g.sound;
    current = g.current;
    listened = g.listened;
    opened = g.opened;
    fresh = unmoved s s.forwards_due (b ++ a) (Forwarder.apply w.net fws s.forwarder) g.fresh;
  }
  Step-IsGood {s} (read h k) g = record {
    sound = g.sound;
    current = g.current;
    listened = g.listened;
    opened = g.opened;
    fresh = read_now refl;
  }
  Step-IsGood {s} (reconcile ports h) g = record {
    sound = g.sound;
    current = g.current;
    listened = g.listened;
    opened = apply_ports-AreOpen w.listen ports s.router g.opened;
    fresh = reconcile-IsFresh s ports h g.opened g.fresh;
  }

  pub Reach-IsGood : {s t : Race} → Reach w s t → IsGood s → IsGood t
  Reach-IsGood here g = g
  Reach-IsGood (later r st) g = Step-IsGood st (Reach-IsGood r g)

  -- When no caller is due to call Apply of the domain router or within it, and the configured domains
  -- compile, the servers run on just the extra ports of their enabled forwards that can be listened on.
  pub good_servers :
      (t : Race) (dom : DomainMap)
      → IsGood t
      → t.domains_due ≡ 0
      → t.reading ≡ none
      → compile_domains w.parse_url [] t.store.domains ≡ ok dom
      → (port : ℤ)
      → has_key port t.router.active
        ≡ ((uses_port port t.store.domains && is_extra t.router port) && opens (w.listen port))
  good_servers t dom g idle free compiles port = elim g.fresh [
    | due h ↦ absurd (omega arith)
    | read_now h ↦ absurd (cc)
    | at_rest h (r, open_before, k) ↦
        subst
          (λ (q : DomainRouter).
            has_key port q.active
            ≡ ((uses_port port t.store.domains && is_extra q port) && opens (w.listen port)))
          (sym k)
          (apply_ports_listens w.parse_url w.listen t.store r port
            (compiles ∙ ap ok (sym (g.current dom compiles))) open_before)
  ]
