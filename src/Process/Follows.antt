-- ===== src/Process/Follows.antt =====
-- The listeners of main.go keep what runs in step with the store.
use in_proxy.Common.{◌≡◌, refl, sym, ap, ◌∙◌, subst, List, [], ◌∷◌, ◌++◌}
use in_proxy.Store.{Store, Io, written, Notice, forwards_changed, dnat_changed, domains_changed}
use in_proxy.Store.Runs.{
  Edit, put_site, drop_site, put_forward, drop_forward, put_dnat, drop_dnat, put_domain,
  drop_domain, run,
}
use in_proxy.Store.Runs.Sound.{IsSound, run-IsSound}
use in_proxy.Store.Told.{
  quiet, told_forwards, told_rules, told_domains, HasListeners, IsCurrent, TellsAll,
}
use in_proxy.Store.Told.Methods.{
  upsert_site-TellsAll, delete_site-TellsAll, upsert_domain-TellsAll, delete_domain-TellsAll,
  upsert_forward-TellsAll, delete_forward-TellsAll, upsert_dnat-TellsAll, delete_dnat-TellsAll,
}
use in_proxy.Store.Match.{domain_ports}
use in_proxy.Forwarder
use in_proxy.DomainRouter.Reconcile.{AreOpen, apply_ports-AreOpen}
use in_proxy.Forwarder.Open.{IsProper, apply-IsProper}
use in_proxy.Forwarder.{Forwarder}
use in_proxy.Kernel
use in_proxy.Kernel.{Manager, dnat_chain, post_chain, flush, ensure_scaffolding}
use in_proxy.DomainRouter
use in_proxy.DomainRouter.{DomainRouter, has_key}
use in_proxy.Process.{World, Process, uncalled, deliver, deliver_all, after_edit, perform}

module _ (w : World) where
  pub run-TellsAll :
      (e : Edit) (s : Store)
      → IsSound w.parse_url s
      → IsCurrent w.parse_url s
      → HasListeners s
      → TellsAll w.parse_url s (run w.parse_url e written s).1
  unfolding run
  run-TellsAll (put_site old site) s v = upsert_site-TellsAll w.parse_url old site s v.sites
  run-TellsAll (drop_site host) s v = delete_site-TellsAll w.parse_url host s v.sites
  run-TellsAll (put_forward old f) s v = upsert_forward-TellsAll w.parse_url old f s
  run-TellsAll (drop_forward name) s v = delete_forward-TellsAll w.parse_url name s
  run-TellsAll (put_dnat old d) s v = upsert_dnat-TellsAll w.parse_url old d s
  run-TellsAll (drop_dnat name) s v = delete_dnat-TellsAll w.parse_url name s
  run-TellsAll (put_domain old d) s v = upsert_domain-TellsAll w.parse_url old d s v.sites
  run-TellsAll (drop_domain host) s v = delete_domain-TellsAll w.parse_url host s v.sites

  -- Each part is what Apply made of the store's present configuration.
  pub record Follows (p : Process) : Type 0 where
    pub sound : IsSound w.parse_url p.store
    pub current : IsCurrent w.parse_url p.store
    pub listened : HasListeners p.store
    pub no_calls : p.store.calls ≡ []
    pub fed :
        (f : Forwarder) × IsProper f × (p.forwarder ≡ Forwarder.apply w.net p.store.forwards f)
    pub ruled : (m : Manager) × (p.manager ≡ Kernel.apply w.refuses p.store.dnat m)
    pub routed :
        (r : DomainRouter) × AreOpen w.listen r × (p.router ≡ DomainRouter.apply w.listen p.store r)

  -- The router reads the table of the domains only.
  apply-compiled_dom :
      (s t : Store) (r : DomainRouter)
      → s.compiled_dom ≡ t.compiled_dom
      → DomainRouter.apply w.listen s r ≡ DomainRouter.apply w.listen t r
  unfolding DomainRouter.apply domain_ports
  apply-compiled_dom s t r h = rw h refl

  pub uncalled-IsSound : (s : Store) → IsSound w.parse_url s → IsSound w.parse_url (uncalled s)
  uncalled-IsSound s v = record {
    sites = v.sites;
    forwards = v.forwards;
    dnat = v.dnat;
    domains = v.domains;
  }

  pub uncalled-HasListeners : (s : Store) → HasListeners s → HasListeners (uncalled s)
  uncalled-HasListeners s l = record {
    forward_set = l.forward_set;
    dnat_set = l.dnat_set;
    domain_set = l.domain_set;
  }

  pub Follows-IsProper : (p : Process) → Follows p → IsProper p.forwarder
  Follows-IsProper p f =
      let (f', proper, fed) = f.fed in
      subst IsProper (sym fed) (apply-IsProper w.net p.store.forwards f' proper)

  pub Follows-AreOpen : (p : Process) → Follows p → AreOpen w.listen p.router
  unfolding DomainRouter.apply
  Follows-AreOpen p f =
      let (r', open_before, routed) = f.routed in
      subst (AreOpen w.listen) (sym routed)
        (apply_ports-AreOpen w.listen (domain_ports p.store) r' open_before)

  deliver_all-Follows :
      (p : Process) (t : Store)
      → TellsAll w.parse_url p.store t
      → IsSound w.parse_url t
      → Follows p
      → Follows (deliver_all w t.calls (record p { store = uncalled t }))
  unfolding deliver_all deliver
  deliver_all-Follows p t c v f =
      let q = record p { store = uncalled t } in
      let (f', proper, fed) = f.fed in
      let (m', ruled) = f.ruled in
      let (r', open_before, routed) = f.routed in
      let same_forwards = λ (e : t.forwards ≡ p.store.forwards).
        fed ∙ ap (λ fws. Forwarder.apply w.net fws f') (sym e) in
      let same_rules =
        λ (e : t.dnat ≡ p.store.dnat). ruled ∙ ap (λ rs. Kernel.apply w.refuses rs m') (sym e) in
      let same_domains = λ (e : t.compiled_dom ≡ p.store.compiled_dom).
        routed ∙ apply-compiled_dom p.store (uncalled t) r' (sym e) in
      elim c.told [
        | quiet calls fs ds dom ↦
            subst (λ ns. Follows (deliver_all w ns q)) (sym (calls ∙ f.no_calls))
              (record {
                sound = uncalled-IsSound t v;
                current = c.current;
                listened = uncalled-HasListeners t c.listened;
                no_calls = refl;
                fed = (f', proper, same_forwards fs);
                ruled = (m', same_rules ds);
                routed = (r', open_before, same_domains dom);
              })
        | told_forwards calls ds dom ↦
            subst (λ ns. Follows (deliver_all w ns q))
              (sym (calls ∙ ap (λ ns. ns ++ (forwards_changed t.forwards ∷ [])) f.no_calls))
              (record {
                sound = uncalled-IsSound t v;
                current = c.current;
                listened = uncalled-HasListeners t c.listened;
                no_calls = refl;
                fed = (p.forwarder, Follows-IsProper p f, refl);
                ruled = (m', same_rules ds);
                routed = (r', open_before, same_domains dom);
              })
        | told_rules calls fs dom ↦
            subst (λ ns. Follows (deliver_all w ns q))
              (sym (calls ∙ ap (λ ns. ns ++ (dnat_changed t.dnat ∷ [])) f.no_calls))
              (record {
                sound = uncalled-IsSound t v;
                current = c.current;
                listened = uncalled-HasListeners t c.listened;
                no_calls = refl;
                fed = (f', proper, same_forwards fs);
                ruled = (p.manager, refl);
                routed = (r', open_before, same_domains dom);
              })
        | told_domains calls fs ds ↦
            subst (λ ns. Follows (deliver_all w ns q))
              (sym (calls ∙ ap (λ ns. ns ++ (domains_changed ∷ [])) f.no_calls))
              (record {
                sound = uncalled-IsSound t v;
                current = c.current;
                listened = uncalled-HasListeners t c.listened;
                no_calls = refl;
                fed = (f', proper, same_forwards fs);
                ruled = (m', same_rules ds);
                routed = (p.router, Follows-AreOpen p f, refl);
              })
      ]

  store-deliver : (n : Notice) (p : Process) → (deliver w n p).store ≡ p.store
  unfolding deliver
  store-deliver (forwards_changed fws) p = refl
  store-deliver (dnat_changed rules) p = refl
  store-deliver domains_changed p = refl

  store-deliver_all : (ns : List Notice) (p : Process) → (deliver_all w ns p).store ≡ p.store
  unfolding deliver_all
  store-deliver_all [] p = refl
  store-deliver_all (n ∷ ns) p = store-deliver_all ns (deliver w n p) ∙ store-deliver n p

  -- The calls change neither what the method returns nor the store.
  pub perform-run :
      (e : Edit) (io : Io) (p : Process)
      → ((perform w e io p).0 ≡ (run w.parse_url e io p.store).0)
        × ((perform w e io p).1.store ≡ uncalled (run w.parse_url e io p.store).1)
  unfolding perform after_edit
  perform-run e io p =
      let t = (run w.parse_url e io p.store).1 in
      (refl, store-deliver_all t.calls (record p { store = uncalled t }))

  pub perform-Follows : (e : Edit) (p : Process) → Follows p → Follows (perform w e written p).1
  unfolding perform after_edit
  perform-Follows e p f =
      deliver_all-Follows p (run w.parse_url e written p.store).1
        (run-TellsAll e p.store f.sound f.current f.listened)
        (run-IsSound w.parse_url e written p.store f.sound) f
