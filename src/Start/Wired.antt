-- ===== src/Start/Wired.antt =====
-- The process that main.go starts: its parts follow the store from the first.
use in_proxy.Common.{
  ◌≡◌, refl, sym, ◌⊎◌, subst, ok, Bool-cases, Option-cases, Result-cases, inl, inr,
}
use in_proxy.Config.Endpoints.{is_empty}
use in_proxy.Store.{Store, set_forward_listener, set_dnat_listener, set_domain_listener}
use in_proxy.Store.InStep.{IsCompiled}
use in_proxy.Store.Runs.Sound.{IsSound}
use in_proxy.Store.Forwards.{list_forwards}
use in_proxy.Store.Dnat.{list_dnat}
use in_proxy.Store.Load.{new_store}
use in_proxy.Store.Load.Start.{new_store-IsCompiled}
use in_proxy.Auth.{Auth, new_auth}
use in_proxy.Forwarder.{new_forwarder}
use in_proxy.Forwarder.Open.{new_forwarder-IsProper}
use in_proxy.DomainRouter.{new_domain_router, has_key, apply_ports}
use in_proxy.DomainRouter
use in_proxy.Kernel.{new_manager}
use in_proxy.Process.{Process}
use in_proxy.Process.Follows.{Follows}
use in_proxy.Start.{
  Settings, Fatal, Source, Machine, Outcome, gave_up, gave_up_late, serving, source_of, applied,
  routed, listening, secured, start,
}

module _ {Network : Type 0} (m : Machine Network) where
  -- What main has built when it serves, or when it gives up late.
  pub data Built (s : Settings) : Outcome Network → Type 0 where
    early : (e : Fatal) → Built s (gave_up e)
    late :
        (e : Fatal) (st : Store) (p : Process)
        → new_store m.world.parse_url m.json m.has_dir s.external_host m.config m.io ≡ ok st
        → (p ≡ applied m s st) ⊎ (p ≡ routed m (applied m s st))
        → Built s (gave_up_late e p)
    served :
        (auth : Auth Network) (source : Source) (st : Store) (p : Process)
        → new_store m.world.parse_url m.json m.has_dir s.external_host m.config m.io ≡ ok st
        → new_auth m.sha256 m.parse_cidr s.password s.internal_cidr ≡ ok auth
        → p ≡ routed m (applied m s st)
        → Built s (serving auth source p)

  pub start-Built : (s : Settings) → Built s (start m s)
  unfolding start secured listening
  start-Built s = elim (Bool-cases (is_empty s.password)) [
    | inl none_given ↦ rw none_given (early _)
    | inr given ↦
        elim (Result-cases
          (new_store m.world.parse_url m.json m.has_dir s.external_host m.config m.io)) [
            | inr (e, bad) ↦ rw given (rw bad (early _))
            | inl (st, loaded) ↦
                elim (Result-cases (new_auth m.sha256 m.parse_cidr s.password s.internal_cidr)) [
                  | inr (e, bad) ↦ rw given (rw loaded (rw bad (early _)))
                  | inl (auth, good) ↦ elim (Result-cases (source_of m s)) [
                    | inr (e, bad) ↦
                        rw given
                          (rw loaded (rw good (rw (bad, secured) (late e st _ loaded (inl refl)))))
                    | inl (source, fine) ↦ elim (Option-cases (m.listens s.proxy_addr)) [
                      | inr (e, taken) ↦ rw given (
                          rw loaded (
                            rw good (
                              rw (fine, secured)
                                (rw (taken, listening) (late _ st _ loaded (inr refl))))))
                      | inl open_now ↦ rw given (
                          rw loaded (
                            rw good (
                              rw (fine, secured)
                                (rw (open_now, listening)
                                  (served auth source st _ loaded good refl)))))
                    ]
                  ]
                ]
          ]
  ]

  applied-Follows :
      (s : Settings) (st : Store)
      → IsCompiled m.world.parse_url st
      → IsSound m.world.parse_url (routed m (applied m s st)).store
      → Follows m.world (routed m (applied m s st))
  unfolding applied routed set_forward_listener set_dnat_listener set_domain_listener list_forwards
      list_dnat new_domain_router has_key
  applied-Follows s st v sound = record {
    sound = sound;
    current = λ k h. cc (v.domains);
    listened = record { forward_set = refl; dnat_set = refl; domain_set = refl };
    no_calls = refl;
    fed = (new_forwarder, new_forwarder-IsProper, refl);
    ruled = (new_manager m.table, refl);
    routed = ((applied m s st).router, λ p h. absurd (cc), refl);
  }

  pub serving-Follows :
      (s : Settings) (auth : Auth Network) (source : Source) (p : Process)
      → start m s ≡ serving auth source p
      → IsSound m.world.parse_url p.store
      → Follows m.world p
  serving-Follows s auth source p h sound = follows (subst (Built s) h (start-Built s)) sound
    where
      follows :
          Built s (serving auth source p) → IsSound m.world.parse_url p.store → Follows m.world p
      follows (served auth source st p loaded good whole) v =
          let compiled =
            (new_store-IsCompiled m.world.parse_url m.json m.has_dir s.external_host m.config m.io
              st loaded).0 in
          subst (Follows m.world) (sym whole) (
            applied-Follows s st compiled
              (subst (λ (q : Process). IsSound m.world.parse_url q.store) whole v))
