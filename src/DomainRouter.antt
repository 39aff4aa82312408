-- ===== src/DomainRouter.antt =====
-- The DomainRouter of domains.go: a server on every port of a domain but the main one and the
-- plaintext one. A server is known by its port; `net.Listen` for a port is a function that gives the
-- error, if there is one.
pub mod Reconcile
pub mod Header
pub mod Replay
pub mod Sni
pub mod Accepting
use in_proxy.Common.{
  ◌≡◌, refl, Bool, true, false, ◌&&◌, ◌||◌, not, List, [], ◌∷◌, Option, none, some, if◌then◌else◌,
  any,
}
use in_proxy.Common.Int.{ℤ, int_eq}
use in_proxy.Text.{Text}
use in_proxy.Store.{Store}
use in_proxy.Store.Match.{domain_ports}

pub record DomainRouter : Type 0 where
  pub main_port : ℤ
  pub http_port : ℤ
  pub active : List ℤ

unfoldable pub new_domain_router : ℤ → ℤ → DomainRouter
new_domain_router main_port http_port = record {
  main_port = main_port;
  http_port = http_port;
  active = [];
}

-- `_, ok := m[p]`
unfoldable pub has_key : ℤ → List ℤ → Bool
has_key p = any (λ q. int_eq q p)

-- `want`
unfoldable pub want_ports : DomainRouter → List ℤ → List ℤ
want_ports r [] = []
want_ports r (p ∷ ps) =
    let rest = want_ports r ps in
    if not (int_eq p r.main_port) && not (int_eq p r.http_port) then p ∷ rest else rest

-- The loop that stops servers.
unfoldable pub stop_unwanted : List ℤ → List ℤ → List ℤ
unfolding has_key
stop_unwanted want [] = []
stop_unwanted want (p ∷ active) =
    let rest = stop_unwanted want active in if has_key p want then p ∷ rest else rest

-- The loop that starts them.
unfoldable pub start_wanted : (ℤ → Option Text) → List ℤ → List ℤ → List ℤ
unfolding has_key
start_wanted listen [] active = active
start_wanted listen (p ∷ want) active =
    if has_key p active then start_wanted listen want active else elim (listen p) [
      | some e ↦ start_wanted listen want active
      | none ↦ start_wanted listen want (p ∷ active)
    ]

-- Apply, given the ports that it has read of the store.
unfoldable pub apply_ports : (ℤ → Option Text) → List ℤ → DomainRouter → DomainRouter
unfolding want_ports stop_unwanted start_wanted
apply_ports listen ports r =
    let want = want_ports r ports in
    record r { active = start_wanted listen want (stop_unwanted want r.active) }

unfoldable pub apply : (ℤ → Option Text) → Store → DomainRouter → DomainRouter
unfolding apply_ports
apply listen s r = apply_ports listen (domain_ports s) r

unfoldable pub shutdown : DomainRouter → DomainRouter
shutdown r = record r { active = [] }
