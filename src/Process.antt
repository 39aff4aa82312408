-- ===== src/Process.antt =====
-- What main.go wires together: the store, and behind its three listeners the forwarder, the manager
-- of the nat table and the router of the domains.
pub mod Follows
pub mod InForce
pub mod Races
use in_proxy.Common.{List, [], ◌∷◌, Option}
use in_proxy.Common.Int.{ℤ}
use in_proxy.Text.{Text}
use in_proxy.Config.{ParseUrl}
use in_proxy.Config.Errors.{Fallible}
use in_proxy.Store.{Store, Io, Outcome, Notice, forwards_changed, dnat_changed, domains_changed}
use in_proxy.Store.Runs.{Edit, run}
use in_proxy.Forwarder
use in_proxy.Forwarder.{Net, Forwarder}
use in_proxy.Kernel
use in_proxy.Kernel.{Iptables, Manager}
use in_proxy.DomainRouter
use in_proxy.DomainRouter.{DomainRouter}

-- What surrounds the process: the parser of URLs, the network, iptables, and the error of listening
-- on a port.
pub record World : Type 0 where
  pub parse_url : ParseUrl
  pub net : Net
  pub refuses : Iptables
  pub listen : ℤ → Option Text

-- The store's list of calls is empty between edits: a call is made at once.
pub record Process : Type 0 where
  pub store : Store
  pub forwarder : Forwarder
  pub manager : Manager
  pub router : DomainRouter

-- The store with its calls made.
abbrev pub uncalled : Store → Store
uncalled s = record s { calls = [] }

module _ (w : World) where
  -- The listeners that main sets.
  unfoldable pub deliver : Notice → Process → Process
  deliver (forwards_changed fws) p = record p { forwarder = Forwarder.apply w.net fws p.forwarder }
  deliver (dnat_changed rules) p = record p { manager = Kernel.apply w.refuses rules p.manager }
  deliver domains_changed p = record p { router = DomainRouter.apply w.listen p.store p.router }

  unfoldable pub deliver_all : List Notice → Process → Process
  unfolding deliver
  deliver_all [] p = p
  deliver_all (n ∷ ns) p = deliver_all ns (deliver n p)

  unfoldable pub after_edit : Outcome → Process → Fallible (Unit {0}) × Process
  unfolding deliver_all
  after_edit (r, s) p = (r, deliver_all s.calls (record p { store = uncalled s }))

  -- A method of the store, with the calls that it makes before it returns.
  unfoldable pub perform : Edit → Io → Process → Fallible (Unit {0}) × Process
  unfolding after_edit run
  perform e io p = after_edit (run w.parse_url e io p.store) p
