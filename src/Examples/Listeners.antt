-- ===== src/Examples/Listeners.antt =====
-- Listeners and connections at the example configuration.
use in_proxy.Common.{
  ◌≡◌, ◌≢◌, ℕ, refl, true, ◌&&◌, ◌||◌, List, [], ◌∷◌, ◌++◌, none, some, inl, inr, In, All, arith,
  leb, ◌+◌,
}
use in_proxy.Common.Int.{pos}
use in_proxy.Common.Dict.{lookup, insert}
use in_proxy.Text.{Text, codes, ◌==◌}
use in_proxy.Config.{Forward}
use in_proxy.Store.Match.Ports.{uses_port}
use in_proxy.Routing.{SniDecision, accept, passthrough}
use in_proxy.Forwarder.{
  Socket, tcp, udp, Net, Listener, Forwarder, new_forwarder, start_all, want_from,
}
use in_proxy.Forwarder
use in_proxy.Forwarder.Sockets.{count, total}
use in_proxy.Forwarder.Tidy.{IsTidy, apply-IsTidy}
use in_proxy.Forwarder.Started.{by_name}
use in_proxy.Forwarder.Open.{IsServed, IsProper, new_forwarder-IsProper}
use in_proxy.Forwarder.Reconcile.{apply_reconciles}
use in_proxy.Forwarder.Udp.{
  Event, datagram, tick, reply, start, step, run_events, take_datagram, use_session,
}
use in_proxy.Forwarder.Udp.Replies.{has_session, datagram_answered, tick_lem}
use in_proxy.DomainRouter.{DomainRouter, has_key}
use in_proxy.DomainRouter
use in_proxy.DomainRouter.Reconcile.{is_extra, opens, apply_listens}
use in_proxy.DomainRouter.Header.{TcpAddr, proxy_header}
use in_proxy.DomainRouter.Header.Reader.{Announced, Announces, read_header, proxy_header_read}
use in_proxy.DomainRouter.Replay.{peek_all, cut, read_all, left}
use in_proxy.DomainRouter.Sni.{handle, handle_ready}
use in_proxy.Examples.Configs.{parse, ssh, full_store}
use in_proxy.Examples.Matching.{full_domains}

-- A network where every address resolves and every socket opens.
abbrev net : Net
net = record { listen = λ s ss. none; resolve = λ t. none }

abbrev both : Forward
both = record ssh { name = codes "both"; proto = codes "tcp+udp"; listen = codes ":99" }

fresh-IsTidy : IsTidy new_forwarder
unfolding count total
fresh-IsTidy = record { accounted = λ k. refl }

apply-IsTidy_example : IsTidy (Forwarder.apply net (ssh ∷ both ∷ []) new_forwarder)
apply-IsTidy_example = apply-IsTidy net (ssh ∷ both ∷ []) new_forwarder fresh-IsTidy

names_apart : ssh.name ≢ both.name
names_apart e = ground arith

apply_reconciles_example :
    ((fw : Forward)
      → In fw (ssh ∷ both ∷ [])
      → IsServed net fw (Forwarder.apply net (ssh ∷ both ∷ []) new_forwarder))
    × ((name : Text)
        → All (λ fw. name ≢ by_name fw) (ssh ∷ both ∷ [])
        → lookup ◌==◌ name (Forwarder.apply net (ssh ∷ both ∷ []) new_forwarder).active ≡ none)
    × IsProper (Forwarder.apply net (ssh ∷ both ∷ []) new_forwarder)
apply_reconciles_example =
    apply_reconciles net (ssh ∷ both ∷ []) new_forwarder ((names_apart, tt), (tt, tt))
      new_forwarder-IsProper

abbrev router : DomainRouter
router = record { main_port = pos 443; http_port = pos 80; active = pos 25 ∷ [] }

apply_listens_example :
    has_key (pos 993) (DomainRouter.apply (λ p. none) full_store router).active ≡ (
      (uses_port (pos 993) full_store.domains && is_extra router (pos 993))
      && (has_key (pos 993) router.active || opens none))
apply_listens_example = apply_listens parse (λ p. none) full_store router (pos 993) full_domains

abbrev pub client : TcpAddr
client = record { ip = 203 ∷ 0 ∷ 113 ∷ 9 ∷ []; port = 51234 }

abbrev pub server : TcpAddr
server = record {
  ip = 0 ∷ 0 ∷ 0 ∷ 0 ∷ 0 ∷ 0 ∷ 0 ∷ 0 ∷ 0 ∷ 0 ∷ 255 ∷ 255 ∷ 10 ∷ 8 ∷ 0 ∷ 1 ∷ [];
  port = 993;
}

proxy_header_read_example :
    (h : List ℕ) × (proxy_header (some client) (some server) ≡ some h)
    × ((r : Announced) × (read_header (h ++ codes "hello") ≡ some (r, codes "hello"))
        × Announces r client server)
proxy_header_read_example =
    proxy_header_read client server (codes "hello") (inl refl) (inr refl) (omega arith)
      (omega arith)

-- The server name of every stream is that of the mail domain.
abbrev pub sni_of : List ℕ → Text
sni_of bytes = codes "mail.example.com"

abbrev pub passes : Text → SniDecision
passes sni = passthrough (codes "10.8.0.60:18443") true

handle_ready_example :
    (read_all
        ((4, 4) ∷ (9, 2) ∷ [])
        (record { prefix = codes "hel"; off = 0; conn = codes "lo" })).0
      ++ left
          (read_all
            ((4, 4) ∷ (9, 2) ∷ [])
            (record { prefix = codes "hel"; off = 0; conn = codes "lo" })).1
    ≡ codes "hello"
unfolding handle peek_all cut
handle_ready_example =
    handle_ready (λ sni. accept) sni_of (λ t. none) (λ t. none) true (2 ∷ 1 ∷ []) (codes "hello")
      (some client) (some server) (record { prefix = codes "hel"; off = 0; conn = codes "lo" })
      ((4, 4) ∷ (9, 2) ∷ []) refl

abbrev earlier : List Event
earlier = datagram (codes "a") (codes "q") 5 true ∷ datagram (codes "b") (codes "r") 7 true ∷ []

still_open : (run_events earlier start).listening ≡ true
unfolding run_events step take_datagram use_session lookup insert ◌==◌
still_open = refl

datagram_answered_example :
    (back : ℕ) × ((step (datagram (codes "a") (codes "s") 9 true) (run_events earlier start)).sent
      ≡ (run_events earlier start).sent ++ ((back, codes "s") ∷ []))
    × ((step
          (reply back (codes "t"))
          (step (datagram (codes "a") (codes "s") 9 true) (run_events earlier start))).answered
        ≡ (step (datagram (codes "a") (codes "s") 9 true) (run_events earlier start)).answered
          ++ ((codes "a", codes "t") ∷ []))
datagram_answered_example =
    datagram_answered earlier (codes "a") (codes "s") (codes "t") 9 still_open

-- Another client's datagram, and a reply to the client.
abbrev since : List Event
since = datagram (codes "b") (codes "u") 80 true ∷ reply 0 (codes "t") ∷ []

clients_apart : codes "b" ≢ codes "a"
clients_apart e = ground arith

tick_lem_example :
    has_session (codes "a") (
      step (tick 99) (
        run_events since
          (step (datagram (codes "a") (codes "s") 9 true) (run_events earlier start))))
    ≡ leb 99 (9 + 90)
tick_lem_example =
    tick_lem earlier since (codes "a") (codes "s") 9 99 still_open (clients_apart, (tt, tt))
