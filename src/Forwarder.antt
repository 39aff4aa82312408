-- ===== src/Forwarder.antt =====
-- forward.go: the Forwarder, which keeps one listener open for each enabled forward.
-- A socket that the process holds stands in a list of the state; `net.Listen`, `net.ListenPacket`
-- and `net.ResolveUDPAddr` are given by a record that may look at the sockets held.
pub mod Sockets
pub mod Tidy
pub mod Started
pub mod Open
pub mod Reconcile
pub mod Fed
pub mod Udp
pub mod Tcp
use in_proxy.Common.{
  ℕ, ◌+◌, ◌≡◌, refl, Bool, true, false, ◌&&◌, ◌||◌, not, List, [], ◌∷◌, ◌++◌, Option, none, some,
  Result, ok, err, if◌then◌else◌,
}
use in_proxy.Common.Dict.{lookup, insert}
use in_proxy.Text.{Text, codes, ◌==◌}
use in_proxy.Config.{Forward}

pub data Socket : Type 0 where
  tcp udp : Text → Socket

unfoldable pub socket_eq : Socket → Socket → Bool
socket_eq (tcp a) (tcp b) = a == b
socket_eq (udp a) (udp b) = a == b
socket_eq _ _ = false

-- The network: the error of opening a socket while others are held, and of resolving an address.
pub record Net : Type 0 where
  pub listen : Socket → List Socket → Option Text
  pub resolve : Text → Option Text

-- `ln != nil` and `pc != nil` are the two tests.
pub record Listener : Type 0 where
  pub fwd : Forward
  pub ln : Bool
  pub pc : Bool

-- `held` are the sockets that the process has open.
pub record Forwarder : Type 0 where
  pub active : List (Text × Listener)
  pub status : List (Text × Text)
  pub held : List Socket

abbrev pub new_forwarder : Forwarder
new_forwarder = record { active = []; status = []; held = [] }

unfoldable pub close_socket : Socket → List Socket → List Socket
close_socket k [] = []
close_socket k (s ∷ held) =
    let rest = s ∷ close_socket k held in if socket_eq s k then held else rest

-- `stop`: both sockets, if they are open.
unfoldable pub stop : Listener → List Socket → List Socket
unfolding close_socket
stop l held =
    let after = if l.ln then close_socket (tcp l.fwd.listen) held else held in
    if l.pc then close_socket (udp l.fwd.listen) after else after

abbrev pub Started : Type 0
Started = Result Text Listener × List Socket

unfoldable pub start_tcp : Net → Forward → List Socket → Started
start_tcp net fw held =
    if fw.proto == codes "udp"
    then (ok (record { fwd = fw; ln = false; pc = false }), held)
    else elim (net.listen (tcp fw.listen) held) [
      | some e ↦ (err e, held)
      | none ↦ (ok (record { fwd = fw; ln = true; pc = false }), tcp fw.listen ∷ held)
    ]

-- `beginUDP`, and the call of `stop` if it fails.
unfoldable pub start_udp : Net → Listener → List Socket → Started
unfolding stop
start_udp net l held =
    if l.fwd.proto == codes "udp" || l.fwd.proto == codes "tcp+udp"
    then elim (net.resolve l.fwd.target) [
      | some e ↦ (err e, stop l held)
      | none ↦ elim (net.listen (udp l.fwd.listen) held) [
        | some e ↦ (err e, stop l held)
        | none ↦ (ok (record l { pc = true }), udp l.fwd.listen ∷ held)
      ]
    ]
    else (ok l, held)

and_start_udp : Net → Started → Started
and_start_udp net (err e, held) = (err e, held)
and_start_udp net (ok l, held) = start_udp net l held

unfoldable pub start_listener : Net → Forward → List Socket → Started
unfolding start_tcp and_start_udp start_udp
start_listener net fw held = and_start_udp net (start_tcp net fw held)

-- The map `want`: a later forward of a name replaces an earlier one.
unfoldable pub want_from : List (Text × Forward) → List Forward → List (Text × Forward)
unfolding insert
want_from m [] = m
want_from m (fw ∷ fws) = want_from (insert ◌==◌ fw.name fw m) fws

-- The listener runs what is wanted.
unfoldable pub runs : Listener → Forward → Bool
runs l w =
    (w.proto == l.fwd.proto && w.listen == l.fwd.listen)
    && (w.target == l.fwd.target
        && (if w.proxy_proto then l.fwd.proxy_proto else not l.fwd.proxy_proto))

unfoldable pub stays : Option Forward → Listener → Bool
unfolding runs
stays none l = false
stays (some w) l = w.enabled && runs l w

-- The first loop: listeners that are gone, disabled or changed are stopped.
unfoldable pub stop_stale :
    List (Text × Forward)
    → List (Text × Listener)
    → List Socket
    → List (Text × Listener) × List Socket
unfolding stays lookup stop
stop_stale want [] held = ([], held)
stop_stale want ((name, l) ∷ active) held =
    let kept = stop_stale want active held in
    let dropped = stop_stale want active (stop l held) in
    if stays (lookup ◌==◌ name want) l then ((name, l) ∷ kept.0, kept.1) else dropped

unfoldable pub put_status : Text → Text → Forwarder → Forwarder
unfolding insert
put_status name text f = record f { status = insert ◌==◌ name text f.status }

unfoldable pub add_started : Forward → Started → Forwarder → Forwarder
unfolding put_status insert
add_started fw (err e, held) f =
    put_status fw.name (codes "error: " ++ e) (record f { held = held })
add_started fw (ok l, held) f =
    put_status fw.name [] (record f { active = insert ◌==◌ fw.name l f.active; held = held })

-- The body of the second loop.
unfoldable pub start_one : Net → Forward → Forwarder → Forwarder
unfolding put_status add_started start_listener lookup
start_one net fw f =
    if fw.enabled
    then elim (lookup ◌==◌ fw.name f.active) [
      | some l ↦ put_status fw.name [] f
      | none ↦ add_started fw (start_listener net fw f.held) f
    ]
    else put_status fw.name (codes "disabled") f

unfoldable pub start_all : Net → List Forward → Forwarder → Forwarder
unfolding start_one
start_all net [] f = f
start_all net (fw ∷ fws) f = start_all net fws (start_one net fw f)

unfoldable pub apply : Net → List Forward → Forwarder → Forwarder
unfolding stop_stale start_all want_from
apply net forwards f =
    let (active, held) = stop_stale (want_from [] forwards) f.active f.held in
    start_all net forwards (record { active = active; status = []; held = held })

stop_every : List (Text × Listener) → List Socket → List Socket
unfolding stop
stop_every [] held = held
stop_every ((name, l) ∷ active) held = stop_every active (stop l held)

-- `status` stays as it was.
unfoldable pub shutdown : Forwarder → Forwarder
unfolding stop_every
shutdown f = record f { active = []; held = stop_every f.active f.held }
