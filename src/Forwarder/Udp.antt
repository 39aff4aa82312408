-- ===== src/Forwarder/Udp.antt =====
-- udpLoop of forward.go: the table of the clients of a UDP forward, each with its socket toward the
-- backend. The loop, the reaper and the goroutines that copy replies take turns by a mutex and by
-- their sockets, so an execution is a list of events. Times are seconds, and sockets are numbered.
pub mod Isolated
pub mod Replies
use in_proxy.Common.{
  ℕ, ◌+◌, ◌-◌, ◌≡◌, refl, Bool, true, false, not, List, [], ◌∷◌, ◌++◌, Option, none, some,
  if◌then◌else◌, ltb, nat_eq,
}
use in_proxy.Common.Dict.{lookup, insert}
use in_proxy.Text.{Text, ◌==◌}

pub record UdpSession : Type 0 where
  pub back : ℕ
  pub last : ℕ

-- `listening`: the listener is not closed. `next` is the number of the next socket, `sent` are the
-- datagrams written to sockets toward the backend, and `answered` those written to clients.
pub record UdpLoop : Type 0 where
  pub listening : Bool
  pub sessions : List (Text × UdpSession)
  pub next : ℕ
  pub sent : List (ℕ × List ℕ)
  pub answered : List (Text × List ℕ)

abbrev pub idle : ℕ
idle = 90

-- A datagram of a client at a time, where `dials` tells whether a socket can be had; a tick of the
-- reaper; a reply that arrives on a socket; the close of the listener.
pub data Event : Type 0 where
  datagram : Text → List ℕ → ℕ → Bool → Event
  tick : ℕ → Event
  reply : ℕ → List ℕ → Event
  quit : Event

abbrev pub start : UdpLoop
start = record { listening = true; sessions = []; next = 0; sent = []; answered = [] }

-- `s.last = time.Now()` and the write.
unfoldable pub use_session : Text → List ℕ → ℕ → UdpSession → UdpLoop → UdpLoop
unfolding insert
use_session key bytes now s u = record u {
  sessions = insert ◌==◌ key (record s { last = now }) u.sessions;
  sent = u.sent ++ ((s.back, bytes) ∷ []);
}

unfoldable pub take_datagram : Text → List ℕ → ℕ → Bool → UdpLoop → UdpLoop
unfolding use_session lookup
take_datagram key bytes now dials u = elim (lookup ◌==◌ key u.sessions) [
  | some s ↦ use_session key bytes now s u
  | none ↦
      if dials
      then use_session key bytes now (record { back = u.next; last = now })
          (record u { next = 1 + u.next })
      else u
]

-- The loop of the reaper.
unfoldable pub reap : ℕ → List (Text × UdpSession) → List (Text × UdpSession)
reap now [] = []
reap now ((key, s) ∷ sessions) =
    let rest = reap now sessions in if ltb idle (now - s.last) then rest else (key, s) ∷ rest

-- The client whose goroutine reads the socket.
unfoldable pub owner : ℕ → List (Text × UdpSession) → Option Text
owner back [] = none
owner back ((key, s) ∷ sessions) = if nat_eq s.back back then some key else owner back sessions

-- A socket that is closed gives nothing.
unfoldable pub take_reply : ℕ → List ℕ → UdpLoop → UdpLoop
unfolding owner
take_reply back bytes u = elim (owner back u.sessions) [
  | none ↦ u
  | some key ↦ record u { answered = u.answered ++ ((key, bytes) ∷ []) }
]

unfoldable pub step : Event → UdpLoop → UdpLoop
unfolding take_datagram reap take_reply
step (datagram key bytes now dials) u =
    let taken = take_datagram key bytes now dials u in if u.listening then taken else u
step (tick now) u = record u { sessions = reap now u.sessions }
step (reply back bytes) u = take_reply back bytes u
step quit u = record u { listening = false; sessions = [] }

unfoldable pub run_events : List Event → UdpLoop → UdpLoop
unfolding step
run_events [] u = u
run_events (e ∷ es) u = run_events es (step e u)
