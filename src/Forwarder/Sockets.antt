-- ===== src/Forwarder/Sockets.antt =====
-- The sockets of forward.go, counted: those that the process holds, and those of its listeners.
use in_proxy.Common.{
  ℕ, ◌+◌, ◌≤◌, ◌≡◌, refl, ap, ◌↔◌, Bool, true, false, ◌&&◌, ◌||◌, List, [], ◌∷◌, ok, err,
  if◌then◌else◌, arith, Bool-cases, Option-cases, inl, inr,
}
use in_proxy.Common.Dict.{lookup}
use in_proxy.Text.{Text, codes, ◌==◌, eq_iff}
use in_proxy.Config.{Forward}
use in_proxy.Forwarder.{
  Socket, tcp, udp, socket_eq, Net, Listener, close_socket, stop, Started, start_tcp, start_udp,
  and_start_udp, start_listener, stays, stop_stale,
}

-- How often a socket is held.
unfoldable pub count : Socket → List Socket → ℕ
count k [] = 0
count k (s ∷ held) = (if socket_eq s k then 1 else 0) + count k held

-- Whether a listener has the socket.
unfoldable pub holds : Socket → Listener → ℕ
holds k l =
    (if l.ln && socket_eq (tcp l.fwd.listen) k then 1 else 0)
    + (if l.pc && socket_eq (udp l.fwd.listen) k then 1 else 0)

unfoldable pub total : Socket → List (Text × Listener) → ℕ
unfolding holds
total k [] = 0
total k ((name, l) ∷ active) = holds k l + total k active

socket_eq_iff : (s k : Socket) → (socket_eq s k ≡ true) ↔ (s ≡ k)
unfolding socket_eq
socket_eq_iff (tcp a) (tcp b) = (λ h. ap tcp ((eq_iff a b).0 h), λ h. (eq_iff a b).1 (cc))
socket_eq_iff (udp a) (udp b) = (λ h. ap udp ((eq_iff a b).0 h), λ h. (eq_iff a b).1 (cc))
socket_eq_iff (tcp a) (udp b) = (λ h. cc, λ h. cc)
socket_eq_iff (udp a) (tcp b) = (λ h. cc, λ h. cc)

count-close_socket :
    (s k : Socket) (held : List Socket)
    → 1 ≤ count s held
    → count k held ≡ (if socket_eq s k then 1 else 0) + count k (close_socket s held)
unfolding count close_socket
count-close_socket s k [] h = absurd (ground arith)
count-close_socket s k (r ∷ held) h = elim (Bool-cases (socket_eq r s)) [
  | inl same ↦ let e : r ≡ s = (socket_eq_iff r s).0 same in rw same (rw e refl)
  | inr other ↦ let ih = count-close_socket s k held (ground arith) in rw other (omega arith)
]

count-close_if :
    (on : Bool) (s k : Socket) (held : List Socket)
    → (on ≡ true → 1 ≤ count s held)
    → count k held
      ≡ (if on && socket_eq s k then 1 else 0) + count k (if on then close_socket s held else held)
count-close_if false s k held h = omega arith
count-close_if true s k held h = count-close_socket s k held (h refl)

holds_tcp : (l : Listener) → l.ln ≡ true → 1 ≤ holds (tcp l.fwd.listen) l
unfolding holds
holds_tcp l on =
    let same = (socket_eq_iff (tcp l.fwd.listen) (tcp l.fwd.listen)).1 refl in ground arith

holds_udp : (l : Listener) → l.pc ≡ true → 1 ≤ holds (udp l.fwd.listen) l
unfolding holds
holds_udp l on =
    let same = (socket_eq_iff (udp l.fwd.listen) (udp l.fwd.listen)).1 refl in ground arith

-- A listener that is stopped gives its sockets back, and no other.
pub count-stop :
    (l : Listener) (k : Socket) (held : List Socket)
    → ((j : Socket) → holds j l ≤ count j held)
    → count k held ≡ holds k l + count k (stop l held)
unfolding holds stop socket_eq
count-stop l k held h =
    let t = tcp l.fwd.listen in
    let u = udp l.fwd.listen in
    let has_tcp : l.ln ≡ true → 1 ≤ count t held = λ on. omega (arith, holds_tcp l on, h t) in
    let at_u = count-close_if l.ln t u held has_tcp in
    let has_udp : l.pc ≡ true → 1 ≤ count u (if l.ln then close_socket t held else held) =
      λ on. let some_udp = holds_udp l on in let enough = h u in ground arith in
    let second = count-close_if l.pc u k (if l.ln then close_socket t held else held) has_udp in
    omega (arith, count-close_if l.ln t k held has_tcp, second)

pub stop_stale_tidy :
    (want : List (Text × Forward)) (active : List (Text × Listener)) (held : List Socket)
    (others : Socket → ℕ)
    → ((k : Socket) → count k held ≡ others k + total k active)
    → (k : Socket)
    → count k (stop_stale want active held).1 ≡ others k + total k (stop_stale want active held).0
unfolding stop_stale total
stop_stale_tidy want [] held others h k = h k
stop_stale_tidy want ((name, l) ∷ active) held others h k =
    elim (Bool-cases (stays (lookup ◌==◌ name want) l)) [
      | inl kept ↦
          let ih =
            stop_stale_tidy want active held (λ j. others j + holds j l) (λ j. omega (arith, h j))
              k in
          rw kept (omega (arith, ih))
      | inr stale ↦
          let ih =
            stop_stale_tidy want active (stop l held) others
              (λ j. omega (arith, h j, count-stop l j held (λ i. omega (arith, h i)))) k in
          rw stale ih
    ]

-- What starting a listener adds to the sockets: its own, or nothing.
abbrev pub Adds : List Socket → Started → Type 0
Adds held (err e, after) = (k : Socket) → count k after ≡ count k held
Adds held (ok l, after) = (k : Socket) → count k after ≡ holds k l + count k held

start_tcp-Adds : (net : Net) (fw : Forward) (held : List Socket) → Adds held (start_tcp net fw held)
unfolding start_tcp count holds
start_tcp-Adds net fw held = elim (Bool-cases (fw.proto == codes "udp")) [
  | inl only_udp ↦ rw only_udp λ k. omega arith
  | inr has_tcp ↦ elim (Option-cases (net.listen (tcp fw.listen) held)) [
    | inr (e, bad) ↦ rw has_tcp (rw bad λ k. refl)
    | inl good ↦ rw has_tcp (rw good λ k. ground arith)
  ]
]

abbrev NoUdp : Started → Type 0
NoUdp (err e, after) = Unit
NoUdp (ok l, after) = l.pc ≡ false

start_tcp-NoUdp : (net : Net) (fw : Forward) (held : List Socket) → NoUdp (start_tcp net fw held)
unfolding start_tcp
start_tcp-NoUdp net fw held = elim (Bool-cases (fw.proto == codes "udp")) [
  | inl only_udp ↦ rw only_udp refl
  | inr has_tcp ↦ elim (Option-cases (net.listen (tcp fw.listen) held)) [
    | inr (e, bad) ↦ rw has_tcp (rw bad tt)
    | inl good ↦ rw has_tcp (rw good refl)
  ]
]

stopped_again :
    (l : Listener) (base held : List Socket)
    → ((k : Socket) → count k held ≡ holds k l + count k base)
    → (k : Socket) → count k (stop l held) ≡ count k base
stopped_again l base held h k = omega (arith, h k, count-stop l k held (λ j. omega (arith, h j)))

count-opened :
    (l : Listener) (base held : List Socket)
    → l.pc ≡ false
    → ((k : Socket) → count k held ≡ holds k l + count k base)
    → (k : Socket)
    → count k (udp l.fwd.listen ∷ held) ≡ holds k (record l { pc = true }) + count k base
unfolding count holds
count-opened l base held off h k = let before = h k in ground arith

start_udp-Adds :
    (net : Net) (l : Listener) (base held : List Socket)
    → l.pc ≡ false
    → ((k : Socket) → count k held ≡ holds k l + count k base)
    → Adds base (start_udp net l held)
unfolding start_udp
start_udp-Adds net l base held off h =
    elim (Bool-cases (l.fwd.proto == codes "udp" || l.fwd.proto == codes "tcp+udp")) [
      | inr only_tcp ↦ rw only_tcp h
      | inl has_udp ↦ elim (Option-cases (net.resolve l.fwd.target)) [
        | inr (e, lost) ↦ rw has_udp (rw lost (stopped_again l base held h))
        | inl found ↦ elim (Option-cases (net.listen (udp l.fwd.listen) held)) [
          | inr (e, bad) ↦ rw has_udp (rw found (rw bad (stopped_again l base held h)))
          | inl good ↦ rw has_udp (rw found (rw good (count-opened l base held off h)))
        ]
      ]
    ]

and_start_udp-Adds :
    (net : Net) (base : List Socket) (o : Started)
    → NoUdp o
    → Adds base o
    → Adds base (and_start_udp net o)
unfolding and_start_udp
and_start_udp-Adds net base (err e, held) off h = h
and_start_udp-Adds net base (ok l, held) off h = start_udp-Adds net l base held off h

pub start_listener-Adds :
    (net : Net) (fw : Forward) (held : List Socket) → Adds held (start_listener net fw held)
unfolding start_listener
start_listener-Adds net fw held =
    and_start_udp-Adds net held (start_tcp net fw held) (start_tcp-NoUdp net fw held)
      (start_tcp-Adds net fw held)
