-- ===== src/Forwarder/Udp/Isolated.antt =====
-- The keys and the sockets of the clients of udpLoop in forward.go.
use in_proxy.Common.{
  ℕ, ◌+◌, ◌-◌, ◌<◌, ◌≡◌, ◌≢◌, sym, ap, subst, Bool, false, List, [], ◌∷◌, none, some, ltb, arith,
  Bool-cases, Option-cases, inl, inr, All,
}
use in_proxy.Common.Dict.{lookup, insert}
use in_proxy.Text.{Text, ◌==◌, eq_iff}
use in_proxy.Forwarder.Udp.{
  UdpSession, UdpLoop, idle, Event, datagram, tick, reply, quit, use_session, take_datagram, reap,
  owner, take_reply, step, run_events,
}

abbrev pub Sessions : Type 0
Sessions = List (Text × UdpSession)

abbrev pub Apart : Text × UdpSession → Text × UdpSession → Type 0
Apart a b = (b.0 ≢ a.0) × (b.1.back ≢ a.1.back)

-- Every socket was opened before, and no two clients share a key or a socket.
abbrev pub AreIsolated : ℕ → Sessions → Type 0
AreIsolated n [] = Unit
AreIsolated n (e ∷ es) = (e.1.back < n) × All (λ b. Apart e b) es × AreIsolated n es

pub All-lookup :
    (P : Text × UdpSession → Type 0) (k : Text) (s : UdpSession) (es : Sessions)
    → All P es
    → lookup ◌==◌ k es ≡ some s
    → P (k, s)
unfolding lookup
All-lookup P k s [] h e = cc
All-lookup P k s ((key, v) ∷ es) (p, h) e = elim (Bool-cases (key == k)) [
  | inl same ↦
      let here : v ≡ s = ground arith in
      subst (λ j. P (j, s)) ((eq_iff key k).0 same) (subst (λ w. P (key, w)) here p)
  | inr other ↦ All-lookup P k s es h (rw other at e)
]

pub All-insert :
    (P : Text × UdpSession → Type 0) (k : Text) (s : UdpSession) (es : Sessions)
    → All P es
    → P (k, s)
    → All P (insert ◌==◌ k s es)
unfolding insert
All-insert P k s [] h p = (p, tt)
All-insert P k s ((key, v) ∷ es) (q, h) p = elim (Bool-cases (key == k)) [
  | inl same ↦ rw same (p, h)
  | inr other ↦ rw other (q, All-insert P k s es h p)
]

pub All-reap :
    (P : Text × UdpSession → Type 0) (now : ℕ) (es : Sessions) → All P es → All P (reap now es)
unfolding reap
All-reap P now [] h = tt
All-reap P now ((key, s) ∷ es) (p, h) = elim (Bool-cases (ltb idle (now - s.last))) [
  | inl old ↦ rw old (All-reap P now es h)
  | inr fresh ↦ rw fresh (p, All-reap P now es h)
]

AreIsolated-reap : (n now : ℕ) (es : Sessions) → AreIsolated n es → AreIsolated n (reap now es)
unfolding reap
AreIsolated-reap n now [] h = tt
AreIsolated-reap n now ((key, s) ∷ es) (b, a, h) = elim (Bool-cases (ltb idle (now - s.last))) [
  | inl old ↦ rw old (AreIsolated-reap n now es h)
  | inr fresh ↦ rw fresh (b, All-reap (Apart (key, s)) now es a, AreIsolated-reap n now es h)
]

AreIsolated-weaken : (n : ℕ) (es : Sessions) → AreIsolated n es → AreIsolated (1 + n) es
AreIsolated-weaken n [] h = tt
AreIsolated-weaken n (e ∷ es) (b, a, h) = (omega arith, a, AreIsolated-weaken n es h)

key_differs : (key k : Text) → key == k ≡ false → k ≢ key
key_differs key k h e = let hit = (eq_iff key k).1 (sym e) in cc

-- A session that is used again keeps its socket.
AreIsolated-insert_same :
    (n now : ℕ) (k : Text) (s : UdpSession) (es : Sessions)
    → lookup ◌==◌ k es ≡ some s
    → AreIsolated n es
    → AreIsolated n (insert ◌==◌ k (record s { last = now }) es)
unfolding lookup insert
AreIsolated-insert_same n now k s [] e h = cc
AreIsolated-insert_same n now k s ((key, v) ∷ es) e (b, a, h) = elim (Bool-cases (key == k)) [
  | inl same ↦
      let here : v ≡ s = ground arith in
      let backs : v.back ≡ s.back = ap (λ (w : UdpSession). w.back) here in
      let keys : key ≡ k = (eq_iff key k).0 same in
      rw same (
        rw backs at b,
        subst (λ j. All (λ c. (c.0 ≢ j) × (c.1.back ≢ s.back)) es) keys
            (subst (λ w. All (λ c. (c.0 ≢ key) × (c.1.back ≢ w)) es) backs a),
        h,
      )
  | inr other ↦
      let there = rw other at e in
      let apart = All-lookup (Apart (key, v)) k s es a there in
      rw other (
        b,
        All-insert (Apart (key, v)) k (record s { last = now }) es a (apart.0, apart.1),
        AreIsolated-insert_same n now k s es there h,
      )
]

-- A new session has a new socket.
AreIsolated-insert_new :
    (n now : ℕ) (k : Text) (es : Sessions)
    → lookup ◌==◌ k es ≡ none
    → AreIsolated n es
    → AreIsolated (1 + n) (insert ◌==◌ k (record { back = n; last = now }) es)
unfolding lookup insert
AreIsolated-insert_new n now k [] e h = (omega arith, tt, tt)
AreIsolated-insert_new n now k ((key, v) ∷ es) e (b, a, h) = elim (Bool-cases (key == k)) [
  | inl same ↦ absurd (ground arith)
  | inr other ↦ rw other (
    omega arith,
    All-insert (Apart (key, v)) k (record { back = n; last = now }) es a
        (key_differs key k other, λ same. absurd (omega (arith, same))),
    AreIsolated-insert_new n now k es (rw other at e) h,
  )
]

pub record IsIsolated (u : UdpLoop) : Type 0 where
  pub sessions : AreIsolated u.next u.sessions

pub take_datagram-IsIsolated :
    (key : Text) (bytes : List ℕ) (now : ℕ) (dials : Bool) (u : UdpLoop)
    → IsIsolated u
    → IsIsolated (take_datagram key bytes now dials u)
unfolding take_datagram use_session
take_datagram-IsIsolated key bytes now dials u v =
    elim (Option-cases (lookup ◌==◌ key u.sessions)) [
      | inr (s, there) ↦
          rw (there, take_datagram)
            (record {
              sessions = AreIsolated-insert_same u.next now key s u.sessions there v.sessions;
            })
      | inl free ↦ elim (Bool-cases dials) [
        | inl dialled ↦
            rw (free, take_datagram)
              (rw dialled (record {
                sessions = AreIsolated-insert_new u.next now key u.sessions free v.sessions;
              }))
        | inr refused ↦ rw (free, take_datagram) (rw refused v)
      ]
    ]

take_reply-IsIsolated :
    (back : ℕ) (bytes : List ℕ) (u : UdpLoop) → IsIsolated u → IsIsolated (take_reply back bytes u)
unfolding take_reply
take_reply-IsIsolated back bytes u v = elim (Option-cases (owner back u.sessions)) [
  | inl gone ↦ rw (gone, take_reply) v
  | inr (key, there) ↦ rw (there, take_reply) (record { sessions = v.sessions })
]

step-IsIsolated : (e : Event) (u : UdpLoop) → IsIsolated u → IsIsolated (step e u)
unfolding step
step-IsIsolated (datagram key bytes now dials) u v = elim (Bool-cases u.listening) [
  | inl on ↦ simp on (take_datagram-IsIsolated key bytes now dials u v)
  | inr off ↦ simp off v
]
step-IsIsolated (tick now) u v = record {
  sessions = AreIsolated-reap u.next now u.sessions v.sessions;
}
step-IsIsolated (reply back bytes) u v = take_reply-IsIsolated back bytes u v
step-IsIsolated quit u v = record { sessions = tt }

pub run_events-IsIsolated :
    (es : List Event) (u : UdpLoop) → IsIsolated u → IsIsolated (run_events es u)
unfolding run_events
run_events-IsIsolated [] u v = v
run_events-IsIsolated (e ∷ es) u v = run_events-IsIsolated es (step e u) (step-IsIsolated e u v)
