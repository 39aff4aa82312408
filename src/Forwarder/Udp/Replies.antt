-- ===== src/Forwarder/Udp/Replies.antt =====
-- Where replies go, and when sessions end: udpLoop of forward.go.
use in_proxy.Common.{
  ℕ, ◌-◌, ◌≡◌, ◌≢◌, refl, ap, ◌∙◌, subst, true, false, List, [], ◌∷◌, ◌++◌, Option, none, some,
  if◌then◌else◌, ltb, leb, nat_eq, arith, ◌+◌, Bool, Bool-cases, Option-cases, inl, inr, All,
  All-weaken,
}
use in_proxy.Common.Dict.{lookup, insert, lookup-insert}
use in_proxy.Text.{Text, ◌==◌, eq_iff, eq_refl}
use in_proxy.Forwarder.Udp.{
  UdpSession, UdpLoop, idle, Event, datagram, tick, reply, quit, start, use_session, take_datagram,
  reap, owner, take_reply, step, run_events,
}
use in_proxy.Forwarder.Udp.Isolated.{
  Sessions, Apart, AreIsolated, IsIsolated, All-lookup, All-reap, take_datagram-IsIsolated,
  run_events-IsIsolated,
}

start-IsIsolated : IsIsolated start
start-IsIsolated = record { sessions = tt }

owner-AreIsolated :
    (n : ℕ) (k : Text) (s : UdpSession) (es : Sessions)
    → AreIsolated n es
    → lookup ◌==◌ k es ≡ some s
    → owner s.back es ≡ some k
unfolding lookup owner
owner-AreIsolated n k s [] h e = cc
owner-AreIsolated n k s ((key, v) ∷ es) (b, a, h) e = elim (Bool-cases (key == k)) [
  | inl same ↦
      let here : v ≡ s = ground arith in
      let backs : v.back ≡ s.back = ap (λ (w : UdpSession). w.back) here in
      let hit : nat_eq v.back s.back ≡ true = ground arith in
      rw hit (ap some ((eq_iff key k).0 same))
  | inr other ↦
      let there = rw other at e in
      let apart = All-lookup (Apart (key, v)) k s es a there in
      let miss : nat_eq v.back s.back ≡ false = let n = apart.1 in ground arith in
      rw miss (owner-AreIsolated n k s es h there)
]

set_same : (k : Text) (v : UdpSession) (m : Sessions) → lookup ◌==◌ k (insert ◌==◌ k v m) ≡ some v
set_same k v m = rw (eq_refl k) at (lookup-insert ◌==◌ eq_iff k k v m)

-- The socket that a datagram of a client is written to, and who has its session afterwards.
abbrev Delivered : Text → List ℕ → UdpLoop → UdpLoop → Type 0
Delivered key bytes u after =
    (s : UdpSession) × (lookup ◌==◌ key after.sessions ≡ some s)
    × (after.sent ≡ u.sent ++ ((s.back, bytes) ∷ []))

take_datagram-Delivered :
    (key : Text) (bytes : List ℕ) (now : ℕ) (u : UdpLoop)
    → Delivered key bytes u (take_datagram key bytes now true u)
unfolding take_datagram use_session
take_datagram-Delivered key bytes now u = elim (Option-cases (lookup ◌==◌ key u.sessions)) [
  | inr (s, there) ↦
      rw (there, take_datagram)
        (record s { last = now }, set_same key (record s { last = now }) u.sessions, refl)
  | inl free ↦
      rw (free, take_datagram)
        (
          record { back = u.next; last = now },
          set_same key (record { back = u.next; last = now }) u.sessions,
          refl,
        )
]

answered-take_reply :
    (back : ℕ) (bytes : List ℕ) (key : Text) (u : UdpLoop)
    → owner back u.sessions ≡ some key
    → (take_reply back bytes u).answered ≡ u.answered ++ ((key, bytes) ∷ [])
unfolding take_reply
answered-take_reply back bytes key u owned = rw (owned, take_reply) refl

step-datagram :
    (key : Text) (bytes : List ℕ) (now : ℕ) (u : UdpLoop)
    → u.listening ≡ true
    → step (datagram key bytes now true) u ≡ take_datagram key bytes now true u
unfolding step
step-datagram key bytes now u on = simp on refl

sessions-take_reply :
    (back : ℕ) (bytes : List ℕ) (u : UdpLoop) → (take_reply back bytes u).sessions ≡ u.sessions
unfolding take_reply
sessions-take_reply back bytes u = elim (Option-cases (owner back u.sessions)) [
  | inl gone ↦ rw (gone, take_reply) refl
  | inr (key, there) ↦ rw (there, take_reply) refl
]

-- After any events that leave the listener open, a datagram of a client, if a socket can be had, is
-- written to one socket toward the backend, and a reply on that socket goes to that client, and to no
-- other.
pub datagram_answered :
    (es : List Event) (key : Text) (bytes answer : List ℕ) (now : ℕ)
    → (run_events es start).listening ≡ true
    → (back : ℕ) × ((step (datagram key bytes now true) (run_events es start)).sent
        ≡ (run_events es start).sent ++ ((back, bytes) ∷ []))
      × ((step
            (reply back answer)
            (step (datagram key bytes now true) (run_events es start))).answered
          ≡ (step (datagram key bytes now true) (run_events es start)).answered
            ++ ((key, answer) ∷ []))
unfolding step
datagram_answered es key bytes answer now on =
    let u = run_events es start in
    let v = run_events-IsIsolated es start start-IsIsolated in
    let after = take_datagram key bytes now true u in
    let w = take_datagram-IsIsolated key bytes now true u v in
    let (s, there, sent) = take_datagram-Delivered key bytes now u in
    let owned = owner-AreIsolated after.next key s after.sessions w.sessions there in
    rw (step-datagram key bytes now u on)
      (s.back, sent, answered-take_reply s.back answer key after owned)

-- What the reaper leaves of a session.
abbrev keep_fresh : ℕ → Option UdpSession → Option UdpSession
keep_fresh now none = none
keep_fresh now (some s) = if ltb idle (now - s.last) then none else some s

lookup-absent : (k : Text) (es : Sessions) → All (λ b. b.0 ≢ k) es → lookup ◌==◌ k es ≡ none
unfolding lookup
lookup-absent k [] h = refl
lookup-absent k ((key, v) ∷ es) (n, h) = elim (Bool-cases (key == k)) [
  | inl same ↦ absurd (n ((eq_iff key k).0 same))
  | inr other ↦ rw other (lookup-absent k es h)
]

lookup-reap :
    (n now : ℕ) (k : Text) (es : Sessions)
    → AreIsolated n es
    → lookup ◌==◌ k (reap now es) ≡ keep_fresh now (lookup ◌==◌ k es)
unfolding lookup reap
lookup-reap n now k [] h = refl
lookup-reap n now k ((key, v) ∷ es) (b, a, h) = elim (Bool-cases (ltb idle (now - v.last))) [
  | inl old ↦ elim (Bool-cases (key == k)) [
    | inl same ↦
        let gone : All (λ b. b.0 ≢ k) es =
          subst (λ j. All (λ b. b.0 ≢ j) es) ((eq_iff key k).0 same)
            (All-weaken (Apart (key, v)) (λ b. b.0 ≢ key) (λ b p. p.0) es a) in
        rw old (
          rw same (
            rw (lookup-absent k (reap now es) (All-reap (λ b. b.0 ≢ k) now es gone)) (rw old refl)))
    | inr other ↦ rw old (rw other (lookup-reap n now k es h))
  ]
  | inr fresh ↦ elim (Bool-cases (key == k)) [
    | inl same ↦ rw fresh (rw same (rw fresh refl))
    | inr other ↦ rw fresh (rw other (lookup-reap n now k es h))
  ]
]

-- An event that is neither a datagram of the client nor a tick of the reaper nor the end.
abbrev pub IsOther : Text → Event → Type 0
IsOther key (datagram k bytes now dials) = k ≢ key
IsOther key (reply back bytes) = Unit
IsOther key (tick now) = ⊥
IsOther key quit = ⊥

set_other :
    (k key : Text) (v : UdpSession) (m : Sessions)
    → k ≢ key
    → lookup ◌==◌ key (insert ◌==◌ k v m) ≡ lookup ◌==◌ key m
set_other k key v m n = elim (Bool-cases (k == key)) [
  | inl same ↦ absurd (n ((eq_iff k key).0 same))
  | inr other ↦ rw other at (lookup-insert ◌==◌ eq_iff k key v m)
]

take_datagram-other :
    (key k : Text) (bytes : List ℕ) (now : ℕ) (dials : Bool) (u : UdpLoop)
    → k ≢ key
    → lookup ◌==◌ key (take_datagram k bytes now dials u).sessions ≡ lookup ◌==◌ key u.sessions
unfolding take_datagram use_session
take_datagram-other key k bytes now dials u n = elim (Option-cases (lookup ◌==◌ k u.sessions)) [
  | inr (s, there) ↦
      rw (there, take_datagram) (set_other k key (record s { last = now }) u.sessions n)
  | inl free ↦ elim (Bool-cases dials) [
    | inl good ↦
        rw (free, take_datagram)
          (rw good (set_other k key (record { back = u.next; last = now }) u.sessions n))
    | inr bad ↦ rw (free, take_datagram) (rw bad refl)
  ]
]

step-other :
    (key : Text) (e : Event) (u : UdpLoop)
    → IsOther key e
    → lookup ◌==◌ key (step e u).sessions ≡ lookup ◌==◌ key u.sessions
unfolding step
step-other key (datagram k bytes now dials) u n = elim (Bool-cases u.listening) [
  | inl on ↦ simp on (take_datagram-other key k bytes now dials u n)
  | inr shut ↦ simp shut refl
]
step-other key (reply back bytes) u n = ap (lookup ◌==◌ key) (sessions-take_reply back bytes u)
step-other key (tick now) u n = absurd n
step-other key quit u n = absurd n

run_events-other :
    (key : Text) (es : List Event) (u : UdpLoop)
    → All (IsOther key) es
    → lookup ◌==◌ key (run_events es u).sessions ≡ lookup ◌==◌ key u.sessions
unfolding run_events
run_events-other key [] u h = refl
run_events-other key (e ∷ es) u (n, h) = run_events-other key es (step e u) h ∙ step-other key e u n

-- The time of the session is that of the datagram, new or not.
take_datagram-last :
    (key : Text) (bytes : List ℕ) (now : ℕ) (u : UdpLoop)
    → (back : ℕ) × (lookup ◌==◌ key (take_datagram key bytes now true u).sessions
        ≡ some (record { back = back; last = now }))
unfolding take_datagram use_session
take_datagram-last key bytes now u = elim (Option-cases (lookup ◌==◌ key u.sessions)) [
  | inr (s, there) ↦
      rw (there, take_datagram) (s.back, set_same key (record s { last = now }) u.sessions)
  | inl free ↦
      rw (free, take_datagram)
        (u.next, set_same key (record { back = u.next; last = now }) u.sessions)
]

abbrev pub lives : Option UdpSession → Bool
lives none = false
lives (some s) = true

lives-keep_fresh :
    (back now sent : ℕ)
    → lives (keep_fresh now (some (record { back = back; last = sent }))) ≡ leb now (sent + 90)
lives-keep_fresh back now sent = elim (Bool-cases (ltb idle (now - sent))) [
  | inl old ↦ rw old (ground arith)
  | inr fresh ↦ rw fresh (ground arith)
]

abbrev pub has_session : Text → UdpLoop → Bool
has_session key u = lives (lookup ◌==◌ key u.sessions)

-- After any events that leave the listener open, a datagram of a client for which a socket can be had,
-- and then any datagrams of other clients and any replies: a tick of the reaper at a time leaves the
-- client its session exactly if the time is at most 90 seconds after that datagram, whenever earlier
-- datagrams and however recent the replies were.
pub tick_lem :
    (before after : List Event) (key : Text) (bytes : List ℕ) (sent now : ℕ)
    → (run_events before start).listening ≡ true
    → All (IsOther key) after
    → has_session key (
        step
          (tick now)
          (run_events after (step (datagram key bytes sent true) (run_events before start))))
      ≡ leb now (sent + 90)
unfolding step
tick_lem before after key bytes sent now on others =
    let u = run_events before start in
    let v = run_events-IsIsolated before start start-IsIsolated in
    let w = take_datagram key bytes sent true u in
    let isolated =
      run_events-IsIsolated after w (take_datagram-IsIsolated key bytes sent true u v) in
    let (back, there) = take_datagram-last key bytes sent u in
    let t = run_events after w in
    let kept =
      lookup-reap t.next now key t.sessions isolated.sessions
      ∙ ap (keep_fresh now) (run_events-other key after w others ∙ there) in
    rw (step-datagram key bytes sent u on) (ap lives kept ∙ lives-keep_fresh back now sent)
