-- ===== src/Forwarder/Started.antt =====
-- What one turn of the second loop of Apply in forward.go does, to its forward and to the others.
use in_proxy.Common.{
  ◌≡◌, ◌≢◌, refl, sym, ap, ◌∙◌, ◌⊎◌, subst, Bool, true, false, ◌||◌, not, List, [], ◌++◌, none,
  some, ok, err, arith, Bool-cases, Option-cases, inl, inr,
}
use in_proxy.Common.Dict.{lookup, insert, lookup-insert}
use in_proxy.Text.{Text, codes, ◌==◌, eq_iff, eq_refl}
use in_proxy.Config.{Forward}
use in_proxy.Forwarder.{
  Socket, tcp, udp, Net, Listener, Forwarder, Started, start_tcp, start_udp, and_start_udp,
  start_listener, runs, put_status, add_started, start_one,
}

-- A forward is relayed over UDP, alone or beside TCP.
abbrev pub HasUdp : Forward → Type 0
HasUdp fw = (fw.proto ≡ codes "udp") ⊎ (fw.proto ≡ codes "tcp+udp")

-- The error is one that the network gave for a socket of the forward, with some sockets held, or for
-- its target.
pub data Refused (net : Net) (fw : Forward) (e : Text) : Type 0 where
  no_tcp :
      (held : List Socket)
      → fw.proto ≢ codes "udp"
      → net.listen (tcp fw.listen) held ≡ some e
      → Refused net fw e
  no_target : HasUdp fw → net.resolve fw.target ≡ some e → Refused net fw e
  no_udp :
      (held : List Socket) → HasUdp fw → net.listen (udp fw.listen) held ≡ some e → Refused net fw e

-- What the forwarder has for a forward: it runs and the status is "", or the network refused it and
-- the status says why, or it is disabled, does not run, and the status says so.
pub data Settled (net : Net) (fw : Forward) (f : Forwarder) : Type 0 where
  running :
      (l : Listener)
      → fw.enabled ≡ true
      → lookup ◌==◌ fw.name f.active ≡ some l
      → runs l fw ≡ true
      → lookup ◌==◌ fw.name f.status ≡ some []
      → Settled net fw f
  failed :
      (e : Text)
      → Refused net fw e
      → fw.enabled ≡ true
      → lookup ◌==◌ fw.name f.active ≡ none
      → lookup ◌==◌ fw.name f.status ≡ some (codes "error: " ++ e)
      → Settled net fw f
  off :
      fw.enabled ≡ false
      → lookup ◌==◌ fw.name f.active ≡ none
      → lookup ◌==◌ fw.name f.status ≡ some (codes "disabled")
      → Settled net fw f

-- Before the second loop comes to a forward: what runs under its name is what is wanted.
abbrev pub Ready : Forward → Forwarder → Type 0
Ready fw f =
    (l : Listener)
    → lookup ◌==◌ fw.name f.active ≡ some l
    → (fw.enabled ≡ true) × (runs l fw ≡ true)

abbrev pub by_name : Forward → Text
by_name fw = fw.name

-- The two maps have the same under a name.
abbrev pub SameAt : Text → Forwarder → Forwarder → Type 0
SameAt name f g =
    (lookup ◌==◌ name g.active ≡ lookup ◌==◌ name f.active)
    × (lookup ◌==◌ name g.status ≡ lookup ◌==◌ name f.status)

pub Settled-SameAt :
    (net : Net) (fw : Forward) (f g : Forwarder)
    → SameAt fw.name f g
    → Settled net fw f
    → Settled net fw g
Settled-SameAt net fw f g (a, t) (running l on there runs_it says) =
    running l on (a ∙ there) runs_it (t ∙ says)
Settled-SameAt net fw f g (a, t) (failed e why on gone says) = failed e why on (a ∙ gone) (t ∙ says)
Settled-SameAt net fw f g (a, t) (off disabled gone says) = off disabled (a ∙ gone) (t ∙ says)

pub set_other :
    {V : Type 0} (k j : Text) (v : V) (m : List (Text × V))
    → k ≢ j
    → lookup ◌==◌ j (insert ◌==◌ k v m) ≡ lookup ◌==◌ j m
set_other k j v m n = elim (Bool-cases (k == j)) [
  | inl same ↦ absurd (n ((eq_iff k j).0 same))
  | inr other ↦ rw other at (lookup-insert ◌==◌ eq_iff k j v m)
]

pub set_same :
    {V : Type 0} (k : Text) (v : V) (m : List (Text × V))
    → lookup ◌==◌ k (insert ◌==◌ k v m) ≡ some v
set_same k v m = rw (eq_refl k) at (lookup-insert ◌==◌ eq_iff k k v m)

abbrev pub has_udp : Text → Bool
has_udp proto = proto == codes "udp" || proto == codes "tcp+udp"

-- The listener that starts is that of the forward, with the sockets that its protocol asks for; what
-- does not start was refused.
abbrev pub IsOf : Net → Forward → Started → Type 0
IsOf net fw (err e, held) = Refused net fw e
IsOf net fw (ok l, held) =
    (l.fwd ≡ fw) × (l.ln ≡ not (fw.proto == codes "udp")) × (l.pc ≡ has_udp fw.proto)

-- The same before UDP is begun.
abbrev IsHalf : Net → Forward → Started → Type 0
IsHalf net fw (err e, held) = Refused net fw e
IsHalf net fw (ok l, held) = (l.fwd ≡ fw) × (l.ln ≡ not (fw.proto == codes "udp")) × (l.pc ≡ false)

has_udp-HasUdp : (fw : Forward) → has_udp fw.proto ≡ true → HasUdp fw
has_udp-HasUdp fw h = elim (Bool-cases (fw.proto == codes "udp")) [
  | inl only_udp ↦ inl ((eq_iff fw.proto (codes "udp")).0 only_udp)
  | inr other ↦ inr ((eq_iff fw.proto (codes "tcp+udp")).0 (ground arith))
]

start_udp-IsOf :
    (net : Net) (fw : Forward) (o : Started) → IsHalf net fw o → IsOf net fw (and_start_udp net o)
unfolding and_start_udp start_udp
start_udp-IsOf net fw (err e, held) h = h
start_udp-IsOf net fw (ok l, held) (same, tcp_open, no_pc) =
    elim (Bool-cases (has_udp l.fwd.proto)) [
      | inr only_tcp ↦
          rw only_tcp
            (same, tcp_open, no_pc ∙ sym only_tcp ∙ ap (λ (w : Forward). has_udp w.proto) same)
      | inl with_udp ↦
          let asked =
            has_udp-HasUdp fw (ap (λ (w : Forward). has_udp w.proto) (sym same) ∙ with_udp) in
          elim (Option-cases (net.resolve l.fwd.target)) [
            | inr (e, lost) ↦ rw with_udp (
                rw lost
                  (no_target asked (ap (λ (w : Forward). net.resolve w.target) (sym same) ∙ lost)))
            | inl found ↦ elim (Option-cases (net.listen (udp l.fwd.listen) held)) [
              | inr (e, bad) ↦ rw with_udp (
                  rw found (
                    rw bad (
                      no_udp held asked
                        (ap (λ (w : Forward). net.listen (udp w.listen) held) (sym same) ∙ bad))))
              | inl good ↦ rw with_udp (
                  rw found (
                    rw good
                      (same, tcp_open, sym with_udp ∙ ap (λ (w : Forward). has_udp w.proto) same)))
            ]
          ]
    ]

start_tcp-IsHalf :
    (net : Net) (fw : Forward) (held : List Socket) → IsHalf net fw (start_tcp net fw held)
unfolding start_tcp
start_tcp-IsHalf net fw held = elim (Bool-cases (fw.proto == codes "udp")) [
  | inl only_udp ↦ rw only_udp (refl, rw only_udp refl, refl)
  | inr has_tcp ↦ elim (Option-cases (net.listen (tcp fw.listen) held)) [
    | inr (e, bad) ↦
        rw has_tcp
          (rw bad (no_tcp held (λ same. cc (has_tcp, (eq_iff fw.proto (codes "udp")).1 same)) bad))
    | inl good ↦ rw has_tcp (rw good (refl, rw has_tcp refl, refl))
  ]
]

pub start_listener-IsOf :
    (net : Net) (fw : Forward) (held : List Socket) → IsOf net fw (start_listener net fw held)
unfolding start_listener
start_listener-IsOf net fw held =
    start_udp-IsOf net fw (start_tcp net fw held) (start_tcp-IsHalf net fw held)

runs_own : (l : Listener) → runs l l.fwd ≡ true
unfolding runs
runs_own l = ground (arith, eq_refl l.fwd.proto, eq_refl l.fwd.listen, eq_refl l.fwd.target)

add_started-Settled :
    (net : Net) (fw : Forward) (o : Started) (f : Forwarder)
    → fw.enabled ≡ true
    → lookup ◌==◌ fw.name f.active ≡ none
    → IsOf net fw o
    → Settled net fw (add_started fw o f)
unfolding add_started put_status
add_started-Settled net fw (err e, held) f on free h =
    failed e h on free (set_same fw.name (codes "error: " ++ e) f.status)
add_started-Settled net fw (ok l, held) f on free (h, _, _) =
    running l on (set_same fw.name l f.active) (subst (λ w. runs l w ≡ true) h (runs_own l))
      (set_same fw.name [] f.status)

pub start_one-Settled :
    (net : Net) (fw : Forward) (f : Forwarder) → Ready fw f → Settled net fw (start_one net fw f)
unfolding start_one put_status
start_one-Settled net fw f ready = elim (Option-cases (lookup ◌==◌ fw.name f.active)) [
  | inr (l, there) ↦
      let (on, same) = ready l there in
      simp on (rw there (running l on there same (set_same fw.name [] f.status)))
  | inl free ↦ elim (Bool-cases fw.enabled) [
    | inr disabled ↦
        simp disabled (off disabled free (set_same fw.name (codes "disabled") f.status))
    | inl on ↦ simp on (
        rw free (
          add_started-Settled net fw (start_listener net fw f.held) f on free
            (start_listener-IsOf net fw f.held)))
  ]
]

add_started-SameAt :
    (fw : Forward) (o : Started) (f : Forwarder) (name : Text)
    → fw.name ≢ name
    → SameAt name f (add_started fw o f)
unfolding add_started put_status
add_started-SameAt fw (err e, held) f name n =
    (refl, set_other fw.name name (codes "error: " ++ e) f.status n)
add_started-SameAt fw (ok l, held) f name n =
    (set_other fw.name name l f.active n, set_other fw.name name [] f.status n)

pub start_one-SameAt :
    (net : Net) (fw : Forward) (f : Forwarder) (name : Text)
    → fw.name ≢ name
    → SameAt name f (start_one net fw f)
unfolding start_one put_status
start_one-SameAt net fw f name n = elim (Bool-cases fw.enabled) [
  | inr disabled ↦ simp disabled (refl, set_other fw.name name (codes "disabled") f.status n)
  | inl on ↦ elim (Option-cases (lookup ◌==◌ fw.name f.active)) [
    | inr (l, there) ↦ simp on (rw there (refl, set_other fw.name name [] f.status n))
    | inl free ↦ simp on (rw free (add_started-SameAt fw (start_listener net fw f.held) f name n))
  ]
]
