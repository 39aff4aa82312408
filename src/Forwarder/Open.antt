-- ===== src/Forwarder/Open.antt =====
-- The sockets that the listeners of forward.go have open for their forwards.
use in_proxy.Common.{
  ◌≤◌, ◌≡◌, refl, sym, ap, ◌∙◌, subst, true, false, not, List, [], ◌∷◌, ◌++◌, none, some, ok, err,
  if◌then◌else◌, arith, Bool-cases, Option-cases, inl, inr, All,
}
use in_proxy.Common.Dict.{lookup, insert}
use in_proxy.Text.{Text, codes, ◌==◌, eq_iff}
use in_proxy.Config.{Forward}
use in_proxy.Forwarder.{
  Socket, tcp, udp, Net, Listener, Forwarder, Started, stop, runs, stays, start_listener, want_from,
  stop_stale, put_status, add_started, start_one, start_all, apply, new_forwarder,
}
use in_proxy.Forwarder.Sockets.{count, holds, total}
use in_proxy.Forwarder.Started.{
  has_udp, IsOf, start_listener-IsOf, Refused, Settled, running, failed, off,
}
use in_proxy.Forwarder.Tidy.{IsTidy, apply-IsTidy}

-- The sockets that a protocol asks for at an address.
abbrev pub sockets_at : Text → Text → List Socket
sockets_at proto listen =
    if proto == codes "udp"
    then udp listen ∷ []
    else if proto == codes "tcp+udp"
    then tcp listen ∷ udp listen ∷ []
    else tcp listen ∷ []

-- The listener has the sockets that its protocol asks for.
abbrev pub IsWhole : Listener → Type 0
IsWhole l = (l.ln ≡ not (l.fwd.proto == codes "udp")) × (l.pc ≡ has_udp l.fwd.proto)

abbrev AreWhole : List (Text × Listener) → Type 0
AreWhole = All (λ (e : Text × Listener). IsWhole e.1)

holds-sockets_at :
    (l : Listener)
    → IsWhole l
    → (k : Socket) → holds k l ≡ count k (sockets_at l.fwd.proto l.fwd.listen)
unfolding holds count
holds-sockets_at l (t, u) k = elim (Bool-cases (l.fwd.proto == codes "udp")) [
  | inl only_udp ↦ rw t (rw u (rw only_udp (omega arith)))
  | inr other ↦ elim (Bool-cases (l.fwd.proto == codes "tcp+udp")) [
    | inl both ↦ rw t (rw u (rw other (rw both (omega arith))))
    | inr only_tcp ↦ rw t (rw u (rw other (rw only_tcp (omega arith))))
  ]
]

-- Every listener is whole, and the sockets that the process holds are those of the listeners.
pub record IsProper (f : Forwarder) : Type 0 where
  pub tidy : IsTidy f
  pub whole : AreWhole f.active

AreWhole-insert :
    (name : Text) (l : Listener) (active : List (Text × Listener))
    → AreWhole active
    → IsWhole l
    → AreWhole (insert ◌==◌ name l active)
unfolding insert
AreWhole-insert name l [] h p = (p, tt)
AreWhole-insert name l ((key, v) ∷ active) (q, h) p = elim (Bool-cases (key == name)) [
  | inl same ↦ rw same (p, h)
  | inr other ↦ rw other (q, AreWhole-insert name l active h p)
]

AreWhole-lookup :
    (name : Text) (l : Listener) (active : List (Text × Listener))
    → AreWhole active
    → lookup ◌==◌ name active ≡ some l
    → IsWhole l
unfolding lookup
AreWhole-lookup name l [] h e = cc
AreWhole-lookup name l ((key, v) ∷ active) (p, h) e = elim (Bool-cases (key == name)) [
  | inl same ↦ let here : v ≡ l = ground arith in subst IsWhole here p
  | inr other ↦ AreWhole-lookup name l active h (rw other at e)
]

AreWhole-stop_stale :
    (want : List (Text × Forward)) (active : List (Text × Listener)) (held : List Socket)
    → AreWhole active
    → AreWhole (stop_stale want active held).0
unfolding stop_stale
AreWhole-stop_stale want [] held h = tt
AreWhole-stop_stale want ((name, l) ∷ active) held (p, h) =
    elim (Bool-cases (stays (lookup ◌==◌ name want) l)) [
      | inl kept ↦ rw kept (p, AreWhole-stop_stale want active held h)
      | inr stale ↦ rw stale (AreWhole-stop_stale want active (stop l held) h)
    ]

AreWhole-add_started :
    (net : Net) (fw : Forward) (o : Started) (f : Forwarder)
    → IsOf net fw o
    → AreWhole f.active
    → AreWhole (add_started fw o f).active
unfolding add_started put_status
AreWhole-add_started net fw (err e, held) f h v = v
AreWhole-add_started net fw (ok l, held) f (same, t, u) v = AreWhole-insert fw.name l f.active v (
  t ∙ ap (λ (w : Forward). not (w.proto == codes "udp")) (sym same),
  u ∙ ap (λ (w : Forward). has_udp w.proto) (sym same),
)

AreWhole-start_all :
    (net : Net) (fws : List Forward) (f : Forwarder)
    → AreWhole f.active
    → AreWhole (start_all net fws f).active
unfolding start_all start_one put_status
AreWhole-start_all net [] f v = v
AreWhole-start_all net (fw ∷ fws) f v = AreWhole-start_all net fws (start_one net fw f) one
  where
    one : AreWhole (start_one net fw f).active
    one = elim (Bool-cases fw.enabled) [
      | inr disabled ↦ simp disabled v
      | inl on ↦ elim (Option-cases (lookup ◌==◌ fw.name f.active)) [
        | inr (l, there) ↦ simp on (rw there v)
        | inl free ↦ simp on (
            rw free (
              AreWhole-add_started net fw (start_listener net fw f.held) f
                (start_listener-IsOf net fw f.held) v))
      ]
    ]

pub new_forwarder-IsProper : IsProper new_forwarder
unfolding count total
new_forwarder-IsProper = record { tidy = record { accounted = λ k. refl }; whole = tt }

pub apply-IsProper :
    (net : Net) (fws : List Forward) (f : Forwarder) → IsProper f → IsProper (apply net fws f)
unfolding apply
apply-IsProper net fws f v = record {
  tidy = apply-IsTidy net fws f v.tidy;
  whole =
      let (active, held) = stop_stale (want_from [] fws) f.active f.held in
      AreWhole-start_all net fws (record { active = active; status = []; held = held })
        (AreWhole-stop_stale (want_from [] fws) f.active f.held v.whole);
}

holds-total :
    (name : Text) (l : Listener) (active : List (Text × Listener)) (k : Socket)
    → lookup ◌==◌ name active ≡ some l
    → holds k l ≤ total k active
unfolding lookup total
holds-total name l [] k e = cc
holds-total name l ((key, v) ∷ active) k e = elim (Bool-cases (key == name)) [
  | inl same ↦ let here : v ≡ l = ground arith in rw here (omega arith)
  | inr other ↦ omega (arith, holds-total name l active k (rw other at e))
]

-- The forward runs as it is configured: a listener under its name has the configured protocol,
-- addresses and PROXY header, and just the sockets that the protocol asks for, which the process
-- holds.
pub record Runs (fw : Forward) (f : Forwarder) : Type 0 where
  pub listener : Listener
  pub there : lookup ◌==◌ fw.name f.active ≡ some listener
  pub configured : runs listener fw ≡ true
  pub owned : (k : Socket) → holds k listener ≡ count k (sockets_at fw.proto fw.listen)
  pub held : (k : Socket) → count k (sockets_at fw.proto fw.listen) ≤ count k f.held

pub running-Runs :
    (fw : Forward) (f : Forwarder) (l : Listener)
    → IsProper f
    → lookup ◌==◌ fw.name f.active ≡ some l
    → runs l fw ≡ true
    → Runs fw f
unfolding runs
running-Runs fw f l v there same =
    let proto : fw.proto ≡ l.fwd.proto = (eq_iff fw.proto l.fwd.proto).0 (ground arith) in
    let listen : fw.listen ≡ l.fwd.listen = (eq_iff fw.listen l.fwd.listen).0 (ground arith) in
    let owned = λ (k : Socket).
      holds-sockets_at l (AreWhole-lookup fw.name l f.active v.whole there) k
      ∙ ap (λ p. count k (sockets_at p l.fwd.listen)) (sym proto)
      ∙ ap (λ a. count k (sockets_at fw.proto a)) (sym listen) in
    record {
      listener = l;
      there = there;
      configured = same;
      owned = owned;
      held =
          λ k. omega (arith, owned k, v.tidy.accounted k, holds-total fw.name l f.active k there);
    }

-- The forward runs, with status ""; or the network refused it, it does not run, and its status is
-- the error; or it is disabled, does not run, and its status says so.
pub data IsServed (net : Net) (fw : Forward) (f : Forwarder) : Type 0 where
  runs_now :
      fw.enabled ≡ true → Runs fw f → lookup ◌==◌ fw.name f.status ≡ some [] → IsServed net fw f
  was_refused :
      (e : Text)
      → Refused net fw e
      → fw.enabled ≡ true
      → lookup ◌==◌ fw.name f.active ≡ none
      → lookup ◌==◌ fw.name f.status ≡ some (codes "error: " ++ e)
      → IsServed net fw f
  is_off :
      fw.enabled ≡ false
      → lookup ◌==◌ fw.name f.active ≡ none
      → lookup ◌==◌ fw.name f.status ≡ some (codes "disabled")
      → IsServed net fw f

pub Settled-IsServed :
    (net : Net) (fw : Forward) (f : Forwarder) → IsProper f → Settled net fw f → IsServed net fw f
Settled-IsServed net fw f v (running l on there same says) =
    runs_now on (running-Runs fw f l v there same) says
Settled-IsServed net fw f v (failed e why on gone says) = was_refused e why on gone says
Settled-IsServed net fw f v (off disabled gone says) = is_off disabled gone says
