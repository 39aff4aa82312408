-- ===== src/Forwarder/Reconcile.antt =====
-- Apply of forward.go: which forwards run afterwards, and what their status says.
use in_proxy.Common.{
  ◌≡◌, ◌≢◌, refl, sym, ◌∙◌, subst, true, List, [], ◌∷◌, none, some, arith, Bool-cases, Option-cases,
  inl, inr, All, In, Distinct, All-In,
}
use in_proxy.Common.Dict.{lookup, insert}
use in_proxy.Text.{Text, ◌==◌, eq_iff}
use in_proxy.Config.{Forward}
use in_proxy.Forwarder.{
  Socket, Net, Listener, Forwarder, want_from, runs, stays, stop, stop_stale, start_one, start_all,
  apply,
}
use in_proxy.Forwarder.Open.{IsProper, IsServed, Settled-IsServed, apply-IsProper}
use in_proxy.Forwarder.Started.{
  Settled, Ready, by_name, SameAt, Settled-SameAt, set_other, set_same, start_one-Settled,
  start_one-SameAt,
}

-- A name that no forward has is left alone.
start_all-SameAt :
    (net : Net) (fws : List Forward) (f : Forwarder) (name : Text)
    → All (λ fw. name ≢ by_name fw) fws
    → SameAt name f (start_all net fws f)
unfolding start_all
start_all-SameAt net [] f name h = (refl, refl)
start_all-SameAt net (fw ∷ fws) f name (n, h) =
    let (a, t) = start_one-SameAt net fw f name (λ e. n (sym e)) in
    let (b, u) = start_all-SameAt net fws (start_one net fw f) name h in (b ∙ a, u ∙ t)

start_all-Settled :
    (net : Net) (fws : List Forward) (f : Forwarder)
    → Distinct by_name fws
    → ((q : Forward) → In q fws → Ready q f)
    → (q : Forward) → In q fws
    → Settled net q (start_all net fws f)
unfolding start_all
start_all-Settled net [] f d ready q i = absurd i
start_all-Settled net (fw ∷ fws) f (apart, d) ready q (inl same) =
    let settled = start_one-Settled net fw f (ready fw (inl refl)) in
    subst (λ w. Settled net w (start_all net fws (start_one net fw f))) (sym same)
      (Settled-SameAt net fw (start_one net fw f) (start_all net fws (start_one net fw f))
        (start_all-SameAt net fws (start_one net fw f) fw.name apart) settled)
start_all-Settled net (fw ∷ fws) f (apart, d) ready q (inr i) =
    start_all-Settled net fws (start_one net fw f) d
      (λ w j l there.
        let n = All-In (λ v. fw.name ≢ by_name v) fws w apart j in
        ready w (inr j) l (sym ((start_one-SameAt net fw f w.name n).0) ∙ there))
      q i

-- What the first loop leaves under a name passes its test.
stop_stale-lookup :
    (want : List (Text × Forward)) (active : List (Text × Listener)) (held : List Socket)
    (name : Text) (l : Listener)
    → lookup ◌==◌ name (stop_stale want active held).0 ≡ some l
    → stays (lookup ◌==◌ name want) l ≡ true
unfolding stop_stale lookup
stop_stale-lookup want [] held name l h = cc
stop_stale-lookup want ((key, v) ∷ active) held name l h =
    elim (Bool-cases (stays (lookup ◌==◌ key want) v)) [
      | inr stale ↦ stop_stale-lookup want active (stop v held) name l (rw stale at h)
      | inl kept ↦ elim (Bool-cases (key == name)) [
        | inl same ↦
            let here : v ≡ l = ground arith in
            let key_same = (eq_iff key name).0 same in
            subst (λ k. stays (lookup ◌==◌ k want) l ≡ true) key_same
              (subst (λ w. stays (lookup ◌==◌ key want) w ≡ true) here kept)
        | inr other ↦ stop_stale-lookup want active held name l (rw other at (rw kept at h))
      ]
    ]

want_from-other :
    (fws : List Forward) (m : List (Text × Forward)) (name : Text)
    → All (λ fw. name ≢ by_name fw) fws
    → lookup ◌==◌ name (want_from m fws) ≡ lookup ◌==◌ name m
unfolding want_from
want_from-other [] m name h = refl
want_from-other (fw ∷ fws) m name (n, h) =
    want_from-other fws (insert ◌==◌ fw.name fw m) name h
    ∙ set_other fw.name name fw m (λ e. n (sym e))

want_from-lookup :
    (fws : List Forward) (m : List (Text × Forward)) (q : Forward)
    → Distinct by_name fws
    → In q fws
    → lookup ◌==◌ q.name (want_from m fws) ≡ some q
unfolding want_from
want_from-lookup [] m q d i = absurd i
want_from-lookup (fw ∷ fws) m q (apart, d) (inl same) =
    subst (λ w. lookup ◌==◌ w.name (want_from (insert ◌==◌ fw.name fw m) fws) ≡ some w) (sym same)
      (want_from-other fws (insert ◌==◌ fw.name fw m) fw.name apart ∙ set_same fw.name fw m)
want_from-lookup (fw ∷ fws) m q (apart, d) (inr i) =
    want_from-lookup fws (insert ◌==◌ fw.name fw m) q d i

stays-some :
    (w : Forward) (l : Listener) → stays (some w) l ≡ true → (w.enabled ≡ true) × (runs l w ≡ true)
unfolding stays
stays-some w l h = (ground arith, ground arith)

pub apply_settles :
    (net : Net) (fws : List Forward) (f : Forwarder)
    → Distinct by_name fws
    → ((fw : Forward) → In fw fws → Settled net fw (apply net fws f))
      × ((name : Text)
          → All (λ fw. name ≢ by_name fw) fws
          → lookup ◌==◌ name (apply net fws f).active ≡ none)
unfolding apply stays
apply_settles net fws f d =
    let want = want_from [] fws in
    let active = (stop_stale want f.active f.held).0 in
    let held = (stop_stale want f.active f.held).1 in
    let g : Forwarder = record { active = active; status = []; held = held } in
    (
      start_all-Settled net fws g d λ q i l there.
          let kept = stop_stale-lookup want f.active f.held q.name l there in
          stays-some q l (rw (want_from-lookup fws [] q d i) at kept),
      λ name h.
          (start_all-SameAt net fws g name h).0 ∙ elim (Option-cases (lookup ◌==◌ name active)) [
            | inl gone ↦ gone
            | inr (l, there) ↦
                let kept = stop_stale-lookup want f.active f.held name l there in
                absurd (cc (rw (want_from-other fws [] name h) at kept))
          ],
    )

-- After Apply of forwards of distinct names, whatever ran before, if each listener had the sockets of
-- its protocol and the process held just those of the listeners: each enabled forward has a listener
-- with its protocol, addresses and PROXY header, and with the sockets that its protocol asks for, all
-- held, and status ""; or the network refused a socket or its target, it does not run, and its status
-- is that error; a disabled one does not run and has the status "disabled"; no other name runs; and
-- again each listener has the sockets of its protocol, and the process holds just those.
pub apply_reconciles :
    (net : Net) (fws : List Forward) (f : Forwarder)
    → Distinct by_name fws
    → IsProper f
    → ((fw : Forward) → In fw fws → IsServed net fw (apply net fws f))
      × ((name : Text)
          → All (λ fw. name ≢ by_name fw) fws
          → lookup ◌==◌ name (apply net fws f).active ≡ none)
      × IsProper (apply net fws f)
apply_reconciles net fws f d v =
    let (settled, no_others) = apply_settles net fws f d in
    let proper = apply-IsProper net fws f v in
    (λ fw i. Settled-IsServed net fw (apply net fws f) proper (settled fw i), no_others, proper)
