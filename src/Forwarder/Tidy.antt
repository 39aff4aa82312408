-- ===== src/Forwarder/Tidy.antt =====
-- Apply and Shutdown of forward.go, and the sockets that the process holds.
use in_proxy.Common.{
  ◌+◌, ◌≡◌, refl, ◌∙◌, List, [], ◌∷◌, none, ok, err, arith, Bool-cases, Option-cases, inl, inr,
}
use in_proxy.Common.Dict.{lookup, insert}
use in_proxy.Text.{Text, ◌==◌}
use in_proxy.Config.{Forward}
use in_proxy.Forwarder.{
  Socket, Net, Listener, Forwarder, stop, Started, start_listener, want_from, stop_stale,
  put_status, add_started, start_one, start_all, apply, stop_every, shutdown,
}
use in_proxy.Forwarder.Sockets.{
  count, holds, total, count-stop, stop_stale_tidy, Adds, start_listener-Adds,
}

-- Each socket is held as often as the listeners that are kept have it.
pub record IsTidy (f : Forwarder) : Type 0 where
  pub accounted : (k : Socket) → count k f.held ≡ total k f.active

total-insert :
    (name : Text) (l : Listener) (active : List (Text × Listener)) (k : Socket)
    → lookup ◌==◌ name active ≡ none
    → total k (insert ◌==◌ name l active) ≡ holds k l + total k active
unfolding total lookup insert
total-insert name l [] k h = refl
total-insert name l ((key, v) ∷ active) k h = elim (Bool-cases (key == name)) [
  | inl same ↦ absurd (ground arith)
  | inr other ↦
      let ih = total-insert name l active k (rw other at h) in rw other (omega (arith, ih))
]

add_started-IsTidy :
    (fw : Forward) (o : Started) (f : Forwarder)
    → IsTidy f
    → lookup ◌==◌ fw.name f.active ≡ none
    → Adds f.held o
    → IsTidy (add_started fw o f)
unfolding add_started put_status
add_started-IsTidy fw (err e, held) f v free h = record { accounted = λ k. h k ∙ v.accounted k }
add_started-IsTidy fw (ok l, held) f v free h = record {
  accounted = λ k. omega (arith, h k, v.accounted k, total-insert fw.name l f.active k free);
}

start_one-IsTidy :
    (net : Net) (fw : Forward) (f : Forwarder) → IsTidy f → IsTidy (start_one net fw f)
unfolding start_one put_status
start_one-IsTidy net fw f v = elim (Bool-cases fw.enabled) [
  | inr off ↦ simp off (record { accounted = v.accounted })
  | inl on ↦ elim (Option-cases (lookup ◌==◌ fw.name f.active)) [
    | inr (l, there) ↦ simp on (rw there (record { accounted = v.accounted }))
    | inl free ↦ simp on (
        rw free (
          add_started-IsTidy fw (start_listener net fw f.held) f v free
            (start_listener-Adds net fw f.held)))
  ]
]

start_all-IsTidy :
    (net : Net) (fws : List Forward) (f : Forwarder) → IsTidy f → IsTidy (start_all net fws f)
unfolding start_all
start_all-IsTidy net [] f v = v
start_all-IsTidy net (fw ∷ fws) f v =
    start_all-IsTidy net fws (start_one net fw f) (start_one-IsTidy net fw f v)

-- After Apply the process holds exactly the sockets of the listeners that it keeps, each as often as
-- they have it, if that was so before: a listener that is stopped, and one that starts only in part,
-- give back what they opened.
pub apply-IsTidy :
    (net : Net) (fws : List Forward) (f : Forwarder) → IsTidy f → IsTidy (apply net fws f)
unfolding apply
apply-IsTidy net fws f v =
    let (active, held) = stop_stale (want_from [] fws) f.active f.held in
    start_all-IsTidy net fws (record { active = active; status = []; held = held })
      (record {
        accounted = λ k. omega (
          arith,
          stop_stale_tidy (want_from [] fws) f.active f.held (λ _. 0)
              (λ j. omega (arith, v.accounted j)) k,
        );
      })

count-stop_every :
    (active : List (Text × Listener)) (held : List Socket)
    → ((k : Socket) → count k held ≡ total k active)
    → (k : Socket) → count k (stop_every active held) ≡ 0
unfolding stop_every total
count-stop_every [] held h k = h k
count-stop_every ((name, l) ∷ active) held h k =
    count-stop_every active (stop l held)
      (λ j. omega (arith, h j, count-stop l j held (λ i. omega (arith, h i)))) k

-- Shutdown closes every socket, if those that are held are those of the listeners that are kept.
pub shutdown_closes : (f : Forwarder) → IsTidy f → (k : Socket) → count k (shutdown f).held ≡ 0
unfolding shutdown
shutdown_closes f v = count-stop_every f.active f.held v.accounted
