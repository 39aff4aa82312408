-- ===== src/Process/Races/Stale.antt =====
-- Two edits of forwards at the same time: the listeners may be left with the earlier list.
use in_proxy.Common.{◌-◌, ◌≡◌, refl, [], ◌∷◌, arith, In}
use in_proxy.Config.{Forward}
use in_proxy.Store.{written}
use in_proxy.Store.Runs.{Edit}
use in_proxy.Store.Runs.Sound.{IsSound, run-IsSound}
use in_proxy.Forwarder
use in_proxy.Forwarder.Started.{Settled}
use in_proxy.Forwarder.Reconcile.{apply_settles}
use in_proxy.Forwarder.Fed.{Distinct-by_name}
use in_proxy.Process.{World, uncalled}
use in_proxy.Process.Follows.{uncalled-IsSound}
use in_proxy.Process.Races.{
  Race, forward_calls, locked, after_edit, edit, copy, feed, Reach, here, later,
}

module _ (w : World) where
  abbrev copied : Race → Race
  copied s = record s { forwards_due = s.forwards_due - 1; copies = s.store.forwards ∷ s.copies }

  -- Both callers have copied the forwards, and the second comes first to Apply.
  abbrev both_copied : Edit → Edit → Race → Race
  both_copied d e s = copied (after_edit w e (copied (after_edit w d s)))

  abbrev overtaken : Edit → Edit → Race → Race
  overtaken d e s =
      let c = both_copied d e s in
      let one = (after_edit w d s).store.forwards in
      record c {
        copies = s.copies;
        forwarder = Forwarder.apply w.net one (Forwarder.apply w.net c.store.forwards c.forwarder);
      }

  -- From a sound store with no call of the forwarder under way, for any two edits that each call it,
  -- the second made after the first: there is an execution at whose end no call is under way, the
  -- store holds what the second edit left, and the forwarder has settled the forwards as they were
  -- before the second edit.
  pub forwards_go_stale :
      (s : Race) (d e : Edit)
      → IsSound w.parse_url s.store
      → s.forwards_due ≡ 0
      → s.copies ≡ []
      → forward_calls (locked w d s).calls ≡ 1
      → forward_calls (locked w e (after_edit w d s)).calls ≡ 1
      → (u : Race) × Reach w s u
        × (u.store ≡ (after_edit w e (after_edit w d s)).store)
        × (u.forwards_due ≡ 0)
        × (u.copies ≡ [])
        × ((fw : Forward) → In fw (after_edit w d s).store.forwards → Settled w.net fw u.forwarder)
  forwards_go_stale s d e v idle empty first second =
      let s1 = copied (after_edit w d s) in
      let s2 = both_copied d e s in
      let fws = (after_edit w d s).store.forwards in
      let sound =
        run-IsSound w.parse_url d written (uncalled s.store) (uncalled-IsSound w s.store v) in
      let r1 : Reach w s s1 = later (later here (edit d)) (copy (omega arith)) in
      let r2 : Reach w s s2 = later (later r1 (edit e)) (copy (omega arith)) in
      let r3 = later r2 (feed [] (fws ∷ s.copies) s2.store.forwards refl) in
      (
        overtaken d e s,
        later r3 (feed [] s.copies fws refl),
        refl,
        omega arith,
        empty,
        (apply_settles w.net fws (Forwarder.apply w.net s2.store.forwards s.forwarder)
            (Distinct-by_name fws sound.forwards.apart)).0,
      )
