-- ===== src/Store/Forwards/Accepted.antt =====
-- What UpsertForward has done when it returns no error.
use in_proxy.Common.{◌≡◌, List, Option-cases, Result-cases, inl, inr, In, ok}
use in_proxy.Text.{Text, ◌==◌}
use in_proxy.Config.{Forward}
use in_proxy.Config.Endpoints.{is_empty}
use in_proxy.Config.Errors.{exists_already, not_there}
use in_proxy.Config.Validate.{validate_forward}
use in_proxy.Store.{Store, written}
use in_proxy.Store.Table.Laws.{place-In}
use in_proxy.Store.Forwards.{has_name, first_clash, place_forward, upsert_forward}
use in_proxy.Store.Forwards.Results.{upsert_forward_written}

place_forward-In :
    (old : Text) (f : Forward) (fs gs : List Forward) → place_forward old f fs ≡ ok gs → In f gs
unfolding place_forward
place_forward-In old f fs gs h = elim (Option-cases (first_clash f fs)) [
  | inr (e, hit) ↦ absurd (cc (rw (hit, place_forward) at h))
  | inl apart ↦
      place-In (is_empty old) (old == f.name) (has_name f.name) (has_name old)
        (exists_already f.name) (not_there old) f fs gs (rw (apart, place_forward) at h)
]

-- The edit was valid, and the valid entry is in the list, in memory and in the file.
pub upsert_forward_accepted :
    (old : Text) (f : Forward) (s : Store)
    → (upsert_forward old f written s).0 ≡ ok tt
    → (g : Forward) × (validate_forward f ≡ ok g) × In g (upsert_forward old f written s).1.forwards
unfolding upsert_forward
upsert_forward_accepted old f s h = elim (Result-cases (validate_forward f)) [
  | inr (e, bad) ↦ absurd (cc (rw (bad, upsert_forward) at h))
  | inl (g, good) ↦ elim (Result-cases (place_forward old g s.forwards)) [
    | inr (e, bad) ↦ absurd (cc (rw (bad, upsert_forward) at (rw (good, upsert_forward) at h)))
    | inl (fs, placed) ↦ (
      g,
      good,
      rw (upsert_forward_written old f g fs s good placed)
          (place_forward-In old g s.forwards fs placed),
    )
  ]
]
