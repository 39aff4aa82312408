-- ===== src/Store/Forwards.antt =====
-- UpsertForward, DeleteForward and ListForwards of config.go.
pub mod Unique
pub mod Results
pub mod Accepted
use in_proxy.Common.{
  ℕ, Bool, true, false, ◌&&◌, not, List, [], ◌∷◌, ◌++◌, Option, none, some, if◌then◌else◌, Result,
  ok, err,
}
use in_proxy.Text.{Text, ◌==◌}
use in_proxy.Config.{Forward}
use in_proxy.Config.Endpoints.{is_empty}
use in_proxy.Config.Validate.{validate_forward}
use in_proxy.Config.Errors.{Error, Fallible, address_taken, exists_already, not_there}
use in_proxy.Store.{Store, Io, Outcome, persist, and_then, fire_forwards}
use in_proxy.Store.Table.{found, drop_all, place}

abbrev pub has_name : Text → Forward → Bool
has_name name e = e.name == name

-- `e.Name != f.Name && e.Proto == f.Proto && e.Listen == f.Listen`
unfoldable pub clashes : Forward → Forward → Bool
clashes f e = not (e.name == f.name) && (e.proto == f.proto && e.listen == f.listen)

-- The loop that looks for an entry at the same address: the first such entry.
unfoldable pub first_clash : Forward → List Forward → Option Forward
unfolding clashes
first_clash f [] = none
first_clash f (e ∷ es) = if clashes f e then some e else first_clash f es

-- From the search for an entry of the name up to the edit: what the list becomes.
unfoldable pub place_forward : Text → Forward → List Forward → Fallible (List Forward)
unfolding first_clash place
place_forward old f fs = elim (first_clash f fs) [
  | some e ↦ err (address_taken f.proto f.listen e.name)
  | none ↦
      place (is_empty old) (old == f.name) (has_name f.name) (has_name old) (exists_already f.name)
        (not_there old) f fs
]

-- `persistLocked`, and then the call of the listener.
abbrev pub save_forwards : Io → Store → List Forward → Outcome
save_forwards io s fs =
    and_then (persist io (record s { forwards = fs })) λ t. (ok tt, fire_forwards t)

unfoldable pub upsert_forward : Text → Forward → Io → Store → Outcome
unfolding place_forward persist fire_forwards
upsert_forward old f io s = elim (validate_forward f) [
  | err e ↦ (err e, s)
  | ok g ↦ elim (place_forward old g s.forwards) [
    | err e ↦ (err e, s)
    | ok fs ↦ save_forwards io s fs
  ]
]

unfoldable pub delete_forward : Text → Io → Store → Outcome
unfolding persist fire_forwards found drop_all
delete_forward name io s =
    if found (has_name name) s.forwards
    then save_forwards io s (drop_all (has_name name) s.forwards)
    else (err (not_there name), s)

unfoldable pub list_forwards : Store → List Forward
list_forwards s = s.forwards
