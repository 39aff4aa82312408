-- ===== src/Store/Dnat.antt =====
-- UpsertDNAT, DeleteDNAT and ListDNAT of config.go.
pub mod Unique
use in_proxy.Common.{
  ℕ, Bool, true, false, ◌&&◌, not, List, [], ◌∷◌, ◌++◌, Option, none, some, if◌then◌else◌, Result,
  ok, err,
}
use in_proxy.Common.Int.{int_eq}
use in_proxy.Text.{Text, ◌==◌}
use in_proxy.Config.{DnatRule}
use in_proxy.Config.Endpoints.{is_empty}
use in_proxy.Config.Validate.{validate_dnat}
use in_proxy.Config.Errors.{Error, Fallible, port_taken, exists_already, not_there}
use in_proxy.Store.{Store, Io, Outcome, persist, and_then, fire_dnat}
use in_proxy.Store.Table.{found, drop_all, place}

abbrev pub has_name : Text → DnatRule → Bool
has_name name e = e.name == name

-- `e.Name != d.Name && e.Proto == d.Proto && e.ListenPort == d.ListenPort`
unfoldable pub clashes : DnatRule → DnatRule → Bool
clashes d e = not (e.name == d.name) && (e.proto == d.proto && int_eq e.listen_port d.listen_port)

unfoldable pub first_clash : DnatRule → List DnatRule → Option DnatRule
unfolding clashes
first_clash d [] = none
first_clash d (e ∷ es) = if clashes d e then some e else first_clash d es

unfoldable pub place_dnat : Text → DnatRule → List DnatRule → Fallible (List DnatRule)
unfolding first_clash place
place_dnat old d ds = elim (first_clash d ds) [
  | some e ↦ err (port_taken d.proto d.listen_port e.name)
  | none ↦
      place (is_empty old) (old == d.name) (has_name d.name) (has_name old) (exists_already d.name)
        (not_there old) d ds
]

abbrev pub save_dnat : Io → Store → List DnatRule → Outcome
save_dnat io s ds = and_then (persist io (record s { dnat = ds })) λ t. (ok tt, fire_dnat t)

unfoldable pub upsert_dnat : Text → DnatRule → Io → Store → Outcome
unfolding place_dnat persist fire_dnat
upsert_dnat old d io s = elim (validate_dnat d) [
  | err e ↦ (err e, s)
  | ok r ↦ elim (place_dnat old r s.dnat) [ err e ↦ (err e, s) | ok ds ↦ save_dnat io s ds ]
]

unfoldable pub delete_dnat : Text → Io → Store → Outcome
unfolding persist fire_dnat found drop_all
delete_dnat name io s =
    if found (has_name name) s.dnat
    then save_dnat io s (drop_all (has_name name) s.dnat)
    else (err (not_there name), s)

unfoldable pub list_dnat : Store → List DnatRule
list_dnat s = s.dnat
