-- ===== src/Admin/Handlers/Patterns.antt =====
-- The table that Handler of admin.go registers its handlers in.
use in_proxy.Common.{Bool, true, false, List, [], ◌∷◌, Option, none, some, if◌then◌else◌}
use in_proxy.Common.Dict.{lookup}
use in_proxy.Text.{Text, codes, ◌==◌, has_prefix}

-- `mux.HandleFunc(path, …)`: which handler, and whether requireAuth is around it.
pub data Endpoint : Type 0 where
  login logout root dashboard save delete : Endpoint
  forwards save_forward delete_forward : Endpoint
  dnat_page save_dnat delete_dnat : Endpoint
  domains save_domain delete_domain : Endpoint

pub record Entry : Type 0 where
  pub guarded : Bool
  pub endpoint : Endpoint

abbrev pub require_auth : Endpoint → Entry
require_auth e = record { guarded = true; endpoint = e }

abbrev pub open_to_all : Endpoint → Entry
open_to_all e = record { guarded = false; endpoint = e }

abbrev pub patterns : List (Text × Entry)
patterns =
    (codes "/_admin/login", open_to_all login)
    ∷ (codes "/_admin/logout", open_to_all logout)
    ∷ (codes "/_admin/save", require_auth save)
    ∷ (codes "/_admin/delete", require_auth delete)
    ∷ (codes "/_admin/forwards", require_auth forwards)
    ∷ (codes "/_admin/forwards/save", require_auth save_forward)
    ∷ (codes "/_admin/forwards/delete", require_auth delete_forward)
    ∷ (codes "/_admin/dnat", require_auth dnat_page)
    ∷ (codes "/_admin/dnat/save", require_auth save_dnat)
    ∷ (codes "/_admin/dnat/delete", require_auth delete_dnat)
    ∷ (codes "/_admin/domains", require_auth domains)
    ∷ (codes "/_admin/domains/save", require_auth save_domain)
    ∷ (codes "/_admin/domains/delete", require_auth delete_domain)
    ∷ (codes "/_admin", require_auth dashboard)
    ∷ []

-- The two patterns that end in a slash take what no other does.
abbrev pub or_subtree : Text → Option Entry → Entry
or_subtree path (some e) = e
or_subtree path none =
    if has_prefix path (codes "/_admin/") then require_auth dashboard else open_to_all root

unfoldable pub entry_of : Text → Entry
unfolding lookup
entry_of path = or_subtree path (lookup ◌==◌ path patterns)
