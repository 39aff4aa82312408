-- ===== src/Examples/Guards.antt =====
-- The session cookie and the nat table at small inputs.
use in_proxy.Common.{
  ◌≡◌, ◌≤◌, ℕ, refl, true, false, List, [], ◌∷◌, ◌++◌, none, some, ok, if◌then◌else◌,
}
use in_proxy.Common.Int.{pos}
use in_proxy.Common.Dict.{lookup}
use in_proxy.Text.{Text, codes, ◌==◌, contains}
use in_proxy.Text.HostPort.{split_host_port}
use in_proxy.Text.Numbers.{atoi}
use in_proxy.Config.{DnatRule}
use in_proxy.Auth.{sign, cookie_value, session_valid}
use in_proxy.Auth.Cookie.{session_valid-cookie_value, session_valid_sound}
use in_proxy.Kernel.{
  Command, new_chain, check_jump, add_jump, flush, append_dnat, append_masquerade, Table, Iptables,
  run, ensure_jump, ensure_scaffolding, Manager, refused, failed, effect,
}
use in_proxy.Kernel
use in_proxy.Kernel.Rebuilt.{of_enabled, dnat_of, post_of, apply_rebuilds, half_applied}
use in_proxy.Examples.Configs.{dns}

-- A signature that repeats what it signs.
abbrev mirror : List ℕ → Text → List ℕ
mirror secret payload = payload

fresh_cookie : session_valid mirror [] 1700000000 (some (cookie_value mirror [] 1699999000)) ≡ true
fresh_cookie = session_valid-cookie_value mirror [] 1699999000 1700000000 refl

session_valid_sound_example :
    (payload : Text) × (exp : ℕ) × (cookie_value mirror [] 1699999000
      ≡ payload ++ (b'.' ∷ sign mirror [] payload))
    × (atoi payload ≡ some (pos exp))
    × (1700000000 ≤ exp)
session_valid_sound_example =
    session_valid_sound mirror [] 1700000000 (cookie_value mirror [] 1699999000) fresh_cookie

abbrev web : DnatRule
web = record dns { name = codes "web"; proto = codes "tcp"; listen_port = pos 8080 }

-- Everything is accepted but masquerade rules for UDP.
abbrev no_udp : Iptables
no_udp (append_masquerade proto host port) =
    if proto == codes "udp" then some (codes "refused") else none
no_udp (append_dnat proto port target) = none
no_udp (new_chain c) = none
no_udp (check_jump c) = none
no_udp (add_jump c) = none
no_udp (flush c) = none

abbrev manager : Manager
manager = record {
  status = [];
  last_err = none;
  table = record {
    hooked_dnat = false;
    hooked_post = true;
    dnat_rules = append_dnat [] (pos 1) [] ∷ [];
    post_rules = [];
  };
}

hooks : (ensure_scaffolding no_udp manager.table).0 ≡ none
unfolding ensure_scaffolding ensure_jump run effect
hooks = refl

apply_rebuilds_example :
    ((Kernel.apply no_udp (web ∷ dns ∷ []) manager).table.dnat_rules
      ≡ of_enabled no_udp (dnat_of no_udp) (web ∷ dns ∷ []))
    × ((Kernel.apply no_udp (web ∷ dns ∷ []) manager).table.post_rules
        ≡ of_enabled no_udp (post_of no_udp) (web ∷ dns ∷ []))
apply_rebuilds_example = apply_rebuilds no_udp (web ∷ dns ∷ []) manager hooks refl refl

dns_split : split_host_port dns.target ≡ ok (codes "10.8.0.2", codes "53")
unfolding split_host_port contains
dns_split = refl

udp_refused :
    no_udp (append_masquerade dns.proto (codes "10.8.0.2") (codes "53")) ≡ some (codes "refused")
unfolding ◌==◌
udp_refused = refl

half_applied_example :
    (lookup ◌==◌ dns.name (Kernel.apply no_udp (dns ∷ []) manager).status
      ≡ some (failed (refused (codes "refused"))))
    × ((Kernel.apply no_udp (dns ∷ []) manager).table.dnat_rules
        ≡ append_dnat dns.proto dns.listen_port dns.target ∷ [])
half_applied_example =
    half_applied no_udp dns manager (codes "10.8.0.2") (codes "53") (codes "refused") hooks refl
      refl refl refl refl dns_split udp_refused
