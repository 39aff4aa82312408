-- ===== src/Examples/Ends.antt =====
-- The theorems of the limiter, of the end of the process and of the self-signed certificate, each at
-- a small input.
use in_proxy.Common.{◌≤◌, ◌≡◌, ◌⊎◌, refl, Bool, false, List, [], ◌∷◌, none, some, ok, length, arith}
use in_proxy.Common.Int.{pos}
use in_proxy.Text.{Text, codes, ◌==◌}
use in_proxy.Store.Dnat.{place_dnat}
use in_proxy.Config.Validate.{validate_dnat}
use in_proxy.Proxy.{concurrency}
use in_proxy.Proxy.Serve.{
  selecting, proxying, returned, served, Traffic, Work, enter, leave, work, arrive, answer, Reach,
  start, later, Works, rest, more,
}
use in_proxy.Proxy.Serve.Bounded.{proxied, proxied_bounded}
use in_proxy.Proxy.Serve.Finishes.{Rests, serve_goes_on}
use in_proxy.Examples.Configs.{ssh, dns}
use in_proxy.Examples.Machine.{world, booted}
use in_proxy.Config.Validate.{validate_dnat}
use in_proxy.Config.Patterns.{prefix_pattern}
use in_proxy.Config.Endpoints.{normalize_host_port}
use in_proxy.Text.{to_lower, contains, has_prefix}
use in_proxy.Text.Trim.{trim_space}
use in_proxy.Text.Numbers.{atoi, magnitude, digits}
use in_proxy.Text.HostPort.{split_host_port, join_host_port}
use in_proxy.Store.{written, persist, recompile}
use in_proxy.Store.Compile.{compile_sites, compile_domains}
use in_proxy.Store.Table.{place, found}
use in_proxy.Store.Dnat.{first_clash, list_dnat}
use in_proxy.Store.Runs.{put_dnat}
use in_proxy.Store.Load.{Json, content, new_store, parse_config}
use in_proxy.Forwarder
use in_proxy.Forwarder.{new_forwarder, Socket}
use in_proxy.Forwarder.Sockets.{count, total}
use in_proxy.Forwarder.Tidy.{IsTidy, apply-IsTidy}
use in_proxy.Kernel
use in_proxy.Kernel.{ensure_scaffolding, ensure_jump, effect}
use in_proxy.Auth.{new_auth}
use in_proxy.Process.{Process, perform}
use in_proxy.Start
use in_proxy.Start.{
  Settings, Machine, gave_up_late, no_external_host, source_of, applied, shut_down,
}
use in_proxy.Start.Ends.{
  IsRuled, shut_down_leaves_nothing, saved_after_shut_down, gave_up_late_leaves_rules,
}
use in_proxy.Tls.{Failures, Pair, file, cut_off, ensure_tls, ensure_tls-cut_off}
use in_proxy.Examples.Machine.{machine, set_up, all_open}

-- Two requests at a route for one, the first of them let in.
abbrev one_in : Traffic
one_in = record { taken = 1; clients = proxying ∷ selecting false ∷ [] }

one_in_Reach : Reach (concurrency (pos 1)) one_in
unfolding concurrency
one_in_Reach =
    later (later (later start arrive) arrive)
      (work (enter [] (selecting false ∷ []) false 1 refl (omega arith) refl))

proxied_bounded_example : (proxied one_in ≤ 1) × (proxied one_in ≡ one_in.taken)
unfolding concurrency
proxied_bounded_example = proxied_bounded (concurrency (pos 1)) 1 refl one_in_Reach

-- The backend has answered the first.
abbrev one_back : Traffic
one_back = record { taken = 1; clients = returned ∷ selecting false ∷ [] }

abbrev other_in : Traffic
other_in = record { taken = 1; clients = served ∷ proxying ∷ [] }

one_after_one : Works (concurrency (pos 1)) one_back 2 other_in
unfolding concurrency
one_after_one =
    more (more rest (leave [] (selecting false ∷ []) 1 refl (omega arith) refl))
      (enter (served ∷ []) [] false 1 refl (omega arith) refl)

serve_goes_on_example :
    (2 ≤ length one_back.clients)
    × (((u : Traffic) × Work (concurrency (pos 1)) other_in u)
        ⊎ Rests (concurrency (pos 1)) other_in)
serve_goes_on_example =
    serve_goes_on (pos 1) 2 one_back other_in
      (later one_in_Reach (answer [] (selecting false ∷ []) refl)) one_after_one

-- The process with a listener of its own.
abbrev relaying : Process
relaying = record booted { forwarder = Forwarder.apply all_open (ssh ∷ []) new_forwarder }

relaying_IsTidy : IsTidy relaying.forwarder
unfolding count total
relaying_IsTidy = apply-IsTidy all_open (ssh ∷ []) new_forwarder (record { accounted = λ k. refl })

shut_down_leaves_nothing_example :
    ((k : Socket) → count k (shut_down world relaying).forwarder.held ≡ 0)
    × ((shut_down world relaying).router.active ≡ [])
    × ((shut_down world relaying).manager.table.dnat_rules ≡ [])
    × ((shut_down world relaying).manager.table.post_rules ≡ [])
shut_down_leaves_nothing_example = shut_down_leaves_nothing world refl refl relaying relaying_IsTidy

dns_valid : validate_dnat dns ≡ ok dns
unfolding validate_dnat trim_space prefix_pattern to_lower ◌==◌ normalize_host_port split_host_port
    contains atoi magnitude digits join_host_port
dns_valid = refl

dns_placed : place_dnat [] dns [] ≡ ok (dns ∷ [])
unfolding place_dnat first_clash place found ◌==◌
dns_placed = refl

hooked_again : (ensure_scaffolding world.refuses (shut_down world booted).manager.table).0 ≡ none
unfolding ensure_scaffolding ensure_jump Kernel.run effect shut_down
hooked_again = refl

saved_after_shut_down_example :
    IsRuled world (perform world (put_dnat [] dns) written (shut_down world booted)).1 (dns ∷ [])
saved_after_shut_down_example =
    saved_after_shut_down world refl refl booted [] dns dns (dns ∷ []) refl refl dns_valid
      dns_placed hooked_again

-- A machine with a rule in its configuration, and the automatic mode without an external host.
abbrev dns_only : Json
dns_only = record {
  array = λ t. none;
  object = λ t. some (record {
    sites = [];
    routes = [];
    forwards = [];
    dnat = dns ∷ [];
    domains = [];
    vhosts = [];
  });
}

abbrev ruling : Machine Text
ruling = record machine { config = content (codes "{}"); json = dns_only }

abbrev without_host : Settings
without_host = record set_up { external_host = [] }

abbrev left_ruled : Process
left_ruled = applied ruling without_host (record booted.store {
  dnat = dns ∷ [];
  on_forward = false;
  on_dnat = false;
  on_domain = false;
  disk = none;
})

gives_up : Start.start ruling without_host ≡ gave_up_late no_external_host left_ruled
unfolding Start.start new_store persist recompile compile_sites compile_domains new_auth source_of
    split_host_port contains atoi magnitude digits ◌==◌ trim_space parse_config has_prefix
gives_up = refl

no_failure : left_ruled.manager.last_err ≡ none
unfolding applied Kernel.apply ensure_scaffolding ensure_jump Kernel.run effect list_dnat
    split_host_port contains ◌==◌
no_failure = refl

gave_up_late_leaves_rules_example : IsRuled ruling.world left_ruled left_ruled.store.dnat
gave_up_late_leaves_rules_example =
    gave_up_late_leaves_rules ruling without_host no_external_host left_ruled gives_up no_failure
      refl refl

abbrev loopback : List Text
loopback = codes "127.0.0.1" ∷ codes "tools.example.com" ∷ []

abbrev is_loopback : Text → Bool
is_loopback t = t == codes "127.0.0.1"

abbrev disk_full : Failures
disk_full = record machine.failures { write_key = some (codes "no space left on device") }

ensure_tls-cut_off_example :
    (q : Pair) × (ensure_tls is_loopback disk_full loopback machine.pair
      ≡ (some (codes "no space left on device"), q))
    × (q.key ≡ file cut_off)
    × ((f : Failures) (sans : List Text) → ensure_tls is_loopback f sans q ≡ (none, q))
ensure_tls-cut_off_example =
    ensure_tls-cut_off is_loopback disk_full loopback machine.pair (codes "no space left on device")
      refl refl
