-- ===== src/Examples/StoreRuns.antt =====
-- Edits of the example stores.
use in_proxy.Common.{◌≡◌, ◌≢◌, refl, [], ◌∷◌, ok, err, arith}
use in_proxy.Text.{Text, codes, to_lower, ◌==◌, contains}
use in_proxy.Text.Trim.{trim_space}
use in_proxy.Text.Numbers.{atoi, magnitude, digits}
use in_proxy.Text.HostPort.{split_host_port, join_host_port}
use in_proxy.Config.{Forward}
use in_proxy.Config.Patterns.{prefix_pattern}
use in_proxy.Config.Errors.{address_taken}
use in_proxy.Config.Endpoints.{is_port, normalize_host_port, normalize_listen}
use in_proxy.Config.Validate.{validate_forward, is_forward_proto}
use in_proxy.Store.{Store, written, write_fails, rename_fails}
use in_proxy.Store.Table.{place, found}
use in_proxy.Store.Compile.{compile_sites, compile_domains}
use in_proxy.Store.Forwards.{place_forward, upsert_forward, first_clash}
use in_proxy.Store.Forwards.Results.{edited, upsert_forward_written, rename_refused}
use in_proxy.Store.InStep.{IsCompiled, IsInStep}
use in_proxy.Store.Runs.{put_site, put_domain, put_forward, run, run_all}
use in_proxy.Store.Runs.Sound.{IsSound, run_all-IsSound, run-IsInStep}
use in_proxy.Examples.Configs.{parse, tools, mail, ssh, empty_store}

pub empty_IsSound : IsSound parse empty_store
empty_IsSound = record {
  sites = record { normal = tt; apart = tt };
  forwards = record { normal = tt; apart = tt };
  dnat = record { normal = tt; apart = tt };
  domains = record { normal = tt; apart = tt };
}

empty_IsCompiled : IsCompiled parse empty_store
unfolding compile_sites compile_domains
empty_IsCompiled = record { sites = refl; domains = refl }

run_all-IsSound_example : IsSound parse (
    run_all parse
      ((put_site [] tools, written)
        ∷ (put_domain [] mail, write_fails)
        ∷ (put_forward [] ssh, rename_fails)
        ∷ [])
      empty_store)
run_all-IsSound_example =
    run_all-IsSound parse
      ((put_site [] tools, written)
        ∷ (put_domain [] mail, write_fails)
        ∷ (put_forward [] ssh, rename_fails)
        ∷ [])
      empty_store empty_IsSound

pub ssh_valid : validate_forward ssh ≡ ok ssh
unfolding validate_forward trim_space prefix_pattern to_lower ◌==◌ is_forward_proto normalize_listen
    normalize_host_port split_host_port contains atoi magnitude digits is_port join_host_port
ssh_valid = refl

ssh_placed : place_forward [] ssh [] ≡ ok (ssh ∷ [])
unfolding place_forward first_clash place found ◌==◌
ssh_placed = refl

pub ssh_written : upsert_forward [] ssh written empty_store ≡ (ok tt, edited empty_store (ssh ∷ []))
ssh_written = upsert_forward_written [] ssh ssh (ssh ∷ []) empty_store ssh_valid ssh_placed

ssh_ran : (run parse (put_forward [] ssh) written empty_store).0 ≡ ok tt
unfolding run
ssh_ran = rw ssh_written refl

run-IsInStep_example : IsInStep parse (run parse (put_forward [] ssh) written empty_store).1
run-IsInStep_example =
    run-IsInStep parse (put_forward [] ssh) written empty_store empty_IsCompiled ssh_ran

abbrev old_ssh : Forward
old_ssh = record ssh { name = codes "shell" }

abbrev ssh_store : Store
ssh_store = record empty_store { forwards = old_ssh ∷ [] }

names_differ : codes "shell" ≢ codes "ssh"
names_differ e = ground arith

rename_refused_example :
    (clash : Text) × (upsert_forward (codes "shell") ssh written ssh_store
      ≡ (err (address_taken (codes "tcp") (codes ":2222") clash), ssh_store))
rename_refused_example =
    rename_refused ssh ssh old_ssh [] [] written ssh_store ssh_valid refl names_differ refl refl

abbrev both_ssh : Forward
both_ssh = record old_ssh { proto = codes "tcp+udp" }

abbrev both_store : Store
both_store = record empty_store { forwards = both_ssh ∷ [] }
