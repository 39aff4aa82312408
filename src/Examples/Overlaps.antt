-- ===== src/Examples/Overlaps.antt =====
-- The theorems of edits at the same time, at a small machine.
use in_proxy.Common.{◌-◌, ◌≡◌, refl, [], none, In}
use in_proxy.Text.{codes, ◌==◌}
use in_proxy.Text.{to_lower}
use in_proxy.Text.Trim.{trim_space}
use in_proxy.Text.Numbers.{atoi}
use in_proxy.Text.HostPort.{split_host_port}
use in_proxy.Config.Patterns.{prefix_pattern}
use in_proxy.Config.Endpoints.{normalize_listen, normalize_host_port}
use in_proxy.Config.Validate.{validate_forward, is_forward_proto}
use in_proxy.Store.Compile
use in_proxy.Store.Compile.{DomainMap}
use in_proxy.Store.Forwards.{upsert_forward, delete_forward}
use in_proxy.Store.Runs.{run}
use in_proxy.Config.{Forward}
use in_proxy.Store.Match.{domain_ports}
use in_proxy.Store.Runs.{put_forward, put_domain, drop_forward}
use in_proxy.Forwarder.Started.{Settled}
use in_proxy.DomainRouter.{apply_ports}
use in_proxy.Process.Races.{Race, forward_calls, locked, after_edit, Reach}
use in_proxy.Process.Races.Stale.{forwards_go_stale}
use in_proxy.Examples.Configs.{ssh, mail}
use in_proxy.Examples.Machine.{world, booted, booted_IsSound}

abbrev calm : Race
calm = record {
  store = booted.store;
  forwarder = booted.forwarder;
  router = booted.router;
  forwards_due = 0;
  copies = [];
  domains_due = 0;
  reading = none;
}

abbrev mailing : Race
mailing =
    let s = after_edit world (put_domain [] mail) calm in
    record s {
      domains_due = s.domains_due - 1;
      reading = none;
      router = apply_ports world.listen (domain_ports s.store) s.router;
    }

abbrev mail_map : DomainMap
mail_map = mailing.store.compiled_dom

ssh_calls : forward_calls (locked world (put_forward [] ssh) calm).calls ≡ 1
unfolding domain_ports run upsert_forward validate_forward prefix_pattern trim_space
    is_forward_proto ◌==◌ to_lower normalize_listen normalize_host_port split_host_port atoi
ssh_calls = refl

dropped_calls :
    forward_calls
      (locked world (drop_forward (codes "ssh")) (after_edit world (put_forward [] ssh) calm)).calls
    ≡ 1
unfolding domain_ports run upsert_forward delete_forward validate_forward prefix_pattern trim_space
    is_forward_proto ◌==◌ to_lower normalize_listen normalize_host_port split_host_port atoi
dropped_calls = refl

forwards_go_stale_example :
    (u : Race) × Reach world calm u
    × (u.store
        ≡ (after_edit world
            (drop_forward (codes "ssh"))
            (after_edit world (put_forward [] ssh) calm)).store)
    × (u.forwards_due ≡ 0)
    × (u.copies ≡ [])
    × ((fw : Forward)
        → In fw (after_edit world (put_forward [] ssh) calm).store.forwards
        → Settled world.net fw u.forwarder)
forwards_go_stale_example =
    forwards_go_stale world calm (put_forward [] ssh) (drop_forward (codes "ssh")) booted_IsSound
      refl refl ssh_calls dropped_calls
