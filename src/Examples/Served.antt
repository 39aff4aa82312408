-- ===== src/Examples/Served.antt =====
-- The theorems of the admin page, the start and the end at a small machine.
use in_proxy.Common.{ℕ, ◌+◌, ◌≡◌, ◌⊎◌, refl, true, false, some, ok, leb, In}
use in_proxy.Common.Dict.{lookup}
use in_proxy.Text.{codes, ◌==◌, to_lower, has_prefix}
use in_proxy.Text.Trim.{trim_space}
use in_proxy.Text.HostPort.{split_host_port}
use in_proxy.Store.{written}
use in_proxy.Store.Runs.{Edit}
use in_proxy.Auth.{session_ttl, session_valid, ip_allowed, check_password}
use in_proxy.Auth.Issue.{SetCookie, issue_cookie}
use in_proxy.Process.{perform}
use in_proxy.Process.Follows.{Follows}
use in_proxy.Admin.{told, notice, saved}
use in_proxy.Admin.Handlers.{handle, entry_of, is_post, has_session, save_forward, run_endpoint}
use in_proxy.Admin.Gates.{asked, handle-authorized}
use in_proxy.Admin.Sessions.{handle-set_cookie}
use in_proxy.Admin.Forms.{field, forward_of}
use in_proxy.Admin.Reports.{run_endpoint-Runs}
use in_proxy.Forwarder.Open.{Runs}
use in_proxy.Config.{Forward}
use in_proxy.Config.Patterns.{prefix_pattern}
use in_proxy.Config.Endpoints.{normalize_listen, normalize_host_port}
use in_proxy.Config.Validate.{validate_forward, is_forward_proto}
use in_proxy.Store.Forwards.{upsert_forward}
use in_proxy.Forwarder
use in_proxy.Forwarder.{new_forwarder}
use in_proxy.Start.{automatic}
use in_proxy.Start.Wired.{serving-Follows}
use in_proxy.Examples.Machine.{
  world, machine, set_up, admins, booted, boots, setup, noon, save_ssh, sign_in, mirror,
  booted_IsSound,
}

pub booted-Follows : Follows world booted
booted-Follows =
    serving-Follows machine set_up admins (automatic (codes "tools.example.com")) booted boots
      booted_IsSound

handle-authorized_example :
    ((handle setup written noon save_ssh booted).1 ≡ booted)
    ⊎ ((edit : Edit) × (ip_allowed setup.parse_ip setup.contains setup.auth save_ssh.remote_addr
          ≡ true)
        × (has_session setup noon save_ssh ≡ true)
        × (is_post save_ssh ≡ true)
        × (asked setup (entry_of save_ssh.path).endpoint save_ssh ≡ some (ok edit))
        × ((handle setup written noon save_ssh booted).1
            ≡ (perform setup.world edit written booted).1))
handle-authorized_example = handle-authorized setup written noon save_ssh booted

abbrev signed_in : SetCookie
signed_in = issue_cookie mirror admins.secret noon false

signs_in : (handle setup written noon sign_in booted).0.set_cookie ≡ some signed_in
unfolding handle ip_allowed ◌==◌ split_host_port session_valid
signs_in = refl

handle-set_cookie_example :
    (ip_allowed setup.parse_ip setup.contains setup.auth sign_in.remote_addr ≡ true)
    × (is_post sign_in ≡ true)
    × (check_password setup.auth (sign_in.form (codes "password")) ≡ true)
    × ((later : ℕ)
        → session_valid setup.hmac setup.auth.secret later (some signed_in.value)
          ≡ leb later (noon + session_ttl))
unfolding issue_cookie
handle-set_cookie_example =
    handle-set_cookie setup written noon sign_in booted signed_in signs_in refl refl

ssh_saved :
    (run_endpoint setup save_forward written noon save_ssh booted).0.response
    ≡ told (codes "/_admin/forwards") notice (saved (field save_ssh (codes "name")))
unfolding run_endpoint ◌==◌ upsert_forward validate_forward prefix_pattern trim_space
    is_forward_proto to_lower normalize_listen normalize_host_port split_host_port has_prefix lookup
    Forwarder.apply
ssh_saved = refl

run_endpoint-Runs_example :
    (fw : Forward) × (validate_forward (forward_of save_ssh) ≡ ok fw)
    × In fw (run_endpoint setup save_forward written noon save_ssh booted).1.store.forwards
    × ((fw.enabled ≡ false)
        ⊎ Runs fw (run_endpoint setup save_forward written noon save_ssh booted).1.forwarder)
run_endpoint-Runs_example = run_endpoint-Runs setup noon save_ssh booted booted-Follows ssh_saved
