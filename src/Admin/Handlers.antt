-- ===== src/Admin/Handlers.antt =====
-- The handlers of admin.go and the two gates before them.
pub mod Told
pub mod Patterns
pub use in_proxy.Admin.Handlers.Told.{
  or_empty, or_active, with_iptables, Report, report_forward, rule_report, report_rule,
  report_saved, report_deleted,
}
unfoldable pub use in_proxy.Admin.Handlers.Told.{forward_status, rule_status}
pub use in_proxy.Admin.Handlers.Patterns.{
  Endpoint, login, logout, root, dashboard, save, delete, forwards, save_forward, delete_forward,
  dnat_page, save_dnat, delete_dnat, domains, save_domain, delete_domain, Entry, require_auth,
  open_to_all, patterns, or_subtree,
}
unfoldable pub use in_proxy.Admin.Handlers.Patterns.{entry_of}
use in_proxy.Common.{
  ℕ, Bool, true, false, ◌&&◌, ◌||◌, not, List, [], ◌∷◌, ◌++◌, Option, none, some, Result, ok, err,
  map, if◌then◌else◌,
}
use in_proxy.Common.Dict.{lookup}
use in_proxy.Text.{Text, codes, ◌==◌, has_prefix}
use in_proxy.Config.{HttpSite, Forward, DnatRule, Domain}
use in_proxy.Config.Endpoints.{is_empty}
use in_proxy.Config.Errors.{Fallible}
use in_proxy.Store.{Io}
use in_proxy.Store.Sites.{list_sites}
use in_proxy.Store.Forwards.{list_forwards}
use in_proxy.Store.Dnat.{list_dnat}
use in_proxy.Store.Domains.{list_domains}
use in_proxy.Store.Runs.{Edit, drop_site, drop_forward, drop_dnat, drop_domain}
use in_proxy.Kernel.{RuleStatus, active, disabled, failed}
use in_proxy.Auth.{Auth, ip_allowed, session_valid, check_password}
use in_proxy.Auth.Issue.{SetCookie, issue_cookie, clear_cookie}
use in_proxy.Process.{Process, perform}
use in_proxy.Admin.{
  Request, Kind, notice, error, Message, refused, saved, deleted, saved_but, rule_saved_but, Page,
  login_page, sites_page, domains_page, forwards_page, rules_page, Response, forbidden, see_other,
  told, moved, rendered, Reply, Setup,
}
use in_proxy.Admin.Forms.{field, site_form, domain_form, forward_form, rule_form, delete_form}

abbrev pub plain : Response → Reply
plain r = record { response = r; set_cookie = none }

abbrev pub is_post : Request → Bool
is_post req = req.method == codes "POST"

module _ {Network Address : Type 0} (setup : Setup Network Address) where
  abbrev pub has_session : ℕ → Request → Bool
  has_session now req = session_valid setup.hmac setup.auth.secret now req.cookie

  unfoldable pub answered : Text → Report → Fallible (Unit {0}) × Process → Reply × Process
  answered base report (err e, p) = (plain (told base error (refused e)), p)
  answered base report (ok u, p) = (plain (told base (report p).0 (report p).1), p)

  unfoldable pub submit : Text → Result Message Edit → Report → Io → Process → Reply × Process
  unfolding answered perform
  submit base (err m) report io p = (plain (told base error m), p)
  submit base (ok e) report io p = answered base report (perform setup.world e io p)

  -- A handler of a form: what is not posted goes back to the page.
  unfoldable pub posted :
      Text → Result Message Edit → Report → Io → Request → Process → Reply × Process
  unfolding submit
  posted base form report io req p =
      if is_post req then submit base form report io p else (plain (see_other base), p)

  unfoldable pub log_in : ℕ → Request → Reply
  unfolding check_password issue_cookie
  log_in now req =
      if has_session now req
      then plain (see_other (codes "/_admin"))
      else if is_post req
      then if check_password setup.auth (req.form (codes "password"))
        then record {
          response = see_other (codes "/_admin");
          set_cookie = some (issue_cookie setup.hmac setup.auth.secret now req.tls);
        }
        else plain (rendered (login_page true))
      else plain (rendered (login_page false))

  abbrev pub show : (Text → Text → Page) → Request → Process → Reply × Process
  show page req p =
      (plain (rendered (page (req.query (codes "notice")) (req.query (codes "error")))), p)

  abbrev on_logout : Process → Reply × Process
  on_logout p =
      (record { response = see_other (codes "/_admin/login"); set_cookie = some clear_cookie }, p)

  abbrev on_dashboard : Request → Process → Reply × Process
  on_dashboard req p = show (sites_page (list_sites p.store)) req p

  abbrev on_save : Io → Request → Process → Reply × Process
  on_save io req p =
      posted (codes "/_admin") (site_form setup.read_routes req)
        (report_saved (field req (codes "host"))) io req p

  abbrev on_delete : Io → Request → Process → Reply × Process
  on_delete io req p =
      posted (codes "/_admin") (delete_form drop_site (codes "host") req)
        (report_deleted (field req (codes "host"))) io req p

  abbrev on_forwards : Request → Process → Reply × Process
  on_forwards req p =
      show (forwards_page (map (λ f. (f, forward_status p f)) (list_forwards p.store))) req p

  abbrev on_save_forward : Io → Request → Process → Reply × Process
  on_save_forward io req p =
      posted (codes "/_admin/forwards") (forward_form req)
        (report_forward (field req (codes "name"))) io req p

  abbrev on_delete_forward : Io → Request → Process → Reply × Process
  on_delete_forward io req p =
      posted (codes "/_admin/forwards") (delete_form drop_forward (codes "name") req)
        (report_deleted (field req (codes "name"))) io req p

  abbrev on_dnat_page : Request → Process → Reply × Process
  on_dnat_page req p =
      show
        (λ n e.
          rules_page (map (λ d. (d, rule_status p d)) (list_dnat p.store)) n
            (with_iptables p.manager.last_err e))
        req p

  abbrev on_save_dnat : Io → Request → Process → Reply × Process
  on_save_dnat io req p =
      posted (codes "/_admin/dnat") (rule_form req) (report_rule (field req (codes "name"))) io req
        p

  abbrev on_delete_dnat : Io → Request → Process → Reply × Process
  on_delete_dnat io req p =
      posted (codes "/_admin/dnat") (delete_form drop_dnat (codes "name") req)
        (report_deleted (field req (codes "name"))) io req p

  abbrev on_domains : Request → Process → Reply × Process
  on_domains req p = show (domains_page (list_domains p.store)) req p

  abbrev on_save_domain : Io → Request → Process → Reply × Process
  on_save_domain io req p =
      posted (codes "/_admin/domains") (domain_form setup.read_forwards req)
        (report_saved (field req (codes "host"))) io req p

  abbrev on_delete_domain : Io → Request → Process → Reply × Process
  on_delete_domain io req p =
      posted (codes "/_admin/domains") (delete_form drop_domain (codes "host") req)
        (report_deleted (field req (codes "host"))) io req p

  -- The function that is registered.
  unfoldable pub run_endpoint : Endpoint → Io → ℕ → Request → Process → Reply × Process
  unfolding posted log_in site_form domain_form forward_form rule_form delete_form
  run_endpoint login io now req p = (log_in now req, p)
  run_endpoint logout io now req p = on_logout p
  run_endpoint root io now req p = (plain (see_other (codes "/_admin")), p)
  run_endpoint dashboard io now req p = on_dashboard req p
  run_endpoint save io now req p = on_save io req p
  run_endpoint delete io now req p = on_delete io req p
  run_endpoint forwards io now req p = on_forwards req p
  run_endpoint save_forward io now req p = on_save_forward io req p
  run_endpoint delete_forward io now req p = on_delete_forward io req p
  run_endpoint dnat_page io now req p = on_dnat_page req p
  run_endpoint save_dnat io now req p = on_save_dnat io req p
  run_endpoint delete_dnat io now req p = on_delete_dnat io req p
  run_endpoint domains io now req p = on_domains req p
  run_endpoint save_domain io now req p = on_save_domain io req p
  run_endpoint delete_domain io now req p = on_delete_domain io req p

  -- requireAuth
  unfoldable pub enter : Entry → Io → ℕ → Request → Process → Reply × Process
  unfolding run_endpoint
  enter entry io now req p =
      if entry.guarded && not (has_session now req)
      then (plain (see_other (codes "/_admin/login")), p)
      else run_endpoint entry.endpoint io now req p

  -- net/http sends a path that is not clean to the clean one, but for CONNECT.
  unfoldable pub serve_mux : Io → ℕ → Request → Process → Reply × Process
  unfolding enter entry_of
  serve_mux io now req p =
      if req.method == codes "CONNECT" || setup.clean_path req.path == req.path
      then enter (entry_of req.path) io now req p
      else (plain (moved (setup.clean_path req.path)), p)

  -- Handler: ipGate around the mux.
  unfoldable pub handle : Io → ℕ → Request → Process → Reply × Process
  unfolding serve_mux
  handle io now req p =
      if ip_allowed setup.parse_ip setup.contains setup.auth req.remote_addr
      then serve_mux io now req p
      else (plain forbidden, p)
