-- ===== src/Admin/Sessions.antt =====
-- Which replies of admin.go carry a session cookie, and what it opens.
use in_proxy.Common.{
  ℕ, ◌+◌, ◌-◌, ◌^◌, ◌≡◌, refl, ap, ◌∙◌, true, false, ◌&&◌, ◌||◌, not, Option, none, some, Result,
  ok, err, arith, Bool-cases, inl, inr, leb,
}
use in_proxy.Text.{Text, codes, ◌==◌}
use in_proxy.Config.Errors.{Fallible}
use in_proxy.Store.{Io}
use in_proxy.Store.Runs.{Edit, drop_site, drop_forward, drop_dnat, drop_domain}
use in_proxy.Auth.{session_ttl, cookie_value, ip_allowed, session_valid, check_password}
use in_proxy.Auth.Cookie.{session_valid-cookie_value}
use in_proxy.Auth.Issue.{SetCookie, issue_cookie, clear_cookie}
use in_proxy.Process.{Process, perform}
use in_proxy.Admin.Forms.{field, site_form, domain_form, forward_form, rule_form, delete_form}
use in_proxy.Admin.{Request, Message, Setup}
use in_proxy.Admin.Handlers.{
  Report, report_saved, report_deleted, report_forward, report_rule, is_post, has_session, Endpoint,
  login, logout, root, dashboard, save, delete, forwards, save_forward, delete_forward, dnat_page,
  save_dnat, delete_dnat, domains, save_domain, delete_domain, entry_of, answered, submit, posted,
  log_in, run_endpoint, enter, serve_mux, handle,
}

module _ {Network Address : Type 0} (setup : Setup Network Address) where
  answered-set_cookie :
      (base : Text) (report : Report) (o : Fallible (Unit {0}) × Process)
      → (answered setup base report o).0.set_cookie ≡ none
  unfolding answered
  answered-set_cookie base report (err e, p) = refl
  answered-set_cookie base report (ok u, p) = refl

  submit-set_cookie :
      (base : Text) (form : Result Message Edit) (report : Report) (io : Io) (p : Process)
      → (submit setup base form report io p).0.set_cookie ≡ none
  unfolding submit
  submit-set_cookie base (err m) report io p = refl
  submit-set_cookie base (ok e) report io p =
      answered-set_cookie base report (perform setup.world e io p)

  posted-set_cookie :
      (base : Text) (form : Result Message Edit) (report : Report) (io : Io) (req : Request)
      (p : Process)
      → (posted setup base form report io req p).0.set_cookie ≡ none
  unfolding posted
  posted-set_cookie base form report io req p = elim (Bool-cases (is_post req)) [
    | inl sent ↦ rw sent (submit-set_cookie base form report io p)
    | inr got ↦ rw got refl
  ]

  -- A cookie that is not taken away was issued for the password.
  abbrev IsEarned : ℕ → Request → Option SetCookie → Type 0
  IsEarned now req o =
      (c : SetCookie)
      → o ≡ some c
      → c.removed ≡ false
      → (is_post req ≡ true)
        × (check_password setup.auth (req.form (codes "password")) ≡ true)
        × (c ≡ issue_cookie setup.hmac setup.auth.secret now req.tls)

  IsEarned-none : (now : ℕ) (req : Request) (o : Option SetCookie) → o ≡ none → IsEarned now req o
  IsEarned-none now req o h c e = absurd (ground arith)

  not_set : {P : Type 0} (c : SetCookie) → none ≡ some c → P
  not_set c e = cc

  taken_away : {P : Type 0} (c : SetCookie) → some clear_cookie ≡ some c → c.removed ≡ false → P
  unfolding clear_cookie
  taken_away c e r =
      let same : clear_cookie ≡ c = cc in
      let removed : true ≡ c.removed = ap (λ (k : SetCookie). k.removed) same in cc

  log_in-IsEarned : (now : ℕ) (req : Request) → IsEarned now req (log_in setup now req).set_cookie
  unfolding log_in
  log_in-IsEarned now req = elim (Bool-cases (has_session setup now req)) [
    | inl known ↦ rw known (λ c e r. not_set c e)
    | inr new ↦ elim (Bool-cases (is_post req)) [
      | inr got ↦ rw new (rw got (λ c e r. not_set c e))
      | inl sent ↦ elim (Bool-cases (check_password setup.auth (req.form (codes "password")))) [
        | inr wrong ↦ rw new (rw sent (rw wrong (λ c e r. not_set c e)))
        | inl right ↦ rw new (rw sent (rw right (λ c e r. (refl, refl, cc))))
      ]
    ]
  ]

  run_endpoint-IsEarned :
      (e : Endpoint) (io : Io) (now : ℕ) (req : Request) (p : Process)
      → IsEarned now req (run_endpoint setup e io now req p).0.set_cookie
  unfolding run_endpoint
  run_endpoint-IsEarned login io now req p = log_in-IsEarned now req
  run_endpoint-IsEarned logout io now req p = λ c e r. taken_away c e r
  run_endpoint-IsEarned root io now req p = IsEarned-none now req none refl
  run_endpoint-IsEarned dashboard io now req p = IsEarned-none now req none refl
  run_endpoint-IsEarned forwards io now req p = IsEarned-none now req none refl
  run_endpoint-IsEarned dnat_page io now req p = IsEarned-none now req none refl
  run_endpoint-IsEarned domains io now req p = IsEarned-none now req none refl
  run_endpoint-IsEarned save io now req p = IsEarned-none now req _ (
      posted-set_cookie (codes "/_admin") (site_form setup.read_routes req)
        (report_saved (field req (codes "host"))) io req p)
  run_endpoint-IsEarned delete io now req p = IsEarned-none now req _ (
      posted-set_cookie (codes "/_admin") (delete_form drop_site (codes "host") req)
        (report_deleted (field req (codes "host"))) io req p)
  run_endpoint-IsEarned save_forward io now req p = IsEarned-none now req _ (
      posted-set_cookie (codes "/_admin/forwards") (forward_form req)
        (report_forward (field req (codes "name"))) io req p)
  run_endpoint-IsEarned delete_forward io now req p = IsEarned-none now req _ (
      posted-set_cookie (codes "/_admin/forwards") (delete_form drop_forward (codes "name") req)
        (report_deleted (field req (codes "name"))) io req p)
  run_endpoint-IsEarned save_dnat io now req p = IsEarned-none now req _ (
      posted-set_cookie (codes "/_admin/dnat") (rule_form req)
        (report_rule (field req (codes "name"))) io req p)
  run_endpoint-IsEarned delete_dnat io now req p = IsEarned-none now req _ (
      posted-set_cookie (codes "/_admin/dnat") (delete_form drop_dnat (codes "name") req)
        (report_deleted (field req (codes "name"))) io req p)
  run_endpoint-IsEarned save_domain io now req p = IsEarned-none now req _ (
      posted-set_cookie (codes "/_admin/domains") (domain_form setup.read_forwards req)
        (report_saved (field req (codes "host"))) io req p)
  run_endpoint-IsEarned delete_domain io now req p = IsEarned-none now req _ (
      posted-set_cookie (codes "/_admin/domains") (delete_form drop_domain (codes "host") req)
        (report_deleted (field req (codes "host"))) io req p)

  handle-IsEarned :
      (io : Io) (now : ℕ) (req : Request) (p : Process)
      → IsEarned now req (handle setup io now req p).0.set_cookie
  unfolding handle serve_mux enter
  handle-IsEarned io now req p =
      let entry = entry_of req.path in
      elim (Bool-cases (ip_allowed setup.parse_ip setup.contains setup.auth req.remote_addr)) [
        | inr refused ↦ rw refused (λ c e r. not_set c e)
        | inl allowed ↦
            elim (Bool-cases
              (req.method == codes "CONNECT" || setup.clean_path req.path == req.path)) [
                | inr unclean ↦ rw allowed (rw unclean (λ c e r. not_set c e))
                | inl clean ↦ elim (Bool-cases (entry.guarded && not (has_session setup now req))) [
                  | inl barred ↦ rw allowed (rw clean (rw barred (λ c e r. not_set c e)))
                  | inr through ↦
                      rw allowed
                        (rw clean (rw through (run_endpoint-IsEarned entry.endpoint io now req p)))
                ]
              ]
      ]

  handle-allowed :
      (io : Io) (now : ℕ) (req : Request) (p : Process) (c : SetCookie)
      → (handle setup io now req p).0.set_cookie ≡ some c
      → ip_allowed setup.parse_ip setup.contains setup.auth req.remote_addr ≡ true
  unfolding handle
  handle-allowed io now req p c e =
      elim (Bool-cases (ip_allowed setup.parse_ip setup.contains setup.auth req.remote_addr)) [
        | inl allowed ↦ allowed
        | inr refused ↦ not_set c (rw refused at e)
      ]

  -- A reply sets a session cookie, other than to take it away, only if the request came from an
  -- allowed address and posted the password; and the cookie is then a valid session for exactly the
  -- twelve hours from then on, for expiries within the range of int64.
  pub handle-set_cookie :
      (io : Io) (now : ℕ) (req : Request) (p : Process) (c : SetCookie)
      → (handle setup io now req p).0.set_cookie ≡ some c
      → c.removed ≡ false
      → leb (now + session_ttl) (2 ^ 63 - 1) ≡ true
      → (ip_allowed setup.parse_ip setup.contains setup.auth req.remote_addr ≡ true)
        × (is_post req ≡ true)
        × (check_password setup.auth (req.form (codes "password")) ≡ true)
        × ((later : ℕ)
            → session_valid setup.hmac setup.auth.secret later (some c.value)
              ≡ leb later (now + session_ttl))
  unfolding issue_cookie
  handle-set_cookie io now req p c e r b =
      let (sent, right, issued) = handle-IsEarned io now req p c e r in
      let same : c.value ≡ cookie_value setup.hmac setup.auth.secret now =
        ap (λ (k : SetCookie). k.value) issued in
      (
        handle-allowed io now req p c e,
        sent,
        right,
        λ later.
            ap (λ v. session_valid setup.hmac setup.auth.secret later (some v)) same
            ∙ session_valid-cookie_value setup.hmac setup.auth.secret now later b,
      )
