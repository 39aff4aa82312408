-- ===== src/Admin/Gates.antt =====
-- Who may edit through the handlers of admin.go, and that a request is one edit at most.
pub mod InForce
use in_proxy.Common.{
  ℕ, ◌≡◌, refl, sym, ap, ◌∙◌, subst, Bool, true, false, ◌||◌, ◌⊎◌, List, [], ◌∷◌, Option, none,
  some, Result, ok, err, arith, Bool-cases, Option-cases, Result-cases, inl, inr, all, and_parts,
  map,
}
use in_proxy.Common.Dict.{lookup}
use in_proxy.Text.{Text, codes, ◌==◌, has_prefix}
use in_proxy.Config.Errors.{Fallible}
use in_proxy.Store.{Io, written}
use in_proxy.Store.Runs.{Edit, drop_site, drop_forward, drop_dnat, drop_domain}
use in_proxy.Auth.{ip_allowed}
use in_proxy.Process.{Process, perform}
use in_proxy.Process.Follows.{Follows, perform-Follows}
use in_proxy.Process.InForce.{IsInForce, Follows-IsInForce}
use in_proxy.Admin.{Request, Message, Setup}
use in_proxy.Admin.Forms.{field, site_form, domain_form, forward_form, rule_form, delete_form}
use in_proxy.Admin.Handlers.{
  Report, report_saved, report_deleted, report_forward, report_rule, is_post, has_session, Endpoint,
  login, logout, root, dashboard, save, delete, forwards, save_forward, delete_forward, dnat_page,
  save_dnat, delete_dnat, domains, save_domain, delete_domain, Entry, patterns, or_subtree,
  entry_of, answered, submit, posted, run_endpoint, enter, serve_mux, handle,
}

lookup-all :
    {V : Type 0} (test : V → Bool) (key : Text) (m : List (Text × V)) (v : V)
    → all (λ (e : Text × V). test e.1) m ≡ true
    → lookup ◌==◌ key m ≡ some v
    → test v ≡ true
unfolding lookup
lookup-all test key [] v h e = cc
lookup-all test key ((k, u) ∷ m) v h e = elim (Bool-cases (k == key)) [
  | inl hit ↦ let same : u ≡ v = ground arith in rw (sym same) (and_parts (test u) _ h).0
  | inr miss ↦ lookup-all test key m v (and_parts (test u) _ h).1 (rw miss at e)
]

-- The handlers that stand outside requireAuth edit nothing.
abbrev is_open : Endpoint → Bool
is_open login = true
is_open logout = true
is_open root = true
is_open _ = false

abbrev is_safe : Entry → Bool
is_safe e = e.guarded || is_open e.endpoint

entry_of-is_safe : (path : Text) → is_safe (entry_of path) ≡ true
unfolding entry_of
entry_of-is_safe path = elim (Option-cases (lookup ◌==◌ path patterns)) [
  | inr (e, found) ↦ rw (found, or_subtree) (lookup-all is_safe path patterns e refl found)
  | inl missing ↦ elim (Bool-cases (has_prefix path (codes "/_admin/"))) [
    | inl below ↦ rw (missing, or_subtree) (rw below refl)
    | inr above ↦ rw (missing, or_subtree) (rw above refl)
  ]
]

module _ {Network Address : Type 0} (setup : Setup Network Address) where
  -- The edit that a form asks for, by handler.
  abbrev pub asked : Endpoint → Request → Option (Result Message Edit)
  asked save req = some (site_form setup.read_routes req)
  asked delete req = some (delete_form drop_site (codes "host") req)
  asked save_forward req = some (forward_form req)
  asked delete_forward req = some (delete_form drop_forward (codes "name") req)
  asked save_dnat req = some (rule_form req)
  asked delete_dnat req = some (delete_form drop_dnat (codes "name") req)
  asked save_domain req = some (domain_form setup.read_forwards req)
  asked delete_domain req = some (delete_form drop_domain (codes "host") req)
  asked _ req = none

  -- The process stays, or a posted form asked for an edit and the process is what the edit makes.
  abbrev Edits : Endpoint → Io → Request → Process → Process → Type 0
  Edits e io req p q =
      (q ≡ p)
      ⊎ ((edit : Edit) × (is_post req ≡ true)
          × (asked e req ≡ some (ok edit))
          × (q ≡ (perform setup.world edit io p).1))

  answered-process :
      (base : Text) (report : Report) (o : Fallible (Unit {0}) × Process)
      → (answered setup base report o).1 ≡ o.1
  unfolding answered
  answered-process base report (err e, p) = refl
  answered-process base report (ok u, p) = refl

  posted-Edits :
      (e : Endpoint) (base : Text) (form : Result Message Edit) (report : Report) (io : Io)
      (req : Request) (p : Process)
      → asked e req ≡ some form
      → Edits e io req p (posted setup base form report io req p).1
  unfolding posted submit
  posted-Edits e base form report io req p same = elim (Bool-cases (is_post req)) [
    | inr got ↦ rw got (inl refl)
    | inl sent ↦ elim (Result-cases form) [
      | inr (m, bad) ↦ rw sent (rw (bad, submit) (inl refl))
      | inl (edit, good) ↦ inr (
        edit,
        sent,
        same ∙ ap some good,
        rw sent (rw (good, submit) (answered-process base report (perform setup.world edit io p))),
      )
    ]
  ]

  run_endpoint-Edits :
      (e : Endpoint) (io : Io) (now : ℕ) (req : Request) (p : Process)
      → Edits e io req p (run_endpoint setup e io now req p).1
  unfolding run_endpoint
  run_endpoint-Edits login io now req p = inl refl
  run_endpoint-Edits logout io now req p = inl refl
  run_endpoint-Edits root io now req p = inl refl
  run_endpoint-Edits dashboard io now req p = inl refl
  run_endpoint-Edits forwards io now req p = inl refl
  run_endpoint-Edits dnat_page io now req p = inl refl
  run_endpoint-Edits domains io now req p = inl refl
  run_endpoint-Edits save io now req p =
      posted-Edits save (codes "/_admin") (site_form setup.read_routes req)
        (report_saved (field req (codes "host"))) io req p refl
  run_endpoint-Edits delete io now req p =
      posted-Edits delete (codes "/_admin") (delete_form drop_site (codes "host") req)
        (report_deleted (field req (codes "host"))) io req p refl
  run_endpoint-Edits save_forward io now req p =
      posted-Edits save_forward (codes "/_admin/forwards") (forward_form req)
        (report_forward (field req (codes "name"))) io req p refl
  run_endpoint-Edits delete_forward io now req p =
      posted-Edits delete_forward (codes "/_admin/forwards")
        (delete_form drop_forward (codes "name") req) (report_deleted (field req (codes "name"))) io
        req p refl
  run_endpoint-Edits save_dnat io now req p =
      posted-Edits save_dnat (codes "/_admin/dnat") (rule_form req)
        (report_rule (field req (codes "name"))) io req p refl
  run_endpoint-Edits delete_dnat io now req p =
      posted-Edits delete_dnat (codes "/_admin/dnat") (delete_form drop_dnat (codes "name") req)
        (report_deleted (field req (codes "name"))) io req p refl
  run_endpoint-Edits save_domain io now req p =
      posted-Edits save_domain (codes "/_admin/domains") (domain_form setup.read_forwards req)
        (report_saved (field req (codes "host"))) io req p refl
  run_endpoint-Edits delete_domain io now req p =
      posted-Edits delete_domain (codes "/_admin/domains")
        (delete_form drop_domain (codes "host") req) (report_deleted (field req (codes "host"))) io
        req p refl

  run_endpoint-open :
      (e : Endpoint) (io : Io) (now : ℕ) (req : Request) (p : Process)
      → is_open e ≡ true
      → (run_endpoint setup e io now req p).1 ≡ p
  unfolding run_endpoint
  run_endpoint-open login io now req p h = refl
  run_endpoint-open logout io now req p h = refl
  run_endpoint-open root io now req p h = refl
  run_endpoint-open _ io now req p h = cc

  -- The process stays, or the request was let through.
  abbrev IsAuthorized : Io → ℕ → Request → Process → Process → Type 0
  IsAuthorized io now req p q =
      (q ≡ p)
      ⊎ ((edit : Edit) × (has_session setup now req ≡ true)
          × (is_post req ≡ true)
          × (asked (entry_of req.path).endpoint req ≡ some (ok edit))
          × (q ≡ (perform setup.world edit io p).1))

  opens_only : (e : Entry) → e.guarded ≡ false → is_safe e ≡ true → is_open e.endpoint ≡ true
  opens_only e h k = ground arith

  enter-IsAuthorized :
      (io : Io) (now : ℕ) (req : Request) (p : Process)
      → IsAuthorized io now req p (enter setup (entry_of req.path) io now req p).1
  unfolding enter
  enter-IsAuthorized io now req p =
      let entry = entry_of req.path in
      elim (Bool-cases (has_session setup now req)) [
        | inl valid ↦ elim (Bool-cases entry.guarded) [
          | inl guarded ↦ rw guarded (
              rw valid (elim (run_endpoint-Edits entry.endpoint io now req p) [
                | inl same ↦ inl same
                | inr (edit, sent, form, done) ↦ inr (edit, refl, sent, form, done)
              ]))
          | inr free ↦ rw free (
              inl (
                run_endpoint-open entry.endpoint io now req p
                  (opens_only entry free (entry_of-is_safe req.path))))
        ]
        | inr none_valid ↦ elim (Bool-cases entry.guarded) [
          | inl guarded ↦ rw guarded (rw none_valid (inl refl))
          | inr free ↦ rw free (
              inl (
                run_endpoint-open entry.endpoint io now req p
                  (opens_only entry free (entry_of-is_safe req.path))))
        ]
      ]

  -- A request to the admin page leaves the process as it is, or it comes from an allowed address,
  -- with a valid session, is posted, and the process is what the one edit makes of it that the form
  -- of its path asks for.
  pub handle-authorized :
      (io : Io) (now : ℕ) (req : Request) (p : Process)
      → ((handle setup io now req p).1 ≡ p)
        ⊎ ((edit : Edit) × (ip_allowed setup.parse_ip setup.contains setup.auth req.remote_addr
              ≡ true)
            × (has_session setup now req ≡ true)
            × (is_post req ≡ true)
            × (asked (entry_of req.path).endpoint req ≡ some (ok edit))
            × ((handle setup io now req p).1 ≡ (perform setup.world edit io p).1))
  unfolding handle serve_mux
  handle-authorized io now req p =
      elim (Bool-cases (ip_allowed setup.parse_ip setup.contains setup.auth req.remote_addr)) [
        | inr refused ↦ rw refused (inl refl)
        | inl allowed ↦
            elim (Bool-cases
              (req.method == codes "CONNECT" || setup.clean_path req.path == req.path)) [
                | inr unclean ↦ rw allowed (rw unclean (inl refl))
                | inl clean ↦ elim (enter-IsAuthorized io now req p) [
                  | inl same ↦ rw allowed (rw clean (inl same))
                  | inr (edit, valid, sent, form, done) ↦
                      inr (edit, allowed, valid, sent, form, rw allowed (rw clean done))
                ]
              ]
      ]
