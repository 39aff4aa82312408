-- ===== src/Admin/Reports.antt =====
-- What admin.go says of a forward that is saved, and whether it is so.
use in_proxy.Common.{
  ℕ, ◌≡◌, refl, sym, ◌∙◌, subst, true, false, ◌⊎◌, ◌++◌, ok, err, arith, Bool-cases, inl, inr, In,
}
use in_proxy.Text.{Text, codes, has_prefix}
use in_proxy.Text.Trim.{trim_space_idem}
use in_proxy.Config.{Forward}
use in_proxy.Config.Errors.{Fallible}
use in_proxy.Config.Validate.{validate_forward}
use in_proxy.Config.Validate.Forwards.{name-validate_forward}
use in_proxy.Store.{written}
use in_proxy.Store.Forwards.Accepted.{upsert_forward_accepted}
use in_proxy.Store.Runs.{Edit, put_forward, run}
use in_proxy.Forwarder.Open.{Runs, IsServed, runs_now, was_refused, is_off}
use in_proxy.Process.{Process, perform}
use in_proxy.Process.Follows.{Follows, perform-run, perform-Follows}
use in_proxy.Process.InForce.{Follows-IsInForce}
use in_proxy.Admin.{Request, notice, told, saved, Setup}
use in_proxy.Admin.Forms.{field, forward_form, forward_of}
use in_proxy.Admin.Handlers.{
  is_post, report_forward, Report, answered, submit, posted, save_forward, run_endpoint,
}

error_prefix : (e : Text) → has_prefix (codes "error: " ++ e) (codes "error:") ≡ true
unfolding has_prefix
error_prefix e = refl

module _ {Network Address : Type 0} (setup : Setup Network Address) where
  report_true :
      (fw : Forward) (p : Process)
      → IsServed setup.world.net fw p.forwarder
      → (report_forward fw.name p ≡ (notice, saved fw.name))
      → (fw.enabled ≡ false) ⊎ Runs fw p.forwarder
  report_true fw p (runs_now on runs_it says) h = inr runs_it
  report_true fw p (is_off disabled gone says) h = inl disabled
  report_true fw p (was_refused e why on gone says) h =
      absurd (cc (rw (error_prefix e) at (rw says at h)))

  -- The form of a forward, answered with the notice that it is saved.
  answered_saved :
      (base : Text) (report : Report) (o : Fallible (Unit {0}) × Process) (name : Text)
      → (answered setup base report o).0.response ≡ told base notice (saved name)
      → (o.0 ≡ ok tt) × (report o.1 ≡ (notice, saved name))
  unfolding answered
  answered_saved base report (err e, p) name h = cc
  answered_saved base report (ok u, p) name h = (refl, ground arith)

  answered_process :
      (base : Text) (report : Report) (o : Fallible (Unit {0}) × Process)
      → (answered setup base report o).1 ≡ o.1
  unfolding answered
  answered_process base report (err e, p) = refl
  answered_process base report (ok u, p) = refl

  abbrev asked_forward : Request → Edit
  asked_forward req = put_forward (field req (codes "old_name")) (forward_of req)

  posted_saved :
      (now : ℕ) (req : Request) (p : Process) (name : Text)
      → (run_endpoint setup save_forward written now req p).0.response
        ≡ told (codes "/_admin/forwards") notice (saved name)
      → (let o = perform setup.world (asked_forward req) written p in
          (o.0 ≡ ok tt)
          × (report_forward (field req (codes "name")) o.1 ≡ (notice, saved name))
          × ((run_endpoint setup save_forward written now req p).1 ≡ o.1))
  unfolding run_endpoint posted submit forward_form
  posted_saved now req p name h = elim (Bool-cases (is_post req)) [
    | inr got ↦ absurd (cc (rw got at h))
    | inl sent ↦
        let base = codes "/_admin/forwards" in
        let report = report_forward (field req (codes "name")) in
        let o = perform setup.world (asked_forward req) written p in
        let (done, says) = answered_saved base report o name (rw sent at h) in
        (done, says, rw sent (answered_process base report o))
  ]

  -- Where the parts follow the store and the file can be written: if a posted form of a forward is
  -- answered by the notice that it is saved, the forward was valid, is in the store as validation
  -- left it, and is disabled or runs: a listener under its name has its protocol, addresses and PROXY
  -- header and just the sockets that the protocol asks for, and the process holds these.
  pub run_endpoint-Runs :
      (now : ℕ) (req : Request) (p : Process)
      → Follows setup.world p
      → (run_endpoint setup save_forward written now req p).0.response
        ≡ told (codes "/_admin/forwards") notice (saved (field req (codes "name")))
      → (fw : Forward) × (validate_forward (forward_of req) ≡ ok fw)
        × In fw (run_endpoint setup save_forward written now req p).1.store.forwards
        × ((fw.enabled ≡ false)
            ⊎ Runs fw (run_endpoint setup save_forward written now req p).1.forwarder)
  unfolding run field
  run_endpoint-Runs now req p f h =
      let e = asked_forward req in
      let q = (perform setup.world e written p).1 in
      let (done, says, same) = posted_saved now req p (field req (codes "name")) h in
      let (result, store) = perform-run setup.world e written p in
      let (g, valid, placed) =
        upsert_forward_accepted (field req (codes "old_name")) (forward_of req) p.store
          (sym result ∙ done) in
      let there : In g q.store.forwards = rw store placed in
      let named : g.name ≡ field req (codes "name") =
        name-validate_forward (forward_of req) g valid
        ∙ trim_space_idem (req.form (codes "name")) in
      let settled =
        (Follows-IsInForce setup.world q (perform-Follows setup.world e p f)).served g there in
      (
        g,
        valid,
        rw same there,
        rw same (
            report_true g q settled
              (subst (λ n. report_forward n q ≡ (notice, saved n)) (sym named) says)),
      )
