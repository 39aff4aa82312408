-- ===== src/Kernel/Rebuilt.antt =====
-- Apply against its specification: what stands in the two chains.
use in_proxy.Common.{
  ◌≡◌, refl, sym, ap, ◌∙◌, true, List, [], ◌∷◌, ◌++◌, Option, none, some, ok, err, if◌then◌else◌,
  append_assoc, append-nil, Bool-cases, Option-cases, Result-cases, inl, inr,
}
use in_proxy.Common.Dict.{lookup, insert}
use in_proxy.Text.{Text, ◌==◌, eq_refl}
use in_proxy.Text.HostPort.{split_host_port}
use in_proxy.Config.{DnatRule}
use in_proxy.Kernel.{
  dnat_chain, post_chain, Command, flush, append_dnat, append_masquerade, Table, Iptables, effect,
  run, ensure_scaffolding, masquerade, apply_rule, refused, disabled, failed, status_of, RuleStatus,
  RuleError, Manager, apply_rules, rebuild, apply,
}

abbrev unless_refused : Command → Option Text → List Command
unless_refused c none = c ∷ []
unless_refused c (some e) = []

module _ (refuses : Iptables) where
  abbrev accepted : Command → List Command
  accepted c = unless_refused c (refuses c)

  -- The rule of the first chain, if it is accepted.
  unfoldable pub dnat_of : DnatRule → List Command
  dnat_of r = accepted (append_dnat r.proto r.listen_port r.target)

  masquerade_of : DnatRule → List Command
  masquerade_of r = elim (split_host_port r.target) [
    | err e ↦ []
    | ok (host, port) ↦ accepted (append_masquerade r.proto host port)
  ]

  -- The rule of the second chain: only behind an accepted rule of the first.
  unfoldable pub post_of : DnatRule → List Command
  unfolding masquerade_of
  post_of r = elim (refuses (append_dnat r.proto r.listen_port r.target)) [
    | some e ↦ []
    | none ↦ if r.snat then masquerade_of r else []
  ]

  -- What an enabled list of rules puts into a chain.
  unfoldable pub of_enabled : (DnatRule → List Command) → List DnatRule → List Command
  of_enabled what [] = []
  of_enabled what (r ∷ rs) =
      let rest = of_enabled what rs in if r.enabled then what r ++ rest else rest

  abbrev Appends : Table → List Command → List Command → Table → Type 0
  Appends t ds ps after =
      (after.dnat_rules ≡ t.dnat_rules ++ ds) × (after.post_rules ≡ t.post_rules ++ ps)

  masquerade-Appends :
      (r : DnatRule) (t : Table) → Appends t [] (masquerade_of r) (masquerade refuses r t).1
  unfolding masquerade masquerade_of effect
  masquerade-Appends r t = elim (Result-cases (split_host_port r.target)) [
    | inr (e, bad) ↦
        rw (bad, masquerade, masquerade_of)
          (sym (append-nil t.dnat_rules), sym (append-nil t.post_rules))
    | inl ((host, port), good) ↦
        elim (Option-cases (refuses (append_masquerade r.proto host port))) [
          | inr (e, refusal) ↦
              rw (good, masquerade, masquerade_of)
                (rw refusal (sym (append-nil t.dnat_rules), sym (append-nil t.post_rules)))
          | inl fine ↦
              rw (good, masquerade, masquerade_of) (rw fine (sym (append-nil t.dnat_rules), refl))
        ]
  ]

  apply_rule-Appends :
      (r : DnatRule) (t : Table) → Appends t (dnat_of r) (post_of r) (apply_rule refuses r t).1
  unfolding apply_rule dnat_of post_of effect
  apply_rule-Appends r t =
      elim (Option-cases (refuses (append_dnat r.proto r.listen_port r.target))) [
        | inr (e, refusal) ↦
            rw (refusal, apply_rule, dnat_of, post_of)
              (sym (append-nil t.dnat_rules), sym (append-nil t.post_rules))
        | inl fine ↦ elim (Bool-cases r.snat) [
          | inr plain ↦
              rw (fine, apply_rule, dnat_of, post_of)
                (simp plain (refl, sym (append-nil t.post_rules)))
          | inl snat ↦
              let added = effect (append_dnat r.proto r.listen_port r.target) t in
              let (d, p) = masquerade-Appends r added in
              rw (fine, apply_rule, dnat_of, post_of)
                (simp snat (d ∙ append-nil added.dnat_rules, p))
        ]
      ]

  apply_rules-Appends :
      (rs : List DnatRule) (m : List (Text × RuleStatus)) (t : Table)
      → Appends t (of_enabled dnat_of rs) (of_enabled post_of rs) (apply_rules refuses rs m t).1
  unfolding apply_rules of_enabled
  apply_rules-Appends [] m t = (sym (append-nil t.dnat_rules), sym (append-nil t.post_rules))
  apply_rules-Appends (r ∷ rs) m t = elim (Bool-cases r.enabled) [
    | inr off ↦ simp off (apply_rules-Appends rs (insert ◌==◌ r.name disabled m) t)
    | inl on ↦
        let applied = apply_rule refuses r t in
        let (d, p) = apply_rule-Appends r t in
        let (ds, ps) =
          apply_rules-Appends rs (insert ◌==◌ r.name (status_of applied.0) m) applied.1 in
        simp on (
          ds
              ∙ ap (λ cs. cs ++ of_enabled dnat_of rs) d
              ∙ append_assoc t.dnat_rules (dnat_of r) (of_enabled dnat_of rs),
          ps
              ∙ ap (λ cs. cs ++ of_enabled post_of rs) p
              ∙ append_assoc t.post_rules (post_of r) (of_enabled post_of rs),
        )
  ]

  accepted_run : (c : Command) (t : Table) → refuses c ≡ none → (run refuses c t).1 ≡ effect c t
  unfolding run
  accepted_run c t h = rw (h, run) refl

  pub emptied :
      (t : Table)
      → refuses (flush dnat_chain) ≡ none
      → refuses (flush post_chain) ≡ none
      → (run refuses (flush post_chain) (run refuses (flush dnat_chain) t).1).1
        ≡ record t { dnat_rules = []; post_rules = [] }
  unfolding effect
  emptied t f g =
      accepted_run (flush post_chain) (run refuses (flush dnat_chain) t).1 g
      ∙ ap (effect (flush post_chain)) (accepted_run (flush dnat_chain) t f)

  -- After Apply, where the chains can be hooked in and flushed, whatever stood in them before: the
  -- first chain holds the rules of the enabled entries that iptables accepts, in their order, and the
  -- second the masquerade rules that it accepts of those among them that ask for it.
  pub apply_rebuilds :
      (rules : List DnatRule) (m : Manager)
      → (ensure_scaffolding refuses m.table).0 ≡ none
      → refuses (flush dnat_chain) ≡ none
      → refuses (flush post_chain) ≡ none
      → ((apply refuses rules m).table.dnat_rules ≡ of_enabled dnat_of rules)
        × ((apply refuses rules m).table.post_rules ≡ of_enabled post_of rules)
  unfolding apply rebuild
  apply_rebuilds rules m hooked f g =
      let t = (ensure_scaffolding refuses m.table).1 in
      rw (hooked, rebuild)
        (rw (emptied t f g)
          (apply_rules-Appends rules [] (record t { dnat_rules = []; post_rules = [] })))

  -- The error that is kept is that of the scaffolding.
  pub last_err-apply :
      (rules : List DnatRule) (m : Manager)
      → (apply refuses rules m).last_err ≡ (ensure_scaffolding refuses m.table).0
  unfolding apply rebuild
  last_err-apply rules m = elim (Option-cases (ensure_scaffolding refuses m.table).0) [
    | inl fine ↦ rw (fine, rebuild) refl
    | inr (e, bad) ↦ rw (bad, rebuild) refl
  ]

  failing_rule :
      (r : DnatRule) (t : Table) (host port e : Text)
      → r.snat ≡ true
      → refuses (append_dnat r.proto r.listen_port r.target) ≡ none
      → split_host_port r.target ≡ ok (host, port)
      → refuses (append_masquerade r.proto host port) ≡ some e
      → (apply_rule refuses r t).0 ≡ some (refused e)
  unfolding apply_rule masquerade
  failing_rule r t host port e snat fine good bad =
      rw (fine, apply_rule) (simp snat (rw (good, masquerade) (rw bad refl)))

  status-apply_rules :
      (r : DnatRule) (t : Table) (o : Option RuleError)
      → r.enabled ≡ true
      → (apply_rule refuses r t).0 ≡ o
      → lookup ◌==◌ r.name (apply_rules refuses (r ∷ []) [] t).0 ≡ some (status_of o)
  unfolding apply_rules lookup insert
  status-apply_rules r t o on h = simp on (rw (eq_refl r.name) (ap (λ x. some (status_of x)) h))

  only_dnat :
      (r : DnatRule)
      → r.enabled ≡ true
      → refuses (append_dnat r.proto r.listen_port r.target) ≡ none
      → of_enabled dnat_of (r ∷ []) ≡ append_dnat r.proto r.listen_port r.target ∷ []
  unfolding of_enabled dnat_of
  only_dnat r on fine = simp on (rw fine refl)

  -- When the only rule is enabled and asks for a masquerade, and iptables hooks and empties both
  -- chains, accepts the rule's DNAT and refuses its masquerade, the rule is reported as failed, and
  -- its DNAT stays in force.
  pub half_applied :
      (r : DnatRule) (m : Manager) (host port e : Text)
      → (ensure_scaffolding refuses m.table).0 ≡ none
      → refuses (flush dnat_chain) ≡ none
      → refuses (flush post_chain) ≡ none
      → r.enabled ≡ true
      → r.snat ≡ true
      → refuses (append_dnat r.proto r.listen_port r.target) ≡ none
      → split_host_port r.target ≡ ok (host, port)
      → refuses (append_masquerade r.proto host port) ≡ some e
      → (lookup ◌==◌ r.name (apply refuses (r ∷ []) m).status ≡ some (failed (refused e)))
        × ((apply refuses (r ∷ []) m).table.dnat_rules
            ≡ append_dnat r.proto r.listen_port r.target ∷ [])
  unfolding apply rebuild
  half_applied r m host port e hooked f g on snat fine good bad =
      let flushed = record (ensure_scaffolding refuses m.table).1 {
        dnat_rules = [];
        post_rules = [];
      } in
      let failure = failing_rule r flushed host port e snat fine good bad in
      (
        rw (hooked, rebuild)
            (rw (emptied (ensure_scaffolding refuses m.table).1 f g)
              (status-apply_rules r flushed (some (refused e)) on failure)),
        (apply_rebuilds (r ∷ []) m hooked f g).0 ∙ only_dnat r on fine,
      )
