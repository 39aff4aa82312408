-- ===== src/Kernel.antt =====
-- dnat.go: the DNATManager, which rebuilds two chains of the kernel's nat table.
-- A command is what `run` hands to iptables. The table holds the rules of the two chains and the
-- hooks; a command that iptables refuses leaves it as it is, and which ones it refuses, and with what
-- message, is a function.
pub mod Rebuilt
use in_proxy.Common.{
  ℕ, ◌≡◌, refl, Bool, true, false, List, [], ◌∷◌, ◌++◌, Option, none, some, Result, ok, err,
  if◌then◌else◌,
}
use in_proxy.Common.Int.{ℤ}
use in_proxy.Common.Dict.{lookup, insert}
use in_proxy.Text.{Text, codes, ◌==◌}
use in_proxy.Text.HostPort.{AddrError, split_host_port}
use in_proxy.Config.{DnatRule}

-- The two chains: dnatChain, hooked from PREROUTING, and postChain, hooked from POSTROUTING.
pub data Chain : Type 0 where
  dnat_chain post_chain : Chain

pub data Command : Type 0 where
  new_chain check_jump add_jump flush : Chain → Command
  -- protocol, public port, destination
  append_dnat : Text → ℤ → Text → Command
  -- protocol, host, port
  append_masquerade : Text → Text → Text → Command

pub record Table : Type 0 where
  pub hooked_dnat : Bool
  pub hooked_post : Bool
  pub dnat_rules : List Command
  pub post_rules : List Command

abbrev pub is_hooked : Chain → Table → Bool
is_hooked dnat_chain t = t.hooked_dnat
is_hooked post_chain t = t.hooked_post

-- What a command does that iptables does not refuse.
unfoldable pub effect : Command → Table → Table
effect (new_chain c) t = t
effect (check_jump c) t = t
effect (add_jump dnat_chain) t = record t { hooked_dnat = true }
effect (add_jump post_chain) t = record t { hooked_post = true }
effect (flush dnat_chain) t = record t { dnat_rules = [] }
effect (flush post_chain) t = record t { post_rules = [] }
effect (append_dnat proto port target) t = record t {
  dnat_rules = t.dnat_rules ++ (append_dnat proto port target ∷ []);
}
effect (append_masquerade proto host port) t = record t {
  post_rules = t.post_rules ++ (append_masquerade proto host port ∷ []);
}

abbrev pub Iptables : Type 0
Iptables = Command → Option Text

abbrev no_such_rule : Text
no_such_rule = codes "no such rule"

-- The errors of a rule: those of iptables, and that of net.SplitHostPort.
pub data RuleError : Type 0 where
  refused : Text → RuleError
  no_address : AddrError → RuleError

module _ (refuses : Iptables) where
  unfoldable pub run : Command → Table → Option Text × Table
  unfolding effect
  run c t = elim (refuses c) [ some e ↦ (some e, t) | none ↦ (none, effect c t) ]

  -- `-C` fails where the hook is missing; then the hook is added.
  unfoldable pub ensure_jump : Chain → Table → Option Text × Table
  unfolding run
  ensure_jump c t = elim (if is_hooked c t then (run (check_jump c) t).0 else some no_such_rule) [
    | none ↦ (none, t)
    | some e ↦ run (add_jump c) t
  ]

  after_jump : Option Text × Table → Option Text × Table
  unfolding ensure_jump
  after_jump (some e, t) = (some e, t)
  after_jump (none, t) = ensure_jump post_chain t

  unfoldable pub ensure_scaffolding : Table → Option Text × Table
  unfolding run ensure_jump after_jump
  ensure_scaffolding t =
      after_jump
        (ensure_jump dnat_chain (run (new_chain post_chain) (run (new_chain dnat_chain) t).1).1)

  -- The part of applyRule for the way back.
  unfoldable pub masquerade : DnatRule → Table → Option RuleError × Table
  unfolding run
  masquerade r t = elim (split_host_port r.target) [
    | err e ↦ (some (no_address e), t)
    | ok (host, port) ↦ elim (refuses (append_masquerade r.proto host port)) [
      | some e ↦ (some (refused e), t)
      | none ↦ (none, effect (append_masquerade r.proto host port) t)
    ]
  ]

  unfoldable pub apply_rule : DnatRule → Table → Option RuleError × Table
  unfolding masquerade effect
  apply_rule r t = elim (refuses (append_dnat r.proto r.listen_port r.target)) [
    | some e ↦ (some (refused e), t)
    | none ↦
        let added = effect (append_dnat r.proto r.listen_port r.target) t in
        if r.snat then masquerade r added else (none, added)
  ]

-- What the status of a rule says.
pub data RuleStatus : Type 0 where
  active disabled : RuleStatus
  failed : RuleError → RuleStatus

abbrev status_of : Option RuleError → RuleStatus
status_of none = active
status_of (some e) = failed e

pub record Manager : Type 0 where
  pub status : List (Text × RuleStatus)
  pub last_err : Option Text
  pub table : Table

-- NewDNATManager, over the table as it is.
abbrev pub new_manager : Table → Manager
new_manager t = record { status = []; last_err = none; table = t }

-- The loop where the scaffolding failed.
all_failed : Text → List DnatRule → List (Text × RuleStatus) → List (Text × RuleStatus)
unfolding insert
all_failed e [] m = m
all_failed e (r ∷ rs) m =
    all_failed e rs (insert ◌==◌ r.name (if r.enabled then failed (refused e) else disabled) m)

module _ (refuses : Iptables) where
  -- The loop over the rules.
  unfoldable pub apply_rules :
      List DnatRule → List (Text × RuleStatus) → Table → List (Text × RuleStatus) × Table
  unfolding apply_rule insert
  apply_rules [] m t = (m, t)
  apply_rules (r ∷ rs) m t =
      let applied = apply_rule refuses r t in
      if r.enabled
      then apply_rules rs (insert ◌==◌ r.name (status_of applied.0) m) applied.1
      else apply_rules rs (insert ◌==◌ r.name disabled m) t

  rebuild : List DnatRule → Option Text × Table → Manager
  unfolding all_failed apply_rules run
  rebuild rules (some e, t) = record {
    status = all_failed e rules [];
    last_err = some e;
    table = t;
  }
  rebuild rules (none, t) =
      let flushed = (run refuses (flush post_chain) (run refuses (flush dnat_chain) t).1).1 in
      let built = apply_rules rules [] flushed in
      record { status = built.0; last_err = none; table = built.1 }

  unfoldable pub apply : List DnatRule → Manager → Manager
  unfolding rebuild ensure_scaffolding
  apply rules m = rebuild rules (ensure_scaffolding refuses m.table)

  unfoldable pub shutdown : Manager → Manager
  unfolding run
  shutdown m = record m {
    table = (run refuses (flush post_chain) (run refuses (flush dnat_chain) m.table).1).1;
  }
