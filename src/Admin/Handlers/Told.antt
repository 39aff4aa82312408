-- ===== src/Admin/Handlers/Told.antt =====
-- What the pages of admin.go tell of an entry: its status in a table, and the message behind an
-- accepted edit.
use in_proxy.Common.{not, [], ◌++◌, Option, none, some, if◌then◌else◌}
use in_proxy.Common.Dict.{lookup}
use in_proxy.Text.{Text, codes, ◌==◌, has_prefix}
use in_proxy.Config.{Forward, DnatRule}
use in_proxy.Config.Endpoints.{is_empty}
use in_proxy.Kernel.{RuleStatus, active, disabled, failed}
use in_proxy.Process.{Process}
use in_proxy.Admin.{Kind, notice, error, Message, saved, deleted, saved_but, rule_saved_but}

abbrev pub or_empty : Option Text → Text
or_empty none = []
or_empty (some s) = s

-- `s := st[f.Name]` and the switch.
unfoldable pub forward_status : Process → Forward → Text
unfolding lookup
forward_status p f =
    let s = or_empty (lookup ◌==◌ f.name p.forwarder.status) in
    if not f.enabled then codes "disabled" else if is_empty s then codes "running" else s

abbrev pub or_active : Option RuleStatus → RuleStatus
or_active none = active
or_active (some s) = s

unfoldable pub rule_status : Process → DnatRule → RuleStatus
unfolding lookup
rule_status p d =
    if not d.enabled then disabled else or_active (lookup ◌==◌ d.name p.manager.status)

-- `"iptables error: " + gerr`
abbrev pub with_iptables : Option Text → Text → Text
with_iptables none text = text
with_iptables (some e) text = if is_empty text then codes "iptables error: " ++ e else text

-- What is said of an accepted edit, given the process behind it.
abbrev pub Report : Type 0
Report = Process → Kind × Message

abbrev pub report_forward : Text → Report
report_forward name p =
    let s = or_empty (lookup ◌==◌ name p.forwarder.status) in
    if has_prefix s (codes "error:") then (error, saved_but s) else (notice, saved name)

abbrev pub rule_report : Text → Option RuleStatus → Kind × Message
rule_report name (some (failed e)) = (error, rule_saved_but e)
rule_report name (some active) = (notice, saved name)
rule_report name (some disabled) = (notice, saved name)
rule_report name none = (notice, saved name)

abbrev pub report_rule : Text → Report
report_rule name p = rule_report name (lookup ◌==◌ name p.manager.status)

abbrev pub report_saved : Text → Report
report_saved name p = (notice, saved name)

abbrev pub report_deleted : Text → Report
report_deleted name p = (notice, deleted name)
