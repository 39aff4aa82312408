-- ===== src/Admin/Forms.antt =====
-- The parsing of the forms of admin.go into edits of the store.
use in_proxy.Common.{Bool, List, [], Option, none, some, Result, ok, err, if◌then◌else◌}
use in_proxy.Common.Int.{ℤ, pos}
use in_proxy.Text.{Text, codes, ◌==◌}
use in_proxy.Text.Trim.{trim_space}
use in_proxy.Text.Numbers.{atoi}
use in_proxy.Config.{Route, HttpSite, Forward, DnatRule, PortForward, Domain}
use in_proxy.Config.Endpoints.{is_empty}
use in_proxy.Store.Runs.{Edit, put_site, put_forward, put_dnat, put_domain}
use in_proxy.Admin.{Request, Message, unread, port_not_number}

-- `strings.TrimSpace(r.FormValue(key))`
unfoldable pub field : Request → Text → Text
field req key = trim_space (req.form key)

abbrev pub is_on : Request → Text → Bool
is_on req key = req.form key == codes "on"

-- A list in JSON; an empty field is no list.
abbrev pub read_list : {A : Type 0} → (Text → Result Text (List A)) → Text → Result Text (List A)
read_list read s = if is_empty s then ok [] else read s

abbrev pub site_of : Request → List Route → HttpSite
site_of req routes = record {
  host = field req (codes "host");
  description = field req (codes "description");
  routes = routes;
}

abbrev pub domain_of : Request → List PortForward → Domain
domain_of req forwards = record {
  host = field req (codes "host");
  description = field req (codes "description");
  forwards = forwards;
}

abbrev pub forward_of : Request → Forward
forward_of req = record {
  name = field req (codes "name");
  proto = field req (codes "proto");
  listen = field req (codes "listen");
  target = field req (codes "target");
  proxy_proto = is_on req (codes "proxy_proto");
  description = field req (codes "description");
  enabled = is_on req (codes "enabled");
}

abbrev pub rule_of : Request → ℤ → DnatRule
rule_of req port = record {
  name = field req (codes "name");
  proto = field req (codes "proto");
  listen_port = port;
  target = field req (codes "target");
  snat = is_on req (codes "snat");
  description = field req (codes "description");
  enabled = is_on req (codes "enabled");
}

abbrev port_read : Option ℤ → Result Message ℤ
port_read none = err port_not_number
port_read (some n) = ok n

-- An empty port is 0, which the store refuses.
unfoldable pub port_of : Text → Result Message ℤ
unfolding atoi
port_of v = if is_empty v then ok (pos 0) else port_read (atoi v)

abbrev list_message : {A : Type 0} → Result Text A → Result Message A
list_message (ok a) = ok a
list_message (err e) = err (unread e)

-- The edit that each of the eight forms asks for.
unfoldable pub site_form : (Text → Result Text (List Route)) → Request → Result Message Edit
unfolding field
site_form read req = elim (list_message (read_list read (field req (codes "routes_json")))) [
  | err m ↦ err m
  | ok routes ↦ ok (put_site (field req (codes "old_host")) (site_of req routes))
]

unfoldable pub domain_form : (Text → Result Text (List PortForward)) → Request → Result Message Edit
unfolding field
domain_form read req = elim (list_message (read_list read (field req (codes "forwards_json")))) [
  | err m ↦ err m
  | ok forwards ↦ ok (put_domain (field req (codes "old_host")) (domain_of req forwards))
]

unfoldable pub forward_form : Request → Result Message Edit
unfolding field
forward_form req = ok (put_forward (field req (codes "old_name")) (forward_of req))

unfoldable pub rule_form : Request → Result Message Edit
unfolding field port_of
rule_form req = elim (port_of (field req (codes "listen_port"))) [
  | err m ↦ err m
  | ok port ↦ ok (put_dnat (field req (codes "old_name")) (rule_of req port))
]

unfoldable pub delete_form : (Text → Edit) → Text → Request → Result Message Edit
unfolding field
delete_form edit key req = ok (edit (field req key))
