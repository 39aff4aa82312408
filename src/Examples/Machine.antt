-- ===== src/Examples/Machine.antt =====
-- A machine, its start, and the requests to its admin page.
use in_proxy.Common.{ℕ, ◌≡◌, refl, true, false, List, [], ◌∷◌, none, some, ok, if◌then◌else◌}
use in_proxy.Common.Int.{pos, int_eq}
use in_proxy.Text.{Text, codes, ◌==◌, contains}
use in_proxy.Text.Trim.{trim_space}
use in_proxy.Text.Numbers.{atoi, magnitude, digits}
use in_proxy.Text.HostPort.{split_host_port}
use in_proxy.Store.{
  written, persist, recompile, set_forward_listener, set_dnat_listener, set_domain_listener,
}
use in_proxy.Store.Compile.{compile_sites, compile_domains}
use in_proxy.Store.Match.{domain_ports}
use in_proxy.Store.Forwards.{list_forwards}
use in_proxy.Store.Dnat.{list_dnat}
use in_proxy.Store.Runs.Sound.{IsSound}
use in_proxy.Store.Load.{Json, absent, new_store, empty_config}
use in_proxy.Forwarder.{Net, Forwarder, new_forwarder}
use in_proxy.Forwarder
use in_proxy.Kernel
use in_proxy.Kernel.{ensure_scaffolding, ensure_jump, effect}
use in_proxy.DomainRouter
use in_proxy.DomainRouter.{new_domain_router}
use in_proxy.Auth.{Auth, cookie_value, new_auth}
use in_proxy.Routing.{main_port_of, redirect_port_of}
use in_proxy.Tls.{nothing}
use in_proxy.Process.{World, Process}
use in_proxy.Admin.{Request, Setup}
use in_proxy.Start.{Settings, Machine, serving, automatic, start, source_of, applied, routed}
use in_proxy.Examples.Configs.{parse}

abbrev pub all_open : Net
all_open = record { listen = λ k held. none; resolve = λ t. none }

abbrev pub world : World
world = record { parse_url = parse; net = all_open; refuses = λ c. none; listen = λ p. none }

abbrev no_json : Json
no_json = record { array = λ t. none; object = λ t. none }

abbrev pub machine : Machine Text
machine = record {
  world = world;
  json = no_json;
  has_dir = true;
  config = absent;
  io = written;
  pair = record { cert = nothing; key = nothing };
  failures = record {
    mkdir = none;
    generate = none;
    serial = none;
    create = none;
    open_cert = none;
    write_cert = none;
    marshal = none;
    open_key = none;
    write_key = none;
  };
  is_ip = λ t. false;
  loads = λ p. none;
  listens = λ a. none;
  table = record { hooked_dnat = false; hooked_post = false; dnat_rules = []; post_rules = [] };
  sha256 = λ t. t;
  parse_cidr = λ t. some t;
}

abbrev pub set_up : Settings
set_up = record {
  proxy_addr = codes ":443";
  redirect_addr = codes ":80";
  admin_addr = codes ":8443";
  admin_tls = false;
  internal_cidr = codes "10.8.0.9";
  config_path = codes "/etc/inproxy/config.json";
  tls_mode = codes "auto";
  external_host = codes "tools.example.com";
  acme_cache = [];
  acme_email = [];
  cert_path = [];
  key_path = [];
  password = codes "dev";
}

abbrev pub admins : Auth Text
admins = record {
  password = codes "dev";
  nets = codes "10.8.0.9" ∷ [];
  secret = codes "inproxy-session-key:dev";
}

abbrev pub booted : Process
booted = record {
  store = record {
    sites = [];
    forwards = [];
    dnat = [];
    domains = [];
    compiled_sites = [];
    compiled_dom = [];
    on_forward = true;
    on_dnat = true;
    on_domain = true;
    disk = some empty_config;
    calls = [];
  };
  forwarder = new_forwarder;
  manager = record {
    status = [];
    last_err = none;
    table = record { hooked_dnat = true; hooked_post = true; dnat_rules = []; post_rules = [] };
  };
  router = record { main_port = pos 443; http_port = pos 80; active = [] };
}

pub boots : start machine set_up ≡ serving admins (automatic (codes "tools.example.com")) booted
unfolding start new_store persist recompile compile_sites compile_domains new_auth source_of applied
    routed main_port_of redirect_port_of split_host_port contains atoi magnitude digits ◌==◌
    trim_space Forwarder.apply Kernel.apply DomainRouter.apply ensure_scaffolding ensure_jump
    Kernel.run effect set_forward_listener set_dnat_listener set_domain_listener list_forwards
    list_dnat new_domain_router domain_ports int_eq
boots = refl

-- A signature that repeats what it signs.
abbrev pub mirror : List ℕ → Text → List ℕ
mirror secret payload = payload

abbrev pub setup : Setup Text Text
setup = record {
  world = world;
  auth = admins;
  hmac = mirror;
  parse_ip = λ t. some t;
  contains = λ n ip. n == ip;
  read_routes = λ t. ok [];
  read_forwards = λ t. ok [];
  clean_path = λ t. t;
}

abbrev pub ssh_form : Text → Text
ssh_form k =
    if k == codes "name"
    then codes "ssh"
    else if k == codes "listen"
    then codes ":2222"
    else if k == codes "target"
    then codes "10.8.0.5:22"
    else if k == codes "enabled"
    then codes "on"
    else []

abbrev pub noon : ℕ
noon = 1700000000

abbrev pub save_ssh : Request
save_ssh = record {
  method = codes "POST";
  path = codes "/_admin/forwards/save";
  remote_addr = codes "10.8.0.9:5000";
  cookie = some (cookie_value mirror admins.secret noon);
  form = ssh_form;
  query = λ k. [];
  tls = false;
}

abbrev pub sign_in : Request
sign_in = record save_ssh { path = codes "/_admin/login"; cookie = none; form = λ k. codes "dev" }

pub booted_IsSound : IsSound parse booted.store
booted_IsSound = record {
  sites = record { normal = tt; apart = tt };
  forwards = record { normal = tt; apart = tt };
  dnat = record { normal = tt; apart = tt };
  domains = record { normal = tt; apart = tt };
}
