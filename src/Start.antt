-- ===== src/Start.antt =====
-- main.go: what main reads of its environment, what it builds from that in which order, and where it
-- gives up; and what it shuts down at the end.
pub mod Wired
pub mod Ends
use in_proxy.Common.{
  ℕ, Bool, true, false, ◌&&◌, List, [], ◌∷◌, Option, none, some, Result, ok, err, if◌then◌else◌,
}
use in_proxy.Common.Int.{ℤ}
use in_proxy.Text.{Text, codes, ◌==◌}
use in_proxy.Config.Endpoints.{is_empty}
use in_proxy.Store.{Store, Io, set_forward_listener, set_dnat_listener, set_domain_listener}
use in_proxy.Store.Forwards.{list_forwards}
use in_proxy.Store.Dnat.{list_dnat}
use in_proxy.Store.Load.{Json, File, LoadError, new_store}
use in_proxy.Routing.{main_port_of, redirect_port_of}
use in_proxy.Forwarder
use in_proxy.Forwarder.{new_forwarder}
use in_proxy.Kernel
use in_proxy.Kernel.{Manager, Table, new_manager}
use in_proxy.DomainRouter
use in_proxy.DomainRouter.{new_domain_router}
use in_proxy.Auth.{Auth, new_auth}
use in_proxy.Tls.{Pair, Failures, file_exists, ensure_tls}
use in_proxy.Process.{World, Process, uncalled}

abbrev pub Getenv : Type 0
Getenv = Text → Text

unfoldable pub env : Getenv → Text → Text → Text
env getenv key default = let v = getenv key in if is_empty v then default else v

pub record Settings : Type 0 where
  pub proxy_addr : Text
  pub redirect_addr : Text
  pub admin_addr : Text
  pub admin_tls : Bool
  pub internal_cidr : Text
  pub config_path : Text
  pub tls_mode : Text
  pub external_host : Text
  pub acme_cache : Text
  pub acme_email : Text
  pub cert_path : Text
  pub key_path : Text
  pub password : Text

unfoldable pub settings : Getenv → Settings
unfolding env
settings getenv = record {
  proxy_addr = env getenv (codes "PROXY_ADDR") (codes ":443");
  redirect_addr = env getenv (codes "HTTP_REDIRECT_ADDR") (codes ":80");
  admin_addr = env getenv (codes "ADMIN_ADDR") (codes ":8443");
  admin_tls = env getenv (codes "ADMIN_TLS") (codes "false") == codes "true";
  internal_cidr = env getenv (codes "INTERNAL_CIDR") (codes "10.8.0.0/24,127.0.0.1/32,::1/128");
  config_path = env getenv (codes "CONFIG_PATH") (codes "/etc/inproxy/config.json");
  tls_mode = env getenv (codes "TLS_MODE") (codes "auto");
  external_host = env getenv (codes "EXTERNAL_HOST") [];
  acme_cache = env getenv (codes "ACME_CACHE") (codes "/etc/inproxy/acme");
  acme_email = env getenv (codes "ACME_EMAIL") [];
  cert_path = env getenv (codes "TLS_CERT") (codes "/etc/inproxy/tls/cert.pem");
  key_path = env getenv (codes "TLS_KEY") (codes "/etc/inproxy/tls/key.pem");
  password = getenv (codes "ADMIN_PASSWORD");
}

-- What log.Fatal reports.
pub data Fatal : Type 0 where
  no_password no_external_host missing_files : Fatal
  bad_config : LoadError → Fatal
  bad_network : Text → Fatal
  not_generated not_loaded : Text → Fatal
  unknown_mode : Text → Fatal
  not_listening : Text → Fatal

-- Where the certificates of the main listener come from.
pub data Source : Type 0 where
  -- Let's Encrypt, for the external host
  automatic : Text → Source
  from_files : Pair → Source

-- What is outside of the program at its start: the configuration file, the certificate's files, the
-- nat table, and the functions of other packages.
pub record Machine (Network : Type 0) : Type 0 where
  pub world : World
  pub json : Json
  pub has_dir : Bool
  pub config : File
  pub io : Io
  pub pair : Pair
  pub failures : Failures
  pub is_ip : Text → Bool
  pub loads : Pair → Option Text
  pub listens : Text → Option Text
  pub table : Table
  pub sha256 : Text → List ℕ
  pub parse_cidr : Text → Option Network

-- How main goes on: it gives up before anything was applied, or after the forwards and the rules were,
-- or it serves.
pub data Outcome (Network : Type 0) : Type 0 where
  gave_up : Fatal → Outcome Network
  gave_up_late : Fatal → Process → Outcome Network
  serving : Auth Network → Source → Process → Outcome Network

module _ {Network : Type 0} (m : Machine Network) where
  load_pair : Pair → Result Fatal Source
  load_pair p = elim (m.loads p) [ some e ↦ err (not_loaded e) | none ↦ ok (from_files p) ]

  generated : Option Text × Pair → Result Fatal Source
  unfolding load_pair
  generated (some e, p) = err (not_generated e)
  generated (none, p) = load_pair p

  -- The switch on the mode.
  unfoldable pub source_of : Settings → Result Fatal Source
  unfolding load_pair generated ensure_tls
  source_of s =
      if s.tls_mode == codes "auto"
      then if is_empty s.external_host then err no_external_host else ok (automatic s.external_host)
      else if s.tls_mode == codes "self"
      then generated (
          ensure_tls m.is_ip m.failures (codes "127.0.0.1" ∷ codes "::1" ∷ s.external_host ∷ [])
            m.pair)
      else if s.tls_mode == codes "file"
      then if file_exists m.pair.cert && file_exists m.pair.key
        then load_pair m.pair
        else err missing_files
      else err (unknown_mode s.tls_mode)

  -- The forwarder and the manager, with their listeners set.
  unfoldable pub applied : Settings → Store → Process
  unfolding set_forward_listener set_dnat_listener list_forwards list_dnat new_domain_router
  applied s st =
      let with_forwarder = set_forward_listener (uncalled st) in
      let fwd = Forwarder.apply m.world.net (list_forwards with_forwarder) new_forwarder in
      let with_rules = set_dnat_listener with_forwarder in
      record {
        store = with_rules;
        forwarder = fwd;
        manager = Kernel.apply m.world.refuses (list_dnat with_rules) (new_manager m.table);
        router = new_domain_router (main_port_of s.proxy_addr) (redirect_port_of s.redirect_addr);
      }

  -- The router of the domains.
  unfoldable pub routed : Process → Process
  unfolding set_domain_listener
  routed p =
      let st = set_domain_listener p.store in
      record p { store = st; router = DomainRouter.apply m.world.listen st p.router }

  listening : Settings → Auth Network → Source → Process → Outcome Network
  listening s auth source p = elim (m.listens s.proxy_addr) [
    | some e ↦ gave_up_late (not_listening e) p
    | none ↦ serving auth source p
  ]

  secured : Settings → Auth Network → Process → Outcome Network
  unfolding source_of routed listening
  secured s auth p = elim (source_of s) [
    | err e ↦ gave_up_late e p
    | ok source ↦ listening s auth source (routed p)
  ]

  unfoldable pub start : Settings → Outcome Network
  unfolding applied secured new_auth
  start s =
      if is_empty s.password
      then gave_up no_password
      else elim (new_store m.world.parse_url m.json m.has_dir s.external_host m.config m.io) [
        | err e ↦ gave_up (bad_config e)
        | ok st ↦ elim (new_auth m.sha256 m.parse_cidr s.password s.internal_cidr) [
          | err e ↦ gave_up (bad_network e)
          | ok auth ↦ secured s auth (applied s st)
        ]
      ]

-- Graceful shutdown, before the servers are shut down.
unfoldable pub shut_down : World → Process → Process
unfolding Forwarder.shutdown Kernel.shutdown DomainRouter.shutdown
shut_down w p = record p {
  forwarder = Forwarder.shutdown p.forwarder;
  manager = Kernel.shutdown w.refuses p.manager;
  router = DomainRouter.shutdown p.router;
}
