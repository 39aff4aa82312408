-- ===== src/Store/Load.antt =====
-- NewStore, parseConfig and migrateRoutes of config.go. What encoding/json makes of a text, as an
-- array of routes or as the object, is given by two functions, `none` for an error; it leaves a key
-- that is missing at the zero value.
pub mod Start
use in_proxy.Common.{
  ◌≡◌, refl, Bool, true, false, ◌&&◌, ◌||◌, not, List, [], ◌∷◌, ◌++◌, Option, none, some, Result,
  ok, err, if◌then◌else◌,
}
use in_proxy.Common.Int.{ℤ, pos}
use in_proxy.Text.{Text, codes, ◌==◌, has_prefix}
use in_proxy.Text.Trim.{trim_space}
use in_proxy.Config.{
  Route, HttpSite, Forward, DnatRule, PortForward, Domain, ConfigFile, Url, ParseUrl,
}
use in_proxy.Config.Endpoints.{is_empty}
use in_proxy.Config.Errors.{Error}
use in_proxy.Store.{Store, Io, Outcome, persist, recompile}

-- An entry of the former flat list "vhosts".
pub record VHost : Type 0 where
  pub host : Text
  pub target : Text
  pub skip_verify : Bool
  pub description : Text
  pub enabled : Bool

-- The object with the keys of every release.
pub record Decoded : Type 0 where
  pub sites : List HttpSite
  pub routes : List Route
  pub forwards : List Forward
  pub dnat : List DnatRule
  pub domains : List Domain
  pub vhosts : List VHost

pub record Json : Type 0 where
  pub array : Text → Option (List Route)
  pub object : Text → Option Decoded

pub data LoadError : Type 0 where
  no_directory unreadable bad_config : LoadError
  store_failed : Error → LoadError

pub data File : Type 0 where
  absent broken : File
  content : Text → File

abbrev none_of {ℓ} : {A : Type ℓ} → List A → Bool
none_of [] = true
none_of (x ∷ xs) = false

unfoldable pub migrate_routes : List Route → Text → List HttpSite
migrate_routes routes host =
    if none_of routes || is_empty host
    then []
    else record { host = host; description = []; routes = routes } ∷ []

-- The forward of a former vhost, given its host and whether that is an https URL.
abbrev vhost_forward : VHost → Text → Bool → PortForward
vhost_forward v target https = record {
  port = pos 443;
  target = target;
  manage_cert = true;
  backend_tls = https;
  skip_verify = v.skip_verify;
  proxy_proto = false;
  description = [];
  enabled = v.enabled;
}

of_url : VHost → Option Url → PortForward
of_url v none = vhost_forward v v.target false
of_url v (some u) =
    if is_empty u.host
    then vhost_forward v v.target false
    else vhost_forward v u.host (u.scheme == codes "https")

abbrev pub store_of : ConfigFile → Store
store_of c = record {
  sites = c.sites;
  forwards = c.forwards;
  dnat = c.dnat;
  domains = c.domains;
  compiled_sites = [];
  compiled_dom = [];
  on_forward = false;
  on_dnat = false;
  on_domain = false;
  disk = none;
  calls = [];
}

abbrev pub empty_config : ConfigFile
empty_config = record { sites = []; forwards = []; dnat = []; domains = [] }

abbrev finish : Outcome → Result LoadError Store
finish (err e, s) = err (store_failed e)
finish (ok u, s) = ok s

module _ (parse_url : ParseUrl) (json : Json) where
  -- The loop over the former vhosts.
  unfoldable pub migrate_vhosts : List VHost → List Domain
  unfolding of_url
  migrate_vhosts [] = []
  migrate_vhosts (v ∷ vs) =
      record {
        host = v.host;
        description = v.description;
        forwards = of_url v (parse_url v.target) ∷ [];
      }
      ∷ migrate_vhosts vs

  -- The sites of the object, or the former flat routes.
  sites_of : Decoded → Text → List HttpSite
  unfolding migrate_routes
  sites_of d host =
      if none_of d.sites && not (none_of d.routes) then migrate_routes d.routes host else d.sites

  unfoldable pub parse_config : Text → Text → Option ConfigFile
  unfolding migrate_routes migrate_vhosts sites_of trim_space has_prefix
  parse_config text host =
      if has_prefix (trim_space text) (codes "[")
      then elim (json.array text) [
        | none ↦ none
        | some routes ↦
            some (record {
              sites = migrate_routes routes host;
              forwards = [];
              dnat = [];
              domains = [];
            })
      ]
      else elim (json.object text) [
        | none ↦ none
        | some d ↦ some (record {
          sites = sites_of d host;
          forwards = d.forwards;
          dnat = d.dnat;
          domains = d.domains ++ migrate_vhosts d.vhosts;
        })
      ]

  abbrev compiled_after : Outcome → Result LoadError Store
  compiled_after (err e, s) = err (store_failed e)
  compiled_after (ok u, s) = finish (recompile parse_url s)

  load : Text → File → Io → Result LoadError Store
  unfolding parse_config recompile persist
  load host absent io = compiled_after (persist io (store_of empty_config))
  load host broken io = err unreadable
  load host (content []) io = finish (recompile parse_url (store_of empty_config))
  load host (content (c ∷ text)) io = elim (parse_config (c ∷ text) host) [
    | none ↦ err bad_config
    | some config ↦ finish (recompile parse_url (store_of config))
  ]

  -- `has_dir`: os.MkdirAll succeeds.
  unfoldable pub new_store : Bool → Text → File → Io → Result LoadError Store
  unfolding load
  new_store has_dir host file io = if has_dir then load host file io else err no_directory
