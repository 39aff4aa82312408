-- ===== src/Config.antt =====
-- config.go: the configured objects. Every text is a list of bytes, and an `int` is an integer.
pub mod Patterns
pub mod Errors
pub mod Endpoints
pub mod Validate
use in_proxy.Common.{Bool, List, Option}
use in_proxy.Common.Int.{ℤ}
use in_proxy.Text.{Text}

pub record Route : Type 0 where
  pub prefix : Text
  pub target : Text
  pub strip_prefix : Bool
  pub description : Text
  pub enabled : Bool
  pub max_concurrent : ℤ

pub record HttpSite : Type 0 where
  pub host : Text
  pub description : Text
  pub routes : List Route

pub record Forward : Type 0 where
  pub name : Text
  pub proto : Text
  pub listen : Text
  pub target : Text
  pub proxy_proto : Bool
  pub description : Text
  pub enabled : Bool

pub record DnatRule : Type 0 where
  pub name : Text
  pub proto : Text
  pub listen_port : ℤ
  pub target : Text
  pub snat : Bool
  pub description : Text
  pub enabled : Bool

pub record PortForward : Type 0 where
  pub port : ℤ
  pub target : Text
  pub manage_cert : Bool
  pub backend_tls : Bool
  pub skip_verify : Bool
  pub proxy_proto : Bool
  pub description : Text
  pub enabled : Bool

pub record Domain : Type 0 where
  pub host : Text
  pub description : Text
  pub forwards : List PortForward

-- The on-disk object.
pub record ConfigFile : Type 0 where
  pub sites : List HttpSite
  pub forwards : List Forward
  pub dnat : List DnatRule
  pub domains : List Domain

-- What `url.Parse` gives. `hostname` is `u.Hostname()`.
pub record Url : Type 0 where
  pub scheme : Text
  pub host : Text
  pub path : Text
  pub hostname : Text

-- `url.Parse`, whose grammar is left open.
abbrev pub ParseUrl : Type 0
ParseUrl = Text → Option Url
