-- ===== src/Examples/Configs.antt =====
-- A configuration of a site, a domain, a forward and a rule, a parser of URLs that knows "http://"
-- and "https://", and the store that holds them.
use in_proxy.Common.{true, false, [], ◌∷◌, none, some, if◌then◌else◌}
use in_proxy.Common.Int.{pos}
use in_proxy.Text.{Text, codes, has_prefix, trim_prefix}
use in_proxy.Config.{Route, HttpSite, Forward, DnatRule, PortForward, Domain, Url, ParseUrl}
use in_proxy.Store.{Store}
use in_proxy.Store.Compile.{CompiledRoute, CompiledPf}

abbrev pub url : Text → Text → Url
url scheme host = record { scheme = scheme; host = host; path = []; hostname = host }

-- Any text behind the scheme is taken for the host.
unfoldable pub parse : ParseUrl
unfolding has_prefix trim_prefix
parse t =
    if has_prefix t (codes "http://")
    then some (url (codes "http") (trim_prefix t (codes "http://")))
    else if has_prefix t (codes "https://")
    then some (url (codes "https") (trim_prefix t (codes "https://")))
    else none

abbrev pub wiki : Route
wiki = record {
  prefix = codes "wiki";
  target = codes "http://10.8.0.7:3000";
  strip_prefix = true;
  description = [];
  enabled = true;
  max_concurrent = pos 4;
}

abbrev pub tools : HttpSite
tools = record { host = codes "tools.example.com"; description = []; routes = wiki ∷ [] }

abbrev pub mail_443 : PortForward
mail_443 = record {
  port = pos 443;
  target = codes "10.8.0.60:18443";
  manage_cert = true;
  backend_tls = false;
  skip_verify = false;
  proxy_proto = false;
  description = [];
  enabled = true;
}

abbrev pub mail_993 : PortForward
mail_993 = record mail_443 { port = pos 993; manage_cert = false; proxy_proto = true }

abbrev pub mail : Domain
mail = record {
  host = codes "mail.example.com";
  description = [];
  forwards = mail_443 ∷ mail_993 ∷ [];
}

abbrev pub ssh : Forward
ssh = record {
  name = codes "ssh";
  proto = codes "tcp";
  listen = codes ":2222";
  target = codes "10.8.0.5:22";
  proxy_proto = false;
  description = [];
  enabled = true;
}

abbrev pub dns : DnatRule
dns = record {
  name = codes "dns";
  proto = codes "udp";
  listen_port = pos 53;
  target = codes "10.8.0.2:53";
  snat = true;
  description = [];
  enabled = true;
}

abbrev pub empty_store : Store
empty_store = record {
  sites = [];
  forwards = [];
  dnat = [];
  domains = [];
  compiled_sites = [];
  compiled_dom = [];
  on_forward = true;
  on_dnat = true;
  on_domain = true;
  disk = none;
  calls = [];
}

abbrev pub wiki_compiled : CompiledRoute
wiki_compiled = record {
  route = wiki;
  proxy = record {
    target = url (codes "http") (codes "10.8.0.7:3000");
    prefix = codes "/wiki";
    strip_prefix = true;
    max_conns = 4;
    max_idle = 4;
  };
  limiter = some 4;
}

abbrev pub mail_443_compiled : CompiledPf
mail_443_compiled = record {
  host = codes "mail.example.com";
  forward = mail_443;
  proxy = some (record {
    target = url (codes "http") (codes "10.8.0.60:18443");
    tls_client = none;
    max_idle = 100;
  });
}

abbrev pub mail_993_compiled : CompiledPf
mail_993_compiled = record { host = codes "mail.example.com"; forward = mail_993; proxy = none }

-- The store after the site and the domain were added.
abbrev pub full_store : Store
full_store = record empty_store {
  sites = tools ∷ [];
  domains = mail ∷ [];
  compiled_sites = (codes "tools.example.com", wiki_compiled ∷ []) ∷ [];
  compiled_dom =
      (pos 443, (codes "mail.example.com", mail_443_compiled) ∷ [])
      ∷ (pos 993, (codes "mail.example.com", mail_993_compiled) ∷ [])
      ∷ [];
}
