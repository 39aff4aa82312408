-- ===== src/Admin.antt =====
-- admin.go: the handlers of the admin page, over the process that they edit.
-- A request is what the handlers read of it: `form` is FormValue, `query` is Get of the query, and
-- `cookie` the value of the session cookie, if there is one. A handler gives its reply beside the
-- process that it leaves.
pub mod Forms
pub mod Handlers
pub mod Gates
pub mod Sessions
pub mod Reports
use in_proxy.Common.{ℕ, Bool, List, Option, Result}
use in_proxy.Text.{Text}
use in_proxy.Config.{Route, HttpSite, Forward, DnatRule, PortForward, Domain}
use in_proxy.Config.Errors.{Error}
use in_proxy.Kernel.{RuleError, RuleStatus}
use in_proxy.Auth.{Auth}
use in_proxy.Auth.Issue.{SetCookie}
use in_proxy.Process.{World}

pub record Request : Type 0 where
  pub method : Text
  pub path : Text
  pub remote_addr : Text
  pub cookie : Option Text
  pub form : Text → Text
  pub query : Text → Text
  pub tls : Bool

-- What a redirect tells the user.
pub data Message : Type 0 where
  refused : Error → Message
  unread : Text → Message
  port_not_number : Message
  saved deleted : Text → Message
  -- the entry is stored, but could not be put in force
  saved_but : Text → Message
  rule_saved_but : RuleError → Message

pub data Kind : Type 0 where
  notice error : Kind

-- The data that a template is given. A page has the two messages of its query, notice and error.
pub data Page : Type 0 where
  login_page : Bool → Page
  sites_page : List HttpSite → Text → Text → Page
  domains_page : List Domain → Text → Text → Page
  forwards_page : List (Forward × Text) → Text → Text → Page
  rules_page : List (DnatRule × RuleStatus) → Text → Text → Page

pub data Response : Type 0 where
  forbidden : Response
  see_other : Text → Response
  -- the page that the message is for, `?notice=` or `?error=`, and the message
  told : Text → Kind → Message → Response
  moved : Text → Response
  rendered : Page → Response

pub record Reply : Type 0 where
  pub response : Response
  pub set_cookie : Option SetCookie

-- What the handlers are given: the configured access control, the time in seconds, and the functions
-- of other packages: HMAC, net.ParseIP, IPNet.Contains, json.Unmarshal of the two lists of a form,
-- and the cleaning of a path by net/http. An error of json.Unmarshal is its message.
pub record Setup (Network Address : Type 0) : Type 0 where
  pub world : World
  pub auth : Auth Network
  pub hmac : List ℕ → Text → List ℕ
  pub parse_ip : Text → Option Address
  pub contains : Network → Address → Bool
  pub read_routes : Text → Result Text (List Route)
  pub read_forwards : Text → Result Text (List PortForward)
  pub clean_path : Text → Text
