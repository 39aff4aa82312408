-- ===== src/Auth/Issue.antt =====
-- The cookies that IssueCookie and ClearCookie of auth.go set.
use in_proxy.Common.{ℕ, ◌+◌, Bool, true, false, List, [], Option, none, some}
use in_proxy.Text.{Text, codes}
use in_proxy.Auth.{session_ttl, cookie_value}

-- `http.Cookie`, as far as it is used. The name is always that of the session.
pub record SetCookie : Type 0 where
  pub value : Text
  pub path : Text
  pub http_only : Bool
  pub secure : Bool
  pub lax : Bool
  pub expires : Option ℕ
  pub removed : Bool

abbrev pub session_cookie : Text
session_cookie = codes "inproxy_session"

-- `secure` tells whether the request came over TLS.
unfoldable pub issue_cookie : (List ℕ → Text → List ℕ) → List ℕ → ℕ → Bool → SetCookie
issue_cookie hmac secret now secure = record {
  value = cookie_value hmac secret now;
  path = codes "/_admin";
  http_only = true;
  secure = secure;
  lax = true;
  expires = some (now + session_ttl);
  removed = false;
}

-- `MaxAge: -1`
unfoldable pub clear_cookie : SetCookie
clear_cookie = record {
  value = [];
  path = codes "/_admin";
  http_only = true;
  secure = false;
  lax = false;
  expires = none;
  removed = true;
}
