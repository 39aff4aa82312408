-- ===== src/Auth.antt =====
-- auth.go: who may reach the admin page. The HMAC, and the functions of package net on addresses, are
-- parameters.
pub mod Cookie
pub mod Issue
use in_proxy.Common.{
  ℕ, zero, suc, ◌+◌, ◌*◌, ◌/◌, ◌%◌, ◌≡◌, refl, Bool, true, false, ◌&&◌, not, List, [], ◌∷◌, ◌++◌,
  Option, none, some, Result, ok, err, if◌then◌else◌, ltb, leb, nat_eq, any,
}
use in_proxy.Common.Int.{ℤ, pos, negsuc}
use in_proxy.Text.{Text, codes, ◌==◌}
use in_proxy.Text.Trim.{trim_space}
use in_proxy.Text.Numbers.{atoi}
use in_proxy.Text.HostPort.{AddrError, split_host_port}
use in_proxy.Config.Endpoints.{is_empty}

-- `secret` is the signing key.
pub record Auth (Network : Type 0) : Type 0 where
  pub password : Text
  pub nets : List Network
  pub secret : List ℕ

-- sessionTTL in seconds
abbrev pub session_ttl : ℕ
session_ttl = 43200

-- strings.Split(s, ",")
split_commas : Text → List Text
split_commas [] = [] ∷ []
split_commas (c ∷ s) = elim (split_commas s) [
  | [] ↦ (c ∷ []) ∷ []
  | t ∷ ts ↦ if nat_eq c b',' then [] ∷ t ∷ ts else (c ∷ t) ∷ ts
]

module _ {Network : Type 0} (sha256 : Text → List ℕ) (parse_cidr : Text → Option Network) where
  -- The loop of NewAuth; an error quotes the entry.
  unfoldable pub parse_nets : List Text → Result Text (List Network)
  parse_nets [] = ok []
  parse_nets (text ∷ texts) =
      let rest = parse_nets texts in
      let c = trim_space text in
      if is_empty c then rest else elim (parse_cidr c) [
        | none ↦ err c
        | some n ↦ elim rest [ err e ↦ err e | ok ns ↦ ok (n ∷ ns) ]
      ]

  unfoldable pub new_auth : Text → Text → Result Text (Auth Network)
  unfolding split_commas parse_nets
  new_auth password cidrs = elim (parse_nets (split_commas cidrs)) [
    | err e ↦ err e
    | ok ns ↦ ok (record {
      password = password;
      nets = ns;
      secret = sha256 (codes "inproxy-session-key:" ++ password);
    })
  ]

module _ {Network Address : Type 0} (parse_ip : Text → Option Address)
    (contains : Network → Address → Bool) where
  remote_host : Text → Result AddrError (Text × Text) → Text
  remote_host addr (ok (host, port)) = host
  remote_host addr (err e) = addr

  unfoldable pub ip_allowed : Auth Network → Text → Bool
  unfolding remote_host
  ip_allowed a remote_addr =
      elim (parse_ip (remote_host remote_addr (split_host_port remote_addr))) [
        | none ↦ false
        | some ip ↦ any (λ n. contains n ip) a.nets
      ]

unfoldable pub check_password : {Network : Type 0} → Auth Network → Text → Bool
check_password a p = p == a.password

-- hex.EncodeToString
unfoldable pub hex_digit : ℕ → ℕ
hex_digit n = if ltb n 10 then b'0' + n else 87 + n

unfoldable pub hex : List ℕ → Text
unfolding hex_digit
hex [] = []
hex (b ∷ bs) = hex_digit (b / 16 % 16) ∷ hex_digit (b % 16) ∷ hex bs

-- strconv.FormatInt(n, 10) for n >= 0, with fuel that the number itself is enough for.
unfoldable pub format_from : ℕ → ℕ → Text
format_from zero n = []
format_from (suc fuel) n =
    let front = format_from fuel (n / 10) in
    if ltb n 10 then (b'0' + n) ∷ [] else front ++ ((b'0' + n % 10) ∷ [])

unfoldable pub format_int : ℕ → Text
unfolding format_from
format_int n = format_from (suc n) n

before_dot : ℕ → Option (Text × Text) → Option (Text × Text)
before_dot c none = none
before_dot c (some (before, behind)) = some (c ∷ before, behind)

-- strings.SplitN(s, ".", 2): what stands before and behind the first dot, if there is one.
unfoldable pub split_dot : Text → Option (Text × Text)
unfolding before_dot
split_dot [] = none
split_dot (c ∷ s) =
    let later = before_dot c (split_dot s) in if nat_eq c b'.' then some ([], s) else later

module _ (hmac : List ℕ → Text → List ℕ) where
  unfoldable pub sign : List ℕ → Text → Text
  unfolding hex
  sign secret payload = hex (hmac secret payload)

  -- The value of the cookie that IssueCookie sets at a time.
  unfoldable pub cookie_value : List ℕ → ℕ → Text
  unfolding format_int sign
  cookie_value secret now =
      let payload = format_int (now + session_ttl) in payload ++ (b'.' ∷ sign secret payload)

  not_past : ℕ → Option ℤ → Bool
  not_past now none = false
  not_past now (some (pos exp)) = leb now exp
  not_past now (some (negsuc n)) = false

  -- SessionValid, given the value of the cookie, or none.
  unfoldable pub session_valid : List ℕ → ℕ → Option Text → Bool
  unfolding split_dot sign not_past
  session_valid secret now none = false
  session_valid secret now (some value) = elim (split_dot value) [
    | none ↦ false
    | some (payload, mac) ↦ mac == sign secret payload && not_past now (atoi payload)
  ]
