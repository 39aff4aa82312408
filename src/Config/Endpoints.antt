-- ===== src/Config/Endpoints.antt =====
-- normalizeHostPort and normalizeListen of config.go.
pub mod Spellings
use in_proxy.Common.{
  ℕ, ◌≤◌, ◌≡◌, ◌≢◌, refl, Bool, true, false, ◌&&◌, ◌||◌, not, List, [], ◌∷◌, ◌⊎◌, inl, inr, Option,
  none, some, leb, if◌then◌else◌, Result, ok, err, ◌>>=◌, ◌>>◌, require, wrap, arith, require-eq-ok,
  >>=-eq-ok, wrap-eq-ok, Option-cases, Bool-cases, ◌++◌, append_assoc,
}
use in_proxy.Common.Int.{ℤ, pos, negsuc}
use in_proxy.Text.{Text, codes, contains}
use in_proxy.Text.Numbers.{atoi, atoi_leading_zero}
use in_proxy.Text.Trim.{trim_space}
use in_proxy.Text.HostPort.{AddrError, missing_port, split_host_port, join_host_port}
use in_proxy.Text.HostPort.Laws.{split_host_port-AreParts, split_host_port-join_host_port}
use in_proxy.Config.Errors.{
  EndpointError, no_listen_port, not_host_port, missing_host, invalid_port,
}

-- 1 <= p && p <= 65535
unfoldable pub is_port : ℤ → Bool
is_port (pos n) = leb 1 n && leb n 65535
is_port (negsuc n) = false

abbrev pub is_empty : Text → Bool
is_empty [] = true
is_empty (c ∷ s) = false

-- `err != nil || p < 1 || p > 65535`, negated
is_port_text : Option ℤ → Bool
unfolding is_port
is_port_text none = false
is_port_text (some p) = is_port p

normalize_parts : Bool → Text → Text → Result EndpointError Text
unfolding is_port_text
normalize_parts allow_empty_host host port = do
  require (not (is_empty host) || allow_empty_host) missing_host
  require (is_port_text (atoi port)) (invalid_port port)
  ok (join_host_port host port)

unfoldable pub normalize_host_port : Text → Bool → Result EndpointError Text
unfolding normalize_parts
normalize_host_port s allow_empty_host = do
  parts ← wrap not_host_port (split_host_port s)
  normalize_parts allow_empty_host parts.0 parts.1

add_colon : Text → Text
unfolding contains
add_colon s = if contains b':' s then s else b':' ∷ s

unfoldable pub normalize_listen : Text → Result EndpointError Text
unfolding add_colon
normalize_listen text = do
  let s = trim_space text
  require (not (is_empty s)) no_listen_port
  normalize_host_port (add_colon s) true

-- A normalised address: it splits into a host and a port in range, and is their join.
pub record IsEndpoint (allow_empty_host : Bool) (t : Text) : Type 0 where
  pub host : Text
  pub port : Text
  pub number : ℕ
  pub splits : split_host_port t ≡ ok (host, port)
  pub joined : t ≡ join_host_port host port
  pub has_host : not (is_empty host) || allow_empty_host ≡ true
  pub reads : atoi port ≡ some (pos number)
  pub lowest : 1 ≤ number
  pub highest : number ≤ 65535

is_port_text_sound :
    (o : Option ℤ) → is_port_text o ≡ true → (n : ℕ) × (o ≡ some (pos n)) × (1 ≤ n) × (n ≤ 65535)
unfolding is_port_text
is_port_text_sound none h = cc
is_port_text_sound (some (pos n)) h = (n, refl, ground arith, ground arith)
is_port_text_sound (some (negsuc n)) h = cc

normalize_parts-IsEndpoint :
    (allow : Bool) (s host port t : Text)
    → split_host_port s ≡ ok (host, port)
    → normalize_parts allow host port ≡ ok t
    → IsEndpoint allow t
unfolding normalize_parts
normalize_parts-IsEndpoint allow s host port t split h =
    let (named, h') = require-eq-ok (not (is_empty host) || allow) missing_host _ h in
    let (ported, h'') = require-eq-ok (is_port_text (atoi port)) (invalid_port port) _ h' in
    let (n, reads, low, high) = is_port_text_sound (atoi port) ported in
    let whole : t ≡ join_host_port host port = cc in
    record {
      host = host;
      port = port;
      number = n;
      splits =
          rw whole
            (split_host_port-join_host_port host port (split_host_port-AreParts host port s split));
      joined = whole;
      has_host = named;
      reads = reads;
      lowest = low;
      highest = high;
    }

-- An address that is accepted comes out as a valid endpoint.
pub normalize_host_port-IsEndpoint :
    (s t : Text) (allow : Bool) → normalize_host_port s allow ≡ ok t → IsEndpoint allow t
unfolding normalize_host_port
normalize_host_port-IsEndpoint s t allow h =
    let (parts, e, r) = >>=-eq-ok (wrap not_host_port (split_host_port s)) _ h in
    normalize_parts-IsEndpoint allow s parts.0 parts.1 t
      (wrap-eq-ok not_host_port (split_host_port s) e) r

-- A valid endpoint is accepted as it is.
pub normalize_host_port_of_IsEndpoint :
    (t : Text) (allow : Bool) → IsEndpoint allow t → normalize_host_port t allow ≡ ok t
unfolding normalize_host_port
normalize_host_port_of_IsEndpoint t allow v =
    rw v.splits (rw v.has_host (rw v.reads (ground (arith, v.joined, v.lowest, v.highest))))

-- Normalising an address a second time changes nothing.
pub normalize_host_port_idem :
    (s t : Text) (allow : Bool)
    → normalize_host_port s allow ≡ ok t
    → normalize_host_port t allow ≡ ok t
normalize_host_port_idem s t allow h =
    normalize_host_port_of_IsEndpoint t allow (normalize_host_port-IsEndpoint s t allow h)

pub normalize_listen-IsEndpoint : (s t : Text) → normalize_listen s ≡ ok t → IsEndpoint true t
unfolding normalize_listen
normalize_listen-IsEndpoint s t h =
    normalize_host_port-IsEndpoint (add_colon (trim_space s)) t true
      (require-eq-ok (not (is_empty (trim_space s))) no_listen_port _ h).1

contains-append : (b : ℕ) (s t : Text) → contains b (s ++ b ∷ t) ≡ true
unfolding contains
contains-append b [] t = ground arith
contains-append b (c ∷ s) t = ground (arith, contains-append b s t)

contains-join_host_port : (host port : Text) → contains b':' (join_host_port host port) ≡ true
unfolding join_host_port
contains-join_host_port host port = elim (Bool-cases (contains b':' host)) [
  | inl v6 ↦ rw v6 (simp append_assoc at (contains-append b':' (b'[' ∷ host ++ b']' ∷ []) port))
  | inr plain ↦ rw plain (contains-append b':' host port)
]

has_bytes : (s : Text) → contains b':' s ≡ true → is_empty s ≡ false
unfolding contains
has_bytes [] h = cc
has_bytes (c ∷ s) h = refl

-- A valid listen address with no white space around it is accepted as it is.
pub normalize_listen_of_IsEndpoint :
    (t : Text) → trim_space t ≡ t → IsEndpoint true t → normalize_listen t ≡ ok t
unfolding normalize_listen
normalize_listen_of_IsEndpoint t clean v =
    let colon : contains b':' t ≡ true = rw v.joined (contains-join_host_port v.host v.port) in
    rw (clean, has_bytes t colon, colon) (normalize_host_port_of_IsEndpoint t true v)
