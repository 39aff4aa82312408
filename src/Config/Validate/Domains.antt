-- ===== src/Config/Validate/Domains.antt =====
-- What validateDomain establishes.
use in_proxy.Common.{
  ℕ, ◌≤◌, ◌≡◌, ◌≢◌, ◌∙◌, true, false, not, List, [], ◌∷◌, ok, arith, wrap, >>=-eq-ok, require-eq-ok,
  wrap-eq-ok, All, Distinct, All-weaken,
}
use in_proxy.Common.Int.{ℤ, pos, int_eq_iff}
use in_proxy.Text.{Text, to_lower}
use in_proxy.Text.Trim.{trim_space, trim_space_idem, lower_trim_idem}
use in_proxy.Config.{PortForward, Domain}
use in_proxy.Config.Patterns.{host_pattern}
use in_proxy.Config.Endpoints.{
  is_port, normalize_host_port, IsEndpoint, normalize_host_port-IsEndpoint,
}
use in_proxy.Config.Validate.{
  seen_port, plain_http, without_backend_tls, validate_port_forward, validate_port_forwards,
  has_forwards, validate_domain,
}
use in_proxy.Config.Validate.Forwards.{is_port_sound}
use in_proxy.Config.Errors.{
  bad_host, no_forwards, port_out_of_range, duplicate_port, bad_port_target,
}

pub record IsNormalPortForward (f : PortForward) : Type 0 where
  pub number : ℕ
  pub public_port : f.port ≡ pos number
  pub lowest : 1 ≤ number
  pub highest : number ≤ 65535
  pub targets : IsEndpoint false f.target
  -- A mapping that is passed through carries no setting of the backend's TLS.
  pub no_backend_tls : f.manage_cert ≡ false → f.backend_tls ≡ false
  pub no_skip_verify : f.manage_cert ≡ false → f.skip_verify ≡ false
  -- Port 80 never manages a certificate.
  pub plain_80 : f.port ≡ pos 80 → f.manage_cert ≡ false
  pub trimmed_description : trim_space f.description ≡ f.description

pub record IsNormalDomain (d : Domain) : Type 0 where
  pub hosted : host_pattern d.host ≡ true
  pub canonical : trim_space (to_lower d.host) ≡ d.host
  pub trimmed_description : trim_space d.description ≡ d.description
  pub has_some : has_forwards d.forwards ≡ true
  pub forwards : All IsNormalPortForward d.forwards
  pub distinct : Distinct (λ (f : PortForward). f.port) d.forwards

abbrev settled : PortForward → Text → PortForward
settled f target =
    let g = plain_http (record f { description = trim_space f.description }) in
    without_backend_tls (record g { target = target })

port-settled : (f : PortForward) (t : Text) → (settled f t).port ≡ f.port
port-settled f t = ground arith

target-settled : (f : PortForward) (t : Text) → (settled f t).target ≡ t
target-settled f t = ground arith

settled_80 :
    (f : PortForward) (t : Text) → (settled f t).port ≡ pos 80 → (settled f t).manage_cert ≡ false
settled_80 f t h = ground (arith, int_eq_iff f.port (pos 80), port-settled f t)

settled_tls :
    (f : PortForward) (t : Text)
    → (settled f t).manage_cert ≡ false
    → ((settled f t).backend_tls ≡ false) × ((settled f t).skip_verify ≡ false)
settled_tls f t h = (ground arith, ground arith)

description-settled :
    (f : PortForward) (t : Text) → (settled f t).description ≡ trim_space f.description
description-settled f t = ground arith

validate_port_forward-IsNormal :
    (seen : List ℤ) (f g : PortForward)
    → validate_port_forward seen f ≡ ok g
    → IsNormalPortForward g × (g.port ≡ f.port) × (seen_port f.port seen ≡ false)
unfolding validate_port_forward
validate_port_forward-IsNormal seen f g h =
    let (ported, h₁) = require-eq-ok (is_port f.port) (port_out_of_range f.port) _ h in
    let (fresh, h₂) = require-eq-ok (not (seen_port f.port seen)) (duplicate_port f.port) _ h₁ in
    let (t, e, last) =
      >>=-eq-ok (wrap (bad_port_target f.port) (normalize_host_port (trim_space f.target) false)) _
        h₂ in
    let (n, same, low, high) = is_port_sound f.port ported in
    let whole : g ≡ settled f t = cc in
    let target_ok : IsEndpoint false t =
      normalize_host_port-IsEndpoint (trim_space f.target) t false
        (wrap-eq-ok (bad_port_target f.port) (normalize_host_port (trim_space f.target) false) e) in
    rw whole (
      record {
        number = n;
        public_port = port-settled f t ∙ same;
        lowest = low;
        highest = high;
        targets = rw (target-settled f t) target_ok;
        no_backend_tls = λ k. (settled_tls f t k).0;
        no_skip_verify = λ k. (settled_tls f t k).1;
        plain_80 = settled_80 f t;
        trimmed_description = rw (description-settled f t) (trim_space_idem f.description);
      },
      port-settled f t,
      ground arith,
    )

abbrev IsFresh : List ℤ → PortForward → Type 0
IsFresh seen f = seen_port f.port seen ≡ false

IsFresh-weaken : (p : ℤ) (seen : List ℤ) (f : PortForward) → IsFresh (p ∷ seen) f → IsFresh seen f
unfolding seen_port
IsFresh-weaken p seen f h = ground arith

fresh_differs : (p : ℤ) (seen : List ℤ) (f : PortForward) → IsFresh (p ∷ seen) f → p ≢ f.port
unfolding seen_port
fresh_differs p seen f h = ground (arith, int_eq_iff p f.port)

validate_port_forwards-IsNormal :
    (seen : List ℤ) (fs gs : List PortForward)
    → validate_port_forwards seen fs ≡ ok gs
    → All IsNormalPortForward gs × All (IsFresh seen) gs × Distinct (λ (f : PortForward). f.port) gs
unfolding validate_port_forwards
validate_port_forwards-IsNormal seen [] gs h = let e : gs ≡ [] = cc in rw e (tt, tt, tt)
validate_port_forwards-IsNormal seen (f ∷ fs) gs h =
    let (g, e, h₁) = >>=-eq-ok (validate_port_forward seen f) _ h in
    let (rest, e', last) = >>=-eq-ok (validate_port_forwards (f.port ∷ seen) fs) _ h₁ in
    let (normal, same, fresh) = validate_port_forward-IsNormal seen f g e in
    let (normals, freshes, distinct) = validate_port_forwards-IsNormal (f.port ∷ seen) fs rest e' in
    let whole : gs ≡ g ∷ rest = cc in
    rw whole (
      (normal, normals),
      (
        rw same fresh,
        All-weaken (IsFresh (f.port ∷ seen)) (IsFresh seen) (IsFresh-weaken f.port seen) rest
            freshes,
      ),
      (
        rw same (
            All-weaken (IsFresh (f.port ∷ seen)) (λ q. f.port ≢ q.port) (fresh_differs f.port seen)
              rest freshes),
        distinct,
      ),
    )

has_forwards_kept :
    (seen : List ℤ) (fs gs : List PortForward)
    → validate_port_forwards seen fs ≡ ok gs
    → has_forwards fs ≡ true
    → has_forwards gs ≡ true
unfolding validate_port_forwards
has_forwards_kept seen [] gs h k = cc
has_forwards_kept seen (f ∷ fs) gs h k =
    let (g, e, h₁) = >>=-eq-ok (validate_port_forward seen f) _ h in
    let (rest, e', last) = >>=-eq-ok (validate_port_forwards (f.port ∷ seen) fs) _ h₁ in
    let whole : gs ≡ g ∷ rest = cc in rw whole

-- What validateDomain accepts comes out normal: the host matches its pattern and is in lower case
-- and trimmed, there is a forward, the ports are distinct and in 1 to 65535, every target has a host
-- and a port in that range, port 80 manages no certificate, and a forward that manages none has no
-- setting of the backend's TLS.
pub validate_domain-IsNormal : (d e : Domain) → validate_domain d ≡ ok e → IsNormalDomain e
unfolding validate_domain
validate_domain-IsNormal d e h =
    let host = trim_space (to_lower d.host) in
    let (hosted, h₁) = require-eq-ok (host_pattern host) bad_host _ h in
    let (some_forward, h₂) = require-eq-ok (has_forwards d.forwards) no_forwards _ h₁ in
    let (gs, ran, last) = >>=-eq-ok (validate_port_forwards [] d.forwards) _ h₂ in
    let (normal, _, distinct) = validate_port_forwards-IsNormal [] d.forwards gs ran in
    let whole : e ≡ record { host = host; description = trim_space d.description; forwards = gs } =
      cc in
    rw whole (record {
      hosted = hosted;
      canonical = lower_trim_idem d.host;
      trimmed_description = trim_space_idem d.description;
      has_some = has_forwards_kept [] d.forwards gs ran some_forward;
      forwards = normal;
      distinct = distinct;
    })
