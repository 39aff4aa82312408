-- ===== src/Config/Validate/Forwards.antt =====
-- What validateForward and validateDNAT establish.
use in_proxy.Common.{
  ℕ, ◌≤◌, ◌≡◌, refl, true, false, ◌||◌, ◌⊎◌, inl, inr, Bool-cases, ok, arith, wrap, >>=-eq-ok,
  require-eq-ok, wrap-eq-ok,
}
use in_proxy.Common.Int.{ℤ, pos, negsuc}
use in_proxy.Text.{Text, codes, ◌==◌, eq_iff, to_lower}
use in_proxy.Text.Trim.{trim_space, trim_space_idem}
use in_proxy.Config.{Forward, DnatRule}
use in_proxy.Config.Patterns.{prefix_pattern}
use in_proxy.Config.Endpoints.{
  is_port, normalize_host_port, normalize_listen, IsEndpoint, normalize_host_port-IsEndpoint,
  normalize_listen-IsEndpoint, normalize_host_port_of_IsEndpoint, normalize_listen_of_IsEndpoint,
}
use in_proxy.Config.Validate.{or_tcp, is_forward_proto, validate_forward, validate_dnat}
use in_proxy.Config.Validate.Names.{trim_space_of_name}
use in_proxy.Config.Errors.{bad_name, bad_protocol, bad_public_port, bad_listen, bad_target}

pub record IsNormalForward (f : Forward) : Type 0 where
  pub named : prefix_pattern f.name ≡ true
  pub known_proto :
      (f.proto ≡ codes "tcp") ⊎ ((f.proto ≡ codes "udp") ⊎ (f.proto ≡ codes "tcp+udp"))
  pub listens : IsEndpoint true f.listen
  pub targets : IsEndpoint false f.target
  pub trimmed_description : trim_space f.description ≡ f.description

pub record IsNormalDnat (d : DnatRule) : Type 0 where
  pub named : prefix_pattern d.name ≡ true
  pub known_proto : (d.proto ≡ codes "tcp") ⊎ (d.proto ≡ codes "udp")
  pub number : ℕ
  pub public_port : d.listen_port ≡ pos number
  pub lowest : 1 ≤ number
  pub highest : number ≤ 65535
  pub targets : IsEndpoint false d.target
  pub trimmed_description : trim_space d.description ≡ d.description

one_of_two : (s t u : Text) → s == t || s == u ≡ true → (s ≡ t) ⊎ (s ≡ u)
one_of_two s t u h = elim (Bool-cases (s == t)) [
  | inl e ↦ inl ((eq_iff s t).0 e)
  | inr n ↦ inr ((eq_iff s u).0 (rw n at h))
]

forward_proto_sound :
    (s : Text)
    → is_forward_proto s ≡ true
    → (s ≡ codes "tcp") ⊎ ((s ≡ codes "udp") ⊎ (s ≡ codes "tcp+udp"))
unfolding is_forward_proto
forward_proto_sound s h = elim (Bool-cases (s == codes "tcp")) [
  | inl e ↦ inl ((eq_iff s (codes "tcp")).0 e)
  | inr n ↦ inr (one_of_two s (codes "udp") (codes "tcp+udp") (rw n at h))
]

pub is_port_sound : (p : ℤ) → is_port p ≡ true → (n : ℕ) × (p ≡ pos n) × (1 ≤ n) × (n ≤ 65535)
unfolding is_port
is_port_sound (pos n) h = (n, refl, ground arith, ground arith)
is_port_sound (negsuc n) h = cc

-- What validateForward accepts comes out normal: a name of the pattern, a protocol of tcp, udp and
-- tcp+udp, a listen address and a target that split into host and port with the port in 1 to 65535,
-- the target with a host, and a trimmed description.
pub validate_forward-IsNormal : (f g : Forward) → validate_forward f ≡ ok g → IsNormalForward g
unfolding validate_forward
validate_forward-IsNormal f g h =
    let proto = or_tcp (to_lower (trim_space f.proto)) in
    let (named, h₁) = require-eq-ok (prefix_pattern (trim_space f.name)) bad_name _ h in
    let (known, h₂) = require-eq-ok (is_forward_proto proto) bad_protocol _ h₁ in
    let (listen, e, h₃) = >>=-eq-ok (wrap bad_listen (normalize_listen f.listen)) _ h₂ in
    let (target, e', last) =
      >>=-eq-ok (wrap bad_target (normalize_host_port (trim_space f.target) false)) _ h₃ in
    let whole : g ≡ record f {
      name = trim_space f.name;
      proto = proto;
      listen = listen;
      target = target;
      description = trim_space f.description;
    } =
      cc in
    rw whole (record {
      named = named;
      known_proto = forward_proto_sound proto known;
      listens =
          normalize_listen-IsEndpoint f.listen listen
            (wrap-eq-ok bad_listen (normalize_listen f.listen) e);
      targets =
          normalize_host_port-IsEndpoint (trim_space f.target) target false
            (wrap-eq-ok bad_target (normalize_host_port (trim_space f.target) false) e');
      trimmed_description = trim_space_idem f.description;
    })

pub name-validate_forward : (f g : Forward) → validate_forward f ≡ ok g → g.name ≡ trim_space f.name
unfolding validate_forward
name-validate_forward f g h =
    let proto = or_tcp (to_lower (trim_space f.proto)) in
    let (named, h₁) = require-eq-ok (prefix_pattern (trim_space f.name)) bad_name _ h in
    let (known, h₂) = require-eq-ok (is_forward_proto proto) bad_protocol _ h₁ in
    let (listen, e, h₃) = >>=-eq-ok (wrap bad_listen (normalize_listen f.listen)) _ h₂ in
    let (target, e', last) =
      >>=-eq-ok (wrap bad_target (normalize_host_port (trim_space f.target) false)) _ h₃ in
    cc

-- What validateDNAT accepts comes out normal: a name of the pattern, tcp or udp, a public port in 1
-- to 65535, a target with a host and a port in that range, and a trimmed description.
pub validate_dnat-IsNormal : (d r : DnatRule) → validate_dnat d ≡ ok r → IsNormalDnat r
unfolding validate_dnat
validate_dnat-IsNormal d r h =
    let proto = to_lower (trim_space d.proto) in
    let (named, h₁) = require-eq-ok (prefix_pattern (trim_space d.name)) bad_name _ h in
    let (known, h₂) =
      require-eq-ok (proto == codes "tcp" || proto == codes "udp") bad_protocol _ h₁ in
    let (ported, h₃) = require-eq-ok (is_port d.listen_port) bad_public_port _ h₂ in
    let (target, e, last) =
      >>=-eq-ok (wrap bad_target (normalize_host_port (trim_space d.target) false)) _ h₃ in
    let (n, same, low, high) = is_port_sound d.listen_port ported in
    let whole : r ≡ record d {
      name = trim_space d.name;
      proto = proto;
      target = target;
      description = trim_space d.description;
    } =
      cc in
    rw whole (record {
      named = named;
      known_proto = one_of_two proto (codes "tcp") (codes "udp") known;
      number = n;
      public_port = same;
      lowest = low;
      highest = high;
      targets =
          normalize_host_port-IsEndpoint (trim_space d.target) target false
            (wrap-eq-ok bad_target (normalize_host_port (trim_space d.target) false) e);
      trimmed_description = trim_space_idem d.description;
    })

proto_kept :
    (p : Text)
    → (p ≡ codes "tcp") ⊎ ((p ≡ codes "udp") ⊎ (p ≡ codes "tcp+udp"))
    → (or_tcp (to_lower (trim_space p)) ≡ p) × (is_forward_proto p ≡ true)
unfolding is_forward_proto trim_space to_lower ◌==◌
proto_kept p (inl e) = rw e (refl, refl)
proto_kept p (inr (inl e)) = rw e (refl, refl)
proto_kept p (inr (inr e)) = rw e (refl, refl)

-- A normal forward whose addresses have no white space around them is accepted as it is.
pub validate_forward_of_IsNormal :
    (f : Forward)
    → IsNormalForward f
    → trim_space f.listen ≡ f.listen
    → trim_space f.target ≡ f.target
    → validate_forward f ≡ ok f
unfolding validate_forward
validate_forward_of_IsNormal f v cl ct =
    let (kept, known) = proto_kept f.proto v.known_proto in
    rw (
      trim_space_of_name f.name v.named,
      v.named,
      kept,
      known,
      normalize_listen_of_IsEndpoint f.listen cl v.listens,
      ct,
      normalize_host_port_of_IsEndpoint f.target false v.targets,
      v.trimmed_description,
    )
