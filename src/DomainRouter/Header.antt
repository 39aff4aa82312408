-- ===== src/DomainRouter/Header.antt =====
-- proxyProtoV2Header of domains.go.
pub mod Reader
pub mod Given
use in_proxy.Common.{
  ℕ, zero, suc, ◌+◌, ◌*◌, ◌/◌, ◌%◌, ◌≤◌, ◌≡◌, refl, sym, ap, ◌∙◌, ◌⊎◌, true, ◌&&◌, List, [], ◌∷◌,
  ◌++◌, Option, none, some, if◌then◌else◌, nat_eq, arith, Bool-cases, Option-cases, inl, inr,
  length, length-append, append_assoc,
}
use in_proxy.Text.{has_prefix, trim_prefix, has_prefix_sound}

-- A net.IP: its bytes. A net.TCPAddr.
abbrev pub Ip : Type 0
Ip = List ℕ

pub record TcpAddr : Type 0 where
  pub ip : Ip
  pub port : ℕ

abbrev pub v4_prefix : Ip
v4_prefix = 0 ∷ 0 ∷ 0 ∷ 0 ∷ 0 ∷ 0 ∷ 0 ∷ 0 ∷ 0 ∷ 0 ∷ 255 ∷ 255 ∷ []

-- net.IP.To4 and net.IP.To16; `[]` is nil.
unfoldable pub to4 : Ip → Option Ip
to4 ip =
    if nat_eq (length ip) 4
    then some ip
    else if nat_eq (length ip) 16 && has_prefix ip v4_prefix
    then some (trim_prefix ip v4_prefix)
    else none

unfoldable pub to16 : Ip → Ip
to16 ip = if nat_eq (length ip) 4 then v4_prefix ++ ip else if nat_eq (length ip) 16 then ip else []

abbrev pub signature : List ℕ
signature = 13 ∷ 10 ∷ 13 ∷ 10 ∷ 0 ∷ 13 ∷ 10 ∷ 81 ∷ 85 ∷ 73 ∷ 84 ∷ 10 ∷ []

-- The family and the length, and the addresses, given the two results of To4.
addresses : Ip → Ip → Option Ip → Option Ip → List ℕ
addresses s d (some s4) (some d4) = 17 ∷ 0 ∷ 12 ∷ (s4 ++ d4)
addresses s d _ _ = 33 ∷ 0 ∷ 36 ∷ (to16 s ++ to16 d)

-- `byte(p>>8), byte(p)`
abbrev pub port_bytes : ℕ → List ℕ
port_bytes p = p / 256 % 256 ∷ p % 256 ∷ []

-- `none` for an address that is no TCP address, and for the result nil.
unfoldable pub proxy_header : Option TcpAddr → Option TcpAddr → Option (List ℕ)
unfolding addresses to4 to16
proxy_header (some s) (some d) = some (
    signature
    ++ (33
        ∷ (addresses s.ip d.ip (to4 s.ip) (to4 d.ip) ++ (port_bytes s.port ++ port_bytes d.port))))
proxy_header _ _ = none
