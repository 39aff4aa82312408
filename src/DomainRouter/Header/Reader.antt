-- ===== src/DomainRouter/Header/Reader.antt =====
-- A reader of PROXY protocol v2 headers, as a backend has it, to compare proxyProtoV2Header of
-- domains.go with.
use in_proxy.Common.{
  ℕ, zero, suc, ◌+◌, ◌*◌, ◌/◌, ◌%◌, ◌≤◌, ◌≡◌, refl, sym, ap, ◌∙◌, ◌⊎◌, true, ◌&&◌, List, [], ◌∷◌,
  ◌++◌, Option, none, some, if◌then◌else◌, nat_eq, arith, Bool-cases, Option-cases, inl, inr,
  length, length-append, append_assoc,
}
use in_proxy.Text.{has_prefix, trim_prefix, has_prefix_sound}
use in_proxy.DomainRouter.Header.{
  Ip, TcpAddr, v4_prefix, to4, to16, signature, addresses, port_bytes, proxy_header,
}

-- What a backend learns from a header.
pub record Announced : Type 0 where
  pub src : TcpAddr
  pub dst : TcpAddr

unfoldable pub take_exact : ℕ → List ℕ → Option (List ℕ × List ℕ)
take_exact zero s = some ([], s)
take_exact (suc n) [] = none
take_exact (suc n) (c ∷ s) = elim (take_exact n s) [
  | none ↦ none
  | some (a, rest) ↦ some (c ∷ a, rest)
]

read_ports : Ip → Ip → List ℕ → Option (Announced × List ℕ)
read_ports a b (h ∷ l ∷ h' ∷ l' ∷ rest) = some (
  record {
    src = record { ip = a; port = h * 256 + l };
    dst = record { ip = b; port = h' * 256 + l' };
  },
  rest,
)
read_ports a b _ = none

read_addresses : ℕ → List ℕ → Option (Announced × List ℕ)
unfolding take_exact read_ports
read_addresses n s = elim (take_exact n s) [
  | none ↦ none
  | some (a, t) ↦ elim (take_exact n t) [ none ↦ none | some (b, u) ↦ read_ports a b u ]
]

-- Two families: 0x11 with 12 bytes of addresses and ports, 0x21 with 36.
read_family : List ℕ → Option (Announced × List ℕ)
unfolding read_addresses
read_family (f ∷ h ∷ l ∷ s) =
    if nat_eq f 17 && (nat_eq h 0 && nat_eq l 12)
    then read_addresses 4 s
    else if nat_eq f 33 && (nat_eq h 0 && nat_eq l 36)
    then read_addresses 16 s
    else none
read_family _ = none

-- The header in front of a stream, and the rest of the stream.
unfoldable pub read_header : List ℕ → Option (Announced × List ℕ)
unfolding read_family
read_header s =
    if has_prefix s (signature ++ 33 ∷ [])
    then read_family (trim_prefix s (signature ++ 33 ∷ []))
    else none

take_exact-append : (a s : List ℕ) → take_exact (length a) (a ++ s) ≡ some (a, s)
unfolding take_exact
take_exact-append [] s = refl
take_exact-append (c ∷ a) s = rw (take_exact-append a s) refl

port_read : (p : ℕ) → p ≤ 65535 → p / 256 % 256 * 256 + p % 256 ≡ p
port_read p h = omega arith

read_addresses-append :
    (n : ℕ) (a b rest : List ℕ) (p q : ℕ)
    → length a ≡ n
    → length b ≡ n
    → p ≤ 65535
    → q ≤ 65535
    → read_addresses n (((a ++ b) ++ (port_bytes p ++ port_bytes q)) ++ rest)
      ≡ some (record { src = record { ip = a; port = p }; dst = record { ip = b; port = q } }, rest)
unfolding read_addresses read_ports
read_addresses-append n a b rest p q la lb hp hq =
    let ports = port_bytes p ++ (port_bytes q ++ rest) in
    let flat : ((a ++ b) ++ (port_bytes p ++ port_bytes q)) ++ rest ≡ a ++ (b ++ ports) =
      append_assoc (a ++ b) (port_bytes p ++ port_bytes q) rest ∙ append_assoc a b ports in
    let first : take_exact n (a ++ (b ++ ports)) ≡ some (a, b ++ ports) =
      rw la at (take_exact-append a (b ++ ports)) in
    let second : take_exact n (b ++ ports) ≡ some (b, ports) =
      rw lb at (take_exact-append b ports) in
    rw flat
      (rw (first, read_addresses) (rw second (rw (port_read p hp) (rw (port_read q hq) refl))))

-- The lengths that an address can have.
abbrev pub IsIp : Ip → Type 0
IsIp ip = (length ip ≡ 4) ⊎ (length ip ≡ 16)

to16_of_4 : (ip : Ip) → length ip ≡ 4 → to16 ip ≡ v4_prefix ++ ip
unfolding to16
to16_of_4 ip h = rw h refl

to16_of_16 : (ip : Ip) → length ip ≡ 16 → to16 ip ≡ ip
unfolding to16
to16_of_16 ip h = rw h refl

mapped_ip :
    (ip : Ip)
    → length ip ≡ 16
    → has_prefix ip v4_prefix ≡ true
    → (length (trim_prefix ip v4_prefix) ≡ 4) × (to16 (trim_prefix ip v4_prefix) ≡ to16 ip)
mapped_ip ip h k =
    let whole = has_prefix_sound ip v4_prefix k in
    let sum : 16 ≡ 12 + length (trim_prefix ip v4_prefix) =
      sym h
      ∙ ap (λ (i : Ip). length i) whole
      ∙ length-append v4_prefix (trim_prefix ip v4_prefix) in
    let four : length (trim_prefix ip v4_prefix) ≡ 4 = omega (arith, sum) in
    (four, to16_of_4 (trim_prefix ip v4_prefix) four ∙ sym whole ∙ sym (to16_of_16 ip h))

length-to4 : (ip a : Ip) → to4 ip ≡ some a → (length a ≡ 4) × (to16 a ≡ to16 ip)
unfolding to4
length-to4 ip a h = elim (Bool-cases (nat_eq (length ip) 4)) [
  | inl four ↦ let same : ip ≡ a = ground arith in rw (sym same) (ground arith, refl)
  | inr other ↦ elim (Bool-cases (nat_eq (length ip) 16 && has_prefix ip v4_prefix)) [
    | inl is_mapped ↦
        let same : trim_prefix ip v4_prefix ≡ a = ground arith in
        rw (sym same) (mapped_ip ip (ground arith) (ground arith))
    | inr v6 ↦ absurd (ground arith)
  ]
]

length-to16 : (ip : Ip) → IsIp ip → (length (to16 ip) ≡ 16) × (to16 (to16 ip) ≡ to16 ip)
length-to16 ip (inl four) =
    let long : length (v4_prefix ++ ip) ≡ 16 = omega (arith, length-append v4_prefix ip) in
    rw (to16_of_4 ip four) (long, to16_of_16 (v4_prefix ++ ip) long)
length-to16 ip (inr sixteen) = rw (to16_of_16 ip sixteen) (sixteen, to16_of_16 ip sixteen)

-- What a reader should learn: the addresses in their 16-byte form, and the ports.
pub record Announces (r : Announced) (s d : TcpAddr) : Type 0 where
  pub src_ip : to16 r.src.ip ≡ to16 s.ip
  pub dst_ip : to16 r.dst.ip ≡ to16 d.ip
  pub src_port : r.src.port ≡ s.port
  pub dst_port : r.dst.port ≡ d.port

abbrev Reads : List ℕ → List ℕ → TcpAddr → TcpAddr → Type 0
Reads stream rest s d = (r : Announced) × (read_header stream ≡ some (r, rest)) × Announces r s d

read_v4 :
    (s d : TcpAddr) (a b rest : List ℕ)
    → to4 s.ip ≡ some a
    → to4 d.ip ≡ some b
    → s.port ≤ 65535
    → d.port ≤ 65535
    → Reads
        ((signature
            ++ (33 ∷ ((17 ∷ 0 ∷ 12 ∷ (a ++ b)) ++ (port_bytes s.port ++ port_bytes d.port))))
          ++ rest)
        rest
        s
        d
unfolding read_header read_family has_prefix trim_prefix
read_v4 s d a b rest ha hb hp hq =
    let (la, sa) = length-to4 s.ip a ha in
    let (lb, sb) = length-to4 d.ip b hb in
    (
      record { src = record { ip = a; port = s.port }; dst = record { ip = b; port = d.port } },
      read_addresses-append 4 a b rest s.port d.port la lb hp hq,
      record { src_ip = sa; dst_ip = sb; src_port = refl; dst_port = refl },
    )

read_v6 :
    (s d : TcpAddr) (rest : List ℕ)
    → IsIp s.ip
    → IsIp d.ip
    → s.port ≤ 65535
    → d.port ≤ 65535
    → Reads
        ((signature
            ++ (33
                ∷ ((33 ∷ 0 ∷ 36 ∷ (to16 s.ip ++ to16 d.ip))
                    ++ (port_bytes s.port ++ port_bytes d.port))))
          ++ rest)
        rest
        s
        d
unfolding read_header read_family has_prefix trim_prefix
read_v6 s d rest vs vd hp hq =
    let (ls, ss) = length-to16 s.ip vs in
    let (ld, sd) = length-to16 d.ip vd in
    (
      record {
        src = record { ip = to16 s.ip; port = s.port };
        dst = record { ip = to16 d.ip; port = d.port };
      },
      read_addresses-append 16 (to16 s.ip) (to16 d.ip) rest s.port d.port ls ld hp hq,
      record { src_ip = ss; dst_ip = sd; src_port = refl; dst_port = refl },
    )

-- For TCP addresses with an IP of 4 or 16 bytes and ports of 16 bits there is a header, and a reader
-- that finds it in front of a stream learns both addresses and both ports, and has the stream left.
pub proxy_header_read :
    (s d : TcpAddr) (rest : List ℕ)
    → IsIp s.ip
    → IsIp d.ip
    → s.port ≤ 65535
    → d.port ≤ 65535
    → (h : List ℕ) × (proxy_header (some s) (some d) ≡ some h)
      × ((r : Announced) × (read_header (h ++ rest) ≡ some (r, rest)) × Announces r s d)
unfolding proxy_header addresses
proxy_header_read s d rest vs vd hp hq = elim (Option-cases (to4 s.ip)) [
  | inl no_v4 ↦ rw no_v4 (_, refl, read_v6 s d rest vs vd hp hq)
  | inr (a, v4) ↦ elim (Option-cases (to4 d.ip)) [
    | inl no_v4 ↦ rw v4 (rw no_v4 (_, refl, read_v6 s d rest vs vd hp hq))
    | inr (b, v4') ↦ rw v4 (rw v4' (_, refl, read_v4 s d a b rest v4 v4' hp hq))
  ]
]
