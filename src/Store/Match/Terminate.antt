-- ===== src/Store/Match/Terminate.antt =====
-- IsTerminateHost against MatchDomain.
use in_proxy.Common.{
  ◌≡◌, ◌≢◌, ◌↔◌, refl, sym, ◌∙◌, true, false, List, [], ◌∷◌, Option, none, some, arith, Bool-cases,
  inl, inr, ok, >>=-eq-ok, All, Distinct,
}
use in_proxy.Common.Int.{ℤ, int_eq, int_eq_iff}
use in_proxy.Common.Dict.{lookup, insert}
use in_proxy.Text.{Text, ◌==◌, to_lower}
use in_proxy.Config.{PortForward, Domain, ParseUrl}
use in_proxy.Store.{Store}
use in_proxy.Store.Compile.{
  CompiledPf, DomainMap, put_forward, forward_proxy, compile_forwards, compile_domains,
}
use in_proxy.Store.Match.{
  manages, any_manages, find_host, find_forward, is_terminate_host, match_domain,
}
use in_proxy.Store.Match.Ports.{DomainsCompiled}

abbrev HostTable : Type 0
HostTable = List (Text × CompiledPf)

abbrev port_of : ℤ × HostTable → ℤ
port_of e = e.0

All-insert :
    (x k : ℤ) (v : HostTable) (m : DomainMap)
    → x ≢ k
    → All (λ e. x ≢ port_of e) m
    → All (λ e. x ≢ port_of e) (insert int_eq k v m)
unfolding insert
All-insert x k v [] n h = (n, tt)
All-insert x k v ((j, w) ∷ m) n (q, h) = elim (Bool-cases (int_eq j k)) [
  | inl same ↦ rw same (n, h)
  | inr other ↦ rw other (q, All-insert x k v m n h)
]

Distinct-insert :
    (k : ℤ) (v : HostTable) (m : DomainMap)
    → Distinct port_of m
    → Distinct port_of (insert int_eq k v m)
unfolding insert
Distinct-insert k v [] d = (tt, tt)
Distinct-insert k v ((j, w) ∷ m) (q, d) = elim (Bool-cases (int_eq j k)) [
  | inl same ↦ rw same (rw (sym ((int_eq_iff j k).0 same)) (q, d))
  | inr other ↦
      rw other (All-insert j k v m (λ e. ground (arith, int_eq_iff j k)) q, Distinct-insert k v m d)
]

module _ (parse_url : ParseUrl) where
  Distinct-forwards :
      (host : Text) (fs : List PortForward) (dom m : DomainMap)
      → compile_forwards parse_url host dom fs ≡ ok m
      → Distinct port_of dom
      → Distinct port_of m
  unfolding compile_forwards put_forward
  Distinct-forwards host [] dom m e d = let whole : m ≡ dom = cc in rw whole d
  Distinct-forwards host (f ∷ fs) dom m e d = elim (Bool-cases f.enabled) [
    | inr off ↦ Distinct-forwards host fs dom m (simp off at e) d
    | inl on ↦
        let (proxy, made, e') = >>=-eq-ok (forward_proxy parse_url host f) _ (simp on at e) in
        Distinct-forwards host fs _ m e' (Distinct-insert f.port _ dom d)
  ]

  Distinct-domains :
      (ds : List Domain) (dom m : DomainMap)
      → compile_domains parse_url dom ds ≡ ok m
      → Distinct port_of dom
      → Distinct port_of m
  unfolding compile_domains
  Distinct-domains [] dom m e d = let whole : m ≡ dom = cc in rw whole d
  Distinct-domains (x ∷ xs) dom m e d =
      let (mid, made, e') = >>=-eq-ok (compile_forwards parse_url x.host dom x.forwards) _ e in
      Distinct-domains xs mid m e' (Distinct-forwards x.host x.forwards dom mid made d)

lookup_key :
    (x p : ℤ) (m : DomainMap) {t : HostTable}
    → All (λ e. x ≢ port_of e) m
    → lookup int_eq p m ≡ some t
    → x ≢ p
unfolding lookup
lookup_key x p [] h e = cc
lookup_key x p ((j, w) ∷ m) (n, h) e = elim (Bool-cases (int_eq j p)) [
  | inl same ↦ λ q. n (q ∙ sym ((int_eq_iff j p).0 same))
  | inr other ↦ lookup_key x p m h (rw other at e)
]

any_manages_sound :
    (h : Text) (dom : DomainMap)
    → Distinct port_of dom
    → any_manages h dom ≡ true
    → (p : ℤ) × (t : HostTable) × (lookup int_eq p dom ≡ some t)
      × (manages (lookup ◌==◌ h t) ≡ true)
unfolding any_manages lookup
any_manages_sound h [] d e = cc
any_manages_sound h ((q, t) ∷ dom) (n, d) e = elim (Bool-cases (manages (lookup ◌==◌ h t))) [
  | inl here ↦ (q, t, rw ((int_eq_iff q q).1 refl), here)
  | inr later ↦
      let (p, t', found, hit) = any_manages_sound h dom d (rw later at e) in
      let other : int_eq q p ≡ false = ground (arith, int_eq_iff q p, lookup_key q p dom n found) in
      (p, t', rw other found, hit)
]

any_manages_complete :
    (h : Text) (p : ℤ) (t : HostTable) (dom : DomainMap)
    → lookup int_eq p dom ≡ some t
    → manages (lookup ◌==◌ h t) ≡ true
    → any_manages h dom ≡ true
unfolding any_manages lookup
any_manages_complete h p t [] e k = cc
any_manages_complete h p t ((q, u) ∷ dom) e k = elim (Bool-cases (int_eq q p)) [
  | inl same ↦ let one : u ≡ t = ground arith in rw one (rw k)
  | inr other ↦ ground (arith, any_manages_complete h p t dom (rw other at e) k)
]

find_host-manages :
    (h : Text) (o : Option HostTable) (cp : CompiledPf)
    → find_host h o ≡ some cp
    → (t : HostTable) × (o ≡ some t) × (lookup ◌==◌ h t ≡ some cp)
unfolding find_host
find_host-manages h none cp e = cc
find_host-manages h (some t) cp e = (t, refl, e)

manages-some :
    (o : Option CompiledPf)
    → manages o ≡ true
    → (cp : CompiledPf) × (o ≡ some cp) × (cp.forward.manage_cert ≡ true)
unfolding manages
manages-some none h = cc
manages-some (some cp) h = (cp, refl, h)

-- Where the table of the domains is compiled from the configured domains: IsTerminateHost holds of
-- a host exactly when MatchDomain gives for it, on some port, a forward that manages a
-- certificate.
pub is_terminate_host_iff :
    (parse_url : ParseUrl) (s : Store) (host : Text)
    → DomainsCompiled parse_url s
    → (is_terminate_host s host ≡ true) ↔ (
        (p : ℤ) × (cp : CompiledPf) × (match_domain s host p ≡ some cp)
        × (cp.forward.manage_cert ≡ true))
unfolding is_terminate_host match_domain find_forward
is_terminate_host_iff parse_url s host v = (
  λ h.
      let (p, t, found, hit) =
        any_manages_sound (to_lower host) s.compiled_dom
          (Distinct-domains parse_url s.domains [] s.compiled_dom v tt) h in
      let (cp, there, managed) = manages-some (lookup ◌==◌ (to_lower host) t) hit in
      (p, cp, rw found there, managed),
  λ (p, cp, e, managed).
      let (t, found, there) =
        find_host-manages (to_lower host) (lookup int_eq p s.compiled_dom) cp e in
      any_manages_complete (to_lower host) p t s.compiled_dom found (rw there managed),
)
