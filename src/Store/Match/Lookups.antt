-- ===== src/Store/Match/Lookups.antt =====
-- MatchDomain against a specification: the last enabled forward of the port, under the last domain
-- of the host that has one.
use in_proxy.Common.{
  ◌≡◌, refl, ◌∙◌, true, false, ◌&&◌, List, [], ◌∷◌, Option, none, some, if◌then◌else◌, arith,
  Bool-cases, inl, inr, ok, >>=-eq-ok,
}
use in_proxy.Common.Int.{ℤ, int_eq, int_eq_iff}
use in_proxy.Common.Dict.{lookup, insert, lookup-insert}
use in_proxy.Text.{Text, ◌==◌, eq_iff, to_lower}
use in_proxy.Proxy.{TerminateProxy}
use in_proxy.Config.{PortForward, Domain, ParseUrl}
use in_proxy.Store.{Store}
use in_proxy.Store.Compile.{
  CompiledPf, DomainMap, port_table, put_forward, forward_proxy, compile_forwards, compile_domains,
}
use in_proxy.Store.Match.{find_host, find_forward, match_domain}

abbrev or_else {ℓ} : {A : Type ℓ} → Option A → Option A → Option A
or_else (some a) o = some a
or_else none o = o

-- The last enabled forward of a port.
unfoldable pub last_forward : ℤ → List PortForward → Option PortForward
last_forward port [] = none
last_forward port (f ∷ fs) =
    or_else (last_forward port fs) (if f.enabled && int_eq f.port port then some f else none)

abbrev pub under : Text → Option PortForward → Option (Text × PortForward)
under host none = none
under host (some f) = some (host, f)

-- The same over the domains of a host, with the host as it is configured.
unfoldable pub last_in_domains : Text → ℤ → List Domain → Option (Text × PortForward)
unfolding last_forward
last_in_domains host port [] = none
last_in_domains host port (d ∷ ds) =
    or_else (last_in_domains host port ds) (
      if to_lower d.host == to_lower host
      then under d.host (last_forward port d.forwards)
      else none)

-- What a compiled table has for a host and a port, where `wanted` is configured, or else `old`.
abbrev pub Agrees :
    ParseUrl → Option (Text × PortForward) → Option CompiledPf → Option CompiledPf → Type 0
Agrees parse_url none old o = o ≡ old
Agrees parse_url (some (host, f)) old o =
    (cp : CompiledPf) × (o ≡ some cp)
    × (cp.host ≡ host)
    × (cp.forward ≡ f)
    × (forward_proxy parse_url host f ≡ ok cp.proxy)

find_host-put :
    (k j : Text) (cp : CompiledPf) (o : Option (List (Text × CompiledPf)))
    → find_host j (some (insert ◌==◌ k cp (port_table o)))
      ≡ (if k == j then some cp else find_host j o)
unfolding find_host lookup port_table
find_host-put k j cp none = lookup-insert ◌==◌ eq_iff k j cp []
find_host-put k j cp (some m) = lookup-insert ◌==◌ eq_iff k j cp m

find_forward-put_forward :
    (port : ℤ) (host : Text) (cp : CompiledPf) (dom : DomainMap) (h : Text) (p : ℤ)
    → find_forward (put_forward port host cp dom) h p
      ≡ (if int_eq port p && to_lower host == to_lower h then some cp else find_forward dom h p)
unfolding find_forward put_forward
find_forward-put_forward port host cp dom h p = elim (Bool-cases (int_eq port p)) [
  | inl same ↦
      let e : port ≡ p = (int_eq_iff port p).0 same in
      rw
        (lookup-insert int_eq int_eq_iff port p
          (insert ◌==◌ (to_lower host) cp (port_table (lookup int_eq port dom))) dom)
        (rw same (rw e (find_host-put (to_lower host) (to_lower h) cp (lookup int_eq p dom))))
  | inr other ↦
      rw
        (lookup-insert int_eq int_eq_iff port p
          (insert ◌==◌ (to_lower host) cp (port_table (lookup int_eq port dom))) dom)
        (rw other refl)
]

module _ (parse_url : ParseUrl) where
  -- A later entry over one that agrees already.
  Agrees-or_else :
      (later now : Option (Text × PortForward)) (old mid o : Option CompiledPf)
      → Agrees parse_url later mid o
      → Agrees parse_url now old mid
      → Agrees parse_url (or_else later now) old o
  Agrees-or_else (some (host, f)) now old mid o h k = h
  Agrees-or_else none none old mid o h k = h ∙ k
  Agrees-or_else none (some (host, f)) old mid o h (cp, e, e₁, e₂, e₃) = (cp, h ∙ e, e₁, e₂, e₃)

  under-or_else :
      (host : Text) (a b : Option PortForward)
      → under host (or_else a b) ≡ or_else (under host a) (under host b)
  under-or_else host none b = refl
  under-or_else host (some f) b = refl

  module _ (host h : Text) (p : ℤ) where
    abbrev compiled : PortForward → Option TerminateProxy → CompiledPf
    compiled f proxy = record { host = host; forward = f; proxy = proxy }

    put_other :
        (f : PortForward) (cp : CompiledPf) (dom : DomainMap)
        → (to_lower host == to_lower h) ≡ false
        → find_forward (put_forward f.port host cp dom) h p ≡ find_forward dom h p
    put_other f cp dom n = ground (arith, find_forward-put_forward f.port host cp dom h p)

    forwards_other :
        (fs : List PortForward) (dom m : DomainMap)
        → (to_lower host == to_lower h) ≡ false
        → compile_forwards parse_url host dom fs ≡ ok m
        → find_forward m h p ≡ find_forward dom h p
    unfolding compile_forwards
    forwards_other [] dom m n e = let whole : m ≡ dom = cc in rw whole
    forwards_other (f ∷ fs) dom m n e = elim (Bool-cases f.enabled) [
      | inr off ↦ forwards_other fs dom m n (simp off at e)
      | inl on ↦
          let (proxy, made, e') = >>=-eq-ok (forward_proxy parse_url host f) _ (simp on at e) in
          forwards_other fs _ m n e' ∙ put_other f (compiled f proxy) dom n
    ]

    now : PortForward → Option PortForward
    now f = if f.enabled && int_eq f.port p then some f else none

    put_same :
        (f : PortForward) (proxy : Option TerminateProxy) (dom : DomainMap)
        → (to_lower host == to_lower h) ≡ true
        → f.enabled ≡ true
        → forward_proxy parse_url host f ≡ ok proxy
        → Agrees parse_url
            (under host (now f))
            (find_forward dom h p)
            (find_forward (put_forward f.port host (compiled f proxy) dom) h p)
    unfolding now
    put_same f proxy dom y on made = elim (Bool-cases (int_eq f.port p)) [
      | inl here ↦ simp on (
          rw here (
            compiled f proxy,
            ground (arith, find_forward-put_forward f.port host (compiled f proxy) dom h p),
            refl,
            refl,
            made,
          ))
      | inr elsewhere ↦ simp on (
          rw elsewhere
            (ground (arith, find_forward-put_forward f.port host (compiled f proxy) dom h p)))
    ]

    forwards_same :
        (fs : List PortForward) (dom m : DomainMap)
        → (to_lower host == to_lower h) ≡ true
        → compile_forwards parse_url host dom fs ≡ ok m
        → Agrees parse_url
            (under host (last_forward p fs))
            (find_forward dom h p)
            (find_forward m h p)
    unfolding compile_forwards last_forward now
    forwards_same [] dom m y e = let whole : m ≡ dom = cc in rw whole
    forwards_same (f ∷ fs) dom m y e =
        rw (under-or_else host (last_forward p fs) (now f)) (elim (Bool-cases f.enabled) [
          | inr off ↦
              Agrees-or_else _ _ (find_forward dom h p) (find_forward dom h p) _
                (forwards_same fs dom m y (simp off at e)) (simp off refl)
          | inl on ↦
              let (proxy, made, e') = >>=-eq-ok (forward_proxy parse_url host f) _ (simp on at e) in
              Agrees-or_else (under host (last_forward p fs)) (under host (now f))
                (find_forward dom h p)
                (find_forward (put_forward f.port host (compiled f proxy) dom) h p)
                (find_forward m h p)
                (forwards_same fs (put_forward f.port host (compiled f proxy) dom) m y e')
                (put_same f proxy dom y on made)
        ])

  domain_Agrees :
      (d : Domain) (h : Text) (p : ℤ) (dom m : DomainMap)
      → compile_forwards parse_url d.host dom d.forwards ≡ ok m
      → Agrees parse_url
          (if to_lower d.host == to_lower h then under d.host (last_forward p d.forwards) else none)
          (find_forward dom h p)
          (find_forward m h p)
  domain_Agrees d h p dom m e = elim (Bool-cases (to_lower d.host == to_lower h)) [
    | inl y ↦ rw y (forwards_same d.host h p d.forwards dom m y e)
    | inr n ↦ rw n (forwards_other d.host h p d.forwards dom m n e)
  ]

  domains_Agree :
      (h : Text) (p : ℤ) (ds : List Domain) (dom m : DomainMap)
      → compile_domains parse_url dom ds ≡ ok m
      → Agrees parse_url (last_in_domains h p ds) (find_forward dom h p) (find_forward m h p)
  unfolding compile_domains last_in_domains
  domains_Agree h p [] dom m e = let whole : m ≡ dom = cc in rw whole
  domains_Agree h p (d ∷ ds) dom m e =
      let (mid, made, e') = >>=-eq-ok (compile_forwards parse_url d.host dom d.forwards) _ e in
      Agrees-or_else (last_in_domains h p ds) _ (find_forward dom h p) (find_forward mid h p)
        (find_forward m h p) (domains_Agree h p ds mid m e') (domain_Agrees d h p dom mid made)

  -- A table compiled from nothing: the forward that is configured, or none.
  abbrev pub Matches : Option (Text × PortForward) → Option CompiledPf → Type 0
  Matches wanted o = Agrees parse_url wanted none o

  pub compile_domains-Matches :
      (h : Text) (p : ℤ) (ds : List Domain) (m : DomainMap)
      → compile_domains parse_url [] ds ≡ ok m
      → Matches (last_in_domains h p ds) (find_forward m h p)
  unfolding find_forward
  compile_domains-Matches h p ds m e = domains_Agree h p ds [] m e

  -- Where the table of the domains is compiled from the configured domains: MatchDomain gives the
  -- last enabled forward of the port under the last domain of the host that has one, with its
  -- proxy as forward_proxy builds it, and nothing where there is no such forward.
  pub match_domain-Matches :
      (s : Store) (host : Text) (port : ℤ)
      → compile_domains parse_url [] s.domains ≡ ok s.compiled_dom
      → Matches (last_in_domains host port s.domains) (match_domain s host port)
  unfolding match_domain
  match_domain-Matches s host port v = compile_domains-Matches host port s.domains s.compiled_dom v
