-- ===== src/Store/Match/Ports.antt =====
-- DomainPorts and IsTerminateHost against the configured domains.
use in_proxy.Common.{
  ◌≡◌, ◌↔◌, refl, sym, ◌∙◌, Bool, true, false, ◌&&◌, ◌||◌, List, [], ◌∷◌, map, any, arith,
  Bool-cases, inl, inr, ◌⊎◌, ok, >>=-eq-ok, In, All, All-weaken, Pairwise,
}
use in_proxy.Common.Int.{ℤ, int_eq, int_eq_iff}
use in_proxy.Common.Dict.{lookup, insert, lookup-insert}
use in_proxy.Text.{Text, ◌==◌, to_lower}
use in_proxy.Config.{PortForward, Domain, ParseUrl}
use in_proxy.Store.{Store}
use in_proxy.Store.Compile.{
  CompiledPf, DomainMap, port_table, put_forward, forward_proxy, compile_forwards, compile_domains,
}
use in_proxy.Store.Match.{is_some, int_le, insert_port, sort_ports, domain_ports}

abbrev HostTable : Type 0
HostTable = List (Text × CompiledPf)

abbrev port_of : ℤ × HostTable → ℤ
port_of e = e.0

abbrev serves_port : ℤ → PortForward → Bool
serves_port p f = f.enabled && int_eq f.port p

-- Is there an enabled forward of the port?
abbrev pub uses_port : ℤ → List Domain → Bool
uses_port p = any (λ d. any (serves_port p) d.forwards)

has_port : DomainMap → ℤ → Bool
has_port dom p = is_some (lookup int_eq p dom)

has_port-put_forward :
    (f : PortForward) (host : Text) (cp : CompiledPf) (dom : DomainMap) (p : ℤ)
    → has_port (put_forward f.port host cp dom) p ≡ (int_eq f.port p || has_port dom p)
unfolding has_port put_forward
has_port-put_forward f host cp dom p = ground (
  arith,
  lookup-insert int_eq int_eq_iff f.port p
      (insert ◌==◌ (to_lower host) cp (port_table (lookup int_eq f.port dom))) dom,
)

module _ (parse_url : ParseUrl) where
  has_port-forwards :
      (host : Text) (p : ℤ) (fs : List PortForward) (dom m : DomainMap)
      → compile_forwards parse_url host dom fs ≡ ok m
      → has_port m p ≡ (any (serves_port p) fs || has_port dom p)
  unfolding compile_forwards
  has_port-forwards host p [] dom m e = let whole : m ≡ dom = cc in rw whole
  has_port-forwards host p (f ∷ fs) dom m e = elim (Bool-cases f.enabled) [
    | inr off ↦ ground (arith, has_port-forwards host p fs dom m (simp off at e))
    | inl on ↦
        let (proxy, made, e') = >>=-eq-ok (forward_proxy parse_url host f) _ (simp on at e) in
        let cp : CompiledPf = record { host = host; forward = f; proxy = proxy } in
        ground (
          arith,
          has_port-forwards host p fs (put_forward f.port host cp dom) m e',
          has_port-put_forward f host cp dom p,
        )
  ]

  has_port-domains :
      (p : ℤ) (ds : List Domain) (dom m : DomainMap)
      → compile_domains parse_url dom ds ≡ ok m
      → has_port m p ≡ (uses_port p ds || has_port dom p)
  unfolding compile_domains
  has_port-domains p [] dom m e = let whole : m ≡ dom = cc in rw whole
  has_port-domains p (d ∷ ds) dom m e =
      let (mid, made, e') = >>=-eq-ok (compile_forwards parse_url d.host dom d.forwards) _ e in
      ground
        (arith, has_port-domains p ds mid m e', has_port-forwards d.host p d.forwards dom mid made)

-- A port has a table exactly when it is among the keys, and sorting keeps the members.
In-keys : (p : ℤ) (dom : DomainMap) → has_port dom p ≡ true → In p (map port_of dom)
unfolding has_port lookup
In-keys p [] h = cc
In-keys p ((q, m) ∷ dom) h = elim (Bool-cases (int_eq q p)) [
  | inl same ↦ inl (sym ((int_eq_iff q p).0 same))
  | inr other ↦ inr (In-keys p dom (rw other at h))
]

keys-In : (p : ℤ) (dom : DomainMap) → In p (map port_of dom) → has_port dom p ≡ true
unfolding has_port lookup
keys-In p [] i = absurd i
keys-In p ((q, m) ∷ dom) i = elim (Bool-cases (int_eq q p)) [
  | inl same ↦ rw same
  | inr other ↦
      rw other
        (keys-In p dom (elim i [ inl e ↦ absurd (ground (arith, int_eq_iff q p)) | inr j ↦ j ]))
]

pass_first :
    (p q r : ℤ) (rs ss : List ℤ)
    → In p ss ↔ ((p ≡ q) ⊎ In p rs)
    → In p (r ∷ ss) ↔ ((p ≡ q) ⊎ In p (r ∷ rs))
pass_first p q r rs ss e = (out, back)
  where
    out : (p ≡ r) ⊎ In p ss → (p ≡ q) ⊎ In p (r ∷ rs)
    out (inl h) = inr (inl h)
    out (inr i) = elim (e.0 i) [ inl h ↦ inl h | inr j ↦ inr (inr j) ]

    back : (p ≡ q) ⊎ In p (r ∷ rs) → (p ≡ r) ⊎ In p ss
    back (inl h) = inr (e.1 (inl h))
    back (inr (inl h)) = inl h
    back (inr (inr j)) = inr (e.1 (inr j))

In-insert_port : (p q : ℤ) (qs : List ℤ) → (In p (insert_port q qs)) ↔ ((p ≡ q) ⊎ In p qs)
unfolding insert_port
In-insert_port p q [] = (λ i. i, λ i. i)
In-insert_port p q (r ∷ rs) = elim (Bool-cases (int_le q r)) [
  | inl front ↦ rw front (λ i. i, λ i. i)
  | inr behind ↦ rw behind (pass_first p q r rs (insert_port q rs) (In-insert_port p q rs))
]

In-sort_ports : (p : ℤ) (ps : List ℤ) → In p (sort_ports ps) ↔ In p ps
unfolding sort_ports
In-sort_ports p [] = (λ i. i, λ i. i)
In-sort_ports p (q ∷ qs) =
    let ih = In-sort_ports p qs in
    let put = In-insert_port p q (sort_ports qs) in
    (
      λ i. elim (put.0 i) [ inl h ↦ inl h | inr j ↦ inr (ih.0 j) ],
      λ i. put.1 (elim i [ inl h ↦ inl h | inr j ↦ inr (ih.1 j) ]),
    )

abbrev pub IntLeThan : ℤ → ℤ → Type 0
IntLeThan p q = int_le p q ≡ true

int_le_other : (p q : ℤ) → int_le p q ≡ false → int_le q p ≡ true
unfolding int_le
int_le_other p q h = ground arith

int_le_trans : (p q r : ℤ) → int_le p q ≡ true → int_le q r ≡ true → int_le p r ≡ true
unfolding int_le
int_le_trans p q r h k = ground arith

All-insert_port : (P : ℤ → Type 0) (p : ℤ) (qs : List ℤ) → P p → All P qs → All P (insert_port p qs)
unfolding insert_port
All-insert_port P p [] h k = (h, tt)
All-insert_port P p (q ∷ qs) h (j, k) = elim (Bool-cases (int_le p q)) [
  | inl front ↦ rw front (h, (j, k))
  | inr behind ↦ rw behind (j, All-insert_port P p qs h k)
]

Pairwise-insert_port :
    (p : ℤ) (qs : List ℤ) → Pairwise IntLeThan qs → Pairwise IntLeThan (insert_port p qs)
unfolding insert_port
Pairwise-insert_port p [] h = (tt, tt)
Pairwise-insert_port p (q ∷ qs) (j, h) = elim (Bool-cases (int_le p q)) [
  | inl front ↦ rw front (
    (front, All-weaken (IntLeThan q) (IntLeThan p) (λ r k. int_le_trans p q r front k) qs j),
    (j, h),
  )
  | inr behind ↦
      rw behind (
        All-insert_port (IntLeThan q) p qs (int_le_other p q behind) j,
        Pairwise-insert_port p qs h,
      )
]

Pairwise-sort_ports : (ps : List ℤ) → Pairwise IntLeThan (sort_ports ps)
unfolding sort_ports
Pairwise-sort_ports [] = tt
Pairwise-sort_ports (p ∷ ps) = Pairwise-insert_port p (sort_ports ps) (Pairwise-sort_ports ps)

or_false : (b : Bool) → b || false ≡ b
or_false true = refl
or_false false = refl

module _ (parse_url : ParseUrl) where
  -- The table of the domains is the one that the configured domains compile to.
  abbrev pub DomainsCompiled : Store → Type 0
  DomainsCompiled s = compile_domains parse_url [] s.domains ≡ ok s.compiled_dom

  has_port-uses_port :
      (s : Store) (p : ℤ) → DomainsCompiled s → has_port s.compiled_dom p ≡ uses_port p s.domains
  unfolding has_port lookup
  has_port-uses_port s p v =
      has_port-domains parse_url p s.domains [] s.compiled_dom v ∙ or_false (uses_port p s.domains)

  -- Where the table of the domains is compiled from the configured domains: DomainPorts gives,
  -- each once and in rising order, exactly the ports that have an enabled forward.
  pub domain_ports_lem :
      (s : Store)
      → DomainsCompiled s
      → Pairwise IntLeThan (domain_ports s)
        × ((p : ℤ) → In p (domain_ports s) ↔ (uses_port p s.domains ≡ true))
  unfolding domain_ports
  domain_ports_lem s v = (
    Pairwise-sort_ports (map port_of s.compiled_dom),
    λ p.
        let same = has_port-uses_port s p v in
        let sorted = In-sort_ports p (map port_of s.compiled_dom) in
        (
          λ i. sym same ∙ keys-In p s.compiled_dom (sorted.0 i),
          λ h. sorted.1 (In-keys p s.compiled_dom (same ∙ h)),
        ),
  )
