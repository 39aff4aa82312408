-- ===== src/DomainRouter/Reconcile.antt =====
-- Apply against the configured domains.
use in_proxy.Common.{
  ◌≡◌, ◌↔◌, refl, sym, ap, ◌∙◌, Bool, true, false, ◌&&◌, ◌||◌, not, List, [], ◌∷◌, Option, none,
  some, if◌then◌else◌, arith, Bool-cases, Option-cases, inl, inr, In,
}
use in_proxy.Common.Int.{ℤ, int_eq, int_eq_iff}
use in_proxy.Text.{Text}
use in_proxy.Config.{ParseUrl}
use in_proxy.Store.{Store}
use in_proxy.Store.Match.{domain_ports}
use in_proxy.Store.Match.Ports.{uses_port, DomainsCompiled, domain_ports_lem}
use in_proxy.DomainRouter.{
  DomainRouter, has_key, want_ports, stop_unwanted, start_wanted, apply_ports, apply,
}

has_key-In : (p : ℤ) (ps : List ℤ) → (has_key p ps ≡ true) ↔ In p ps
unfolding has_key
has_key-In p [] = (λ h. cc, λ i. absurd i)
has_key-In p (q ∷ qs) =
    let ih = has_key-In p qs in
    (
      λ h. elim (Bool-cases (int_eq q p)) [
        | inl same ↦ inl (sym ((int_eq_iff q p).0 same))
        | inr other ↦ inr (ih.0 (rw other at h))
      ],
      λ i. elim i [
        | inl same ↦ let hit = (int_eq_iff q p).1 (sym same) in rw hit
        | inr j ↦ let there = ih.1 j in ground arith
      ],
    )

has_key-cons : (p q : ℤ) (ps : List ℤ) → has_key p (q ∷ ps) ≡ (int_eq q p || has_key p ps)
unfolding has_key
has_key-cons p q ps = refl

-- Neither the main port nor the plaintext one.
abbrev pub is_extra : DomainRouter → ℤ → Bool
is_extra r p = not (int_eq p r.main_port) && not (int_eq p r.http_port)

-- Whether an entry is among those that pass a test.
passing :
    (t : ℤ → Bool) (p q : ℤ) (rest all : List ℤ)
    → has_key p rest ≡ (has_key p all && t p)
    → has_key p (if t q then q ∷ rest else rest) ≡ (has_key p (q ∷ all) && t p)
passing t p q rest all ih = elim (Bool-cases (int_eq q p)) [
  | inl same ↦ elim (Bool-cases (t q)) [
    | inl passes ↦
        let yes_p : t p ≡ true = sym (ap t ((int_eq_iff q p).0 same)) ∙ passes in
        rw passes (rw (has_key-cons p q rest) (rw (has_key-cons p q all) (rw same (sym yes_p))))
    | inr fails ↦
        let no_p : t p ≡ false = sym (ap t ((int_eq_iff q p).0 same)) ∙ fails in
        rw fails (rw (has_key-cons p q all) (rw same (ground arith)))
  ]
  | inr other ↦ elim (Bool-cases (t q)) [
    | inl passes ↦ rw passes (rw (has_key-cons p q rest) (rw (has_key-cons p q all) (rw other ih)))
    | inr fails ↦ rw fails (rw (has_key-cons p q all) (rw other ih))
  ]
]

has_key-want_ports :
    (r : DomainRouter) (p : ℤ) (ps : List ℤ)
    → has_key p (want_ports r ps) ≡ (has_key p ps && is_extra r p)
unfolding has_key want_ports
has_key-want_ports r p [] = refl
has_key-want_ports r p (q ∷ qs) =
    passing (is_extra r) p q (want_ports r qs) qs (has_key-want_ports r p qs)

has_key-stop_unwanted :
    (want active : List ℤ) (p : ℤ)
    → has_key p (stop_unwanted want active) ≡ (has_key p active && has_key p want)
unfolding has_key stop_unwanted
has_key-stop_unwanted want [] p = refl
has_key-stop_unwanted want (q ∷ active) p =
    passing (λ (k : ℤ). has_key k want) p q (stop_unwanted want active) active
      (has_key-stop_unwanted want active p)

-- What can be started: there is no error.
abbrev pub opens : Option Text → Bool
opens none = true
opens (some e) = false

has_key-start_wanted :
    (listen : ℤ → Option Text) (want active : List ℤ) (p : ℤ)
    → has_key p (start_wanted listen want active)
      ≡ (has_key p active || (has_key p want && opens (listen p)))
unfolding has_key start_wanted
has_key-start_wanted listen [] active p = ground arith
has_key-start_wanted listen (q ∷ want) active p = elim (Bool-cases (has_key q active)) [
  | inl there ↦
      let ih = has_key-start_wanted listen want active p in
      elim (Bool-cases (int_eq q p)) [
        | inl same ↦
            let here : has_key p active ≡ true = rw ((int_eq_iff q p).0 same) at there in
            rw there (rw ih (rw here refl))
        | inr other ↦ rw there (rw ih (rw other refl))
      ]
  | inr free ↦ elim (Option-cases (listen q)) [
    | inr (e, bad) ↦
        let ih = has_key-start_wanted listen want active p in
        elim (Bool-cases (int_eq q p)) [
          | inl same ↦
              let bad_p : opens (listen p) ≡ false =
                rw ((int_eq_iff q p).0 same) at (ap opens bad) in
              rw free (rw bad (rw ih (rw bad_p (ground arith))))
          | inr other ↦ rw free (rw bad (rw ih (rw other refl)))
        ]
    | inl good ↦
        let ih = has_key-start_wanted listen want (q ∷ active) p in
        elim (Bool-cases (int_eq q p)) [
          | inl same ↦
              let good_p : opens (listen p) ≡ true =
                rw ((int_eq_iff q p).0 same) at (ap opens good) in
              rw free (rw good (rw ih (rw same (rw good_p (ground arith)))))
          | inr other ↦ rw free (rw good (rw ih (rw other refl)))
        ]
  ]
]

has_key-domain_ports :
    (parse_url : ParseUrl) (s : Store) (p : ℤ)
    → DomainsCompiled parse_url s
    → has_key p (domain_ports s) ≡ uses_port p s.domains
has_key-domain_ports parse_url s p v =
    let (to, from) = (domain_ports_lem parse_url s v).1 p in
    let (listed, back) = has_key-In p (domain_ports s) in
    elim (Bool-cases (uses_port p s.domains)) [
      | inl used ↦ back (from used) ∙ sym used
      | inr unused ↦ elim (Bool-cases (has_key p (domain_ports s))) [
        | inl there ↦ let used = to (listed there) in cc
        | inr gone ↦ gone ∙ sym unused
      ]
    ]

-- Apply against the ports that it has read.
pub apply_ports_active :
    (listen : ℤ → Option Text) (ports : List ℤ) (r : DomainRouter) (p : ℤ)
    → has_key p (apply_ports listen ports r).active
      ≡ ((has_key p ports && is_extra r p) && (has_key p r.active || opens (listen p)))
unfolding apply_ports
apply_ports_active listen ports r p =
    let want = want_ports r ports in
    ground (
      arith,
      has_key-start_wanted listen want (stop_unwanted want r.active) p,
      has_key-stop_unwanted want r.active p,
      has_key-want_ports r p ports,
    )

pub apply_active :
    (listen : ℤ → Option Text) (s : Store) (r : DomainRouter) (p : ℤ)
    → has_key p (apply listen s r).active
      ≡ ((has_key p (domain_ports s) && is_extra r p) && (has_key p r.active || opens (listen p)))
unfolding apply
apply_active listen s r p = apply_ports_active listen (domain_ports s) r p

-- The servers run on ports that can be listened on.
abbrev pub AreOpen : (ℤ → Option Text) → DomainRouter → Type 0
AreOpen listen r = (p : ℤ) → has_key p r.active ≡ true → opens (listen p) ≡ true

pub apply_ports-AreOpen :
    (listen : ℤ → Option Text) (ports : List ℤ) (r : DomainRouter)
    → AreOpen listen r
    → AreOpen listen (apply_ports listen ports r)
apply_ports-AreOpen listen ports r v p h =
    let runs = apply_ports_active listen ports r p in
    elim (Bool-cases (has_key p r.active)) [ inl there ↦ v p there | inr gone ↦ ground arith ]

is_extra-apply_ports :
    (listen : ℤ → Option Text) (ports : List ℤ) (r : DomainRouter) (p : ℤ)
    → is_extra (apply_ports listen ports r) p ≡ is_extra r p
unfolding apply_ports
is_extra-apply_ports listen ports r p = refl

-- Where the configured domains compile, and the table is what they compile to: behind an Apply that
-- has read it, servers run on just the extra ports with an enabled forward that can be listened on.
pub apply_ports_listens :
    (parse_url : ParseUrl) (listen : ℤ → Option Text) (s : Store) (r : DomainRouter) (p : ℤ)
    → DomainsCompiled parse_url s
    → AreOpen listen r
    → let q = apply_ports listen (domain_ports s) r in
      has_key p q.active ≡ ((uses_port p s.domains && is_extra q p) && opens (listen p))
apply_ports_listens parse_url listen s r p v open_before =
    let runs = apply_ports_active listen (domain_ports s) r p in
    let same = has_key-domain_ports parse_url s p v in
    let extra = is_extra-apply_ports listen (domain_ports s) r p in
    elim (Bool-cases (has_key p r.active)) [
      | inl there ↦ let opens_p = open_before p there in ground arith
      | inr gone ↦ ground arith
    ]

-- After Apply, where the table of the domains is compiled, a server runs on exactly the ports that
-- have an enabled forward, are neither the main port nor the plaintext one, and had a server before
-- or can be listened on.
pub apply_listens :
    (parse_url : ParseUrl) (listen : ℤ → Option Text) (s : Store) (r : DomainRouter) (p : ℤ)
    → DomainsCompiled parse_url s
    → has_key p (apply listen s r).active
      ≡ ((uses_port p s.domains && is_extra r p) && (has_key p r.active || opens (listen p)))
apply_listens parse_url listen s r p v =
    rw (← has_key-domain_ports parse_url s p v) (apply_active listen s r p)
