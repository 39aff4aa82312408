-- ===== src/Store/Match/Longest.antt =====
-- MatchSite against a specification: the last site of the host, and under it an enabled route whose
-- prefix covers the path, of greatest length.
use in_proxy.Common.{
  ◌≤◌, ◌≡◌, ◌≢◌, refl, sym, ap, ◌∙◌, subst, true, false, List, [], ◌∷◌, none, some, arith,
  Bool-cases, Option-cases, inl, inr, ◌⊎◌, ok, All, All-In, All-weaken, In, Pairwise, length,
}
use in_proxy.Common.Dict.{lookup}
use in_proxy.Text.{Text, ◌==◌, to_lower}
use in_proxy.Config.{Route, HttpSite, ParseUrl}
use in_proxy.Store.{Store}
use in_proxy.Store.Compile.{CompiledRoute, longest_first, compile_routes, compile_sites}
use in_proxy.Store.Compile.Routes.{
  last_site, IsCompiled, ComesFrom, compile_routes-ComesFrom, compile_routes_complete,
  compile_sites-HasEntry,
}
use in_proxy.Store.Compile.Order.{
  IsNotLonger, All-longest_first, In-longest_first, Pairwise-longest_first,
}
use in_proxy.Store.Match.{covers, first_covering, match_site}

-- A route that MatchSite may choose: no other one that is enabled and covers the path is longer.
pub record IsBest (path : Text) (rs : List Route) (r : Route) : Type 0 where
  pub listed : In r rs
  pub enabled : r.enabled ≡ true
  pub covering : covers r.prefix path ≡ true
  pub longest :
      (q : Route)
      → In q rs
      → q.enabled ≡ true
      → covers q.prefix path ≡ true
      → length q.prefix ≤ length r.prefix

module _ (parse_url : ParseUrl) where
  abbrev Leads : Text → List CompiledRoute → CompiledRoute → Type 0
  Leads path cs c =
      In c cs
      × (covers c.route.prefix path ≡ true)
      × All (λ d. covers d.route.prefix path ≡ true → length d.route.prefix ≤ length c.route.prefix)
          cs

  first_covering-some :
      (path : Text) (cs : List CompiledRoute) (c : CompiledRoute)
      → Pairwise IsNotLonger cs
      → first_covering path cs ≡ some c
      → Leads path cs c
  unfolding first_covering
  first_covering-some path [] c s h = cc
  first_covering-some path (d ∷ ds) c (q, s) h = elim (Bool-cases (covers d.route.prefix path)) [
    | inl hit ↦
        let same : c ≡ d = ground arith in
        subst (λ b. Leads path (d ∷ ds) b) (sym same)
          (
            inl refl,
            hit,
            (
              (λ _. omega arith),
              All-weaken (IsNotLonger d)
                  (λ e.
                    covers e.route.prefix path ≡ true
                    → length e.route.prefix ≤ length d.route.prefix)
                  (λ e le _. le) ds q,
            ),
          )
    | inr miss ↦
        let (i, cover, best) = first_covering-some path ds c s (rw miss at h) in
        (inr i, cover, ((λ hit. absurd (ground arith)), best))
  ]

  first_covering-none :
      (path : Text) (cs : List CompiledRoute)
      → first_covering path cs ≡ none
      → All (λ c. covers c.route.prefix path ≡ false) cs
  unfolding first_covering
  first_covering-none path [] h = tt
  first_covering-none path (d ∷ ds) h = elim (Bool-cases (covers d.route.prefix path)) [
    | inl hit ↦ absurd (ground arith)
    | inr miss ↦ (miss, first_covering-none path ds (rw miss at h))
  ]

  chosen_IsBest :
      (path : Text) (st : HttpSite) (cs : List CompiledRoute) (c : CompiledRoute)
      → compile_routes parse_url st.host st.routes ≡ ok cs
      → first_covering path (longest_first cs) ≡ some c
      → IsBest path st.routes c.route × IsCompiled parse_url c
  chosen_IsBest path st cs c made h =
      let (i, cover, best) =
        first_covering-some path (longest_first cs) c (Pairwise-longest_first cs) h in
      let from =
        All-longest_first (ComesFrom parse_url st.routes) cs
          (compile_routes-ComesFrom parse_url st.host st.routes cs made) in
      let (listed, on, v) = All-In (ComesFrom parse_url st.routes) (longest_first cs) c from i in
      (
        record {
          listed = listed;
          enabled = on;
          covering = cover;
          longest = λ q j e k.
              let (d, same, there) =
                compile_routes_complete parse_url st.host st.routes cs made q j e in
              let bound =
                All-In
                  (λ b.
                    covers b.route.prefix path ≡ true
                    → length b.route.prefix ≤ length c.route.prefix)
                  (longest_first cs) d best (In-longest_first d cs there) in
              subst (λ (r : Route). length r.prefix ≤ length c.route.prefix) same
                (bound (ap (λ (r : Route). covers r.prefix path) same ∙ k));
        },
        v,
      )

  -- The table of the sites is the one that the configured sites compile to.
  abbrev pub SitesCompiled : Store → Type 0
  SitesCompiled s = compile_sites parse_url [] s.sites ≡ ok s.compiled_sites

  match_site-cases :
      (s : Store) (host path : Text)
      → SitesCompiled s
      → ((last_site (to_lower host) s.sites ≡ none) × (match_site s host path ≡ none))
        ⊎ ((st : HttpSite) × (cs : List CompiledRoute) × (last_site (to_lower host) s.sites
              ≡ some st)
            × (compile_routes parse_url st.host st.routes ≡ ok cs)
            × (match_site s host path ≡ first_covering path (longest_first cs)))
  unfolding match_site
  match_site-cases s host path v =
      let entry = compile_sites-HasEntry parse_url (to_lower host) s.sites [] s.compiled_sites v in
      elim (Option-cases (last_site (to_lower host) s.sites)) [
        | inl absent ↦
            let missing : lookup ◌==◌ (to_lower host) s.compiled_sites ≡ none =
              rw absent at entry in
            inl (absent, rw missing)
        | inr (st, last) ↦
            let (cs, made, there) = rw last at entry in inr (st, cs, last, made, rw there)
      ]

  -- Where the table of the sites is compiled from the configured sites: a route that MatchSite
  -- gives is, compiled, an enabled route of the last site of the host that covers the path, and no
  -- other such route has a longer prefix.
  pub match_site-IsBest :
      (s : Store) (host path : Text) (c : CompiledRoute)
      → SitesCompiled s
      → match_site s host path ≡ some c
      → (st : HttpSite) × (last_site (to_lower host) s.sites ≡ some st)
        × IsBest path st.routes c.route
        × IsCompiled parse_url c
  match_site-IsBest s host path c v h = elim (match_site-cases s host path v) [
    | inl (absent, missing) ↦ absurd (ground arith)
    | inr (st, cs, last, made, looked) ↦
        let (best, compiled) = chosen_IsBest path st cs c made (sym looked ∙ h) in
        (st, last, best, compiled)
  ]

  -- Where the table of the sites is compiled from the configured sites: if the last site of the
  -- host has an enabled route that covers the path, MatchSite gives a route.
  pub match_site_complete :
      (s : Store) (host path : Text) (st : HttpSite) (q : Route)
      → SitesCompiled s
      → last_site (to_lower host) s.sites ≡ some st
      → In q st.routes
      → q.enabled ≡ true
      → covers q.prefix path ≡ true
      → match_site s host path ≢ none
  match_site_complete s host path st q v last i e k h = elim (match_site-cases s host path v) [
    | inl (absent, missing) ↦ ground arith
    | inr (st', cs, last', made, looked) ↦
        let same : st' ≡ st = cc in
        let (d, same_route, there) =
          compile_routes_complete parse_url st'.host st'.routes cs made q (rw same i) e in
        let miss =
          All-In (λ b. covers b.route.prefix path ≡ false) (longest_first cs) d
            (first_covering-none path (longest_first cs) (sym looked ∙ h))
            (In-longest_first d cs there) in
        let hit : covers d.route.prefix path ≡ true =
          ap (λ (r : Route). covers r.prefix path) same_route ∙ k in
        cc
  ]
