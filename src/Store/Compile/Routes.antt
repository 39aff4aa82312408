-- ===== src/Store/Compile/Routes.antt =====
-- What the loops of recompileLocked over the sites and their routes build.
use in_proxy.Common.{
  ◌≡◌, refl, sym, ap, ◌∙◌, true, false, List, [], ◌∷◌, Option, none, some, if◌then◌else◌, arith,
  Bool-cases, Option-cases, inl, inr, ◌⊎◌, ok, >>=-eq-ok, All, All-weaken, In,
}
use in_proxy.Common.Dict.{lookup, insert, lookup-insert}
use in_proxy.Text.{Text, ◌==◌, eq_iff, to_lower}
use in_proxy.Config.{Route, HttpSite, ParseUrl}
use in_proxy.Proxy.{concurrency, build_proxy}
use in_proxy.Store.Compile.{
  CompiledRoute, SiteMap, longest_first, compile_route, compile_routes, compile_sites,
}

-- The last site of a host, which is given in lower case.
unfoldable pub last_site : Text → List HttpSite → Option HttpSite
last_site h [] = none
last_site h (st ∷ sts) = elim (last_site h sts) [
  | some later ↦ some later
  | none ↦ if to_lower st.host == h then some st else none
]

module _ (parse_url : ParseUrl) where
  -- A compiled route: its proxy and limiter are those of its rule.
  pub record IsCompiled (c : CompiledRoute) : Type 0 where
    pub built : build_proxy parse_url c.route ≡ some c.proxy
    pub limited : c.limiter ≡ concurrency c.route.max_concurrent

  compile_route-IsCompiled :
      (host : Text) (r : Route) (c : CompiledRoute)
      → compile_route parse_url host r ≡ ok c
      → (c.route ≡ r) × IsCompiled c
  unfolding compile_route
  compile_route-IsCompiled host r c h = elim (Option-cases (build_proxy parse_url r)) [
    | inl bad ↦ absurd (ground arith)
    | inr (p, good) ↦
        let whole : c ≡ record { route = r; proxy = p; limiter = concurrency r.max_concurrent } =
          ground arith in
        rw whole (refl, record { built = good; limited = refl })
  ]

  abbrev pub ComesFrom : List Route → CompiledRoute → Type 0
  ComesFrom rs c = In c.route rs × (c.route.enabled ≡ true) × IsCompiled c

  ComesFrom-cons :
      (r : Route) (rs : List Route) (c : CompiledRoute) → ComesFrom rs c → ComesFrom (r ∷ rs) c
  ComesFrom-cons r rs c (i, e, v) = (inr i, e, v)

  pub compile_routes-ComesFrom :
      (host : Text) (rs : List Route) (cs : List CompiledRoute)
      → compile_routes parse_url host rs ≡ ok cs
      → All (ComesFrom rs) cs
  unfolding compile_routes
  compile_routes-ComesFrom host [] cs h = let whole : cs ≡ [] = cc in rw whole tt
  compile_routes-ComesFrom host (r ∷ rs) cs h = elim (Bool-cases r.enabled) [
    | inr off ↦
        All-weaken (ComesFrom rs) (ComesFrom (r ∷ rs)) (ComesFrom-cons r rs) cs
          (compile_routes-ComesFrom host rs cs (simp off at h))
    | inl on ↦
        let (c, made, h₁) = >>=-eq-ok (compile_route parse_url host r) _ (simp on at h) in
        let (rest, made', h₂) = >>=-eq-ok (compile_routes parse_url host rs) _ h₁ in
        let (same, v) = compile_route-IsCompiled host r c made in
        let whole : cs ≡ c ∷ rest = cc in
        rw whole (
          (inl same, ap (λ (q : Route). q.enabled) same ∙ on, v),
          All-weaken (ComesFrom rs) (ComesFrom (r ∷ rs)) (ComesFrom-cons r rs) rest
              (compile_routes-ComesFrom host rs rest made'),
        )
  ]

  -- Each enabled route has its compiled route.
  pub compile_routes_complete :
      (host : Text) (rs : List Route) (cs : List CompiledRoute)
      → compile_routes parse_url host rs ≡ ok cs
      → (q : Route) → In q rs
      → q.enabled ≡ true
      → (c : CompiledRoute) × (c.route ≡ q) × In c cs
  unfolding compile_routes
  compile_routes_complete host [] cs h q i e = absurd i
  compile_routes_complete host (r ∷ rs) cs h q i e = elim (Bool-cases r.enabled) [
    | inr off ↦ compile_routes_complete host rs cs (simp off at h) q (skip off i) e
    | inl on ↦
        let (c, made, h₁) = >>=-eq-ok (compile_route parse_url host r) _ (simp on at h) in
        let (rest, made', h₂) = >>=-eq-ok (compile_routes parse_url host rs) _ h₁ in
        let (same, v) = compile_route-IsCompiled host r c made in
        let whole : cs ≡ c ∷ rest = cc in
        rw whole
          (here_or_later c rest same (λ j. compile_routes_complete host rs rest made' q j e) i)
  ]
    where
      skip : r.enabled ≡ false → (q ≡ r) ⊎ In q rs → In q rs
      skip off (inl same) = absurd (ground arith)
      skip off (inr j) = j

      here_or_later :
          (c : CompiledRoute) (rest : List CompiledRoute)
          → c.route ≡ r
          → (In q rs → (d : CompiledRoute) × (d.route ≡ q) × In d rest)
          → (q ≡ r) ⊎ In q rs
          → (d : CompiledRoute) × (d.route ≡ q) × In d (c ∷ rest)
      here_or_later c rest same later (inl here) = (c, same ∙ sym here, inl refl)
      here_or_later c rest same later (inr j) = let (d, e', k) = later j in (d, e', inr k)

  -- What a compiled table has for a host, where `wanted` is configured, or else `old`.
  abbrev pub HasEntry :
      Option HttpSite → Option (List CompiledRoute) → Option (List CompiledRoute) → Type 0
  HasEntry none old o = o ≡ old
  HasEntry (some st) old o =
      (cs : List CompiledRoute) × (compile_routes parse_url st.host st.routes ≡ ok cs)
      × (o ≡ some (longest_first cs))

  pub compile_sites-HasEntry :
      (h : Text) (sts : List HttpSite) (old m : SiteMap)
      → compile_sites parse_url old sts ≡ ok m
      → HasEntry (last_site h sts) (lookup ◌==◌ h old) (lookup ◌==◌ h m)
  unfolding compile_sites last_site
  compile_sites-HasEntry h [] old m e = let whole : m ≡ old = cc in rw whole
  compile_sites-HasEntry h (st ∷ sts) old m e =
      let (cs, made, e') = >>=-eq-ok (compile_routes parse_url st.host st.routes) _ e in
      let put = lookup-insert ◌==◌ eq_iff (to_lower st.host) h (longest_first cs) old in
      let ih =
        compile_sites-HasEntry h sts (insert ◌==◌ (to_lower st.host) (longest_first cs) old) m e' in
      elim (Option-cases (last_site h sts)) [
        | inr (later, found) ↦ rw (found, last_site) (rw found at ih)
        | inl last ↦
            let looked : lookup ◌==◌ h m
                ≡ lookup ◌==◌ h (insert ◌==◌ (to_lower st.host) (longest_first cs) old) =
              rw last at ih in
            elim (Bool-cases (to_lower st.host == h)) [
              | inl same ↦ rw (last, last_site) (rw same (cs, made, looked ∙ rw same at put))
              | inr other ↦ rw (last, last_site) (rw other (looked ∙ rw other at put))
            ]
      ]
