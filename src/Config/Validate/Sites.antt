-- ===== src/Config/Validate/Sites.antt =====
-- What validateSite establishes: normal routes with distinct prefixes.
use in_proxy.Common.{
  ◌≡◌, ◌≢◌, refl, ap, true, false, ◌||◌, not, List, [], ◌∷◌, Option, none, some, ◌⊎◌, inl, inr,
  Bool-cases, ok, arith, >>=-eq-ok, require-eq-ok, All, Distinct, All-weaken, All-both,
}
use in_proxy.Text.{Text, codes, ◌==◌, eq_iff, to_lower}
use in_proxy.Text.Trim.{trim_space, trim_slashes, trim_space_idem, lower_trim_idem}
use in_proxy.Config.{Route, HttpSite, Url, ParseUrl}
use in_proxy.Config.Patterns.{prefix_pattern, host_pattern}
use in_proxy.Config.Endpoints.{is_empty}
use in_proxy.Config.Validate.{
  is_reserved, seen_text, is_negative, parsed_url, validate, normal_route, validate_routes,
  validate_site,
}
use in_proxy.Config.Validate.Names.{trim_space_of_name, trim_slashes_of_name}
use in_proxy.Config.Errors.{
  bad_host, bad_prefix, reserved_prefix, duplicate_prefix, bad_scheme, no_url_host, bad_concurrency,
}

pub record IsNormalRoute (parse_url : ParseUrl) (r : Route) : Type 0 where
  pub named : prefix_pattern r.prefix ≡ true
  pub free : is_reserved r.prefix ≡ false
  pub url : Url
  pub parses : parse_url r.target ≡ some url
  pub is_http : (url.scheme ≡ codes "http") ⊎ (url.scheme ≡ codes "https")
  pub has_host : is_empty url.host ≡ false
  pub limit : is_negative r.max_concurrent ≡ false
  pub trimmed_target : trim_space r.target ≡ r.target
  pub trimmed_description : trim_space r.description ≡ r.description

pub record IsNormalSite (parse_url : ParseUrl) (s : HttpSite) : Type 0 where
  pub hosted : host_pattern s.host ≡ true
  pub canonical : trim_space (to_lower s.host) ≡ s.host
  pub trimmed_description : trim_space s.description ≡ s.description
  pub routes : All (IsNormalRoute parse_url) s.routes
  pub distinct : Distinct (λ (r : Route). r.prefix) s.routes

module _ (parse_url : ParseUrl) where
  parsed_url-eq-ok : (o : Option Url) (u : Url) → parsed_url o ≡ ok u → o ≡ some u
  unfolding parsed_url
  parsed_url-eq-ok none u h = cc
  parsed_url-eq-ok (some v) u h = cc

  is_http_scheme :
      (s : Text)
      → s == codes "http" || s == codes "https" ≡ true
      → (s ≡ codes "http") ⊎ (s ≡ codes "https")
  is_http_scheme s h = elim (Bool-cases (s == codes "http")) [
    | inl e ↦ inl ((eq_iff s (codes "http")).0 e)
    | inr n ↦ inr ((eq_iff s (codes "https")).0 (rw n at h))
  ]

  http_scheme :
      (s : Text)
      → (s ≡ codes "http") ⊎ (s ≡ codes "https")
      → s == codes "http" || s == codes "https" ≡ true
  unfolding ◌==◌
  http_scheme s (inl e) = rw e
  http_scheme s (inr e) = rw e

  validate-IsNormal :
      (r : Route)
      → validate parse_url (normal_route parse_url r) ≡ ok tt
      → IsNormalRoute parse_url (normal_route parse_url r)
  unfolding validate
  validate-IsNormal r h =
      let n = normal_route parse_url r in
      let (a, h₁) = require-eq-ok (prefix_pattern n.prefix) bad_prefix _ h in
      let (b, h₂) = require-eq-ok (not (is_reserved n.prefix)) (reserved_prefix n.prefix) _ h₁ in
      let (u, e, h₃) = >>=-eq-ok (parsed_url (parse_url n.target)) _ h₂ in
      let (c, h₄) =
        require-eq-ok (u.scheme == codes "http" || u.scheme == codes "https") bad_scheme _ h₃ in
      let (d, h₅) = require-eq-ok (not (is_empty u.host)) no_url_host _ h₄ in
      let (f, _) = require-eq-ok (not (is_negative n.max_concurrent)) bad_concurrency _ h₅ in
      record {
        named = a;
        free = ground arith;
        url = u;
        parses = parsed_url-eq-ok (parse_url n.target) u e;
        is_http = is_http_scheme u.scheme c;
        has_host = ground arith;
        limit = ground arith;
        trimmed_target = trim_space_idem r.target;
        trimmed_description = trim_space_idem r.description;
      }

  validate_of_IsNormal : (r : Route) → IsNormalRoute parse_url r → validate parse_url r ≡ ok tt
  unfolding validate
  validate_of_IsNormal r v =
      rw (v.named, v.free, v.parses, http_scheme v.url.scheme v.is_http, v.has_host, v.limit)

  normal_route_of_IsNormal : (r : Route) → IsNormalRoute parse_url r → normal_route parse_url r ≡ r
  normal_route_of_IsNormal r v = ground (
    arith,
    trim_space_of_name r.prefix v.named,
    trim_slashes_of_name r.prefix v.named,
    v.trimmed_target,
    v.trimmed_description,
  )

  abbrev IsFresh : List Text → Route → Type 0
  IsFresh seen r = seen_text r.prefix seen ≡ false

  IsFresh-weaken : (p : Text) (seen : List Text) (r : Route) → IsFresh (p ∷ seen) r → IsFresh seen r
  unfolding seen_text
  IsFresh-weaken p seen r h = ground arith

  fresh_differs : (p : Text) (seen : List Text) (r : Route) → IsFresh (p ∷ seen) r → p ≢ r.prefix
  unfolding seen_text
  fresh_differs p seen r h = ground (arith, eq_iff p r.prefix)

  IsFresh-extend :
      (p : Text) (seen : List Text) (r : Route)
      → IsFresh seen r × (p ≢ r.prefix)
      → IsFresh (p ∷ seen) r
  unfolding seen_text
  IsFresh-extend p seen r h = ground (arith, eq_iff p r.prefix)

  validate_routes-IsNormal :
      (seen : List Text) (routes rs : List Route)
      → validate_routes parse_url seen routes ≡ ok rs
      → All (IsNormalRoute parse_url) rs
        × All (IsFresh seen) rs
        × Distinct (λ (r : Route). r.prefix) rs
  unfolding validate_routes
  validate_routes-IsNormal seen [] rs h = let e : rs ≡ [] = cc in rw e (tt, tt, tt)
  validate_routes-IsNormal seen (route ∷ routes) rs h =
      let r = normal_route parse_url route in
      let (_, v, h₁) = >>=-eq-ok (validate parse_url r) _ h in
      let (fresh, h₂) =
        require-eq-ok (not (seen_text r.prefix seen)) (duplicate_prefix r.prefix) _ h₁ in
      let (rest, e, last) = >>=-eq-ok (validate_routes parse_url (r.prefix ∷ seen) routes) _ h₂ in
      let (normal, freshes, distinct) = validate_routes-IsNormal (r.prefix ∷ seen) routes rest e in
      let whole : rs ≡ r ∷ rest = cc in
      rw whole (
        (validate-IsNormal route v, normal),
        (
          ground arith,
          All-weaken (IsFresh (r.prefix ∷ seen)) (IsFresh seen) (IsFresh-weaken r.prefix seen) rest
              freshes,
        ),
        (
          All-weaken (IsFresh (r.prefix ∷ seen)) (λ q. r.prefix ≢ q.prefix)
              (fresh_differs r.prefix seen) rest freshes,
          distinct,
        ),
      )

  validate_routes_of_IsNormal :
      (seen : List Text) (rs : List Route)
      → All (IsNormalRoute parse_url) rs
      → All (IsFresh seen) rs
      → Distinct (λ (r : Route). r.prefix) rs
      → validate_routes parse_url seen rs ≡ ok rs
  unfolding validate_routes
  validate_routes_of_IsNormal seen [] n f d = refl
  validate_routes_of_IsNormal seen (r ∷ rs) (n, ns) (f, fs) (d, ds) =
      let ih =
        validate_routes_of_IsNormal (r.prefix ∷ seen) rs ns
          (All-weaken (λ q. IsFresh seen q × (r.prefix ≢ q.prefix)) (IsFresh (r.prefix ∷ seen))
            (IsFresh-extend r.prefix seen) rs
            (All-both (IsFresh seen) (λ q. r.prefix ≢ q.prefix) rs fs d))
          ds in
      let same = normal_route_of_IsNormal r n in
      let prefixes : trim_slashes (trim_space r.prefix) ≡ r.prefix =
        ap (λ (q : Route). q.prefix) same in
      rw same (rw prefixes (rw (validate_of_IsNormal r n) (rw f (rw ih))))

  -- What validateSite accepts comes out normal: the host matches its pattern and is in lower case and
  -- trimmed, every route has a prefix of the pattern that is not reserved, a URL of scheme http or
  -- https with a host as its target, and no negative limit, and no two routes have one prefix.
  pub validate_site-IsNormal :
      (site s : HttpSite) → validate_site parse_url site ≡ ok s → IsNormalSite parse_url s
  unfolding validate_site
  validate_site-IsNormal site s h =
      let host = trim_space (to_lower site.host) in
      let (hosted, h₁) = require-eq-ok (host_pattern host) bad_host _ h in
      let (rs, e, last) = >>=-eq-ok (validate_routes parse_url [] site.routes) _ h₁ in
      let (normal, _, distinct) = validate_routes-IsNormal [] site.routes rs e in
      let whole : s
          ≡ record { host = host; description = trim_space site.description; routes = rs } =
        cc in
      rw whole (record {
        hosted = hosted;
        canonical = lower_trim_idem site.host;
        trimmed_description = trim_space_idem site.description;
        routes = normal;
        distinct = distinct;
      })

  nothing_seen : (rs : List Route) → All (IsFresh []) rs
  unfolding seen_text
  nothing_seen [] = tt
  nothing_seen (r ∷ rs) = (refl, nothing_seen rs)

  pub validate_site_of_IsNormal :
      (s : HttpSite) → IsNormalSite parse_url s → validate_site parse_url s ≡ ok s
  unfolding validate_site
  validate_site_of_IsNormal s v = rw (
    v.canonical,
    v.hosted,
    v.trimmed_description,
    validate_routes_of_IsNormal [] s.routes v.routes (nothing_seen s.routes) v.distinct,
  )

  -- A site that validateSite has normalised is accepted again, and stays the same.
  pub validate_site_idem :
      (site s : HttpSite) → validate_site parse_url site ≡ ok s → validate_site parse_url s ≡ ok s
  validate_site_idem site s h = validate_site_of_IsNormal s (validate_site-IsNormal site s h)
