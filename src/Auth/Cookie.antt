-- ===== src/Auth/Cookie.antt =====
-- Which session cookies are accepted: IssueCookie and SessionValid of auth.go.
use in_proxy.Common.{
  ℕ, zero, suc, ◌+◌, ◌-◌, ◌*◌, ◌/◌, ◌%◌, ◌^◌, ◌≤◌, ◌<◌, ◌≡◌, ◌≢◌, refl, sym, ap, ◌∙◌, true, false,
  ◌&&◌, List, [], ◌∷◌, ◌++◌, Option, none, some, ltb, leb, nat_eq, arith, Bool-cases, Option-cases,
  inl, inr, All-weaken, append_assoc, append-nil,
}
use in_proxy.Common.Int.{ℤ, pos, negsuc}
use in_proxy.Text.{Text, ◌==◌, eq_iff, eq_refl, Lacks}
use in_proxy.Text.Numbers.{atoi, digits, IsNumeric, digits-IsNumeric, atoi-digits}
use in_proxy.Config.Endpoints.{is_empty}
use in_proxy.Auth.{
  session_ttl, format_from, format_int, split_dot, sign, cookie_value, not_past, session_valid,
  before_dot,
}

digits-digit : (n m : ℕ) (s : Text) → m < 10 → digits n ((b'0' + m) ∷ s) ≡ digits (n * 10 + m) s
unfolding digits
digits-digit n m s h =
    let back : (b'0' + m) - b'0' ≡ m = omega arith in
    let low : leb b'0' (b'0' + m) && leb (b'0' + m) b'9' ≡ true = ground arith in
    rw low (rw back refl)

digits-format_from :
    (fuel n : ℕ) (s : Text) → n < fuel → digits 0 (format_from fuel n ++ s) ≡ digits n s
unfolding format_from
digits-format_from zero n s h = absurd (omega arith)
digits-format_from (suc fuel) n s h = elim (Bool-cases (ltb n 10)) [
  | inl small ↦ rw small (digits-digit 0 n s (ground arith) ∙ ap (λ k. digits k s) (omega arith))
  | inr large ↦
      let front = format_from fuel (n / 10) in
      let last = b'0' + n % 10 in
      let ih = digits-format_from fuel (n / 10) (last ∷ s) (ground arith) in
      rw large (
        ap (digits 0) (append_assoc front (last ∷ []) s)
        ∙ ih
        ∙ digits-digit (n / 10) (n % 10) s (omega arith)
        ∙ ap (λ k. digits k s) (omega arith))
]

digits-format_int : (n : ℕ) → digits 0 (format_int n) ≡ some n
unfolding format_int digits
digits-format_int n =
    ap (digits 0) (sym (append-nil (format_from (suc n) n)))
    ∙ digits-format_from (suc n) n [] (omega arith)

format_from-some : (fuel n : ℕ) → is_empty (format_from (suc fuel) n) ≡ false
unfolding format_from
format_from-some fuel n = elim (Bool-cases (ltb n 10)) [
  | inl small ↦ rw small refl
  | inr large ↦ rw large (not_empty (format_from fuel (n / 10)) (b'0' + n % 10))
]
  where
    not_empty : (s : Text) (c : ℕ) → is_empty (s ++ (c ∷ [])) ≡ false
    not_empty [] c = refl
    not_empty (b ∷ s) c = refl

read_back :
    (s : Text) (n : ℕ)
    → is_empty s ≡ false
    → digits 0 s ≡ some n
    → leb n (2 ^ 63 - 1) ≡ true
    → atoi s ≡ some (pos n)
read_back [] n e h b = cc
read_back (c ∷ s) n e h b = atoi-digits c s n h b

atoi-format_int : (n : ℕ) → leb n (2 ^ 63 - 1) ≡ true → atoi (format_int n) ≡ some (pos n)
unfolding format_int
atoi-format_int n b = read_back (format_int n) n (format_from-some n n) (digits-format_int n) b

split_dot-append : (p m : Text) → Lacks b'.' p → split_dot (p ++ (b'.' ∷ m)) ≡ some (p, m)
unfolding split_dot
split_dot-append [] m h = refl
split_dot-append (c ∷ p) m (n, h) =
    let other : nat_eq c b'.' ≡ false = ground arith in rw other (rw (split_dot-append p m h) refl)

no_dot : (n : ℕ) → Lacks b'.' (format_int n)
no_dot n =
    All-weaken IsNumeric (λ c. c ≢ b'.') (λ c h. h.3) (format_int n)
      (digits-IsNumeric 0 (format_int n) n (digits-format_int n))

split_dot-whole :
    (s before behind : Text) → split_dot s ≡ some (before, behind) → s ≡ before ++ (b'.' ∷ behind)
unfolding split_dot before_dot
split_dot-whole [] before behind h = cc
split_dot-whole (c ∷ s) before behind h = elim (Bool-cases (nat_eq c b'.')) [
  | inl dot ↦ ground arith
  | inr other ↦ elim (Option-cases (split_dot s)) [
    | inl missing ↦ absurd (ground arith)
    | inr ((front, rest), found) ↦
        let ih = split_dot-whole s front rest found in
        let h' : some (c ∷ front, rest) ≡ some (before, behind) = rw found at (rw other at h) in
        let first : before ≡ c ∷ front = cc in
        let second : behind ≡ rest = cc in rw first (rw second (ap (◌∷◌ c) ih))
  ]
]

module _ (hmac : List ℕ → Text → List ℕ) where
  -- A cookie that IssueCookie sets is accepted exactly as long as twelve hours have not passed, for
  -- expiries within the range of int64.
  pub session_valid-cookie_value :
      (secret : List ℕ) (issued now : ℕ)
      → leb (issued + session_ttl) (2 ^ 63 - 1) ≡ true
      → session_valid hmac secret now (some (cookie_value hmac secret issued))
        ≡ leb now (issued + session_ttl)
  unfolding session_valid cookie_value not_past
  session_valid-cookie_value secret issued now b =
      let exp = issued + session_ttl in
      let mac = sign hmac secret (format_int exp) in
      rw (split_dot-append (format_int exp) mac (no_dot exp), session_valid)
        (rw (eq_refl mac) (rw (atoi-format_int exp b) refl))

  not_past_sound :
      (now : ℕ) (o : Option ℤ)
      → not_past hmac now o ≡ true
      → (exp : ℕ) × (o ≡ some (pos exp)) × (now ≤ exp)
  unfolding not_past
  not_past_sound now none h = cc
  not_past_sound now (some (pos exp)) h = (exp, refl, ground arith)
  not_past_sound now (some (negsuc n)) h = cc

  -- A cookie that is accepted is a number, a dot, and the signature of the number under the key; the
  -- number is an expiry that has not passed.
  pub session_valid_sound :
      (secret : List ℕ) (now : ℕ) (value : Text)
      → session_valid hmac secret now (some value) ≡ true
      → (payload : Text) × (exp : ℕ) × (value ≡ payload ++ (b'.' ∷ sign hmac secret payload))
        × (atoi payload ≡ some (pos exp))
        × (now ≤ exp)
  unfolding session_valid
  session_valid_sound secret now value h = elim (Option-cases (split_dot value)) [
    | inl missing ↦ absurd (ground arith)
    | inr ((payload, mac), found) ↦
        let h' : mac == sign hmac secret payload && not_past hmac now (atoi payload) ≡ true =
          rw (found, session_valid) at h in
        let signed : mac ≡ sign hmac secret payload =
          (eq_iff mac (sign hmac secret payload)).0 (ground arith) in
        let (exp, reads, fresh) = not_past_sound now (atoi payload) (ground arith) in
        (payload, exp, rw (sym signed) (split_dot-whole value payload mac found), reads, fresh)
  ]
