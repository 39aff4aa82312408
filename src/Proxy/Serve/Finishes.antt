-- ===== src/Proxy/Serve/Finishes.antt =====
-- What a request of a route can still wait for.
use in_proxy.Common.{
  ℕ, zero, suc, ◌+◌, ◌≤◌, ◌<◌, ◌≡◌, refl, ap, ◌∙◌, ◌⊎◌, inl, inr, Bool, true, false, List, [], ◌∷◌,
  ◌++◌, Option, some, arith, length, All, All-both, All-weaken, Option-cases, Bool-cases, ltb,
}
use in_proxy.Common.Int.{ℤ, pos, negsuc}
use in_proxy.Proxy.{concurrency}
use in_proxy.Common.Sums.{total, total-append, total-move}
use in_proxy.Proxy.Serve.{
  Client, selecting, proxying, returned, served, given_up, Traffic, Work, pass, enter, give_up,
  return_free, leave, work, Reach, later, Works, rest, more,
}
use in_proxy.Proxy.Serve.Bounded.{is_proxied, Reach-IsCounted}

-- How many steps of the program a request has before it at most, if the backend does not answer.
abbrev steps_left : Client → ℕ
steps_left (selecting cancelled) = 1
steps_left proxying = 0
steps_left returned = 1
steps_left served = 0
steps_left given_up = 0

abbrev work_left : List Client → ℕ
work_left = total steps_left

work_left-le : (cs : List Client) → work_left cs ≤ length cs
unfolding total
work_left-le [] = omega arith
work_left-le (selecting g ∷ cs) = omega (arith, work_left-le cs)
work_left-le (proxying ∷ cs) = omega (arith, work_left-le cs)
work_left-le (returned ∷ cs) = omega (arith, work_left-le cs)
work_left-le (served ∷ cs) = omega (arith, work_left-le cs)
work_left-le (given_up ∷ cs) = omega (arith, work_left-le cs)

module _ (limiter : Option ℕ) where
  Work-lowers : {s t : Traffic} → Work limiter s t → work_left t.clients + 1 ≤ work_left s.clients
  Work-lowers {s} (pass b a g free h) =
      omega (arith, total-move steps_left s.clients b a (selecting g) proxying h)
  Work-lowers {s} (enter b a g k is lt h) =
      omega (arith, total-move steps_left s.clients b a (selecting g) proxying h)
  Work-lowers {s} (give_up b a k is h) =
      omega (arith, total-move steps_left s.clients b a (selecting true) given_up h)
  Work-lowers {s} (return_free b a free h) =
      omega (arith, total-move steps_left s.clients b a returned served h)
  Work-lowers {s} (leave b a k is lt h) =
      omega (arith, total-move steps_left s.clients b a returned served h)

  Works-lowers :
      {s : Traffic} {n : ℕ} {t : Traffic}
      → Works limiter s n t
      → work_left t.clients + n ≤ work_left s.clients
  Works-lowers rest = omega arith
  Works-lowers (more ws w) = omega (arith, Works-lowers ws, Work-lowers w)

  Works-Reach :
      {s : Traffic} {n : ℕ} {t : Traffic} → Reach limiter s → Works limiter s n t → Reach limiter t
  Works-Reach r rest = r
  Works-Reach r (more ws w) = later (Works-Reach r ws) (work w)

-- The first request that passes a test, if there is one.
find :
    (test : Client → Bool) (cs : List Client)
    → All (λ c. test c ≡ false) cs
      ⊎ ((before : List Client) × (c : Client) × (after : List Client) × (cs
            ≡ before ++ (c ∷ after))
          × (test c ≡ true))
find test [] = inl tt
find test (c ∷ cs) = elim (Bool-cases (test c)) [
  | inl hit ↦ inr ([], c, cs, refl, hit)
  | inr miss ↦ elim (find test cs) [
    | inl none_there ↦ inl (miss, none_there)
    | inr (b, d, a, h, k) ↦ inr (c ∷ b, d, a, ap (λ ds. c ∷ ds) h, k)
  ]
]

abbrev is_returned : Client → Bool
is_returned returned = true
is_returned _ = false

is_returned_lem : (c : Client) → is_returned c ≡ true → c ≡ returned
is_returned_lem (selecting g) h = absurd (cc)
is_returned_lem proxying h = absurd (cc)
is_returned_lem returned h = refl
is_returned_lem served h = absurd (cc)
is_returned_lem given_up h = absurd (cc)

abbrev is_cancelled : Client → Bool
is_cancelled (selecting g) = g
is_cancelled _ = false

is_cancelled_lem : (c : Client) → is_cancelled c ≡ true → c ≡ selecting true
is_cancelled_lem (selecting g) h = ap selecting h
is_cancelled_lem proxying h = absurd (cc)
is_cancelled_lem returned h = absurd (cc)
is_cancelled_lem served h = absurd (cc)
is_cancelled_lem given_up h = absurd (cc)

abbrev is_selecting : Client → Bool
is_selecting (selecting g) = true
is_selecting _ = false

is_selecting_lem : (c : Client) → is_selecting c ≡ true → (g : Bool) × (c ≡ selecting g)
is_selecting_lem (selecting g) h = (g, refl)
is_selecting_lem proxying h = absurd (cc)
is_selecting_lem returned h = absurd (cc)
is_selecting_lem served h = absurd (cc)
is_selecting_lem given_up h = absurd (cc)

-- Within ServeHTTP.
abbrev pub is_at_backend : Client → ℕ
is_at_backend proxying = 1
is_at_backend _ = 0

-- The request is answered, was given up, or is within ServeHTTP.
abbrev pub IsPast : Client → Type 0
IsPast c = (c ≡ served) ⊎ ((c ≡ given_up) ⊎ (c ≡ proxying))

-- Or it waits in the select, and its client has not gone away.
abbrev pub IsPastOrWaits : Client → Type 0
IsPastOrWaits c = IsPast c ⊎ (c ≡ selecting false)

IsPast_of : (c : Client) → (is_returned c ≡ false) × (is_selecting c ≡ false) → IsPast c
IsPast_of (selecting g) (r, s) = absurd (cc)
IsPast_of proxying h = inr (inr refl)
IsPast_of returned (r, s) = absurd (cc)
IsPast_of served h = inl refl
IsPast_of given_up h = inr (inl refl)

IsPastOrWaits_of :
    (c : Client) → (is_returned c ≡ false) × (is_cancelled c ≡ false) → IsPastOrWaits c
IsPastOrWaits_of (selecting g) (r, s) = inr (ap selecting s)
IsPastOrWaits_of proxying h = inl (inr (inr refl))
IsPastOrWaits_of returned (r, s) = absurd (cc)
IsPastOrWaits_of served h = inl (inl refl)
IsPastOrWaits_of given_up h = inl (inr (inl refl))

-- Where none has returned, those with a slot are within ServeHTTP.
total-is_at_backend :
    (cs : List Client)
    → All (λ c. is_returned c ≡ false) cs
    → total is_proxied cs ≡ total is_at_backend cs
unfolding total
total-is_at_backend [] h = refl
total-is_at_backend (selecting g ∷ cs) (n, h) = omega (arith, total-is_at_backend cs h)
total-is_at_backend (proxying ∷ cs) (n, h) = omega (arith, total-is_at_backend cs h)
total-is_at_backend (returned ∷ cs) (n, h) = absurd (cc)
total-is_at_backend (served ∷ cs) (n, h) = omega (arith, total-is_at_backend cs h)
total-is_at_backend (given_up ∷ cs) (n, h) = omega (arith, total-is_at_backend cs h)

module _ (limiter : Option ℕ) where
  -- The state where the program has no step: every request is past the select; or as many as the
  -- channel has slots are within ServeHTTP, and others wait.
  pub data Rests (t : Traffic) : Type 0 where
    all_past : All IsPast t.clients → Rests t
    all_taken :
        (capacity : ℕ)
        → limiter ≡ some capacity
        → 0 < capacity
        → total is_at_backend t.clients ≡ capacity
        → All IsPastOrWaits t.clients
        → Rests t

module _ (limiter : Option ℕ) (usable : (k : ℕ) → limiter ≡ some k → 0 < k) where
  abbrev CanWork : Traffic → Type 0
  CanWork t = (u : Traffic) × Work limiter t u

  returned-CanWork :
      (t : Traffic) (b a : List Client)
      → Reach limiter t
      → t.clients ≡ b ++ (returned ∷ a)
      → CanWork t
  unfolding total
  returned-CanWork t b a r h = elim (Option-cases limiter) [
    | inl free ↦ inr_ (return_free b a free h)
    | inr (capacity, limited) ↦
        let (counted, small) = Reach-IsCounted limiter capacity limited r in
        let some_taken : 0 < t.taken =
          omega
            (arith, counted, ap (total is_proxied) h, total-append is_proxied b (returned ∷ a)) in
        inr_ (leave b a capacity limited some_taken h)
  ]
    where
      inr_ : {u : Traffic} → Work limiter t u → (u : Traffic) × Work limiter t u
      inr_ {u} w = (u, w)

  -- A request that selects, where none has returned and no client has gone.
  selecting-goes :
      (t : Traffic) (b a : List Client) (g : Bool)
      → Reach limiter t
      → t.clients ≡ b ++ (selecting g ∷ a)
      → All (λ c. is_returned c ≡ false) t.clients
      → All (λ c. is_cancelled c ≡ false) t.clients
      → CanWork t ⊎ Rests limiter t
  selecting-goes t b a g r h none_back none_gone = elim (Option-cases limiter) [
    | inl free ↦ inl (_, pass b a g free h)
    | inr (capacity, limited) ↦
        let (counted, small) = Reach-IsCounted limiter capacity limited r in
        let busy = total-is_at_backend t.clients none_back in
        elim (Bool-cases (ltb t.taken capacity)) [
          | inl room ↦ inl (_, enter b a g capacity limited (ground arith) h)
          | inr full ↦ inr (
              all_taken capacity limited (usable capacity limited) (ground arith) (
                All-weaken _ IsPastOrWaits IsPastOrWaits_of t.clients
                  (All-both _ _ t.clients none_back none_gone)))
        ]
  ]

  cancelled-CanWork :
      (t : Traffic) (b a : List Client) → t.clients ≡ b ++ (selecting true ∷ a) → CanWork t
  cancelled-CanWork t b a h = elim (Option-cases limiter) [
    | inl free ↦ (_, pass b a true free h)
    | inr (capacity, limited) ↦ (_, give_up b a capacity limited h)
  ]

  goes_on : (t : Traffic) → Reach limiter t → CanWork t ⊎ Rests limiter t
  goes_on t r = elim (find is_returned t.clients) [
    | inr (b, c, a, h, k) ↦
        inl (returned-CanWork t b a r (h ∙ ap (λ d. b ++ (d ∷ a)) (is_returned_lem c k)))
    | inl none_back ↦ elim (find is_cancelled t.clients) [
      | inr (b, c, a, h, k) ↦
          inl (cancelled-CanWork t b a (h ∙ ap (λ d. b ++ (d ∷ a)) (is_cancelled_lem c k)))
      | inl none_gone ↦ elim (find is_selecting t.clients) [
        | inr (b, c, a, h, k) ↦
            let (g, same) = is_selecting_lem c k in
            selecting-goes t b a g r (h ∙ ap (λ d. b ++ (d ∷ a)) same) none_back none_gone
        | inl none_selects ↦ inr (
            all_past (
              All-weaken _ IsPast IsPast_of t.clients
                (All-both _ _ t.clients none_back none_selects)))
      ]
    ]
  ]

concurrency-pos : (m : ℤ) (capacity : ℕ) → concurrency m ≡ some capacity → 0 < capacity
unfolding concurrency
concurrency-pos (pos zero) capacity h = cc
concurrency-pos (pos (suc n)) capacity h = ground arith
concurrency-pos (negsuc n) capacity h = cc

-- For a route with any limit: as long as no request arrives, no client goes away and no ServeHTTP
-- returns, the program takes at most one step for each request, in any order; and either it can go
-- on, or every request is answered, was given up or is within ServeHTTP, or else as many as the
-- channel has slots, at least one, are within ServeHTTP, and of the rest each is answered, was given
-- up, or waits with its client there. So the limiter holds no request back but for backends that have
-- not answered.
pub serve_goes_on :
    (m : ℤ) (n : ℕ) (s t : Traffic)
    → Reach (concurrency m) s
    → Works (concurrency m) s n t
    → (n ≤ length s.clients)
      × (((u : Traffic) × Work (concurrency m) t u) ⊎ Rests (concurrency m) t)
serve_goes_on m n s t r ws = (
  omega (arith, Works-lowers (concurrency m) ws, work_left-le s.clients),
  goes_on (concurrency m) (concurrency-pos m) t (Works-Reach (concurrency m) r ws),
)
