-- ===== src/Proxy/Serve/Bounded.antt =====
-- How many requests of a route are proxied at a time.
use in_proxy.Common.{ℕ, ◌≤◌, ◌≡◌, true, false, Option, some, arith}
use in_proxy.Common.Sums.{total, total-move}
use in_proxy.Proxy.Serve.{
  Client, selecting, proxying, returned, served, given_up, Traffic, Work, pass, enter, give_up,
  return_free, leave, Step, work, arrive, disconnect, answer, Reach, start, later,
}

abbrev pub is_proxied : Client → ℕ
is_proxied (selecting cancelled) = 0
is_proxied proxying = 1
is_proxied returned = 1
is_proxied served = 0
is_proxied given_up = 0

-- The requests that are proxied now, those included that have not given back their slot.
abbrev pub proxied : Traffic → ℕ
proxied s = total is_proxied s.clients

module _ (limiter : Option ℕ) (capacity : ℕ) (limited : limiter ≡ some capacity) where
  abbrev pub IsCounted : Traffic → Type 0
  IsCounted s = (proxied s ≡ s.taken) × (s.taken ≤ capacity)

  same_capacity : (k : ℕ) → limiter ≡ some k → k ≡ capacity
  same_capacity k h = cc (limited)

  Work-IsCounted : {s t : Traffic} → Work limiter s t → IsCounted s → IsCounted t
  Work-IsCounted {s} (pass before after g free h) v = absurd (cc limited)
  Work-IsCounted {s} (enter before after g k is lt h) v = omega (
    arith,
    total-move is_proxied s.clients before after (selecting g) proxying h,
    same_capacity k is,
  )
  Work-IsCounted {s} (give_up before after k is h) v =
      omega (arith, total-move is_proxied s.clients before after (selecting true) given_up h)
  Work-IsCounted {s} (return_free before after free h) v = absurd (cc limited)
  Work-IsCounted {s} (leave before after k is lt h) v =
      omega (arith, total-move is_proxied s.clients before after returned served h)

  Step-IsCounted : {s t : Traffic} → Step limiter s t → IsCounted s → IsCounted t
  unfolding total
  Step-IsCounted (work w) v = Work-IsCounted w v
  Step-IsCounted arrive v = omega arith
  Step-IsCounted {s} (disconnect before after h) v =
      omega
        (arith, total-move is_proxied s.clients before after (selecting false) (selecting true) h)
  Step-IsCounted {s} (answer before after h) v =
      omega (arith, total-move is_proxied s.clients before after proxying returned h)

  pub Reach-IsCounted : {s : Traffic} → Reach limiter s → IsCounted s
  unfolding total
  Reach-IsCounted start = omega arith
  Reach-IsCounted (later r st) = Step-IsCounted st (Reach-IsCounted r)

  -- Whatever requests arrive, wait, go away and return, in any order: where the channel has a
  -- capacity, never more of them are proxied at a time, and each of these has a slot of it.
  pub proxied_bounded :
      {s : Traffic} → Reach limiter s → (proxied s ≤ capacity) × (proxied s ≡ s.taken)
  proxied_bounded r = let (same, small) = Reach-IsCounted r in (rw same small, same)
