-- ===== src/Relay/Finishes.antt =====
-- The copying comes to its end once both ends have closed their sides.
use in_proxy.Common.{
  ℕ, ◌+◌, ◌-◌, ◌<◌, ◌≤◌, ◌≡◌, refl, ap, ◌∙◌, ◌⊎◌, inl, inr, Bool, true, false, List, [], ◌∷◌, ◌++◌,
  length, length-append, arith, Bool-cases,
}
use in_proxy.Relay.{
  Phase, copying, copied, shut, told, Pipe, Relay, start, Copy, copy, at_end, close_write, tell,
  sends, Work, go_up, go_down, receive, close, work, Reach, later, Works, rest, more,
}
use in_proxy.Relay.Copied.{sends-le, Reach-IsGood, start-IsGood}

-- How many steps a goroutine has before it at most.
abbrev phases_left : Phase → ℕ
phases_left copying = 3
phases_left copied = 2
phases_left shut = 1
phases_left told = 0

abbrev steps_left : Pipe → ℕ
steps_left p = length p.unread + phases_left p.phase

abbrev close_left : Bool → ℕ
close_left true = 0
close_left false = 1

abbrev work_left : Relay → ℕ
work_left r = steps_left r.up + steps_left r.down + (2 - r.received) + close_left r.closed

Copy-lowers : {p q : Pipe} → Copy p q → steps_left q + 1 ≤ steps_left p
Copy-lowers {p} (copy b bytes others at h) =
    omega (arith, ap length h, length-append (b ∷ bytes) others)
Copy-lowers (at_end at empty over) = rw at (omega arith)
Copy-lowers (close_write at) = rw at (omega arith)
Copy-lowers (tell at) = rw at (omega arith)

Work-lowers : {r t : Relay} → Work r t → work_left t + 1 ≤ work_left r
Work-lowers (go_up still c) = omega (arith, Copy-lowers c)
Work-lowers (go_down still c) = omega (arith, Copy-lowers c)
Work-lowers {r} (receive some_told) = omega (arith, sends-le r.up.phase, sends-le r.down.phase)
Work-lowers (close still both) = rw still (omega arith)

Works-lowers : {r t : Relay} {n : ℕ} → Works r n t → work_left t + n ≤ work_left r
Works-lowers rest = omega arith
Works-lowers (more ws w) = omega (arith, Works-lowers ws, Work-lowers w)

phases_left-le : (at : Phase) → phases_left at ≤ 3
phases_left-le copying = omega arith
phases_left-le copied = omega arith
phases_left-le shut = omega arith
phases_left-le told = omega arith

close_left-le : (b : Bool) → close_left b ≤ 1
close_left-le true = omega arith
close_left-le false = omega arith

Copy-ended : {p q : Pipe} → Copy p q → q.ended ≡ p.ended
Copy-ended (copy b bytes others at h) = refl
Copy-ended (at_end at empty over) = refl
Copy-ended (close_write at) = refl
Copy-ended (tell at) = refl

-- Both ends have closed their sides.
abbrev pub HaveEnded : Relay → Type 0
HaveEnded r = (r.up.ended ≡ true) × (r.down.ended ≡ true)

Work-HaveEnded : {r t : Relay} → Work r t → HaveEnded r → HaveEnded t
Work-HaveEnded (go_up still c) (u, d) = (Copy-ended c ∙ u, d)
Work-HaveEnded (go_down still c) (u, d) = (u, Copy-ended c ∙ d)
Work-HaveEnded (receive some_told) h = h
Work-HaveEnded (close still both) h = h

Works-ends :
    {first : List ℕ} {r t : Relay} {n : ℕ}
    → Works r n t
    → Reach (start first) r
    → HaveEnded r
    → Reach (start first) t × HaveEnded t
Works-ends rest rs h = (rs, h)
Works-ends (more ws w) rs h =
    let (r, k) = Works-ends ws rs h in (later r (work w), Work-HaveEnded w k)

-- A goroutine whose source has ended can go on until it has told.
Copy-goes : (p : Pipe) → p.ended ≡ true → (p.phase ≡ told) ⊎ ((q : Pipe) × Copy p q)
Copy-goes p over = by_phase p.phase refl p.unread refl
  where
    by_phase :
        (at : Phase)
        → p.phase ≡ at
        → (bytes : List ℕ) → p.unread ≡ bytes
        → (p.phase ≡ told) ⊎ ((q : Pipe) × Copy p q)
    by_phase copying at [] none_left = inr (record p { phase = copied }, at_end at none_left over)
    by_phase copying at (b ∷ bytes) some_left =
        inr (
          record p { unread = bytes; written = p.written ++ (b ∷ []) },
          copy b [] bytes at some_left,
        )
    by_phase copied at bytes h = inr (record p { phase = shut }, close_write at)
    by_phase shut at bytes h = inr (record p { phase = told }, tell at)
    by_phase told at bytes h = inl at

le_split : (m n : ℕ) → m ≤ n → (m < n) ⊎ (m ≡ n)
le_split m n h = ground arith

progress :
    (first : List ℕ) (t : Relay)
    → Reach (start first) t
    → HaveEnded t
    → (t.closed ≡ true) ⊎ ((u : Relay) × Work t u)
progress first t rs (u, d) = elim (Bool-cases t.closed) [
  | inl done ↦ inl done
  | inr still ↦ elim (Copy-goes t.up u) [
    | inr (p, c) ↦ inr (record t { up = p }, go_up still c)
    | inl up_told ↦ elim (Copy-goes t.down d) [
      | inr (p, c) ↦ inr (record t { down = p }, go_down still c)
      | inl down_told ↦
          let g = Reach-IsGood first rs (start-IsGood first) in
          let a = ap sends up_told in
          let b = ap sends down_told in
          elim (le_split t.received 2 (omega (arith, a, b, g.counted))) [
            | inl fewer ↦
                inr (record t { received = t.received + 1 }, receive (omega (arith, a, b, fewer)))
            | inr both ↦ inr (record t { closed = true }, close still both)
          ]
    ]
  ]
]

-- Once both ends have closed their sides, in whatever order the goroutines go on: they take at most
-- as many steps as bytes are under way, and nine more; and either one of them can go on, or both
-- connections are closed.
pub relay_terminates :
    (first : List ℕ) (n : ℕ) (r t : Relay)
    → Reach (start first) r
    → HaveEnded r
    → Works r n t
    → (n ≤ length r.up.unread + length r.down.unread + 9)
      × ((t.closed ≡ true) ⊎ ((u : Relay) × Work t u))
relay_terminates first n r t rs h ws =
    let (rt, ht) = Works-ends ws rs h in
    (
      omega (
        arith,
        Works-lowers ws,
        phases_left-le r.up.phase,
        phases_left-le r.down.phase,
        close_left-le r.closed,
      ),
      progress first t rt ht,
    )
