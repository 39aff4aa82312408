-- ===== src/Relay/Copied.antt =====
-- What has come through when the connections are closed.
use in_proxy.Common.{
  ℕ, ◌+◌, ◌≤◌, ◌≡◌, refl, sym, ap, ◌∙◌, ◌⊎◌, inl, inr, true, false, List, [], ◌∷◌, ◌++◌,
  append_assoc, append-nil, arith,
}
use in_proxy.Relay.{
  Phase, copying, copied, shut, told, Pipe, Relay, start, Copy, copy, at_end, close_write, tell,
  Befall, send, finish, fail, sends, go_up, go_down, receive, close, Step, work, befall_up,
  befall_down, Reach, here, later,
}

-- All that the source sent has been written behind the first bytes, and the source has ended.
abbrev pub IsWhole : List ℕ → Pipe → Type 0
IsWhole first p = (p.written ≡ first ++ p.sent) × (p.ended ≡ true)

-- Nothing is lost on the way, and io.Copy ends with the source or in an error.
pub record IsSound (first : List ℕ) (p : Pipe) : Type 0 where
  pub in_order : p.written ++ p.unread ≡ first ++ p.sent
  pub over : p.phase ≡ copying ⊎ (((p.unread ≡ []) × (p.ended ≡ true)) ⊎ (p.broken ≡ true))

Copy-IsSound : (first : List ℕ) {p q : Pipe} → Copy p q → IsSound first p → IsSound first q
Copy-IsSound first {p} (copy b bytes rest at h) v = record {
  in_order =
      append_assoc p.written (b ∷ bytes) rest ∙ ap (λ t. p.written ++ t) (sym h) ∙ v.in_order;
  over = inl at;
}
Copy-IsSound first (at_end at empty over) v = record {
  in_order = v.in_order;
  over = inr (inl (empty, over));
}
Copy-IsSound first (close_write at) v = record {
  in_order = v.in_order;
  over = elim v.over [ inl still ↦ absurd (cc) | inr o ↦ inr o ];
}
Copy-IsSound first (tell at) v = record {
  in_order = v.in_order;
  over = elim v.over [ inl still ↦ absurd (cc) | inr o ↦ inr o ];
}

Befall-IsSound : (first : List ℕ) {p q : Pipe} → Befall p q → IsSound first p → IsSound first q
Befall-IsSound first {p} (send bytes more) v = record {
  in_order =
      sym (append_assoc p.written p.unread bytes)
      ∙ ap (λ t. t ++ bytes) v.in_order
      ∙ append_assoc first p.sent bytes;
  over = elim v.over [
    | inl still ↦ inl still
    | inr (inl (empty, over)) ↦ absurd (cc)
    | inr (inr bad) ↦ inr (inr bad)
  ];
}
Befall-IsSound first (finish more) v = record {
  in_order = v.in_order;
  over = elim v.over [
    | inl still ↦ inl still
    | inr (inl (empty, over)) ↦ inr (inl (empty, refl))
    | inr (inr bad) ↦ inr (inr bad)
  ];
}
Befall-IsSound first {p} (fail bytes rest at h) v = record {
  in_order = append_assoc p.written bytes rest ∙ ap (λ t. p.written ++ t) (sym h) ∙ v.in_order;
  over = inr (inr refl);
}

pub record IsGood (first : List ℕ) (r : Relay) : Type 0 where
  pub up_sound : IsSound first r.up
  pub down_sound : IsSound [] r.down
  pub counted : r.received ≤ sends r.up.phase + sends r.down.phase
  pub waited : r.closed ≡ true → r.received ≡ 2

pub sends-le : (at : Phase) → sends at ≤ 1
sends-le copying = omega arith
sends-le copied = omega arith
sends-le shut = omega arith
sends-le told = omega arith

sends-told : (at : Phase) → 1 ≤ sends at → at ≡ told
sends-told copying h = absurd (omega arith)
sends-told copied h = absurd (omega arith)
sends-told shut h = absurd (omega arith)
sends-told told h = refl

-- A goroutine that has told takes no step.
Copy-sends : {p q : Pipe} → Copy p q → sends p.phase ≤ sends q.phase
Copy-sends (copy b bytes rest at h) = omega arith
Copy-sends (at_end at empty over) = rw at (omega arith)
Copy-sends (close_write at) = rw at (omega arith)
Copy-sends (tell at) = rw at (omega arith)

Befall-sends : {p q : Pipe} → Befall p q → sends p.phase ≤ sends q.phase
Befall-sends (send bytes more) = omega arith
Befall-sends (finish more) = omega arith
Befall-sends (fail bytes rest at h) = rw at (omega arith)

Step-IsGood : (first : List ℕ) {r t : Relay} → Step r t → IsGood first r → IsGood first t
Step-IsGood first (work (go_up still c)) g = record {
  up_sound = Copy-IsSound first c g.up_sound;
  down_sound = g.down_sound;
  counted = omega (arith, g.counted, Copy-sends c);
  waited = λ h. absurd (cc);
}
Step-IsGood first (work (go_down still c)) g = record {
  up_sound = g.up_sound;
  down_sound = Copy-IsSound [] c g.down_sound;
  counted = omega (arith, g.counted, Copy-sends c);
  waited = λ h. absurd (cc);
}
Step-IsGood first {r} (work (receive some_told)) g = record {
  up_sound = g.up_sound;
  down_sound = g.down_sound;
  counted = omega arith;
  waited = λ h. absurd (omega (arith, g.waited h, sends-le r.up.phase, sends-le r.down.phase));
}
Step-IsGood first (work (close still both)) g = record {
  up_sound = g.up_sound;
  down_sound = g.down_sound;
  counted = g.counted;
  waited = λ h. both;
}
Step-IsGood first (befall_up still c) g = record {
  up_sound = Befall-IsSound first c g.up_sound;
  down_sound = g.down_sound;
  counted = omega (arith, g.counted, Befall-sends c);
  waited = λ h. absurd (cc);
}
Step-IsGood first (befall_down still c) g = record {
  up_sound = g.up_sound;
  down_sound = Befall-IsSound [] c g.down_sound;
  counted = omega (arith, g.counted, Befall-sends c);
  waited = λ h. absurd (cc);
}

pub Reach-IsGood : (first : List ℕ) {r t : Relay} → Reach r t → IsGood first r → IsGood first t
Reach-IsGood first here g = g
Reach-IsGood first (later rs st) g = Step-IsGood first st (Reach-IsGood first rs g)

pub start-IsGood : (first : List ℕ) → IsGood first (start first)
start-IsGood first = record {
  up_sound = record { in_order = refl; over = inl refl };
  down_sound = record { in_order = refl; over = inl refl };
  counted = omega arith;
  waited = λ h. absurd (cc);
}

told-IsWhole :
    (first : List ℕ) (p : Pipe)
    → IsSound first p
    → p.phase ≡ told
    → IsWhole first p ⊎ (p.broken ≡ true)
told-IsWhole first p v at = elim v.over [
  | inl still ↦ absurd (cc)
  | inr (inl (empty, over)) ↦
      inl (sym (append-nil p.written) ∙ ap (λ t. p.written ++ t) (sym empty) ∙ v.in_order, over)
  | inr (inr bad) ↦ inr bad
]

-- In every execution: once the connections are closed, each way has carried over all that its source
-- sent until it ended, behind the bytes that the backend was given first, or it broke.
pub closed-IsWhole :
    (first : List ℕ) (r : Relay)
    → Reach (start first) r
    → r.closed ≡ true
    → (IsWhole first r.up ⊎ (r.up.broken ≡ true)) × (IsWhole [] r.down ⊎ (r.down.broken ≡ true))
closed-IsWhole first r rs shut_down =
    let g = Reach-IsGood first rs (start-IsGood first) in
    let n = g.waited shut_down in
    let a = sends-le r.up.phase in
    let b = sends-le r.down.phase in
    (
      told-IsWhole first r.up g.up_sound
          (sends-told r.up.phase (omega (arith, n, a, b, g.counted))),
      told-IsWhole [] r.down g.down_sound
          (sends-told r.down.phase (omega (arith, n, a, b, g.counted))),
    )

pub unbroken :
    (first : List ℕ) (p : Pipe)
    → IsWhole first p ⊎ (p.broken ≡ true)
    → p.broken ≡ false
    → IsWhole first p
unbroken first p (inl whole) fine = whole
unbroken first p (inr bad) fine = absurd (cc)
