-- ===== src/DomainRouter/Accepting/Released.antt =====
-- What becomes of connections and callers once the SNI listener is done.
use in_proxy.Common.{
  ℕ, ◌+◌, ◌-◌, ◌*◌, ◌≤◌, ◌≡◌, refl, ap, ◌⊎◌, inl, inr, Bool, true, false, List, [], ◌∷◌, ◌++◌,
  length, All, arith, Bool-cases, nat_eq, nat_eq_iff,
}
use in_proxy.Common.Sums.{total, total-move}
use in_proxy.Routing.{SniDecision, accept, passthrough, drop}
use in_proxy.DomainRouter.Accepting.{
  Conn, peeking, offering, passed, dropped, handed, hung_up, SniListener, choose, Work, decide,
  hand, hang_up, refuse, leave_loop, Step, work, connect, fail, call, close, Reach, start, later,
  Works, rest, more,
}

abbrev pub is_handed : Conn → ℕ
is_handed handed = 1
is_handed _ = 0

-- Every call of Accept has a connection of its own, or the error, or waits.
abbrev pub AreAnswered : SniListener → Type 0
AreAnswered l = total is_handed l.conns + l.refused + l.waiting ≡ l.calls

is_handed-choose : (d : SniDecision) → is_handed (choose d) ≡ 0
is_handed-choose accept = refl
is_handed-choose (passthrough target pp) = refl
is_handed-choose drop = refl

Work-AreAnswered : {l m : SniListener} → Work l m → AreAnswered l → AreAnswered m
Work-AreAnswered {l} (decide b a d h) v =
    omega (arith, total-move is_handed l.conns b a peeking (choose d) h, is_handed-choose d)
Work-AreAnswered {l} (hand b a some_waits h) v =
    omega (arith, total-move is_handed l.conns b a offering handed h)
Work-AreAnswered {l} (hang_up b a over h) v =
    omega (arith, total-move is_handed l.conns b a offering hung_up h)
Work-AreAnswered (refuse some_waits over) v = omega arith
Work-AreAnswered (leave_loop on shut) v = v

Step-AreAnswered : {l m : SniListener} → Step l m → AreAnswered l → AreAnswered m
unfolding total
Step-AreAnswered (work w) v = Work-AreAnswered w v
Step-AreAnswered (connect still on) v = omega arith
Step-AreAnswered (fail on) v = v
Step-AreAnswered call v = omega arith
Step-AreAnswered close v = v

Reach-AreAnswered : {l : SniListener} → Reach l → AreAnswered l
unfolding total
Reach-AreAnswered start = refl
Reach-AreAnswered (later r s) = Step-AreAnswered s (Reach-AreAnswered r)

-- How many steps a connection has before it at most.
abbrev steps_left : Conn → ℕ
steps_left peeking = 2
steps_left offering = 1
steps_left _ = 0

steps_left-choose : (d : SniDecision) → steps_left (choose d) ≤ 1
steps_left-choose accept = omega arith
steps_left-choose (passthrough target pp) = omega arith
steps_left-choose drop = omega arith

abbrev loop_left : Bool → ℕ
loop_left true = 1
loop_left false = 0

abbrev work_left : SniListener → ℕ
work_left l = total steps_left l.conns + l.waiting + loop_left l.looping

Work-lowers : {l m : SniListener} → Work l m → work_left m + 1 ≤ work_left l
Work-lowers {l} (decide b a d h) =
    omega (arith, total-move steps_left l.conns b a peeking (choose d) h, steps_left-choose d)
Work-lowers {l} (hand b a some_waits h) =
    omega (arith, total-move steps_left l.conns b a offering handed h)
Work-lowers {l} (hang_up b a over h) =
    omega (arith, total-move steps_left l.conns b a offering hung_up h)
Work-lowers (refuse some_waits over) = omega arith
Work-lowers (leave_loop on shut) = rw on (omega arith)

Works-lowers : {l m : SniListener} {n : ℕ} → Works l n m → work_left m + n ≤ work_left l
Works-lowers rest = omega arith
Works-lowers (more ws w) = omega (arith, Works-lowers ws, Work-lowers w)

steps_left-le : (cs : List Conn) → total steps_left cs ≤ 2 * length cs
unfolding total
steps_left-le [] = omega arith
steps_left-le (peeking ∷ cs) = omega (arith, steps_left-le cs)
steps_left-le (offering ∷ cs) = omega (arith, steps_left-le cs)
steps_left-le (passed ∷ cs) = omega (arith, steps_left-le cs)
steps_left-le (dropped ∷ cs) = omega (arith, steps_left-le cs)
steps_left-le (handed ∷ cs) = omega (arith, steps_left-le cs)
steps_left-le (hung_up ∷ cs) = omega (arith, steps_left-le cs)

loop_left-le : (b : Bool) → loop_left b ≤ 1
loop_left-le true = omega arith
loop_left-le false = omega arith

Work-done : {l m : SniListener} → Work l m → l.done ≡ true → m.done ≡ true
Work-done (decide b a d h) over = over
Work-done (hand b a some_waits h) over = over
Work-done (hang_up b a gone h) over = over
Work-done (refuse some_waits gone) over = over
Work-done (leave_loop on shut) over = refl

Works-done :
    {l m : SniListener} {n : ℕ} → Works l n m → Reach l → l.done ≡ true → Reach m × (m.done ≡ true)
Works-done rest r over = (r, over)
Works-done (more ws w) r over =
    let (q, k) = Works-done ws r over in (later q (work w), Work-done w k)

-- Its goroutine has done with the connection.
abbrev pub is_over : Conn → Bool
is_over peeking = false
is_over offering = false
is_over _ = true

abbrev AreOver : List Conn → Type 0
AreOver cs = All (λ c. is_over c ≡ true) cs

-- A connection that is not over, with what stands around it.
abbrev HasOpen : List Conn → Type 0
HasOpen cs =
    ((before : List Conn) × (after : List Conn) × (cs ≡ before ++ (peeking ∷ after)))
    ⊎ ((before : List Conn) × (after : List Conn) × (cs ≡ before ++ (offering ∷ after)))

behind :
    (c : Conn) (cs : List Conn)
    → is_over c ≡ true
    → AreOver cs ⊎ HasOpen cs
    → AreOver (c ∷ cs) ⊎ HasOpen (c ∷ cs)
behind c cs over (inl all_over) = inl (over, all_over)
behind c cs over (inr (inl (b, a, h))) = inr (inl (c ∷ b, a, ap (λ ds. c ∷ ds) h))
behind c cs over (inr (inr (b, a, h))) = inr (inr (c ∷ b, a, ap (λ ds. c ∷ ds) h))

find_open : (cs : List Conn) → AreOver cs ⊎ HasOpen cs
find_open [] = inl tt
find_open (peeking ∷ cs) = inr (inl ([], cs, refl))
find_open (offering ∷ cs) = inr (inr ([], cs, refl))
find_open (passed ∷ cs) = behind passed cs refl (find_open cs)
find_open (dropped ∷ cs) = behind dropped cs refl (find_open cs)
find_open (handed ∷ cs) = behind handed cs refl (find_open cs)
find_open (hung_up ∷ cs) = behind hung_up cs refl (find_open cs)

-- A listener that is done goes on as long as a connection is not over or a call waits.
goes_on :
    (l : SniListener)
    → l.done ≡ true
    → (AreOver l.conns × (l.waiting ≡ 0)) ⊎ ((m : SniListener) × Work l m)
goes_on l over = elim (find_open l.conns) [
  | inr (inl (b, a, h)) ↦ inr (record l { conns = b ++ (dropped ∷ a) }, decide b a drop h)
  | inr (inr (b, a, h)) ↦ inr (record l { conns = b ++ (hung_up ∷ a) }, hang_up b a over h)
  | inl all_over ↦ elim (Bool-cases (nat_eq l.waiting 0)) [
    | inl none_waits ↦ inl (all_over, (nat_eq_iff l.waiting 0).0 none_waits)
    | inr some_waits ↦
        inr (
          record l { waiting = l.waiting - 1; refused = l.refused + 1 },
          refuse (ground arith) over,
        )
  ]
]

-- Once the listener is done, by Close or since the wrapped listener failed: in whatever order its
-- goroutines go on, they take at most two steps for each connection, one for each call of Accept that
-- waits, and one more; and either one of them can go on, or every connection is passed on, closed or
-- given to a caller of Accept, and every call of Accept has returned, with a connection of its own or
-- with the error.
pub done_releases :
    (n : ℕ) (l m : SniListener)
    → Reach l
    → l.done ≡ true
    → Works l n m
    → (n ≤ 2 * length l.conns + l.waiting + 1)
      × ((All (λ c. is_over c ≡ true) m.conns × (total is_handed m.conns + m.refused ≡ m.calls))
          ⊎ ((k : SniListener) × Work m k))
done_releases n l m r over ws =
    let (q, k) = Works-done ws r over in
    (
      omega (arith, Works-lowers ws, steps_left-le l.conns, loop_left-le l.looping),
      elim (goes_on m k) [
        | inr w ↦ inr w
        | inl (all_over, none_waits) ↦
            inl (all_over, omega (arith, Reach-AreAnswered q, none_waits))
      ],
    )
