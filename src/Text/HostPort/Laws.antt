-- ===== src/Text/HostPort/Laws.antt =====
-- Laws of net.SplitHostPort and net.JoinHostPort.
use in_proxy.Common.{
  ℕ, ◌+◌, ◌≡◌, ◌≢◌, refl, ap, sym, ◌∙◌, subst, append_assoc, false, [], ◌∷◌, ◌++◌, Option, none,
  some, nat_eq, length, length-append, ok, arith, All-append, Bool-cases, inl, inr,
}
use in_proxy.Text.{Text, contains, Lacks, contains→Lacks, Lacks→contains}
use in_proxy.Text.HostPort.{
  prepend_found, split_first, or_here, split_last, unbracketed, bracketed, split_at_colon,
  split_host_port, join_host_port,
}

Lacks-append_left : (b : ℕ) (s t : Text) → Lacks b (s ++ t) → Lacks b s
Lacks-append_left b [] t h = tt
Lacks-append_left b (c ∷ s) t (x, h) = (x, Lacks-append_left b s t h)

Lacks-append_right : (b : ℕ) (s t : Text) → Lacks b (s ++ t) → Lacks b t
Lacks-append_right b [] t h = h
Lacks-append_right b (c ∷ s) t (x, h) = Lacks-append_right b s t h

-- What a split at the first, or at the last, `b` gives.
abbrev IsFirst : ℕ → Text → Option (Text × Text) → Type 0
IsFirst b s none = Lacks b s
IsFirst b s (some (before, behind)) = (s ≡ before ++ b ∷ behind) × Lacks b before

abbrev IsLast : ℕ → Text → Option (Text × Text) → Type 0
IsLast b s none = Lacks b s
IsLast b s (some (before, behind)) = (s ≡ before ++ b ∷ behind) × Lacks b behind

IsFirst-prepend :
    (b c : ℕ) (s : Text) (o : Option (Text × Text))
    → c ≢ b
    → IsFirst b s o
    → IsFirst b (c ∷ s) (prepend_found c o)
unfolding prepend_found
IsFirst-prepend b c s none n h = (n, h)
IsFirst-prepend b c s (some (before, behind)) n (e, h) = (ap (◌∷◌ c) e, (n, h))

split_first-IsFirst : (b : ℕ) (s : Text) → IsFirst b s (split_first b s)
unfolding split_first
split_first-IsFirst b [] = tt
split_first-IsFirst b (c ∷ s) = elim (Bool-cases (nat_eq c b)) [
  | inl same ↦ rw same (ground arith, tt)
  | inr other ↦ rw other (IsFirst-prepend b c s _ (ground arith) (split_first-IsFirst b s))
]

IsLast-or_here :
    (b c : ℕ) (s : Text) (o : Option (Text × Text))
    → IsLast b s o
    → IsLast b (c ∷ s) (or_here b c s o)
unfolding or_here
IsLast-or_here b c s none h = elim (Bool-cases (nat_eq c b)) [
  | inl same ↦ rw same (ground arith, h)
  | inr other ↦ rw other (ground arith, h)
]
IsLast-or_here b c s (some (before, behind)) (e, h) = (ap (◌∷◌ c) e, h)

split_last-IsLast : (b : ℕ) (s : Text) → IsLast b s (split_last b s)
unfolding split_last
split_last-IsLast b [] = tt
split_last-IsLast b (c ∷ s) = IsLast-or_here b c s _ (split_last-IsLast b s)

-- The pieces are what a split finds.
split_first-append : (b : ℕ) (s t : Text) → Lacks b s → split_first b (s ++ b ∷ t) ≡ some (s, t)
unfolding split_first
split_first-append b [] t h = ground arith
split_first-append b (c ∷ s) t (x, h) = ground (arith, split_first-append b s t h)

split_last_of_Lacks : (b : ℕ) (s : Text) → Lacks b s → split_last b s ≡ none
unfolding split_last
split_last_of_Lacks b [] h = refl
split_last_of_Lacks b (c ∷ s) (x, h) = ground (arith, split_last_of_Lacks b s h)

split_last-append : (b : ℕ) (s t : Text) → Lacks b t → split_last b (s ++ b ∷ t) ≡ some (s, t)
unfolding split_last
split_last-append b [] t h = ground (arith, split_last_of_Lacks b t h)
split_last-append b (c ∷ s) t h = rw (split_last-append b s t h) refl

-- The parts of an address that was split.
pub record AreParts (host port : Text) : Type 0 where
  pub port_colon : Lacks b':' port
  pub port_open : Lacks b'[' port
  pub port_close : Lacks b']' port
  pub host_open : Lacks b'[' host
  pub host_close : Lacks b']' host

unbracketed_sound :
    (j k : Text) (parts : Text × Text) (host port : Text)
    → unbracketed j k parts ≡ ok (host, port)
    → Lacks b'[' j × Lacks b']' k × (parts ≡ (host, port))
unfolding unbracketed
unbracketed_sound j k parts host port h =
    (contains→Lacks b'[' j (ground arith), contains→Lacks b']' k (ground arith), ground arith)

append_inj : (a b c d : Text) → a ++ b ≡ c ++ d → length a ≡ length c → (a ≡ c) × (b ≡ d)
append_inj [] b [] d e n = (refl, e)
append_inj [] b (y ∷ c) d e n = absurd (omega arith)
append_inj (x ∷ a) b [] d e n = absurd (omega arith)
append_inj (x ∷ a) b (y ∷ c) d e n =
    let (same, rest) = append_inj a b c d (cc) (omega arith) in (cc, rest)

module _ (host port : Text) where
  plain_AreParts :
      (s : Text)
      → s ≡ host ++ b':' ∷ port
      → Lacks b':' port
      → Lacks b'[' s
      → Lacks b']' s
      → AreParts host port
  plain_AreParts s e colon opens closes = record {
    port_colon = colon;
    port_open = (Lacks-append_right b'[' host _ (rw e at opens)).1;
    port_close = (Lacks-append_right b']' host _ (rw e at closes)).1;
    host_open = Lacks-append_left b'[' host _ (rw e at opens);
    host_close = Lacks-append_left b']' host _ (rw e at closes);
  }

  bracketed_AreParts :
      (rest before inside behind : Text) (d : ℕ)
      → b'[' ∷ rest ≡ before ++ b':' ∷ port
      → Lacks b':' port
      → rest ≡ inside ++ b']' ∷ d ∷ behind
      → Lacks b']' inside
      → length inside + 2 ≡ length before
      → Lacks b'[' rest
      → Lacks b']' (d ∷ behind)
      → inside ≡ host
      → AreParts host port
  bracketed_AreParts rest before inside behind d e colon f clean len opens closes same =
      let whole : (b'[' ∷ inside ++ b']' ∷ []) ++ d ∷ behind ≡ before ++ b':' ∷ port =
        simp append_assoc (sym (ap (◌∷◌ b'[') f) ∙ e) in
      let lens : length (b'[' ∷ inside ++ b']' ∷ []) ≡ length before =
        omega (arith, length-append inside (b']' ∷ [])) in
      let (_, tails) =
        append_inj (b'[' ∷ inside ++ b']' ∷ []) (d ∷ behind) before (b':' ∷ port) whole lens in
      let ports : behind ≡ port = cc in
      record {
        port_colon = colon;
        port_open = subst (Lacks b'[') ports (Lacks-append_right b'[' inside _ (rw f at opens)).1.1;
        port_close = subst (Lacks b']') ports closes.1;
        host_open = subst (Lacks b'[') same (Lacks-append_left b'[' inside _ (rw f at opens));
        host_close = subst (Lacks b']') same clean;
      }

  bracketed_sound :
      (rest before p : Text) (o : Option (Text × Text))
      → b'[' ∷ rest ≡ before ++ b':' ∷ p
      → Lacks b':' p
      → IsFirst b']' rest o
      → bracketed rest before p o ≡ ok (host, port)
      → AreParts host port
  unfolding bracketed
  bracketed_sound rest before p none e colon first h = cc
  bracketed_sound rest before p (some (inside, [])) e colon first h = cc
  bracketed_sound rest before p (some (inside, d ∷ behind)) e colon (f, clean) h =
      elim (Bool-cases (nat_eq (length inside + 2) (length before))) [
        | inl fits ↦
            let (opens, closes, same) =
              unbracketed_sound rest (d ∷ behind) (inside, p) host port (rw fits at h) in
            let ports : p ≡ port = ap (λ (q : Text × Text). q.1) same in
            bracketed_AreParts rest before inside behind d (rw ports at e) (rw ports at colon) f
              clean (ground arith) opens closes (ap (λ (q : Text × Text). q.0) same)
        | inr wrong ↦ absurd (ground arith)
      ]

  split_at_colon_sound :
      (s : Text) (o : Option (Text × Text))
      → IsLast b':' s o
      → split_at_colon s o ≡ ok (host, port)
      → AreParts host port
  unfolding split_at_colon
  split_at_colon_sound s none last h = cc
  split_at_colon_sound [] (some (before, p)) last h = cc
  split_at_colon_sound (c ∷ s) (some (before, p)) (e, colon) h = elim (Bool-cases (nat_eq c b'[')) [
    | inl opens ↦
        let is_open : c ≡ b'[' = ground arith in
        bracketed_sound s before p (split_first b']' s) (rw is_open at e) colon
          (split_first-IsFirst b']' s) (rw opens at h)
    | inr plain ↦ elim (Bool-cases (contains b':' before)) [
      | inl many ↦ absurd (ground arith)
      | inr single ↦
          let (opens, closes, same) =
            unbracketed_sound (c ∷ s) (c ∷ s) (before, p) host port (ground arith) in
          let hosts : before ≡ host = ap (λ (q : Text × Text). q.0) same in
          let ports : p ≡ port = ap (λ (q : Text × Text). q.1) same in
          plain_AreParts (c ∷ s) (cc) (rw ports at colon) opens closes
    ]
  ]

  pub split_host_port-AreParts :
      (s : Text) → split_host_port s ≡ ok (host, port) → AreParts host port
  unfolding split_host_port
  split_host_port-AreParts s h = split_at_colon_sound s _ (split_last-IsLast b':' s) h

first_plain :
    (host port : Text)
    → Lacks b'[' host
    → (c : ℕ) (s : Text) → c ∷ s ≡ host ++ b':' ∷ port
    → nat_eq c b'[' ≡ false
first_plain [] port h c s e = ground arith
first_plain (x ∷ host) port (n, h) c s e = ground arith

split_at_colon_plain :
    (s host port : Text)
    → s ≡ host ++ b':' ∷ port
    → AreParts host port
    → Lacks b':' host
    → split_at_colon s (some (host, port)) ≡ ok (host, port)
unfolding split_at_colon
split_at_colon_plain [] [] port e h colon = cc
split_at_colon_plain [] (x ∷ host) port e h colon = cc
split_at_colon_plain (c ∷ s) host port e h colon =
    let lacks = λ (b : ℕ) (n : b':' ≢ b) (p : Lacks b host) (q : Lacks b port).
      Lacks→contains b (c ∷ s) (subst (Lacks b) (sym e) (All-append _ host _ p (n, q))) in
    let no_open = lacks b'[' (omega arith) h.host_open h.port_open in
    let no_close = lacks b']' (omega arith) h.host_close h.port_close in
    ground (
      arith,
      first_plain host port h.host_open c s e,
      Lacks→contains b':' host colon,
      no_open,
      no_close,
    )

split_at_colon_bracketed :
    (host port : Text)
    → AreParts host port
    → split_at_colon (b'[' ∷ host ++ b']' ∷ b':' ∷ port) (some (b'[' ∷ host ++ b']' ∷ [], port))
      ≡ ok (host, port)
unfolding split_at_colon
split_at_colon_bracketed host port h =
    let no_open =
      Lacks→contains b'[' (host ++ b']' ∷ b':' ∷ port)
        (All-append _ host _ h.host_open (omega arith, (omega arith, h.port_open))) in
    let no_close = Lacks→contains b']' (b':' ∷ port) (omega arith, h.port_close) in
    rw (split_first-append b']' host (b':' ∷ port) h.host_close)
      (rw no_open (ground (arith, no_close, length-append host (b']' ∷ []))))

-- Splitting undoes joining, for parts that a split can give.
pub split_host_port-join_host_port :
    (host port : Text)
    → AreParts host port
    → split_host_port (join_host_port host port) ≡ ok (host, port)
unfolding split_host_port join_host_port
split_host_port-join_host_port host port h = elim (Bool-cases (contains b':' host)) [
  | inl v6 ↦
      let at_last : split_last b':' (b'[' ∷ host ++ b']' ∷ b':' ∷ port)
          ≡ some (b'[' ∷ host ++ b']' ∷ [], port) =
        simp (append_assoc) at
          (split_last-append b':' (b'[' ∷ host ++ b']' ∷ []) port h.port_colon) in
      rw v6 (rw at_last (split_at_colon_bracketed host port h))
  | inr plain ↦ rw plain (
      rw (split_last-append b':' host port h.port_colon)
        (split_at_colon_plain _ host port refl h (contains→Lacks b':' host plain)))
]
