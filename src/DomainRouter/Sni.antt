-- ===== src/DomainRouter/Sni.antt =====
-- What becomes of a connection to the SNI listener: `handle` and spliceTo of domains.go.
use in_proxy.Common.{
  ℕ, ◌≤◌, ◌≡◌, refl, sym, ap, ◌∙◌, Bool, true, false, List, [], ◌∷◌, ◌++◌, subst, append_assoc,
  Option, none, some, if◌then◌else◌, arith, Bool-cases, Option-cases, inl, inr, ◌⊎◌,
}
use in_proxy.Text.{Text}
use in_proxy.Routing.{SniDecision, accept, passthrough, drop}
use in_proxy.DomainRouter.Header.{TcpAddr, proxy_header}
use in_proxy.DomainRouter.Header.Reader.{IsIp, proxy_header_read}
use in_proxy.DomainRouter.Header.Given.{IsGiven, IsBegun, begun-IsGiven}
use in_proxy.Relay.{Relay, start, Reach}
use in_proxy.Relay.Copied.{closed-IsWhole, unbroken}
use in_proxy.DomainRouter.Replay.{
  PeekConn, PrefixConn, peeked, peeked-whole, read_all, left, cut, read_all-left,
}

-- The backend is not reached, or a write to it fails before the copying; the connection is closed;
-- the copying begins, with the backend at the address; Accept returns the connection.
pub data Fate : Type 0 where
  undialled unwritten closed : Fate
  spliced : Text → Relay → Fate
  ready : PrefixConn → Fate

or_nothing : Option (List ℕ) → List ℕ
or_nothing none = []
or_nothing (some h) = h

-- A write of some bytes, if there are any, and what follows it.
abbrev and_write : (List ℕ → Option Text) → List ℕ → Fate → Fate
and_write write [] next = next
and_write write (b ∷ bytes) next = elim (write (b ∷ bytes)) [ some e ↦ unwritten | none ↦ next ]

-- `dial` gives the error of connecting to the backend, if there is one, and `write` that of writing to
-- it. What the peeking has not read is left to the copying.
unfoldable pub splice_to :
    (Text → Option Text)
    → (List ℕ → Option Text)
    → Option TcpAddr
    → Option TcpAddr
    → List ℕ
    → Text
    → Bool
    → Fate
unfolding or_nothing
splice_to dial write src dst recorded target send_proxy =
    let header = if send_proxy then or_nothing (proxy_header src dst) else [] in
    elim (dial target) [
      | some e ↦ undialled
      | none ↦
          and_write write header
            (and_write write recorded (spliced target (start (header ++ recorded))))
    ]

-- `listening`: the listener has not been closed.
dispatch :
    SniDecision
    → (Text → Option Text)
    → (List ℕ → Option Text)
    → Option TcpAddr
    → Option TcpAddr
    → Bool
    → PeekConn
    → Fate
unfolding splice_to
dispatch accept dial write src dst listening c =
    if listening then ready (record { prefix = c.recorded; off = 0; conn = c.conn }) else closed
dispatch (passthrough target pp) dial write src dst listening c =
    splice_to dial write src dst c.recorded target pp
dispatch drop dial write src dst listening c = closed

-- `sni_of` is the name that the TLS library finds in the bytes, and `ks` the sizes of its reads.
unfoldable pub handle :
    (Text → SniDecision)
    → (List ℕ → Text)
    → (Text → Option Text)
    → (List ℕ → Option Text)
    → Option TcpAddr
    → Option TcpAddr
    → Bool
    → List ℕ
    → List ℕ
    → Fate
unfolding dispatch
handle decide sni_of dial write src dst listening ks stream =
    let c = peeked ks stream in dispatch (decide (sni_of c.recorded)) dial write src dst listening c

module _ (decide : Text → SniDecision) (sni_of : List ℕ → Text) (dial : Text → Option Text)
    (write : List ℕ → Option Text) (listening : Bool) (ks stream : List ℕ) where
  and_write-cases :
      (bytes : List ℕ) (next : Fate)
      → (and_write write bytes next ≡ unwritten) ⊎ (and_write write bytes next ≡ next)
  and_write-cases [] next = inr refl
  and_write-cases (b ∷ bytes) next = elim (Option-cases (write (b ∷ bytes))) [
    | inl taken ↦ inr (rw (taken, and_write) refl)
    | inr (bad, failed) ↦ inl (rw (failed, and_write) refl)
  ]

  -- The backend is not reached, a write fails, or the copying begins behind what was written.
  splice_to-cases :
      (src dst : Option TcpAddr) (recorded : List ℕ) (target : Text) (pp : Bool)
      → let fate = splice_to dial write src dst recorded target pp in
        (fate ≡ undialled)
        ⊎ ((fate ≡ unwritten)
            ⊎ (fate
                ≡ spliced target
                    (start ((if pp then or_nothing (proxy_header src dst) else []) ++ recorded))))
  unfolding splice_to or_nothing
  splice_to-cases src dst recorded target pp =
      let header = if pp then or_nothing (proxy_header src dst) else [] in
      let begun = spliced target (start (header ++ recorded)) in
      let second = and_write write recorded begun in
      elim (Option-cases (dial target)) [
        | inr (bad, failed) ↦ inl (rw (failed, splice_to) refl)
        | inl good ↦
            let k : splice_to dial write src dst recorded target pp
                ≡ and_write write header second =
              rw (good, splice_to) refl in
            elim (and_write-cases header second) [
              | inl cut_short ↦ inr (inl (k ∙ cut_short))
              | inr taken ↦ elim (and_write-cases recorded begun) [
                | inl cut_short ↦ inr (inl (k ∙ taken ∙ cut_short))
                | inr taken_too ↦ inr (inr (k ∙ taken ∙ taken_too))
              ]
            ]
      ]

  dispatch-ready :
      (choice : SniDecision) (src dst : Option TcpAddr) (c : PeekConn) (pc : PrefixConn)
      → dispatch choice dial write src dst listening c ≡ ready pc
      → record { prefix = c.recorded; off = 0; conn = c.conn } ≡ pc
  unfolding dispatch
  dispatch-ready accept src dst c pc h = elim (Bool-cases listening) [
    | inl open_still ↦ ground arith
    | inr shut ↦ absurd (ground arith)
  ]
  dispatch-ready (passthrough target pp) src dst c pc h =
      elim (splice_to-cases src dst c.recorded target pp) [
        | inl bad ↦ absurd (cc)
        | inr (inl bad) ↦ absurd (cc)
        | inr (inr begun) ↦ absurd (cc)
      ]
  dispatch-ready drop src dst c pc h = cc

  -- Whoever accepts a connection reads what the client sent from its start: whatever the sizes of the
  -- reads, here and in peeking, what they give and what is left to read make up the stream.
  pub handle_ready :
      (src dst : Option TcpAddr) (pc : PrefixConn) (reads : List (ℕ × ℕ))
      → handle decide sni_of dial write src dst listening ks stream ≡ ready pc
      → (read_all reads pc).0 ++ left (read_all reads pc).1 ≡ stream
  unfolding handle left cut
  handle_ready src dst pc reads h =
      let c = peeked ks stream in
      let whole = dispatch-ready (decide (sni_of c.recorded)) src dst c pc h in
      read_all-left reads pc ∙ sym (ap left whole) ∙ peeked-whole ks stream

  splice_to-spliced :
      (s d : TcpAddr) (recorded h : List ℕ) (target address : Text) (pp : Bool) (r : Relay)
      → proxy_header (some s) (some d) ≡ some h
      → splice_to dial write (some s) (some d) recorded target pp ≡ spliced address r
      → (first : List ℕ) × (address ≡ target)
        × (r ≡ start (first ++ recorded))
        × IsBegun pp s d first
  unfolding or_nothing
  splice_to-spliced s d recorded h target address false r made e =
      elim (splice_to-cases (some s) (some d) recorded target false) [
        | inl bad ↦ absurd (cc)
        | inr (inl bad) ↦ absurd (cc)
        | inr (inr begun) ↦ ([], cc, cc, refl)
      ]
  splice_to-spliced s d recorded h target address true r made e =
      elim (splice_to-cases (some s) (some d) recorded target true) [
        | inl bad ↦ absurd (cc)
        | inr (inl bad) ↦ absurd (cc)
        | inr (inr begun) ↦
            let k : splice_to dial write (some s) (some d) recorded target true
                ≡ spliced target (start (h ++ recorded)) =
              begun ∙ ap (λ o. spliced target (start (or_nothing o ++ recorded))) made in
            (h, cc, cc, made)
      ]

  -- A connection between TCP addresses with an IP of 4 or 16 bytes and ports of 16 bits that is to be
  -- passed through, and for which the copying began: in every execution, once the connections are
  -- closed and neither way broke, and what the client sent since is what the peeking had left of its
  -- stream: the backend of the decision has got the stream from its start, behind a header that
  -- announces the two addresses if it is to have one, and the client all that the backend sent.
  pub handle_spliced :
      (s d : TcpAddr) (target address : Text) (pp : Bool) (begun r : Relay)
      → decide (sni_of (peeked ks stream).recorded) ≡ passthrough target pp
      → IsIp s.ip
      → IsIp d.ip
      → s.port ≤ 65535
      → d.port ≤ 65535
      → handle decide sni_of dial write (some s) (some d) listening ks stream
        ≡ spliced address begun
      → Reach begun r
      → r.closed ≡ true
      → r.up.broken ≡ false
      → r.down.broken ≡ false
      → r.up.sent ≡ (peeked ks stream).conn
      → (address ≡ target) × IsGiven pp s d r.up.written stream × (r.down.written ≡ r.down.sent)
  unfolding handle dispatch
  handle_spliced s d target address pp begun r chosen vs vd hp hq e rs shut_down up_fine down_fine
        rest =
      let c = peeked ks stream in
      let (h, made, read_back) = proxy_header_read s d stream vs vd hp hq in
      let (first, there, same, is_begun) =
        splice_to-spliced s d c.recorded h target address pp begun made (rw chosen at e) in
      let (up, down) =
        closed-IsWhole (first ++ c.recorded) r (subst (λ q. Reach q r) same rs) shut_down in
      let up_all = (unbroken (first ++ c.recorded) r.up up up_fine).0 in
      let whole : r.up.written ≡ first ++ stream =
        up_all
        ∙ ap (λ t. (first ++ c.recorded) ++ t) rest
        ∙ append_assoc first c.recorded c.conn
        ∙ ap (λ t. first ++ t) (peeked-whole ks stream) in
      (
        there,
        begun-IsGiven pp s d first h r.up.written stream is_begun made read_back whole,
        (unbroken [] r.down down down_fine).0,
      )
