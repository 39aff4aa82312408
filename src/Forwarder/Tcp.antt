-- ===== src/Forwarder/Tcp.antt =====
-- handleTCP of forward.go: what becomes of an accepted connection of a TCP forward.
use in_proxy.Common.{
  ℕ, ◌≤◌, ◌≡◌, refl, sym, ◌∙◌, inl, inr, true, false, List, [], Option, none, some, if◌then◌else◌,
  arith, subst, ◌≢◌, Option-cases, Bool-cases,
}
use in_proxy.Text.{Text}
use in_proxy.Config.{Forward}
use in_proxy.DomainRouter.Header.{TcpAddr, proxy_header}
use in_proxy.DomainRouter.Header.Reader.{IsIp, proxy_header_read}
use in_proxy.DomainRouter.Header.Given.{IsGiven, IsBegun, begun-IsGiven}
use in_proxy.Relay.{Relay, start, Reach}
use in_proxy.Relay.Copied.{closed-IsWhole, unbroken}

-- The backend is not reached, or does not take the header: what is open is closed. Or the copying
-- begins.
pub data Handled : Type 0 where
  undialled unannounced : Handled
  relaying : Relay → Handled

announced : (List ℕ → Option Text) → Option (List ℕ) → Handled
announced write none = relaying (start [])
announced write (some h) = elim (write h) [ some e ↦ unannounced | none ↦ relaying (start h) ]

-- `dial` gives the error of connecting to an address, if there is one, and `write` that of writing to
-- the backend; the addresses are those of the client and of the listener.
unfoldable pub handle_tcp :
    (Text → Option Text)
    → (List ℕ → Option Text)
    → Forward
    → Option TcpAddr
    → Option TcpAddr
    → Handled
unfolding announced
handle_tcp dial write fwd src dst =
    let sent = announced write (proxy_header src dst) in
    elim (dial fwd.target) [
      | some e ↦ undialled
      | none ↦ if fwd.proxy_proto then sent else relaying (start [])
    ]

module _ (dial : Text → Option Text) (write : List ℕ → Option Text) (fwd : Forward)
    (s d : TcpAddr) where
  undialled≢relaying : (r : Relay) → undialled ≢ relaying r
  undialled≢relaying r e = ground arith

  handle_tcp-IsBegun :
      (r : Relay)
      → handle_tcp dial write fwd (some s) (some d) ≡ relaying r
      → (h : List ℕ) → proxy_header (some s) (some d) ≡ some h
      → (first : List ℕ) × (r ≡ start first) × IsBegun fwd.proxy_proto s d first
  unfolding handle_tcp announced
  handle_tcp-IsBegun r e h made = elim (Option-cases (dial fwd.target)) [
    | inr (bad, failed) ↦ absurd (undialled≢relaying r (sym (rw (failed, handle_tcp) refl) ∙ e))
    | inl good ↦ elim (Bool-cases fwd.proxy_proto) [
      | inr plain ↦
          let k : handle_tcp dial write fwd (some s) (some d) ≡ relaying (start []) =
            rw (good, handle_tcp) (rw plain refl) in
          let same : r ≡ start [] = cc in ([], same, rw plain refl)
      | inl header ↦ elim (Option-cases (write h)) [
        | inr (bad, failed) ↦
            let k : handle_tcp dial write fwd (some s) (some d) ≡ unannounced =
              rw (good, handle_tcp)
                (rw header (rw (made, announced) (rw (failed, announced) refl))) in
            absurd (cc)
        | inl taken ↦
            let k : handle_tcp dial write fwd (some s) (some d) ≡ relaying (start h) =
              rw (good, handle_tcp)
                (rw header (rw (made, announced) (rw (taken, announced) refl))) in
            let same : r ≡ start h = cc in (h, same, rw header made)
      ]
    ]
  ]

  -- A connection between TCP addresses with an IP of 4 or 16 bytes and ports of 16 bits, for which the
  -- copying began: in every execution, once the connections are closed and neither way broke, the
  -- backend has got all that the client sent until it ended, behind a header that announces the two
  -- addresses if the forward asks for one, and the client all that the backend sent until it ended.
  pub handle_tcp_lem :
      (begun r : Relay)
      → IsIp s.ip
      → IsIp d.ip
      → s.port ≤ 65535
      → d.port ≤ 65535
      → handle_tcp dial write fwd (some s) (some d) ≡ relaying begun
      → Reach begun r
      → r.closed ≡ true
      → r.up.broken ≡ false
      → r.down.broken ≡ false
      → IsGiven fwd.proxy_proto s d r.up.written r.up.sent
        × (r.up.ended ≡ true)
        × (r.down.written ≡ r.down.sent)
        × (r.down.ended ≡ true)
  handle_tcp_lem begun r vs vd hp hq e rs shut_down up_whole down_whole =
      let (h, made, read_back) = proxy_header_read s d r.up.sent vs vd hp hq in
      let (first, same, is_begun) = handle_tcp-IsBegun begun e h made in
      let (up, down) = closed-IsWhole first r (subst (λ q. Reach q r) same rs) shut_down in
      let (up_all, up_ended) = unbroken first r.up up up_whole in
      let (down_all, down_ended) = unbroken [] r.down down down_whole in
      (
        begun-IsGiven fwd.proxy_proto s d first h r.up.written r.up.sent is_begun made read_back
            up_all,
        up_ended,
        down_all,
        down_ended,
      )
