-- ===== src/Examples/Relays.antt =====
-- A connection of a TCP forward from its first byte to its end, and the end of an SNI listener.
use in_proxy.Common.{
  ℕ, ◌+◌, ◌*◌, All, ◌≤◌, ◌≡◌, ◌⊎◌, refl, inl, inr, true, false, List, [], ◌∷◌, ◌++◌, none, some,
  length, arith,
}
use in_proxy.Text.{codes, has_prefix, trim_prefix}
use in_proxy.Config.{Forward}
use in_proxy.DomainRouter.Header.{proxy_header}
use in_proxy.Relay.{
  told, Relay, opened, start, copy, at_end, close_write, tell, send, finish, Work, go_up, go_down,
  receive, close, work, befall_up, befall_down, Reach, here, later, Works, rest, more,
}
use in_proxy.Relay.Finishes.{relay_terminates}
use in_proxy.DomainRouter.Header.Given.{IsGiven}
use in_proxy.Forwarder.Tcp.{relaying, handle_tcp, handle_tcp_lem}
use in_proxy.Common.Sums.{total}
use in_proxy.Routing.{accept}
use in_proxy.DomainRouter.Accepting
use in_proxy.DomainRouter.Accepting.{
  peeking, offering, handed, hung_up, SniListener, new_sni_listener, decide, hand, hang_up,
  leave_loop, connect, call,
}
use in_proxy.DomainRouter.Accepting.Released.{is_handed, is_over, done_releases}
use in_proxy.Examples.Configs.{ssh}
use in_proxy.Examples.Listeners.{client, server, sni_of, passes}
use in_proxy.DomainRouter.Replay.{peek_all, cut, peeked}
use in_proxy.DomainRouter.Sni.{spliced, handle, splice_to, handle_spliced}

-- The forward with the header in front.
abbrev announcing : Forward
announcing = record ssh { proxy_proto = true }

-- The header of the connection from 203.0.113.9:51234 to 10.8.0.1:993.
abbrev header : List ℕ
header =
    13 ∷ 10 ∷ 13 ∷ 10 ∷ 0 ∷ 13 ∷ 10 ∷ 81 ∷ 85 ∷ 73 ∷ 84 ∷ 10 ∷ 33 ∷ 17 ∷ 0 ∷ 12 ∷ 203 ∷ 0 ∷ 113 ∷ 9
    ∷ 10 ∷ 8 ∷ 0 ∷ 1 ∷ 200 ∷ 34 ∷ 3 ∷ 225 ∷ []

begins :
    handle_tcp (λ t. none) (λ h. none) announcing (some client) (some server)
    ≡ relaying (start header)
unfolding handle_tcp proxy_header has_prefix trim_prefix
begins = refl

-- The client has sent two bytes, and both ends have closed their sides.
abbrev ended : List ℕ → Relay
ended first = record {
  up = record (opened first) { sent = codes "hi"; unread = codes "hi"; ended = true };
  down = record (opened []) { ended = true };
  received = 0;
  closed = false;
}

ended_Reach : (first : List ℕ) → Reach (start first) (ended first)
ended_Reach first =
    later
      (later (later here (befall_up refl (send (codes "hi") refl))) (befall_up refl (finish refl)))
      (befall_down refl (finish refl))

abbrev over : List ℕ → Relay
over first = record {
  up = record {
    sent = codes "hi";
    unread = [];
    written = first ++ codes "hi";
    ended = true;
    broken = false;
    phase = told;
  };
  down = record (opened []) { ended = true; phase = told };
  received = 2;
  closed = true;
}

runs : (first : List ℕ) → Works (ended first) 10 (over first)
runs first =
    more
      (more
        (more
          (more
            (more
              (more
                (more
                  (more
                    (more (more rest (go_up refl (copy 104 (105 ∷ []) [] refl refl)))
                      (go_up refl (at_end refl refl refl)))
                    (go_down refl (at_end refl refl refl)))
                  (go_down refl (close_write refl)))
                (go_down refl (tell refl)))
              (receive (omega arith)))
            (go_up refl (close_write refl)))
          (go_up refl (tell refl)))
        (receive (omega arith)))
      (close refl refl)

Works-Reach : {r s t : Relay} {n : ℕ} → Reach r s → Works s n t → Reach r t
Works-Reach rs rest = rs
Works-Reach rs (more ws w) = later (Works-Reach rs ws) (work w)

handle_tcp_lem_example :
    IsGiven true client server (header ++ codes "hi") (codes "hi")
    × ((over header).up.ended ≡ true)
    × ((over header).down.written ≡ (over header).down.sent)
    × ((over header).down.ended ≡ true)
handle_tcp_lem_example =
    handle_tcp_lem (λ t. none) (λ h. none) announcing client server (start header) (over header)
      (inl refl) (inr refl) (omega arith) (omega arith) begins
      (Works-Reach (ended_Reach header) (runs header)) refl refl refl

relay_terminates_example :
    (10 ≤ length (ended header).up.unread + length (ended header).down.unread + 9)
    × (((over header).closed ≡ true) ⊎ ((u : Relay) × Work (over header) u))
relay_terminates_example =
    relay_terminates header 10 (ended header) (over header) (ended_Reach header) (refl, refl)
      (runs header)

-- A connection whose peeking has read five bytes of seven.
abbrev behind_peek : List ℕ
behind_peek = header ++ codes "hello"

passed_on :
    handle passes sni_of
      (λ t. none)
      (λ h. none)
      (some client)
      (some server)
      true
      (5 ∷ [])
      (codes "hellohi")
    ≡ spliced (codes "10.8.0.60:18443") (start behind_peek)
unfolding handle splice_to proxy_header has_prefix trim_prefix peek_all cut
passed_on = refl

left_unread : codes "hi" ≡ (peeked (5 ∷ []) (codes "hellohi")).conn
unfolding peek_all cut
left_unread = refl

handle_spliced_example :
    (codes "10.8.0.60:18443" ≡ codes "10.8.0.60:18443")
    × IsGiven true client server (behind_peek ++ codes "hi") (codes "hellohi")
    × ((over behind_peek).down.written ≡ (over behind_peek).down.sent)
handle_spliced_example =
    handle_spliced passes sni_of (λ t. none) (λ h. none) true (5 ∷ []) (codes "hellohi") client
      server (codes "10.8.0.60:18443") (codes "10.8.0.60:18443") true (start behind_peek)
      (over behind_peek) refl (inl refl) (inr refl) (omega arith) (omega arith) passed_on
      (Works-Reach (ended_Reach behind_peek) (runs behind_peek)) refl refl refl left_unread

-- Two connections, of which one is offered, and one call of Accept, when the listener is closed.
abbrev closing : SniListener
closing = record {
  opened = false;
  looping = true;
  done = true;
  conns = peeking ∷ offering ∷ [];
  calls = 1;
  waiting = 1;
  refused = 0;
}

closing_Reach : Accepting.Reach closing
closing_Reach =
    Accepting.later
      (Accepting.later
        (Accepting.later
          (Accepting.later (Accepting.later Accepting.start (connect refl refl))
            (Accepting.work (decide [] [] accept refl)))
          (connect refl refl))
        call)
      Accepting.close

abbrev released : SniListener
released = record closing { looping = false; conns = hung_up ∷ handed ∷ []; waiting = 0 }

releases : Accepting.Works closing 4 released
releases =
    Accepting.more
      (Accepting.more
        (Accepting.more (Accepting.more Accepting.rest (hand (peeking ∷ []) [] (omega arith) refl))
          (decide [] (handed ∷ []) accept refl))
        (hang_up [] (handed ∷ []) refl refl))
      (leave_loop refl refl)

done_releases_example :
    (4 ≤ 2 * length closing.conns + closing.waiting + 1)
    × ((All (λ c. is_over c ≡ true) released.conns
          × (total is_handed released.conns + released.refused ≡ released.calls))
        ⊎ ((l : SniListener) × Accepting.Work released l))
done_releases_example = done_releases 4 closing released closing_Reach refl releases
