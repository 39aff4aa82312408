-- ===== src/Relay.antt =====
-- The copying between a client and a backend, as handleTCP of forward.go and spliceTo of domains.go do
-- it alike: two goroutines that copy one way each, and the caller, which waits for both and closes.
-- A step is one action of one of them, or of one of the two ends, in any order.
pub mod Copied
pub mod Finishes
use in_proxy.Common.{ℕ, ◌+◌, ◌<◌, ◌≡◌, Bool, true, false, List, [], ◌∷◌, ◌++◌}

-- Where a goroutine stands: in io.Copy, behind it, behind CloseWrite, and behind the send on `done`.
pub data Phase : Type 0 where
  copying copied shut told : Phase

-- One way. `sent` are all the bytes that the source has sent since the copying began, and `unread`
-- those that are not written on; `ended` tells whether the source has closed its side, `broken`
-- whether io.Copy has ended in an error.
pub record Pipe : Type 0 where
  pub sent : List ℕ
  pub unread : List ℕ
  pub written : List ℕ
  pub ended : Bool
  pub broken : Bool
  pub phase : Phase

-- `up` leads to the backend, and `received` counts what the caller has taken from `done`.
pub record Relay : Type 0 where
  pub up : Pipe
  pub down : Pipe
  pub received : ℕ
  pub closed : Bool

abbrev pub opened : List ℕ → Pipe
opened first = record {
  sent = [];
  unread = [];
  written = first;
  ended = false;
  broken = false;
  phase = copying;
}

-- The backend has been given some bytes before the copying begins.
abbrev pub start : List ℕ → Relay
start first = record { up = opened first; down = opened []; received = 0; closed = false }

-- What a goroutine does.
pub data Copy (p : Pipe) : Pipe → Type 0 where
  copy :
      (b : ℕ) (bytes rest : List ℕ)
      → p.phase ≡ copying
      → p.unread ≡ (b ∷ bytes) ++ rest
      → Copy p (record p { unread = rest; written = p.written ++ (b ∷ bytes) })
  at_end : p.phase ≡ copying → p.unread ≡ [] → p.ended ≡ true → Copy p (record p { phase = copied })
  close_write : p.phase ≡ copied → Copy p (record p { phase = shut })
  tell : p.phase ≡ shut → Copy p (record p { phase = told })

-- What may befall it: the source sends or closes its side, or a read or a write fails, the latter
-- behind a part of the bytes.
pub data Befall (p : Pipe) : Pipe → Type 0 where
  send :
      (bytes : List ℕ)
      → p.ended ≡ false
      → Befall p (record p { sent = p.sent ++ bytes; unread = p.unread ++ bytes })
  finish : p.ended ≡ false → Befall p (record p { ended = true })
  fail :
      (bytes rest : List ℕ)
      → p.phase ≡ copying
      → p.unread ≡ bytes ++ rest
      → Befall p
          (record p { unread = rest; written = p.written ++ bytes; broken = true; phase = copied })

-- How many sends on `done` a goroutine has made.
abbrev pub sends : Phase → ℕ
sends copying = 0
sends copied = 0
sends shut = 0
sends told = 1

-- What the program does.
pub data Work (r : Relay) : Relay → Type 0 where
  go_up : {p : Pipe} → r.closed ≡ false → Copy r.up p → Work r (record r { up = p })
  go_down : {p : Pipe} → r.closed ≡ false → Copy r.down p → Work r (record r { down = p })
  receive :
      r.received < sends r.up.phase + sends r.down.phase
      → Work r (record r { received = r.received + 1 })
  close : r.closed ≡ false → r.received ≡ 2 → Work r (record r { closed = true })

pub data Step (r : Relay) : Relay → Type 0 where
  work : {q : Relay} → Work r q → Step r q
  befall_up : {p : Pipe} → r.closed ≡ false → Befall r.up p → Step r (record r { up = p })
  befall_down : {p : Pipe} → r.closed ≡ false → Befall r.down p → Step r (record r { down = p })

pub data Reach (r : Relay) : Relay → Type 0 where
  here : Reach r r
  later : {q t : Relay} → Reach r q → Step q t → Reach r t

-- A number of steps of the program alone.
pub data Works (r : Relay) : ℕ → Relay → Type 0 where
  rest : Works r 0 r
  more : {n : ℕ} {q t : Relay} → Works r n q → Work q t → Works r (n + 1) t
