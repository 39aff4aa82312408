-- ===== src/DomainRouter/Accepting.antt =====
-- The SNI listener of domains.go with its goroutines: the loop that accepts, the goroutine of each
-- connection, and the callers of Accept, with Close. A step is one action, in any order.
pub mod Released
use in_proxy.Common.{ℕ, ◌+◌, ◌-◌, ◌<◌, ◌≡◌, Bool, true, false, List, [], ◌∷◌, ◌++◌}
use in_proxy.Routing.{SniDecision, accept, passthrough, drop}

-- Where the goroutine of a connection stands: in peeking; in the select, offering the connection;
-- or it has left the connection to spliceTo, closed it, given it to a caller of Accept, or closed it
-- as the listener is done.
pub data Conn : Type 0 where
  peeking offering passed dropped handed hung_up : Conn

-- `opened`: the wrapped listener has not been closed. `looping`: the loop accepts. `calls` counts the
-- calls of Accept, `waiting` those that have not returned, and `refused` those that gave ErrClosed.
pub record SniListener : Type 0 where
  pub opened : Bool
  pub looping : Bool
  pub done : Bool
  pub conns : List Conn
  pub calls : ℕ
  pub waiting : ℕ
  pub refused : ℕ

-- newSNIListener
abbrev pub new_sni_listener : SniListener
new_sni_listener = record {
  opened = true;
  looping = true;
  done = false;
  conns = [];
  calls = 0;
  waiting = 0;
  refused = 0;
}

-- The switch on the decision.
abbrev pub choose : SniDecision → Conn
choose accept = offering
choose (passthrough target pp) = passed
choose drop = dropped

-- What the program does. The decision is what the tables give at the time.
pub data Work (l : SniListener) : SniListener → Type 0 where
  decide :
      (before after : List Conn) (d : SniDecision)
      → l.conns ≡ before ++ (peeking ∷ after)
      → Work l (record l { conns = before ++ (choose d ∷ after) })
  hand :
      (before after : List Conn)
      → 0 < l.waiting
      → l.conns ≡ before ++ (offering ∷ after)
      → Work l (record l { conns = before ++ (handed ∷ after); waiting = l.waiting - 1 })
  hang_up :
      (before after : List Conn)
      → l.done ≡ true
      → l.conns ≡ before ++ (offering ∷ after)
      → Work l (record l { conns = before ++ (hung_up ∷ after) })
  refuse :
      0 < l.waiting
      → l.done ≡ true
      → Work l (record l { waiting = l.waiting - 1; refused = l.refused + 1 })
  leave_loop :
      l.looping ≡ true → l.opened ≡ false → Work l (record l { looping = false; done = true })

-- What the network and the users of the listener do: a client connects, the wrapped Accept fails, Accept
-- is called, and Close.
pub data Step (l : SniListener) : SniListener → Type 0 where
  work : {m : SniListener} → Work l m → Step l m
  connect : l.opened ≡ true → l.looping ≡ true → Step l (record l { conns = peeking ∷ l.conns })
  fail : l.looping ≡ true → Step l (record l { looping = false; done = true })
  call : Step l (record l { calls = l.calls + 1; waiting = l.waiting + 1 })
  close : Step l (record l { opened = false; done = true })

pub data Reach : SniListener → Type 0 where
  start : Reach new_sni_listener
  later : {l m : SniListener} → Reach l → Step l m → Reach m

-- A number of steps of the program alone.
pub data Works (l : SniListener) : ℕ → SniListener → Type 0 where
  rest : Works l 0 l
  more : {n : ℕ} {m k : SniListener} → Works l n m → Work m k → Works l (n + 1) k
