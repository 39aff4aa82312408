-- ===== src/Proxy/Serve.antt =====
-- compiledRoute.serve of proxy.go: the requests of one route, and the channel that limits them.
-- Every request runs in a goroutine of its own; the state tells where each of them stands, and how many
-- slots of the channel are taken. A step is one send, receive or return, in any order.
pub mod Bounded
pub mod Finishes
use in_proxy.Common.{
  ℕ, ◌+◌, ◌-◌, ◌<◌, ◌≡◌, Bool, true, false, List, [], ◌∷◌, ◌++◌, Option, none, some,
}

-- Where a request stands. In the select it waits for a slot or for the end of its context, which is
-- `cancelled` once the client has gone. It is `proxying` within ServeHTTP of the proxy, and `returned`
-- behind it, before the deferred receive.
pub data Client : Type 0 where
  selecting : (cancelled : Bool) → Client
  proxying : Client
  returned : Client
  served : Client
  given_up : Client

pub record Traffic : Type 0 where
  pub taken : ℕ
  pub clients : List Client

abbrev pub no_traffic : Traffic
no_traffic = record { taken = 0; clients = [] }

-- `limiter` is `none` for a nil channel, or its capacity.
module _ (limiter : Option ℕ) where
  -- What compiledRoute.serve does. `leave` is the deferred receive, which blocks on an empty channel.
  -- That ServeHTTP returns is no step of it: the backend may never answer.
  pub data Work (s : Traffic) : Traffic → Type 0 where
    pass :
        (before after : List Client) (cancelled : Bool)
        → limiter ≡ none
        → s.clients ≡ before ++ (selecting cancelled ∷ after)
        → Work s (record { taken = s.taken; clients = before ++ (proxying ∷ after) })
    enter :
        (before after : List Client) (cancelled : Bool) (capacity : ℕ)
        → limiter ≡ some capacity
        → s.taken < capacity
        → s.clients ≡ before ++ (selecting cancelled ∷ after)
        → Work s (record { taken = s.taken + 1; clients = before ++ (proxying ∷ after) })
    give_up :
        (before after : List Client) (capacity : ℕ)
        → limiter ≡ some capacity
        → s.clients ≡ before ++ (selecting true ∷ after)
        → Work s (record { taken = s.taken; clients = before ++ (given_up ∷ after) })
    return_free :
        (before after : List Client)
        → limiter ≡ none
        → s.clients ≡ before ++ (returned ∷ after)
        → Work s (record { taken = s.taken; clients = before ++ (served ∷ after) })
    leave :
        (before after : List Client) (capacity : ℕ)
        → limiter ≡ some capacity
        → 0 < s.taken
        → s.clients ≡ before ++ (returned ∷ after)
        → Work s (record { taken = s.taken - 1; clients = before ++ (served ∷ after) })

  -- What comes from outside: a request arrives, a client that waits goes away, and ServeHTTP returns,
  -- when the backend has answered or failed.
  pub data Step (s : Traffic) : Traffic → Type 0 where
    work : {t : Traffic} → Work s t → Step s t
    arrive : Step s (record { taken = s.taken; clients = selecting false ∷ s.clients })
    disconnect :
        (before after : List Client)
        → s.clients ≡ before ++ (selecting false ∷ after)
        → Step s (record { taken = s.taken; clients = before ++ (selecting true ∷ after) })
    answer :
        (before after : List Client)
        → s.clients ≡ before ++ (proxying ∷ after)
        → Step s (record { taken = s.taken; clients = before ++ (returned ∷ after) })

  pub data Reach : Traffic → Type 0 where
    start : Reach no_traffic
    later : {s t : Traffic} → Reach s → Step s t → Reach t

  -- A number of steps of the program alone.
  pub data Works (s : Traffic) : ℕ → Traffic → Type 0 where
    rest : Works s 0 s
    more : {n : ℕ} {t u : Traffic} → Works s n t → Work t u → Works s (n + 1) u
