-- ===== src/Forwarder/Fed.antt =====
-- What the store feeds to the forwarder has distinct names.
use in_proxy.Common.{◌≢◌, List, [], ◌∷◌, Distinct, All-weaken, Pairwise}
use in_proxy.Config.{Forward}
use in_proxy.Store.Forwards
use in_proxy.Forwarder.Started.{by_name}

pub Distinct-by_name :
    (fws : List Forward) → Pairwise Forwards.Unique.Apart fws → Distinct by_name fws
Distinct-by_name [] h = tt
Distinct-by_name (fw ∷ fws) (apart, h) = (
  All-weaken (Forwards.Unique.Apart fw) (λ e. fw.name ≢ by_name e) (λ e a. a.names) fws apart,
  Distinct-by_name fws h,
)
