-- ===== src/Admin/Gates/InForce.antt =====
-- What is configured stays in force over requests to the admin page that come one after the other.
use in_proxy.Common.{ℕ, sym, subst, inl, inr, List, [], ◌∷◌, map}
use in_proxy.Store.{Io, written}
use in_proxy.Process.{Process}
use in_proxy.Process.Follows.{Follows, perform-Follows}
use in_proxy.Process.InForce.{IsInForce, Follows-IsInForce}
use in_proxy.Admin.{Request, Setup}
use in_proxy.Admin.Handlers.{handle}
use in_proxy.Admin.Gates.{handle-authorized}

module _ {Network Address : Type 0} (setup : Setup Network Address) where
  -- Requests of which each begins when the one before it has ended, with the time of each and what the
  -- file system does with a write. (net/http serves requests at the same time, too: their edits and
  -- the calls of the listeners then interleave as in Process/Races.)
  pub handle_in_turn : List (Io × ℕ × Request) → Process → Process
  handle_in_turn [] p = p
  handle_in_turn ((io, now, req) ∷ reqs) p = handle_in_turn reqs (handle setup io now req p).1

  handle-Follows :
      (now : ℕ) (req : Request) (p : Process)
      → Follows setup.world p
      → Follows setup.world (handle setup written now req p).1
  handle-Follows now req p f = elim (handle-authorized setup written now req p) [
    | inl same ↦ subst (Follows setup.world) (sym same) f
    | inr (edit, allowed, valid, sent, form, done) ↦
        subst (Follows setup.world) (sym done) (perform-Follows setup.world edit p f)
  ]

  handle_in_turn-Follows :
      (reqs : List (ℕ × Request)) (p : Process)
      → Follows setup.world p
      → Follows setup.world (handle_in_turn (map (λ (r : ℕ × Request). (written, r.0, r.1)) reqs) p)
  unfolding handle_in_turn
  handle_in_turn-Follows [] p f = f
  handle_in_turn-Follows ((now, req) ∷ reqs) p f =
      handle_in_turn-Follows reqs (handle setup written now req p).1 (handle-Follows now req p f)

  pub handle_in_turn-IsInForce :
      (reqs : List (ℕ × Request)) (p : Process)
      → Follows setup.world p
      → IsInForce setup.world
          (handle_in_turn (map (λ (r : ℕ × Request). (written, r.0, r.1)) reqs) p)
  handle_in_turn-IsInForce reqs p f =
      Follows-IsInForce setup.world
        (handle_in_turn (map (λ (r : ℕ × Request). (written, r.0, r.1)) reqs) p)
        (handle_in_turn-Follows reqs p f)
