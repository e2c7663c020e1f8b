-- ===== src/Aps/Tick/AllExpired.antt =====
-- wpan_aps.c: after `wpan_tick` no conversation is left whose time has come.
use xbeepocs.Base.{Bool, List, [], false, none, some, ℕ, ◌==◌, ◌||◌, ◌∷◌}
use xbeepocs.Aps.{Machine, Handlers, endpoint_expire_conversations}
use xbeepocs.Aps.Tick.Kept.{IsPassive}
use xbeepocs.Aps.Dispatch.{EndpointEntry}

-- Whether one of some endpoints has its state at a place.
unfoldable pub watches : ℕ → List EndpointEntry → Bool
watches p [] = false
watches p (e ∷ es) = elim e.ep_state [ none ↦ false | some q ↦ p == q ] || watches p es

module _ {World : Type 0} (call : Handlers World) (seconds : World → ℕ)
    (passive : IsPassive call seconds) where
  -- The conversations of some endpoints expire, one endpoint after the other.
  expire_all : List EndpointEntry → Machine World → Machine World
  unfolding endpoint_expire_conversations
  expire_all [] m = m
  expire_all (e ∷ es) m = expire_all es (endpoint_expire_conversations call seconds e.ep_state m)
