-- ===== src/Aps/Tick.antt =====
-- libraries/xbee_ansic_library/src/wpan/wpan_aps.c: `wpan_tick`, which ends the conversations of
-- all endpoints whose time has come, and the response to a conversation whose endpoint is not
-- known. A device is its own `tick`, if it has one, and its endpoint table.
pub mod Kept
pub mod AllExpired
use xbeepocs.Base.{List, Option, Ret, einval, fail, get_or, length, none, some, suc, zero, ℕ}
use xbeepocs.Aps.{Envelope, Machine, Handlers, endpoint_expire_conversations, conversation_response}
use xbeepocs.Aps.Dispatch.{EndpointEntry, no_entry, endpoint_get_next, endpoint_match}

module _ {World : Type 0} (call : Handlers World) where
  -- The loop of `wpan_tick`, on fuel.
  unfoldable pub tick_from :
      (World → ℕ) → List EndpointEntry → ℕ → Option ℕ → Machine World → Machine World
  unfolding endpoint_get_next endpoint_expire_conversations
  tick_from seconds table zero ep m = m
  tick_from seconds table (suc n) ep m = elim (endpoint_get_next table ep) [
    | none ↦ m
    | some i ↦
        tick_from seconds table n (some i)
          (endpoint_expire_conversations call seconds (get_or table i no_entry).ep_state m)
  ]

  abbrev pub Ticker : Type 0
  Ticker = Option (Machine World → Ret × Machine World)

  abbrev pub device_tick : Ticker → Machine World → Ret × Machine World
  device_tick none m = (fail einval, m)
  device_tick (some tick) m = tick m

  unfoldable pub wpan_tick :
      (World → ℕ) → Option (Ticker × List EndpointEntry) → Machine World → Ret × Machine World
  unfolding tick_from
  wpan_tick seconds none m = (fail einval, m)
  wpan_tick seconds (some (tick, table)) m =
      let r = device_tick tick m in (r.0, tick_from seconds table (suc (length table)) none r.1)

  -- `wpan_conversation_response` with a state or without one. `none` is the read of the null
  -- pointer that an endpoint without a state has.
  unfoldable pub find_conversation :
      List EndpointEntry
      → Option ℕ
      → ℕ
      → Option Envelope
      → Machine World
      → Option (Ret × Machine World)
  unfolding conversation_response endpoint_match
  find_conversation table state transaction_id none m = some (fail einval, m)
  find_conversation table (some p) transaction_id (some e) m =
      some (conversation_response call p transaction_id (some e) m)
  find_conversation table none transaction_id (some e) m =
      elim (endpoint_match table e.dest_endpoint e.profile_id) [
        | none ↦ some (fail einval, m)
        | some entry ↦ elim entry.ep_state [
          | none ↦ none
          | some p ↦ some (conversation_response call p transaction_id (some e) m)
        ]
      ]
