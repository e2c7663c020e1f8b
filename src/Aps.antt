-- ===== src/Aps.antt =====
-- libraries/xbee_ansic_library/src/wpan/wpan_aps.c: endpoints, and the conversations that wait for
-- a response. Handlers are numbers, and what they do is a parameter; a pointer to the state of an
-- endpoint is an index of `states`.
pub mod Deadlines
pub mod Register
pub mod Expire
pub mod Dispatch
pub mod Replies
pub mod Tick
mod Tests
use xbeepocs.Base.{
  Bool, List, Option, Ret, [], einval, enospc, fail, false, get_or, if◌then◌else◌, ltb, none, not,
  ret, set, some, suc, true, u16, u8, zero, ℕ, ◌&&◌, ◌+◌, ◌-◌, ◌==◌, ◌^◌, ◌∷◌,
}

pub record Conversation : Type 0 where
  pub transaction_id : ℕ
  pub context : ℕ
  pub timeout : ℕ
  pub handler : Option ℕ

-- `wpan_ep_state_t`.
pub record EpState : Type 0 where
  pub last_transaction : ℕ
  pub conversations : List Conversation

abbrev pub max_conversations : ℕ
max_conversations = 3

-- `wpan_envelope_t` of the one device. `length` is the length of the payload.
pub record Envelope : Type 0 where
  pub ieee_address : List ℕ
  pub network_address : ℕ
  pub profile_id : ℕ
  pub cluster_id : ℕ
  pub source_endpoint : ℕ
  pub dest_endpoint : ℕ
  pub options : ℕ
  pub payload : List ℕ

-- The record of zeros that `wpan_conversation_delete` leaves, which is not in use.
abbrev pub conversation_delete : Conversation
conversation_delete = record { transaction_id = 0; context = 0; timeout = 0; handler = none }

abbrev pub is_used : Conversation → Bool
is_used c = elim c.handler [ none ↦ false | some h ↦ true ]

-- `++state->last_transaction`.
abbrev pub next_trans : EpState → EpState
next_trans s = record s { last_transaction = u8 (s.last_transaction + 1) }

-- `wpan_endpoint_next_trans`, for an endpoint with or without a state.
unfoldable pub endpoint_next_trans : Option EpState → ℕ × Option EpState
endpoint_next_trans none = (0, none)
endpoint_next_trans (some s) = ((next_trans s).last_transaction, some (next_trans s))

-- The time at which a conversation ends; 0 means never.
unfoldable pub deadline : ℕ → ℕ → ℕ
deadline timeout seconds =
    let t = u16 (timeout + u16 seconds) in if timeout == 0 then 0 else if t == 0 then 1 else t

-- The first record that is not in use.
unfoldable pub find_unused : List Conversation → Option ℕ
find_unused [] = none
find_unused (c ∷ cs) = elim c.handler [
  | none ↦ some 0
  | some h ↦ elim (find_unused cs) [ none ↦ none | some i ↦ some (suc i) ]
]

-- A record of the table is taken.
abbrev pub with_conversation : EpState → ℕ → Conversation → EpState
with_conversation s i c = record s { conversations = set s.conversations i c }

unfoldable pub conversation_register : Option EpState → Option ℕ → ℕ → ℕ → ℕ → Ret × Option EpState
unfolding find_unused deadline
conversation_register none handler context timeout seconds = (fail einval, none)
conversation_register (some s) none context timeout seconds =
    (ret (next_trans s).last_transaction, some (next_trans s))
conversation_register (some s) (some handler) context timeout seconds =
    elim (find_unused s.conversations) [
      | none ↦ (fail enospc, some s)
      | some i ↦ (
        ret (next_trans s).last_transaction,
        some (
            with_conversation (next_trans s) i (record {
              transaction_id = (next_trans s).last_transaction;
              context = context;
              timeout = deadline timeout seconds;
              handler = some handler;
            })),
      )
    ]

-- Whether the time of a conversation has come: the difference of the times, as an `int16_t`, is
-- not negative.
unfoldable pub is_expired : ℕ → Conversation → Bool
is_expired now c =
    is_used c && not (c.timeout == 0) && ltb (u16 (now + 2 ^ 16 - c.timeout)) (2 ^ 15)

-- The states of all endpoints, and all else.
pub record Machine (World : Type 0) : Type 0 where
  pub states : List EpState
  pub world : World

abbrev pub no_state : EpState
no_state = record { last_transaction = 0; conversations = [] }

-- What a conversation's handler does with a response, or with none at a timeout: its number, the
-- place of the conversation, the envelope.
abbrev pub Handlers : Type 0 → Type 0
Handlers World = ℕ → ℕ → ℕ → Option Envelope → Machine World → Ret × Machine World

module _ {World : Type 0} where
  abbrev pub state_at : Machine World → ℕ → EpState
  state_at m p = get_or m.states p no_state

  abbrev pub conversation_at : Machine World → ℕ → ℕ → Conversation
  conversation_at m p i = get_or (state_at m p).conversations i conversation_delete

  -- `wpan_conversation_delete` of record `i`.
  unfoldable pub delete_at : ℕ → ℕ → Machine World → Machine World
  delete_at p i m = record m {
    states = set m.states p (with_conversation (state_at m p) i conversation_delete);
  }

  -- What a handler's result leads to.
  abbrev pub after_response : ℕ → ℕ → Ret × Machine World → Ret × Machine World
  after_response p i (ret n, m) = (ret 0, if n == 1 then delete_at p i m else m)
  after_response p i (fail e, m) = (fail e, m)

  module _ (call : Handlers World) where
    -- One turn of `_wpan_endpoint_expire_conversations`.
    unfoldable pub expire_at : ℕ → ℕ → ℕ → Machine World → Machine World
    unfolding delete_at is_expired
    expire_at now p i m =
        let c = conversation_at m p i in
        if is_expired now c
        then elim c.handler [ none ↦ m | some h ↦ delete_at p i (call h p i none m).1 ]
        else m

    -- The records from `i` on, `n` of them.
    unfoldable pub expire_from : ℕ → ℕ → ℕ → ℕ → Machine World → Machine World
    unfolding expire_at
    expire_from now p zero i m = m
    expire_from now p (suc n) i m = expire_from now p n (i + 1) (expire_at now p i m)

    unfoldable pub endpoint_expire_conversations :
        (World → ℕ) → Option ℕ → Machine World → Machine World
    unfolding expire_from
    endpoint_expire_conversations seconds none m = m
    endpoint_expire_conversations seconds (some p) m =
        expire_from (u16 (seconds m.world)) p max_conversations 0 m

    -- The search of `wpan_conversation_response` among the records from `i` on, `n` of them.
    unfoldable pub response_from : ℕ → ℕ → Envelope → ℕ → ℕ → Machine World → Ret × Machine World
    unfolding delete_at
    response_from p transaction_id envelope zero i m = (fail einval, m)
    response_from p transaction_id envelope (suc n) i m =
        let rest = response_from p transaction_id envelope n (i + 1) m in
        let c = conversation_at m p i in
        if c.transaction_id == transaction_id
        then elim c.handler [
          | none ↦ rest
          | some h ↦ after_response p i (call h p i (some envelope) m)
        ]
        else rest

    -- With the endpoint's state looked up already.
    unfoldable pub conversation_response :
        ℕ → ℕ → Option Envelope → Machine World → Ret × Machine World
    unfolding response_from
    conversation_response p transaction_id none m = (fail einval, m)
    conversation_response p transaction_id (some envelope) m =
        response_from p transaction_id envelope max_conversations 0 m
