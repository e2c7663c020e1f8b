-- ===== src/Aps/Expire.antt =====
-- wpan_aps.c: `_wpan_endpoint_expire_conversations` clears the conversations whose time has come.
use xbeepocs.Base.{
  ==_iff, Bool-cases, Option-cases, ap, arith, false, get_or, get_or-set_ne, get_or-set_self,
  if◌then◌else◌, inl, inr, length, length-set, none, refl, some, suc, sym, true, u16, zero, ℕ, ◌+◌,
  ◌<◌, ◌==◌, ◌∙◌, ◌≡◌, ◌≢◌, ◌≤◌,
}
use xbeepocs.Aps.Register.{clash}
use xbeepocs.Aps.{
  Conversation, Machine, Handlers, max_conversations, no_state, conversation_delete,
  with_conversation, state_at, conversation_at, is_expired, delete_at, expire_at, expire_from,
  endpoint_expire_conversations,
}

-- What is left of a record.
abbrev pub left_of : ℕ → Conversation → Conversation
left_of now c = if is_expired now c then conversation_delete else c

pub idle-lasts : (now : ℕ) (c : Conversation) → c.handler ≡ none → is_expired now c ≡ false
unfolding is_expired
idle-lasts now c idle = rw idle refl

module _ {World : Type 0} (call : Handlers World) (p : ℕ)
    (steady : (h i : ℕ) (m : Machine World) → (call h p i none m).1.states ≡ m.states) where
  -- The endpoint's state is known, and has all its records.
  pub record IsWhole (m : Machine World) : Type 0 where
    pub known : p < length m.states
    pub three : length (state_at m p).conversations ≡ max_conversations

  -- One record is as its time has left it, all else is as before.
  record IsTurned (now i : ℕ) (m m' : Machine World) : Type 0 where
    whole : IsWhole m'
    here : conversation_at m' p i ≡ left_of now (conversation_at m p i)
    others : (j : ℕ) → i ≢ j → conversation_at m' p j ≡ conversation_at m p j

  -- The record of a conversation that has ended is cleared after its handler was called.
  delete_at-IsTurned :
      (now i : ℕ) (m m' : Machine World)
      → IsWhole m
      → i < max_conversations
      → m'.states ≡ m.states
      → is_expired now (conversation_at m p i) ≡ true
      → IsTurned now i m (delete_at p i m')
  unfolding delete_at
  delete_at-IsTurned now i m m' whole lt same ends =
      let known' : p < length m'.states = rw same (whole.known) in
      let s : state_at m' p ≡ state_at m p = rw same refl in
      let three' : length (state_at m' p).conversations ≡ max_conversations = rw s (whole.three) in
      let cs = (state_at m' p).conversations in
      let now_is =
        get_or-set_self m'.states p (with_conversation (state_at m' p) i conversation_delete)
          no_state known' in
      record {
        whole = record {
          known = rw (length-set m'.states p _) known';
          three =
              ap (λ t. length t.conversations) now_is
              ∙ length-set cs i conversation_delete
              ∙ three';
        };
        here =
            ap (λ t. get_or t.conversations i conversation_delete) now_is
            ∙ get_or-set_self cs i conversation_delete conversation_delete (omega (arith, three'))
            ∙ sym (rw ends refl);
        others = λ j ne.
            ap (λ t. get_or t.conversations j conversation_delete) now_is
            ∙ get_or-set_ne cs i j conversation_delete conversation_delete ne
            ∙ ap (λ t. get_or t.conversations j conversation_delete) s;
      }

  expire_at-IsTurned :
      (now i : ℕ) (m : Machine World)
      → IsWhole m
      → i < max_conversations
      → IsTurned now i m (expire_at call now p i m)
  unfolding expire_at
  expire_at-IsTurned now i m whole lt =
      let c = conversation_at m p i in
      elim (Bool-cases (is_expired now c)) [
        | inr stays ↦
            rw (stays, expire_at)
              (record { whole = whole; here = rw stays refl; others = λ j ne. refl })
        | inl ends ↦ elim (Option-cases c.handler) [
          | inl idle ↦ absurd (clash _ ends (idle-lasts now c idle))
          | inr (h, busy) ↦
              rw (ends, busy, expire_at)
                (delete_at-IsTurned now i m (call h p i none m).1 whole lt (steady h i m) ends)
        ]
      ]

  pub expire_from-ends :
      (now n i : ℕ) (m : Machine World)
      → IsWhole m
      → i + n ≡ max_conversations
      → let m' = expire_from call now p n i m in
        IsWhole m'
        × ((j : ℕ)
            → i ≤ j
            → j < max_conversations
            → conversation_at m' p j ≡ left_of now (conversation_at m p j))
        × ((j : ℕ) → j < i → conversation_at m' p j ≡ conversation_at m p j)
  unfolding expire_from
  expire_from-ends now zero i m whole all = (whole, λ j le lt. absurd (omega arith), λ j lt. refl)
  expire_from-ends now (suc n) i m whole all =
      let turn = expire_at-IsTurned now i m whole (omega arith) in
      let rest =
        expire_from-ends now n (i + 1) (expire_at call now p i m) turn.whole (omega arith) in
      (
        rest.0,
        λ j le lt. elim (Bool-cases (i == j)) [
          | inl here ↦
              let eq : i ≡ j = (==_iff i j).0 here in
              rest.2 j (omega arith)
              ∙ ap (λ k. conversation_at (expire_at call now p i m) p k) (sym eq)
              ∙ turn.here
              ∙ ap (λ k. left_of now (conversation_at m p k)) eq
          | inr before ↦
              let ne : i ≢ j = λ eq. clash _ ((==_iff i j).1 eq) before in
              rest.1 j (omega arith) lt ∙ ap (left_of now) (turn.others j ne)
        ],
        λ j lt. rest.2 j (omega arith) ∙ turn.others j (omega arith),
      )

  -- Handlers that leave the endpoints' states alone at a timeout: every conversation of the
  -- endpoint whose time has come is cleared, whatever its handler answers, and every other one
  -- stays as it was. Without a state nothing happens.
  pub endpoint_expire_conversations_lem :
      (seconds : World → ℕ) (m : Machine World) (j : ℕ)
      → p < length m.states
      → length (state_at m p).conversations ≡ max_conversations
      → j < max_conversations
      → (conversation_at (endpoint_expire_conversations call seconds (some p) m) p j
          ≡ left_of (u16 (seconds m.world)) (conversation_at m p j))
        × (endpoint_expire_conversations call seconds none m ≡ m)
  unfolding endpoint_expire_conversations
  endpoint_expire_conversations_lem seconds m j known three lt =
      let whole : IsWhole m = record { known = known; three = three } in
      (
        (expire_from-ends (u16 (seconds m.world)) max_conversations 0 m whole refl).1 j
            (omega arith) lt,
        refl,
      )
