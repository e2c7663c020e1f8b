-- ===== src/Aps/Register.antt =====
-- wpan_aps.c: registering a conversation, and the response that comes to it.
use xbeepocs.Base.{
  ==_iff, Bool, Bool-cases, List, Option, Option-cases, Ret, [], ap, arith, einval, enospc, fail,
  false, get_or, get_or-set_ne, get_or-set_self, inl, inr, length, none, refl, ret, set, some,
  subst, suc, sym, true, u8, zero, ℕ, ◌+◌, ◌<◌, ◌==◌, ◌∙◌, ◌∷◌, ◌≡◌, ◌≢◌, ◌≤◌, ◌⊎◌,
}
use xbeepocs.Aps.{
  Conversation, EpState, Envelope, Machine, Handlers, max_conversations, conversation_delete,
  next_trans, is_used, deadline, find_unused, with_conversation, conversation_register, delete_at,
  conversation_at, state_at, after_response, response_from, conversation_response,
}

-- The first record that is not in use, if there is one.
data Found (cs : List Conversation) : Type 0 where
  full :
      find_unused cs ≡ none
      → ((i : ℕ) → i < length cs → is_used (get_or cs i conversation_delete) ≡ true)
      → Found cs
  unused_at :
      (i : ℕ)
      → find_unused cs ≡ some i
      → i < length cs
      → (get_or cs i conversation_delete).handler ≡ none
      → Found cs

find_unused-Found : (cs : List Conversation) → Found cs
unfolding find_unused
find_unused-Found [] = full refl (λ i lt. absurd (omega arith))
find_unused-Found (c ∷ cs) = elim (Option-cases c.handler) [
  | inl idle ↦ unused_at 0 (rw idle refl) (omega arith) idle
  | inr (h, busy) ↦ elim (find_unused-Found cs) [
    | full none_free all ↦ full (rw (busy, none_free) refl) (go h busy all)
    | unused_at i found lt idle ↦ unused_at (suc i) (rw (busy, found) refl) (omega arith) idle
  ]
]
  where
    go :
        (h : ℕ)
        → c.handler ≡ some h
        → ((i : ℕ) → i < length cs → is_used (get_or cs i conversation_delete) ≡ true)
        → (i : ℕ) → i < length (c ∷ cs)
        → is_used (get_or (c ∷ cs) i conversation_delete) ≡ true
    go h busy all zero lt = rw busy refl
    go h busy all (suc i) lt = all i (omega arith)

pub clash : (b : Bool) → b ≡ true → b ≡ false → ⊥
clash true on off = cc
clash false on off = cc

-- The record that is registered.
abbrev pub registered : EpState → ℕ → ℕ → ℕ → ℕ → Conversation
registered s handler context timeout seconds = record {
  transaction_id = (next_trans s).last_transaction;
  context = context;
  timeout = deadline timeout seconds;
  handler = some handler;
}

register-full :
    (s : EpState) (handler context timeout seconds : ℕ)
    → find_unused s.conversations ≡ none
    → conversation_register (some s) (some handler) context timeout seconds ≡ (fail enospc, some s)
unfolding conversation_register
register-full s handler context timeout seconds e = rw (e, conversation_register) refl

register-free :
    (s : EpState) (handler context timeout seconds i : ℕ)
    → find_unused s.conversations ≡ some i
    → conversation_register (some s) (some handler) context timeout seconds ≡ (
      ret (u8 (s.last_transaction + 1)),
      some (with_conversation (next_trans s) i (registered s handler context timeout seconds)),
    )
unfolding conversation_register
register-free s handler context timeout seconds i e = rw (e, conversation_register) refl

-- With a handler, `wpan_conversation_register` on a table that has no record free is -ENOSPC and
-- changes nothing. On any other it returns the next transaction ID, counts it, and puts handler,
-- context and deadline, under this ID, into a record that was free; the other records stay.
-- Without a handler it only counts, and without a state it is -EINVAL.
pub conversation_register_lem :
    (s : EpState) (handler context timeout seconds : ℕ)
    → let id = u8 (s.last_transaction + 1) in
      let result = conversation_register (some s) (some handler) context timeout seconds in
      (((i : ℕ)
          → i < length s.conversations
          → is_used (get_or s.conversations i conversation_delete) ≡ true)
        → result ≡ (fail enospc, some s))
      × ((k : ℕ)
          → k < length s.conversations
          → is_used (get_or s.conversations k conversation_delete) ≡ false
          → (i : ℕ) × (s' : EpState) × (result ≡ (ret id, some s'))
            × (is_used (get_or s.conversations i conversation_delete) ≡ false)
            × (get_or s'.conversations i conversation_delete
                ≡ registered s handler context timeout seconds)
            × ((j : ℕ)
                → i ≢ j
                → get_or s'.conversations j conversation_delete
                  ≡ get_or s.conversations j conversation_delete)
            × (s'.last_transaction ≡ id))
      × (conversation_register (some s) none context timeout seconds
          ≡ (ret id, some (record s { last_transaction = id })))
      × (conversation_register none (some handler) context timeout seconds ≡ (fail einval, none))
unfolding conversation_register
conversation_register_lem s handler context timeout seconds =
    elim (find_unused-Found s.conversations) [
      | full none_free all ↦ (
        λ used. register-full s handler context timeout seconds none_free,
        λ k lt idle. absurd (clash _ (all k lt) idle),
        refl,
        refl,
      )
      | unused_at i found lt idle ↦
          let unused =
            λ (j : ℕ) (e : (get_or s.conversations j conversation_delete).handler ≡ none).
              ap (λ h. elim h as (λ o. Bool) [ none ↦ false | some n ↦ true ]) e in
          let new = registered s handler context timeout seconds in
          (
            λ used. absurd (clash _ (used i lt) (unused i idle)),
            λ k lt' idle'. (
              i,
              with_conversation (next_trans s) i new,
              register-free s handler context timeout seconds i found,
              unused i idle,
              get_or-set_self s.conversations i new conversation_delete lt,
              λ j ne. get_or-set_ne s.conversations i j new conversation_delete ne,
              refl,
            ),
            refl,
            refl,
          )
    ]

abbrev state_or : EpState → Ret × Option EpState → EpState
state_or s r = elim r.1 [ none ↦ s | some t ↦ t ]

abbrev ret_number : Ret × Option EpState → ℕ
ret_number r = elim r.0 [ ret n ↦ n | fail e ↦ 0 ]

module _ {World : Type 0} (call : Handlers World) where
  -- The search finds the first record that has the ID and is in use.
  response_from-found :
      (p id : ℕ) (envelope : Envelope) (n j i h : ℕ) (m : Machine World)
      → j ≤ i
      → i < j + n
      → (conversation_at m p i).transaction_id ≡ id
      → (conversation_at m p i).handler ≡ some h
      → ((k : ℕ)
          → k < i
          → (conversation_at m p k).transaction_id ≡ id
          → (conversation_at m p k).handler ≡ none)
      → response_from call p id envelope n j m ≡ after_response p i (call h p i (some envelope) m)
  unfolding response_from
  response_from-found p id envelope zero j i h m le lt same has_h others = absurd (omega arith)
  response_from-found p id envelope (suc n) j i h m le lt same has_h others =
      elim (Bool-cases (j == i)) [
        | inl here ↦
            let eq : j ≡ i = (==_iff j i).0 here in
            let test : ((conversation_at m p j).transaction_id == id) ≡ true =
              (==_iff _ id).1 (ap (λ k. (conversation_at m p k).transaction_id) eq ∙ same) in
            let busy : (conversation_at m p j).handler ≡ some h =
              ap (λ k. (conversation_at m p k).handler) eq ∙ has_h in
            rw (test, busy, response_from)
              (ap (λ k. after_response p k (call h p k (some envelope) m)) eq)
        | inr before ↦
            let go_on =
              response_from-found p id envelope n (j + 1) i h m (ground (arith, before))
                (omega arith) same has_h others in
            elim (Bool-cases ((conversation_at m p j).transaction_id == id)) [
              | inl alike ↦
                  let idle = others j (ground (arith, before)) ((==_iff _ id).0 alike) in
                  rw (alike, idle, response_from) go_on
              | inr other ↦ rw (other, response_from) go_on
            ]
      ]

  -- The machine in which a record of an endpoint is all zeros.
  abbrev pub erased : ℕ → ℕ → Machine World → Machine World
  erased p i m = record m {
    states = set m.states p (record (state_at m p) {
      conversations =
          set (state_at m p).conversations i
            (record { transaction_id = 0; context = 0; timeout = 0; handler = none });
    });
  }

  -- A conversation handler ends its conversation by 1, and goes on with it by any other number
  -- that is not negative; an error is the caller's too.
  abbrev pub IsAnswered : ℕ → ℕ → Ret × Machine World → Ret × Machine World → Type 0
  IsAnswered p i (fail e, m) result = result ≡ (fail e, m)
  IsAnswered p i (ret n, m) result =
      ((n ≡ 1) × (result ≡ (ret 0, erased p i m))) ⊎ ((n ≢ 1) × (result ≡ (ret 0, m)))

  after_response-IsAnswered :
      (p i : ℕ) (called : Ret × Machine World) → IsAnswered p i called (after_response p i called)
  unfolding delete_at
  after_response-IsAnswered p i (ret n, m) = elim (Bool-cases (n == 1)) [
    | inl one ↦ inl ((==_iff n 1).0 one, rw one refl)
    | inr other ↦ inr (ground (arith, other), rw other refl)
  ]
  after_response-IsAnswered p i (fail e, m) = refl

  -- A response with the transaction ID that `wpan_conversation_register` has returned goes to the
  -- handler that was registered, at the record that holds its context, as long as the record that
  -- came into use then is as it was, and no two conversations in use have that ID; all else of the
  -- endpoint may have changed. When the handler returns 1 the record is cleared after the call,
  -- with any other number that is not negative it stays as the call left it, and 0 is returned;
  -- an error of the handler is returned, and its record stays.
  pub conversation_response-register :
      (p handler context timeout seconds id : ℕ) (envelope : Envelope) (s s' : EpState)
      (m : Machine World)
      → length s.conversations ≡ max_conversations
      → conversation_register (some s) (some handler) context timeout seconds ≡ (ret id, some s')
      → ((j : ℕ)
          → is_used (get_or s.conversations j conversation_delete) ≡ false
          → is_used (get_or s'.conversations j conversation_delete) ≡ true
          → conversation_at m p j ≡ get_or s'.conversations j conversation_delete)
      → ((j k : ℕ)
          → is_used (conversation_at m p j) ≡ true
          → is_used (conversation_at m p k) ≡ true
          → (conversation_at m p j).transaction_id ≡ id
          → (conversation_at m p k).transaction_id ≡ id
          → j ≡ k)
      → (i : ℕ) × (conversation_at m p i ≡ registered s handler context timeout seconds)
        × IsAnswered p i
            (call handler p i (some envelope) m)
            (conversation_response call p id (some envelope) m)
  unfolding conversation_response
  conversation_response-register p handler context timeout seconds id envelope s s' m three done
        kept unique =
      elim (find_unused-Found s.conversations) [
        | full none_free all ↦ cc (register-full s handler context timeout seconds none_free)
        | unused_at i found lt idle ↦
            let new = registered s handler context timeout seconds in
            let both = sym done ∙ register-free s handler context timeout seconds i found in
            let now = ap (state_or s) both in
            let number : id ≡ new.transaction_id = ap ret_number both in
            let is_new : get_or s'.conversations i conversation_delete ≡ new =
              ap (λ t. get_or t.conversations i conversation_delete) now
              ∙ get_or-set_self s.conversations i new conversation_delete lt in
            let at_i : conversation_at m p i ≡ new =
              kept i (rw (idle, is_used) refl) (ap is_used is_new) ∙ is_new in
            let here : (conversation_at m p i).transaction_id ≡ id =
              ap (λ c. c.transaction_id) at_i ∙ sym number in
            let others =
              λ (k : ℕ) (before : k < i) (same : (conversation_at m p k).transaction_id ≡ id).
                elim (Option-cases (conversation_at m p k).handler)
                  as (λ x. (conversation_at m p k).handler ≡ none) [
                    | inl unused ↦ unused
                    | inr (h, busy) ↦
                        let eq = unique k i (rw (busy, is_used) refl) (ap is_used at_i) same here in
                        absurd (omega (arith, before, eq))
                  ] in
            (
              i,
              at_i,
              subst (IsAnswered p i (call handler p i (some envelope) m))
                  (sym (
                    response_from-found p id envelope max_conversations 0 i handler m (omega arith)
                      (omega (arith, three)) here (ap (λ c. c.handler) at_i) others))
                  (after_response-IsAnswered p i (call handler p i (some envelope) m)),
            )
      ]
