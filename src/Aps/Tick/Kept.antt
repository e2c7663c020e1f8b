-- ===== src/Aps/Tick/Kept.antt =====
-- wpan_aps.c: what the turn of one endpoint in `wpan_tick` leaves as it was.
use xbeepocs.Base.{
  ==_iff, Bool-cases, Option-cases, ap, arith, get_or, get_or-set_ne, inl, inr, length, length-set,
  none, refl, suc, sym, zero, ℕ, ◌+◌, ◌<◌, ◌==◌, ◌∙◌, ◌≡◌, ◌≢◌,
}
use xbeepocs.Aps.{
  Machine, Handlers, max_conversations, no_state, conversation_delete, with_conversation, state_at,
  conversation_at, is_expired, delete_at, expire_at, expire_from,
}
use xbeepocs.Aps.Register.{clash}
use xbeepocs.Aps.Expire.{left_of, expire_from-ends}

-- At a timeout a handler changes neither the states of endpoints nor the time.
pub record IsPassive {World : Type 0} (call : Handlers World) (seconds : World → ℕ) : Type 0 where
  pub states : (h p i : ℕ) (m : Machine World) → (call h p i none m).1.states ≡ m.states
  pub time : (h p i : ℕ) (m : Machine World) → seconds (call h p i none m).1.world ≡ seconds m.world

-- All states that there are have all their records.
abbrev pub AllWhole : {World : Type 0} → Machine World → Type 0
AllWhole m = (p : ℕ) → p < length m.states → length (state_at m p).conversations ≡ max_conversations

module _ {World : Type 0} (call : Handlers World) (seconds : World → ℕ)
    (passive : IsPassive call seconds) where
  -- What is the same before and after, with the endpoint at one place left out.
  pub record IsKept (q : ℕ) (m m' : Machine World) : Type 0 where
    pub others : (p : ℕ) → q ≢ p → state_at m' p ≡ state_at m p
    pub size : length m'.states ≡ length m.states
    pub time : seconds m'.world ≡ seconds m.world

  same-IsKept : (q : ℕ) (m : Machine World) → IsKept q m m
  same-IsKept q m = record { others = λ p ne. refl; size = refl; time = refl }

  delete_at-IsKept :
      (q h i : ℕ) (m : Machine World) → IsKept q m (delete_at q i (call h q i none m).1)
  unfolding delete_at
  delete_at-IsKept q h i m =
      let m' = (call h q i none m).1 in
      let new = with_conversation (state_at m' q) i conversation_delete in
      record {
        others = λ p ne.
            get_or-set_ne m'.states q p new no_state ne
            ∙ ap (λ ss. get_or ss p no_state) (passive.states h q i m);
        size = length-set m'.states q new ∙ ap length (passive.states h q i m);
        time = passive.time h q i m;
      }

  expire_at-IsKept : (now q i : ℕ) (m : Machine World) → IsKept q m (expire_at call now q i m)
  unfolding expire_at
  expire_at-IsKept now q i m =
      let c = conversation_at m q i in
      elim (Bool-cases (is_expired now c)) [
        | inr stays ↦ rw (stays, expire_at) (same-IsKept q m)
        | inl ends ↦ elim (Option-cases c.handler) [
          | inl idle ↦ rw (ends, idle, expire_at) (same-IsKept q m)
          | inr (h, busy) ↦ rw (ends, busy, expire_at) (delete_at-IsKept q h i m)
        ]
      ]

  expire_from-IsKept :
      (now q n i : ℕ) (m : Machine World) → IsKept q m (expire_from call now q n i m)
  unfolding expire_from
  expire_from-IsKept now q zero i m = same-IsKept q m
  expire_from-IsKept now q (suc n) i m =
      let first = expire_at-IsKept now q i m in
      let rest = expire_from-IsKept now q n (i + 1) (expire_at call now q i m) in
      record {
        others = λ p ne. rest.others p ne ∙ first.others p ne;
        size = rest.size ∙ first.size;
        time = rest.time ∙ first.time;
      }

  -- One endpoint's turn.
  pub record IsPassed (now q : ℕ) (m m' : Machine World) : Type 0 where
    pub kept : IsKept q m m'
    pub whole : AllWhole m'
    pub here :
        (j : ℕ)
        → j < max_conversations
        → conversation_at m' q j ≡ left_of now (conversation_at m q j)

  pub expire_from-IsPassed :
      (now q : ℕ) (m : Machine World)
      → AllWhole m
      → q < length m.states
      → IsPassed now q m (expire_from call now q max_conversations 0 m)
  expire_from-IsPassed now q m whole range =
      let kept = expire_from-IsKept now q max_conversations 0 m in
      let ends =
        expire_from-ends call q (λ h i m. passive.states h q i m) now max_conversations 0 m
          (record { known = range; three = whole q range }) refl in
      record {
        kept = kept;
        whole = λ p lt. elim (Bool-cases (q == p)) [
          | inl same ↦
              let eq : q ≡ p = (==_iff q p).0 same in
              ap
                (λ k.
                  length (state_at (expire_from call now q max_conversations 0 m) k).conversations)
                (sym eq)
              ∙ (ends.0).three
          | inr other ↦
              let ne : q ≢ p = λ eq. clash _ ((==_iff q p).1 eq) other in
              ap (λ t. length t.conversations) (kept.others p ne)
              ∙ whole p (omega (arith, lt, kept.size))
        ];
        here = λ j lt. ends.1 j (omega arith) lt;
      }
