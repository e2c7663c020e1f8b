-- ===== src/Aps/Deadlines.antt =====
-- wpan_aps.c: when a conversation times out.
use xbeepocs.Base.{
  ==_iff, Bool-cases, arith, false, inl, inr, ltb, lt→ltb, refl, some, subst, sym, true, u16, ℕ,
  ◌+◌, ◌-◌, ◌<◌, ◌==◌, ◌^◌, ◌∙◌, ◌≡◌, ◌≤◌, ◌⊎◌,
}
use xbeepocs.Aps.{Conversation, deadline, is_expired}

-- The time that is kept: never 0 where there is a limit.
deadline-cases :
    (limit seconds : ℕ)
    → 0 < limit
    → ((deadline limit seconds ≡ 1) × (u16 (limit + u16 seconds) ≡ 0))
      ⊎ ((deadline limit seconds ≡ u16 (limit + u16 seconds)) × (0 < u16 (limit + u16 seconds)))
unfolding deadline
deadline-cases limit seconds some_limit =
    let test : (limit == 0) ≡ false = ground arith in
    elim (Bool-cases (u16 (limit + u16 seconds) == 0)) [
      | inl zero_time ↦
          inl (rw (test, zero_time) refl, (==_iff (u16 (limit + u16 seconds)) 0).0 zero_time)
      | inr time ↦ inr (rw (test, time) refl, ground (arith, time))
    ]

abbrev since : ℕ → ℕ → ℕ
since now timeout = u16 (now + 2 ^ 16 - timeout)

-- Where the time that is kept lies, seen from a time that is not long after.
record AreTimes (limit seconds elapsed timeout : ℕ) : Type 0 where
  some_time : 0 < timeout
  not_yet : limit < 2 ^ 15 → elapsed < limit → 2 ^ 15 ≤ since (u16 (seconds + elapsed)) timeout
  past : limit < elapsed → elapsed < 2 ^ 15 → since (u16 (seconds + elapsed)) timeout < 2 ^ 15
  at_once : 2 ^ 15 < limit → since (u16 seconds) timeout < 2 ^ 15

deadline-AreTimes :
    (limit seconds elapsed : ℕ)
    → 0 < limit
    → limit < 2 ^ 16
    → AreTimes limit seconds elapsed (deadline limit seconds)
deadline-AreTimes limit seconds elapsed some_limit small =
    elim (deadline-cases limit seconds some_limit) [
      | inl (one, wrapped) ↦ rw one (record {
        some_time = omega arith;
        not_yet = λ short early. omega arith;
        past = λ late soon. omega arith;
        at_once = λ long. omega arith;
      })
      | inr (time, some_time) ↦ rw time (record {
        some_time = some_time;
        not_yet = λ short early. omega arith;
        past = λ late soon. omega arith;
        at_once = λ long. omega arith;
      })
    ]

expires :
    (c : Conversation) (h now : ℕ)
    → c.handler ≡ some h
    → 0 < c.timeout
    → is_expired now c ≡ ltb (since now c.timeout) (2 ^ 15)
unfolding is_expired
expires c h now used some_time =
    let test : (c.timeout == 0) ≡ false = ground arith in rw (used, test) refl

-- A conversation that is registered at a time with a limit of 1 to 32767 seconds has not expired
-- before that many seconds are past; it has from one second later on, until 32767 seconds are
-- past. With a limit of more than 32768 seconds it has expired at once, and with 0 it never does.
pub is_expired-deadline :
    (c : Conversation) (h limit seconds elapsed : ℕ)
    → c.handler ≡ some h
    → limit < 2 ^ 16
    → c.timeout ≡ deadline limit seconds
    → (0 < limit
        → limit < 2 ^ 15
        → elapsed < limit
        → is_expired (u16 (seconds + elapsed)) c ≡ false)
      × (0 < limit
          → limit < elapsed
          → elapsed < 2 ^ 15
          → is_expired (u16 (seconds + elapsed)) c ≡ true)
      × (2 ^ 15 < limit → is_expired (u16 seconds) c ≡ true)
      × (limit ≡ 0 → is_expired (u16 (seconds + elapsed)) c ≡ false)
unfolding deadline is_expired
is_expired-deadline c h limit seconds elapsed used small kept =
    let times = λ (some_limit : 0 < limit).
      subst (AreTimes limit seconds elapsed) (sym kept)
        (deadline-AreTimes limit seconds elapsed some_limit small) in
    (
      λ some_limit short early.
          let t = times some_limit in
          let not_yet = t.not_yet short early in
          expires c h (u16 (seconds + elapsed)) used t.some_time ∙ ground (arith, not_yet),
      λ some_limit late soon.
          let t = times some_limit in
          expires c h (u16 (seconds + elapsed)) used t.some_time ∙ lt→ltb _ _ (t.past late soon),
      λ long.
          let t = times (omega arith) in
          expires c h (u16 seconds) used t.some_time ∙ lt→ltb _ _ (t.at_once long),
      λ none_given. let never : c.timeout ≡ 0 = kept ∙ rw none_given refl in rw (used, never) refl,
    )
